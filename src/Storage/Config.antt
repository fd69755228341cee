-- ===== src/Storage/Config.antt =====
-- internal/storage/segment.go: the configuration of a log and its segments.
use mini_kafka.Prelude.{◌*◌, if◌then◌else◌}
use mini_kafka.Prelude.Int.{ℤ, pos, negsuc, leb_ℤ, ltb_ℤ, ◌==ℤ◌}

pub record Config : Type 0 where
  pub segment_bytes : ℤ
  pub index_max_bytes : ℤ
  pub index_interval_bytes : ℤ
  pub retention_ms : ℤ
  pub retention_bytes : ℤ
  pub flush_ms : ℤ
  pub flush_messages : ℤ
  pub segment_ms : ℤ

abbrev week_ms : ℤ
week_ms = pos (7 * 24 * 60 * 60 * 1000)

-- withDefaults
unfoldable pub with_defaults : Config → Config
with_defaults c = record {
  segment_bytes =
      if leb_ℤ c.segment_bytes (pos 0) then pos (128 * 1024 * 1024) else c.segment_bytes;
  index_max_bytes =
      if leb_ℤ c.index_max_bytes (pos 0) then pos (10 * 1024 * 1024) else c.index_max_bytes;
  index_interval_bytes =
      if leb_ℤ c.index_interval_bytes (pos 0) then pos 4096 else c.index_interval_bytes;
  retention_ms = if c.retention_ms ==ℤ pos 0 then week_ms else c.retention_ms;
  retention_bytes = if c.retention_bytes ==ℤ pos 0 then negsuc 0 else c.retention_bytes;
  flush_ms = if c.flush_ms ==ℤ pos 0 then pos 1000 else c.flush_ms;
  flush_messages = if ltb_ℤ c.flush_messages (pos 0) then pos 0 else c.flush_messages;
  segment_ms = if c.segment_ms ==ℤ pos 0 then week_ms else c.segment_ms;
}
