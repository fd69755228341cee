-- ===== src/Storage/Segment/Open.antt =====
-- internal/storage/segment.go: opening and closing a segment. What the directory holds for it, the
-- bytes of the log file and the slots of the index file, are arguments, and so is the time that
-- CreatedAt gets: the file's modification time, or the present for an empty file.
pub mod Fresh
use mini_kafka.Prelude.{ℕ, true, false, List, length, if◌then◌else◌}
use mini_kafka.Prelude.Int.{pos_part}
use mini_kafka.Protocol.Stream.{Bytes}
use mini_kafka.Storage.Config.{Config, with_defaults}
use mini_kafka.Storage.Index.{Entry, Index, IndexError, Opened, opened, refused, new_index}
use mini_kafka.Storage.Index
use mini_kafka.Storage.Segment.{Segment, Reply, done, failed, index_failed, segment_closed}

pub opened_segment : Config → ℕ → Bytes → ℕ → Opened → Reply Segment
opened_segment c base file created_at (refused e) = failed (index_failed e)
opened_segment c base file created_at (opened i) = done (record {
  base_offset = base;
  next_offset = base;
  written = file;
  flushed = length file;
  index = i;
  max_bytes = pos_part c.segment_bytes;
  index_interval = pos_part c.index_interval_bytes;
  bytes_written = length file;
  bytes_since_last_index = 0;
  closed = false;
  created_at = created_at;
})

-- NewSegment; the defaults make the sizes positive.
pub new_segment : Config → ℕ → Bytes → List Entry → ℕ → Reply Segment
unfolding opened_segment
new_segment cfg base file index_file created_at =
    let c = with_defaults cfg in
    opened_segment c base file created_at (new_index index_file (pos_part c.index_max_bytes))

-- SetNextOffset
pub set_next_offset : Segment → ℕ → Segment
set_next_offset s offset = record s { next_offset = offset }

-- Size
abbrev pub size : Segment → ℕ
size s = s.bytes_written

-- Close
pub close : Segment → Segment
close s =
    if s.closed
    then s
    else record s { closed = true; flushed = length s.written; index = Index.close s.index }

-- Flush: the file is synced too, so it has all the bytes.
unfoldable pub flush : Segment → Segment × Reply (Unit {0})
flush s =
    if s.closed
    then (s, failed segment_closed)
    else (record s { flushed = length s.written }, done tt)
