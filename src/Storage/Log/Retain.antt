-- ===== src/Storage/Log/Retain.antt =====
-- internal/storage/log.go: what the log does in the background and at its end, the retention, the
-- flush by time, and Close. Removing the files of a segment is taken to succeed; a segment always
-- has a time of creation.
pub mod Suffix
use mini_kafka.Prelude.{
  ℕ, zero, suc, ◌+◌, ◌-◌, ◌*◌, ◌^◌, Bool, true, false, not, ◌&&◌, ◌||◌, List, [], ◌∷◌, ◌++◌, map,
  ltb, leb, ◌==◌, length, if◌then◌else◌,
}
use mini_kafka.Prelude.Int.{pos, pos_part, leb_ℤ, ltb_ℤ}
use mini_kafka.Storage.Config.{Config}
use mini_kafka.Storage.Segment.{Segment}
use mini_kafka.Storage.Segment.Open
use mini_kafka.Storage.Log.{Log, segments}

-- A sealed segment has outlived the retention window.
pub outlived : Config → ℕ → Segment → Bool
outlived c now s =
    ltb_ℤ (pos 0) c.retention_ms && leb (pos_part c.retention_ms * 10 ^ 6) (now - s.created_at)

-- The loop over the sealed segments; the active one is always kept.
pub keep_young : Config → ℕ → List Segment → List Segment
unfolding outlived
keep_young c now [] = []
keep_young c now (s ∷ ss) =
    let rest = keep_young c now ss in if outlived c now s then rest else s ∷ rest

-- totalSizeLocked
pub total_size : List Segment → ℕ
total_size [] = 0
total_size (s ∷ ss) = Open.size s + total_size ss

-- The loop that removes the oldest segment while the total is above the limit.
pub shrink : ℕ → ℕ → List Segment → List Segment
shrink limit total [] = []
shrink limit total (s ∷ ss) =
    let rest = shrink limit (total - Open.size s) ss in if ltb limit total then rest else s ∷ ss

-- The retention by bytes.
pub retain_bytes : Log → Log
unfolding total_size shrink
retain_bytes l =
    if ltb_ℤ (pos 0) l.config.retention_bytes
    then record l {
      sealed = shrink (pos_part l.config.retention_bytes) (total_size (segments l)) l.sealed;
    }
    else l

-- runRetention
pub run_retention : Log → ℕ → Log
unfolding keep_young retain_bytes
run_retention l now =
    if l.closed || length l.sealed == 0
    then l
    else retain_bytes (record l { sealed = keep_young l.config now l.sealed })

-- runFlush
pub run_flush : Log → ℕ → Log
run_flush l now =
    if l.closed
    then l
    else if leb_ℤ l.config.flush_ms (pos 0)
    then l
    else if ltb (now - l.last_flush) (pos_part l.config.flush_ms * 10 ^ 6)
    then l
    else record l { active = (Open.flush l.active).0; messages_since_flush = 0; last_flush = now }

-- Close: every segment is closed; a second call does nothing.
pub close : Log → Log
close l =
    if l.closed
    then l
    else record l { closed = true; sealed = map Open.close l.sealed; active = Open.close l.active }
