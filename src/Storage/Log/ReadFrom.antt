-- ===== src/Storage/Log/ReadFrom.antt =====
-- internal/storage/log.go: ReadFrom, over the segments from an offset on. What is given are the
-- records that were found, with the error that ended the reading.
pub mod Next
pub mod Only
use mini_kafka.Prelude.{
  ℕ, ◌+◌, ◌^◌, Bool, true, false, Option, none, some, List, [], ◌∷◌, ◌++◌, ltb, leb, if◌then◌else◌,
}
use mini_kafka.Prelude.Int.{ℤ, pos, pos_part, ltb_ℤ, leb_ℤ, wrap, add_wrapped, ◌-ℤ◌}
use mini_kafka.Storage.Record.{Record, encoded_size}
use mini_kafka.Storage.Segment.{
  Segment, Reply, done, failed, decode_failed, offset_out_of_range, flush_writer,
}
use mini_kafka.Storage.Segment.ReadFrom.{Batch, complete, broken}
use mini_kafka.Storage.Segment.ReadFrom
use mini_kafka.Storage.Log.{Log, LogError, log_closed, segment_failed, segments, base_at}

abbrev pub Found : Type 0
Found = List Record × Option LogError

-- The int32 sum of the sizes.
pub add_sizes : ℤ → List Record → ℤ
add_sizes sum [] = sum
add_sizes sum (r ∷ rs) = add_sizes (add_wrapped (2 ^ 31) sum (encoded_size r)) rs

-- Behind the reading of a segment: the loop ends, or goes on from the segment's next offset.
pub behind :
    ℕ
    → ℤ
    → ℤ
    → List Record
    → Segment
    → (ℤ → List Record → Segment × Found)
    → Segment
    → Reply Batch
    → Segment × Found
unfolding add_sizes
behind offset max_bytes sum out active further s (failed e) =
    (active, (out, some (segment_failed e)))
behind offset max_bytes sum out active further s (done (broken rs e)) =
    (active, (out, some (segment_failed (decode_failed e))))
behind offset max_bytes sum out active further s (done (complete rs)) =
    let rest = further (add_sizes sum rs) (out ++ rs) in
    if leb_ℤ max_bytes (add_sizes sum rs)
    then (active, (out ++ rs, none))
    else if leb s.next_offset offset
    then (active, (out ++ rs, none))
    else rest

-- The budget that is left, an int32.
pub remaining : ℤ → ℤ → ℤ
remaining max_bytes sum = wrap (2 ^ 31) (max_bytes -ℤ sum)

-- The last segment, which is flushed first.
pub walk_active : ℕ → ℤ → ℤ → List Record → Segment × Reply (Unit {0}) → Segment × Found
unfolding behind remaining
walk_active offset max_bytes sum out (s, failed e) = (s, (out, some (segment_failed e)))
walk_active offset max_bytes sum out (s, done u) =
    behind offset max_bytes sum out s (λ sum' out'. (s, (out', none))) s
      (ReadFrom.read_from s (pos offset) (remaining max_bytes sum))

-- The base offset of the segment behind.
abbrev next_base : List Segment → Segment → ℕ
next_base [] active = active.base_offset
next_base (s ∷ ss) active = s.base_offset

-- The loop over the sealed segments and then the active one.
pub walk : List Segment → Segment → ℤ → ℕ → ℤ → List Record → Segment × Found
unfolding walk_active behind remaining
walk [] active max_bytes offset sum out =
    if ltb offset active.base_offset
    then (active, (out, none))
    else walk_active offset max_bytes sum out (flush_writer active)
walk (s ∷ ss) active max_bytes offset sum out =
    let skipped = walk ss active max_bytes offset sum out in
    if leb (next_base ss active) offset
    then skipped
    else if ltb offset s.base_offset
    then (active, (out, none))
    else behind offset max_bytes sum out active
        (λ sum' out'. walk ss active max_bytes s.next_offset sum' out') s
        (ReadFrom.read_from s (pos offset) (remaining max_bytes sum))

abbrev with_active : Log → Segment × Found → Log × Found
with_active l (active, found) = (record l { active = active }, found)

-- ReadFrom. No offset is negative, so a negative one lies below the first base.
pub read_from : Log → ℤ → ℤ → Log × Found
unfolding walk
read_from l offset max_bytes =
    if l.closed
    then (l, ([], some log_closed))
    else if leb_ℤ max_bytes (pos 0)
    then (l, ([], none))
    else if ltb_ℤ offset (pos (base_at (segments l) 0))
    then (l, ([], some (segment_failed offset_out_of_range)))
    else with_active l (walk l.sealed l.active max_bytes (pos_part offset) (pos 0) [])
