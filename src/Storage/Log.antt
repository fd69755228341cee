-- ===== src/Storage/Log.antt =====
-- internal/storage/log.go: the log of a partition. `sealed` are all segments but the last, from the
-- oldest on, and `active` is the last; of a closed log, whose slice the code empties, nothing is
-- read any more. The present time, in nanoseconds, is an argument. The calls to the operating
-- system are taken to succeed, the directory to hold no file yet for the base offset of a new
-- segment, and records not to be nil.
pub mod Contents
pub mod Rotate
pub mod Append
pub mod Batch
pub mod Chain
pub mod Read
pub mod Retain
pub mod ReadFrom
pub mod Open
use mini_kafka.Prelude.{
  ℕ, zero, suc, ◌+◌, ◌-◌, ◌*◌, ◌^◌, Bool, true, false, Option, none, some, List, [], ◌∷◌, ◌++◌,
  ◌&&◌, ◌||◌, ltb, leb, length, get_elem?, if◌then◌else◌,
}
use mini_kafka.Prelude.Int.{ℤ, pos, pos_part, leb_ℤ, ltb_ℤ}
use mini_kafka.Storage.Config.{Config}
use mini_kafka.Storage.Record.{Record}
use mini_kafka.Storage.Index.{Index, IndexError, seal}
use mini_kafka.Storage.Search.{sort_search}
use mini_kafka.Storage.Segment.{
  Segment, SegmentError, offset_out_of_range, Reply, done, failed, flush_writer, is_full,
}
use mini_kafka.Storage.Segment
use mini_kafka.Storage.Segment.Open.{new_segment, flush}

pub record Log : Type 0 where
  pub config : Config
  pub sealed : List Segment
  pub active : Segment
  pub active_created_at : ℕ
  pub messages_since_flush : ℕ
  pub last_flush : ℕ
  pub closed : Bool

pub data LogError : Type 0 where
  log_closed empty_batch : LogError
  segment_failed : SegmentError → LogError
  seal_failed : IndexError → LogError

pub data LogReply {ℓ} (A : Type ℓ) : Type ℓ where
  returned : A → LogReply A
  log_failed : LogError → LogReply A

abbrev pub segments : Log → List Segment
segments l = l.sealed ++ l.active ∷ []

-- The time limit on the active segment, which must hold a record.
unfoldable pub too_old : Log → ℕ → Bool
too_old l now =
    ltb_ℤ (pos 0) l.config.segment_ms
    && (ltb l.active.base_offset l.active.next_offset
        && leb (pos_part l.config.segment_ms * 10 ^ 6) (now - l.active_created_at))

-- shouldRotateLocked
unfoldable pub should_rotate : Log → ℕ → Bool
unfolding too_old
should_rotate l now = is_full l.active || too_old l now

-- rotateLocked behind the flush and the sealing of the outgoing segment: the new one takes over.
pub take_over : Log → Segment → ℕ → Reply Segment → Log × LogReply (Unit {0})
take_over l old now (failed e) = (record l { active = old }, log_failed (segment_failed e))
take_over l old now (done seg) = (
  record l {
    sealed = l.sealed ++ old ∷ [];
    active = seg;
    active_created_at = now;
    messages_since_flush = 0;
  },
  returned tt,
)

after_seal : Log → Segment → ℕ → Option IndexError × Index → Log × LogReply (Unit {0})
unfolding take_over
after_seal l old now (some e, i) =
    (record l { active = record old { index = i } }, log_failed (seal_failed e))
after_seal l old now (none, i) =
    take_over l (record old { index = i }) now (new_segment l.config old.next_offset [] [] now)

after_flush : Log → ℕ → Segment × Reply (Unit {0}) → Log × LogReply (Unit {0})
unfolding after_seal
after_flush l now (old, failed e) = (record l { active = old }, log_failed (segment_failed e))
after_flush l now (old, done u) = after_seal l old now (seal old.index)

-- rotateLocked: the outgoing segment is flushed and its index sealed.
pub rotate : Log → ℕ → Log × LogReply (Unit {0})
unfolding after_flush
rotate l now = after_flush l now (flush l.active)

-- maybeRotateLocked
unfoldable pub maybe_rotate : Log → ℕ → Log × LogReply (Unit {0})
maybe_rotate l now = if should_rotate l now then rotate l now else (l, returned tt)

-- The flush after every FlushMessages records.
pub counted : Log → Log
counted l =
    let k = l.messages_since_flush + 1 in
    if ltb_ℤ (pos 0) l.config.flush_messages
    then (if leb (pos_part l.config.flush_messages) k
        then record l { active = (flush l.active).0; messages_since_flush = 0 }
        else record l { messages_since_flush = k })
    else l

pub appended : Log → Segment × Reply ℕ → Log × LogReply ℕ
unfolding counted
appended l (s, failed e) = (record l { active = s }, log_failed (segment_failed e))
appended l (s, done offset) = (counted (record l { active = s }), returned offset)

pub append_rotated : Record → Log × LogReply (Unit {0}) → Log × LogReply ℕ
unfolding appended
append_rotated rec (l, log_failed e) = (l, log_failed e)
append_rotated rec (l, returned u) = appended l (Segment.append l.active rec)

-- Append
pub append : Log → ℕ → Record → Log × LogReply ℕ
unfolding append_rotated
append l now rec =
    if l.closed then (l, log_failed log_closed) else append_rotated rec (maybe_rotate l now)

-- One record of AppendBatch: the loop goes on, or returns the base that it was to return with the
-- error.
pub batch_step :
    ℕ → (ℕ → Log × (ℕ × Option LogError)) → Log × LogReply ℕ → Log × (ℕ × Option LogError)
batch_step base further (l, log_failed e) = (l, (base, some e))
batch_step base further (l, returned offset) = further offset

-- AppendBatch behind the first record: it returns the first offset, with an error or without.
pub batch_rest : Log → ℕ → ℕ → List Record → Log × (ℕ × Option LogError)
unfolding append_rotated batch_step
batch_rest l now base [] = (l, (base, none))
batch_rest l now base (rec ∷ recs) =
    let out = append_rotated rec (maybe_rotate l now) in
    let further = batch_rest out.0 now base recs in batch_step base (λ offset. further) out

-- AppendBatch
pub append_batch : Log → ℕ → List Record → Log × (ℕ × Option LogError)
unfolding append_rotated batch_rest
append_batch l now [] = (l, (0, some (if l.closed then log_closed else empty_batch)))
append_batch l now (rec ∷ recs) =
    if l.closed
    then (l, (0, some log_closed))
    else let out = append_rotated rec (maybe_rotate l now) in
      batch_step 0 (λ offset. batch_rest out.0 now offset recs) out

abbrev pub base_at : List Segment → ℕ → ℕ
base_at ss i = elim (get_elem? ss i) [ none ↦ 0 | some s ↦ s.base_offset ]

-- LowestOffset and HighestOffset
unfoldable pub lowest_offset : Log → ℕ
lowest_offset l = if l.closed then 0 else base_at (segments l) 0

unfoldable pub highest_offset : Log → ℕ
highest_offset l = if l.closed then 0 else l.active.next_offset

-- NumSegments
unfoldable pub num_segments : Log → ℕ
num_segments l = if l.closed then 0 else length (segments l)

-- findSegmentLocked: one more than the segment's number, 0 if there is none.
pub find_segment : Log → ℕ → ℕ
find_segment l offset = sort_search (length (segments l)) (λ i. ltb offset (base_at (segments l) i))

abbrev pub out_of_range : {A : Type 0} → LogReply A
out_of_range = log_failed (segment_failed offset_out_of_range)

abbrev pub reply : {A : Type 0} → Reply A → LogReply A
reply (done a) = returned a
reply (failed e) = log_failed (segment_failed e)

pub read_flushed : Log → ℕ → Segment × Reply (Unit {0}) → Log × LogReply Record
read_flushed l offset (s, failed e) = (record l { active = s }, log_failed (segment_failed e))
read_flushed l offset (s, done u) = (record l { active = s }, reply (Segment.read s (pos offset)))

-- The active segment is flushed first, to be seen by the reader.
pub read_segment : Log → ℕ → ℕ → Log × LogReply Record
unfolding read_flushed
read_segment l i offset = elim (get_elem? l.sealed i) [
  | none ↦ read_flushed l offset (flush_writer l.active)
  | some s ↦ (l, reply (Segment.read s (pos offset)))
]

pub read_found : Log → ℕ → ℕ → Log × LogReply Record
unfolding read_segment
read_found l offset zero = (l, out_of_range)
read_found l offset (suc i) = read_segment l i offset

-- Read. No offset is negative, so a negative one lies below the first base.
pub read : Log → ℤ → Log × LogReply Record
unfolding read_found find_segment
read l offset =
    if l.closed
    then (l, log_failed log_closed)
    else if ltb_ℤ offset (pos (base_at (segments l) 0))
    then (l, out_of_range)
    else read_found l (pos_part offset) (find_segment l (pos_part offset))
