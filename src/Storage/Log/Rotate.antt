-- ===== src/Storage/Log/Rotate.antt =====
-- rotateLocked of internal/storage/log.go: the outgoing segment and the fresh one.
use mini_kafka.Prelude.{
  ℕ, zero, suc, ◌+◌, ◌*◌, ◌≤◌, ◌<◌, ◌≡◌, ◌≢◌, Option, refl, sym, ap, ◌∙◌, Bool-cases, inl, inr,
  true, false, none, some, List, [], ◌∷◌, ◌++◌, length, length-append, take, arith,
}
use mathlib.Core.List.{append-nil}
use mini_kafka.Storage.Record.{Record}
use mini_kafka.Storage.Index.{Entry, Index, IndexError, entry_size, seal}
use mini_kafka.Storage.Index.Sealed.{seal-IsValid, slot-take}
use mini_kafka.Storage.Segment.{Segment, done, is_full, max_uint32}
use mini_kafka.Storage.Segment.Contents.{Holds, log_bytes}
use mini_kafka.Storage.Segment.Open.{new_segment, flush}
use mini_kafka.Storage.Segment.Open.Fresh.{Fresh, new_segment-Fresh}
use mini_kafka.Storage.Log.{
  Log, LogReply, returned, should_rotate, too_old, take_over, after_seal, after_flush, rotate,
  maybe_rotate,
}
use mini_kafka.Storage.Log.Contents.{Stored, IsActive, LogHolds, IsChain-snoc, All-snoc}

no_bytes : (rs : List Record) → length rs ≡ 0 → length (log_bytes rs) ≡ 0
no_bytes [] e = refl
no_bytes (r ∷ rs) e = absurd (omega arith)

no_entries :
    (s : Segment) (rs : List Record) (m : List Entry) (n : ℕ)
    → Holds s rs m n
    → length rs ≡ 0
    → n ≡ 0
no_entries s rs m zero h e = refl
no_entries s rs m (suc n) h e = absurd (omega (arith, h.indexed 0 (omega arith)))

-- A segment that is to be rotated holds a record.
not_empty :
    (l : Log) (now lowest : ℕ) (rs : List Record) (h : LogHolds l lowest rs)
    → should_rotate l now ≡ true
    → length h.recent ≢ 0
unfolding should_rotate too_old is_full
not_empty l now lowest rs h e none_there =
    let a = h.active in
    let bytes : l.active.bytes_written ≡ 0 =
      a.holds.size ∙ ap length a.holds.bytes ∙ no_bytes h.recent none_there in
    let count : a.count ≡ 0 = no_entries l.active h.recent a.slots a.count a.holds none_there in
    let size : l.active.index.size ≡ a.count * entry_size = a.holds.index.size in
    let max_size : l.active.index.max_size ≡ length a.slots * entry_size = a.holds.index.max_size in
    let next : l.active.next_offset ≡ l.active.base_offset + length h.recent = a.holds.next in
    let open' : l.active.closed ≡ false = a.holds.is_open in
    let limit = a.limit in
    let some_bytes = h.usable.some_bytes in let capacity = a.capacity in ground arith

-- The outgoing segment, flushed and with its index sealed, holds what it held.
sealed-Stored :
    (s : Segment) (rs : List Record) (m : List Entry) (n : ℕ)
    → Holds s rs m n
    → s.index.is_open ≡ true
    → 0 < n
    → Stored (record s { flushed = length s.written; index = (seal s.index).1 }) rs
sealed-Stored s rs m n h o pos_n = (
  take n m,
  n,
  record {
    is_open = h.is_open;
    bytes = h.bytes;
    size = h.size;
    next = h.next;
    run = h.run;
    bounded = h.bounded;
    index = (seal-IsValid s.index m n h.index o pos_n).1;
    indexed = λ k lt. rw (slot-take n k m lt) (h.indexed k lt);
    placed = λ k lt. rw (slot-take n k m lt) (h.placed k lt);
    covered = λ _. pos_n;
  },
)

-- The log behind a rotation.
rotated : Log → ℕ → Segment → Log
rotated l now s = record l {
  sealed =
      l.sealed
      ++ record l.active { flushed = length l.active.written; index = (seal l.active.index).1 }
        ∷ [];
  active = s;
  active_created_at = now;
  messages_since_flush = 0;
}

after_seal-none :
    (l : Log) (old : Segment) (now : ℕ) (p : Option IndexError × Index)
    → p.0 ≡ none
    → after_seal l old now p
      ≡ take_over l
          (record old { index = p.1 })
          now
          (new_segment l.config old.next_offset [] [] now)
unfolding after_seal
after_seal-none l old now (none, i) e = refl
after_seal-none l old now (some x, i) e = cc

pub flush-open :
    (s : Segment) → s.closed ≡ false → flush s ≡ (record s { flushed = length s.written }, done tt)
unfolding flush
flush-open s o = simp o refl

rotate_lem :
    (l : Log) (now : ℕ) (s : Segment)
    → l.active.closed ≡ false
    → (seal l.active.index).0 ≡ none
    → new_segment l.config l.active.next_offset [] [] now ≡ done s
    → rotate l now ≡ (rotated l now s, returned tt)
unfolding rotate after_flush after_seal take_over flush rotated
rotate_lem l now s o e made =
    ap (after_flush l now) (flush-open l.active o)
    ∙ after_seal-none l (record l.active { flushed = length l.active.written }) now
        (seal l.active.index) e
    ∙ ap
        (take_over l
          (record l.active { flushed = length l.active.written; index = (seal l.active.index).1 })
          now)
        made

-- A log that is to be rotated is rotated without an error, holds the same records, and has a fresh
-- active segment.
pub record Rotated (l : Log) (lowest : ℕ) (rs : List Record) (out : Log × LogReply (Unit {0}))
    : Type 0 where
  pub replied : out.1 ≡ returned tt
  pub holds : LogHolds out.0 lowest rs
  pub next : out.0.active.next_offset ≡ l.active.next_offset
  pub config : out.0.config ≡ l.config
  pub room : out.0.active.bytes_written ≤ max_uint32
  pub slot_room : holds.active.count < length holds.active.slots

pub rotate-Rotated :
    (l : Log) (now lowest : ℕ) (rs : List Record)
    → LogHolds l lowest rs
    → should_rotate l now ≡ true
    → Rotated l lowest rs (rotate l now)
rotate-Rotated l now lowest rs h e =
    rw
      (rotate_lem l now f.segment a.holds.is_open
        (seal-IsValid l.active.index a.slots a.count a.holds.index a.file entry).0 f.made)
      (unfold rotated in
        record {
          replied = refl;
          holds = record {
            is_open = h.is_open;
            usable = h.usable;
            old = h.old ++ h.recent;
            recent = [];
            all = h.all ∙ sym (append-nil _);
            chain =
                IsChain-snoc lowest l.sealed h.old h.recent _ h.chain h.base
                  (sealed-Stored l.active h.recent a.slots a.count a.holds a.file entry);
            synced = All-snoc _ l.sealed _ h.synced refl;
            base =
                f.base_offset ∙ omega (arith, a.holds.next, h.base, length-append h.old h.recent);
            active = record {
              slots = f.slots;
              count = 0;
              holds = f.holds;
              capacity = f.capacity;
              limit = f.limit;
              file = f.file;
            };
          };
          next = omega (arith, f.holds.next, f.base_offset);
          config = refl;
          room = omega (arith, f.holds.size, ap length f.holds.bytes);
          slot_room = f.capacity;
        })
  where
    a : IsActive l.config l.active h.recent
    a = h.active

    entry : 0 < a.count
    entry = a.holds.covered (let n = not_empty l now lowest rs h e in ground arith)

    f : Fresh l.config l.active.next_offset (new_segment l.config l.active.next_offset [] [] now)
    f = new_segment-Fresh l.config l.active.next_offset now h.usable.index_room

-- A log that need not be rotated has room in its active segment.
roomy :
    (l : Log) (now lowest : ℕ) (rs : List Record) (h : LogHolds l lowest rs)
    → should_rotate l now ≡ false
    → (l.active.bytes_written ≤ max_uint32) × (h.active.count < length h.active.slots)
unfolding should_rotate is_full
roomy l now lowest rs h e =
    let a = h.active in
    let size : l.active.index.size ≡ a.count * entry_size = a.holds.index.size in
    let max_size : l.active.index.max_size ≡ length a.slots * entry_size = a.holds.index.max_size in
    let limit = a.limit in let positions = h.usable.positions in ground arith

pub maybe_rotate-Rotated :
    (l : Log) (now lowest : ℕ) (rs : List Record)
    → LogHolds l lowest rs
    → Rotated l lowest rs (maybe_rotate l now)
unfolding maybe_rotate
maybe_rotate-Rotated l now lowest rs h = elim (Bool-cases (should_rotate l now)) [
  | inl yes_rotate ↦ rw yes_rotate (rotate-Rotated l now lowest rs h yes_rotate)
  | inr no_rotate ↦ rw no_rotate (record {
    replied = refl;
    holds = h;
    next = refl;
    config = refl;
    room = (roomy l now lowest rs h no_rotate).0;
    slot_room = (roomy l now lowest rs h no_rotate).1;
  })
]
