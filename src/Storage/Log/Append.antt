-- ===== src/Storage/Log/Append.antt =====
-- internal/storage/log.go: an append against the list of records.
use mini_kafka.Prelude.{
  ℕ, ◌+◌, ◌≤◌, ◌<◌, ◌≡◌, refl, sym, ap, ◌∙◌, Bool-cases, inl, inr, List, [], ◌∷◌, ◌++◌, length,
  length-append, leb, arith,
}
use mini_kafka.Prelude.Int.{pos, pos_part, ltb_ℤ}
use mathlib.Core.Path.{subst}
use mathlib.Core.List.{append_assoc}
use mini_kafka.Storage.Record.{Record}
use mini_kafka.Storage.Record.RoundTrip.{IsRecord}
use mini_kafka.Storage.Config.{Config}
use mini_kafka.Storage.Segment.{Segment, Reply, done, max_uint32}
use mini_kafka.Storage.Segment
use mini_kafka.Storage.Segment.Contents.{Holds}
use mini_kafka.Storage.Segment.Append.{Appended, append-Appended, stamped}
use mini_kafka.Storage.Segment.Open.{flush}
use mini_kafka.Storage.Log.{
  Log, LogReply, returned, append, append_rotated, appended, counted, maybe_rotate,
}
use mini_kafka.Storage.Log.Contents.{IsActive, LogHolds}
use mini_kafka.Storage.Log.Rotate.{Rotated, maybe_rotate-Rotated, flush-open}

-- The record as the log stores it.
abbrev pub at_offset : ℕ → Record → Record
at_offset offset rec = record rec { offset = pos offset }

pub next-LogHolds :
    (l : Log) (lowest : ℕ) (rs : List Record)
    → LogHolds l lowest rs
    → l.active.next_offset ≡ lowest + length rs
next-LogHolds l lowest rs h =
    omega (arith, h.active.holds.next, h.base, ap length h.all, length-append h.old h.recent)

pub flushed-IsActive :
    (c : Config) (s : Segment) (rs : List Record)
    → IsActive c s rs
    → IsActive c (record s { flushed = length s.written }) rs
flushed-IsActive c s rs a = record {
  slots = a.slots;
  count = a.count;
  holds = record {
    is_open = a.holds.is_open;
    bytes = a.holds.bytes;
    size = a.holds.size;
    next = a.holds.next;
    run = a.holds.run;
    bounded = a.holds.bounded;
    index = a.holds.index;
    indexed = a.holds.indexed;
    placed = a.holds.placed;
    covered = a.holds.covered;
  };
  capacity = a.capacity;
  limit = a.limit;
  file = a.file;
}

-- The same log with its active segment flushed and another count.
pub with_flush-LogHolds :
    (l : Log) (lowest : ℕ) (rs : List Record) (k : ℕ)
    → LogHolds l lowest rs
    → LogHolds (record l { active = (flush l.active).0; messages_since_flush = k }) lowest rs
with_flush-LogHolds l lowest rs k h = simp (flush-open l.active h.active.holds.is_open) (record {
  is_open = h.is_open;
  usable = h.usable;
  old = h.old;
  recent = h.recent;
  all = h.all;
  chain = h.chain;
  synced = h.synced;
  base = h.base;
  active = flushed-IsActive l.config l.active h.recent h.active;
})

counted-LogHolds :
    (l : Log) (lowest : ℕ) (rs : List Record)
    → LogHolds l lowest rs
    → LogHolds (counted l) lowest rs
unfolding counted
counted-LogHolds l lowest rs h = elim (Bool-cases (ltb_ℤ (pos 0) l.config.flush_messages)) [
  | inl limited ↦
      rw limited
        (elim (Bool-cases (leb (pos_part l.config.flush_messages) (l.messages_since_flush + 1))) [
          | inl due ↦ rw due (with_flush-LogHolds l lowest rs 0 h)
          | inr not_due ↦ rw not_due (record {
            is_open = h.is_open;
            usable = h.usable;
            old = h.old;
            recent = h.recent;
            all = h.all;
            chain = h.chain;
            synced = h.synced;
            base = h.base;
            active = h.active;
          })
        ])
  | inr unlimited ↦ rw unlimited h
]

-- What an append does to a log that holds `rs`.
pub record Logged (lowest : ℕ) (rs : List Record) (rec : Record) (out : Log × LogReply ℕ)
    : Type 0 where
  pub replied : out.1 ≡ returned (lowest + length rs)
  pub holds : LogHolds out.0 lowest (rs ++ at_offset (lowest + length rs) rec ∷ [])

module _ (l : Log) (lowest : ℕ) (rs : List Record) (rec : Record)
    (v : IsRecord (at_offset (lowest + length rs) rec)) (h : LogHolds l lowest rs) where
  appended-Logged :
      (out : Segment × Reply ℕ)
      → out.1 ≡ done (lowest + length rs)
      → LogHolds
          (record l { active = out.0 })
          lowest
          (rs ++ at_offset (lowest + length rs) rec ∷ [])
      → Logged lowest rs rec (appended l out)
  unfolding appended
  appended-Logged (s, done o) e k = record { replied = cc; holds = counted-LogHolds _ lowest _ k }
  appended-Logged (s, Reply.failed x) e k = cc

  next_lem : l.active.next_offset ≡ lowest + length rs
  next_lem = next-LogHolds l lowest rs h

  stamped_v : IsRecord (stamped l.active rec)
  stamped_v = subst (λ o. IsRecord (at_offset o rec)) (sym next_lem) v

  -- With room in the active segment.
  append_roomy :
      l.active.bytes_written ≤ max_uint32
      → h.active.count < length h.active.slots
      → Logged lowest rs rec (appended l (Segment.append l.active rec))
  append_roomy room slot_room =
      appended-Logged (Segment.append l.active rec) (a.replied ∙ ap done next_lem) (record {
        is_open = h.is_open;
        usable = h.usable;
        old = h.old;
        recent = h.recent ++ at_offset (lowest + length rs) rec ∷ [];
        all = rw (h.all, append_assoc) refl;
        chain = h.chain;
        synced = h.synced;
        base = a.base ∙ h.base;
        active = record {
          slots = a.slots;
          count = a.count;
          holds =
              subst
                (λ o.
                  Holds (Segment.append l.active rec).0 (h.recent ++ at_offset o rec ∷ []) a.slots
                    a.count)
                next_lem a.holds;
          capacity = omega (arith, a.capacity, h.active.capacity);
          limit = a.limit ∙ h.active.limit;
          file = a.file ∙ h.active.file;
        };
      })
    where
      a :
          Appended l.active h.recent h.active.slots h.active.count h.active.holds rec stamped_v room
            (Segment.append l.active rec)
      a =
          append-Appended l.active h.recent h.active.slots h.active.count h.active.holds rec
            stamped_v room slot_room

pub append_rotated-Logged :
    (l : Log) (lowest : ℕ) (rs : List Record) (rec : Record) (out : Log × LogReply (Unit {0}))
    → IsRecord (at_offset (lowest + length rs) rec)
    → Rotated l lowest rs out
    → Logged lowest rs rec (append_rotated rec out)
unfolding append_rotated
append_rotated-Logged l lowest rs rec (l', returned u) v r =
    append_roomy l' lowest rs rec v r.holds r.room r.slot_room
append_rotated-Logged l lowest rs rec (l', LogReply.log_failed e) v r = let x = r.replied in cc

-- On an open log that holds the records rs from the offset lowest on, with a configuration that
-- allows an index entry and positions of 32 bits, an append of a record that is well formed once
-- stamped replies, at any time, with the offset lowest + length rs, and the log then holds rs and
-- the new record, stamped with that offset: also where the append rotates the active segment
-- because it is full or old, seals its index and opens the next one, and where it flushes by count.
pub append-Logged :
    (l : Log) (now lowest : ℕ) (rs : List Record) (rec : Record)
    → LogHolds l lowest rs
    → IsRecord (at_offset (lowest + length rs) rec)
    → Logged lowest rs rec (append l now rec)
unfolding append
append-Logged l now lowest rs rec h v = simp h.is_open (
    append_rotated-Logged l lowest rs rec (maybe_rotate l now) v
      (maybe_rotate-Rotated l now lowest rs h))
