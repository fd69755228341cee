-- ===== src/Storage/Rebuild/Scan.antt =====
-- The whole scan of a file: the records up to the first that is torn, or reaches the stop offset,
-- are appended again.
use mini_kafka.Prelude.{
  ℕ, zero, suc, ◌+◌, ◌*◌, ◌^◌, ◌≤◌, ◌<◌, ◌≡◌, refl, sym, ap, ◌∙◌, false, ◌&&◌, List, [], ◌∷◌, ◌++◌,
  length, length-append, if◌then◌else◌, arith,
}
use mini_kafka.Prelude.Int.{ℤ, pos, pos_part, leb_ℤ}
use mathlib.Core.Path.{subst}
use mathlib.Core.List.{append-nil, append_assoc}
use mini_kafka.Protocol.Stream.{Bytes}
use mini_kafka.Storage.Record.{Record, image, encoded_size, decode_record}
use mini_kafka.Storage.Record.RoundTrip.{IsRecord, decode_record-image}
use mini_kafka.Storage.Index.{Entry, entry_size}
use mini_kafka.Storage.Segment.{Segment, Reply, done, append, is_full, max_uint32}
use mini_kafka.Storage.Segment.Contents.{Holds, IsRun, log_bytes}
use mini_kafka.Storage.Segment.Append.{Appended, append-Appended}
use mini_kafka.Storage.Rebuild.{recount, rescan_rest, rescan_step, rescan}
use mini_kafka.Storage.Rebuild.Again.{on_file, recount-append, same, v'}

abbrev pub append_all : Segment → List Record → Segment
append_all a [] = a
append_all a (r ∷ rs) = append_all (append a r).0 rs

-- The records are appended to a segment that is not full yet, as the log does it.
abbrev pub AllFit : Segment → List Record → Type 0
AllFit a [] = Unit {0}
AllFit a (r ∷ rs) = (is_full a ≡ false) × AllFit (append a r).0 rs

-- A record of the offset is below the stop offset, if there is one.
abbrev pub Passes : ℤ → ℕ → Type 0
Passes stop offset = (leb_ℤ (pos 0) stop && leb_ℤ stop (pos offset)) ≡ false

-- The scan ends at these bytes.
abbrev pub Ends : ℤ → Bytes → Type 0
Ends stop tail =
    (s : Segment) (further : Bytes → Segment → Segment × Reply (Unit {0}))
    → rescan_step stop s further (decode_record tail) ≡ (s, done tt)

-- A segment that is not full has room for a record and for an entry.
roomy :
    (a : Segment) (rs : List Record) (m : List Entry) (n : ℕ)
    → Holds a rs m n
    → a.max_bytes ≤ 2 ^ 32
    → is_full a ≡ false
    → (a.bytes_written ≤ max_uint32) × (n < length m)
unfolding is_full
roomy a rs m n h limit e =
    let size : a.index.size ≡ n * entry_size = h.index.size in
    let max_size : a.index.max_size ≡ length m * entry_size = h.index.max_size in ground arith

pub record Rescanned (a : Segment) (ys xs : List Record) (bytes : Bytes) (flushed : ℕ)
    (out : Segment × Reply (Unit {0})) : Type 0 where
  pub scanned : out ≡ (on_file bytes flushed (append_all a xs), done tt)
  pub slots : List Entry
  pub count : ℕ
  pub holds : Holds (append_all a xs) (ys ++ xs) slots count
  pub base : (append_all a xs).base_offset ≡ a.base_offset

-- One record of the scan: it is appended again.
record Grew (a : Segment) (ys : List Record) (x : Record) (bytes : Bytes) (flushed : ℕ)
    : Type 0 where
  counted :
      recount (on_file bytes flushed a) a.next_offset (encoded_size x)
      ≡ (on_file bytes flushed (append a x).0, done tt)
  slots : List Entry
  count : ℕ
  holds : Holds (append a x).0 (ys ++ x ∷ []) slots count
  base : (append a x).0.base_offset ≡ a.base_offset
  limit : (append a x).0.max_bytes ≡ a.max_bytes
  next : (append a x).0.next_offset ≡ suc a.next_offset

append-Grew :
    (a : Segment) (ys : List Record) (m : List Entry) (n : ℕ) (x : Record) (bytes : Bytes)
    (flushed : ℕ)
    → Holds a ys m n
    → IsRecord x
    → x.offset ≡ pos a.next_offset
    → is_full a ≡ false
    → a.max_bytes ≤ 2 ^ 32
    → a.next_offset < 2 ^ 63
    → Grew a ys x bytes flushed
append-Grew a ys m n x bytes flushed h v e not_full limit small = record {
  counted =
      recount-append a ys m n h x v e room.0 bytes flushed a.next_offset small
        (omega (arith, h.next)) done_one.replied;
  slots = done_one.slots;
  count = done_one.count;
  holds = held;
  base = done_one.base;
  limit = done_one.limit;
  next = omega (arith, held.next, done_one.base, h.next, length-append ys (x ∷ []));
}
  where
    room : (a.bytes_written ≤ max_uint32) × (n < length m)
    room = roomy a ys m n h limit not_full

    done_one : Appended a ys m n h x (v' a ys m n h x v e room.0 bytes flushed) room.0 (append a x)
    done_one = append-Appended a ys m n h x _ room.0 room.1

    held : Holds (append a x).0 (ys ++ x ∷ []) done_one.slots done_one.count
    held =
        subst (λ y. Holds (append a x).0 (ys ++ y ∷ []) done_one.slots done_one.count)
          (same a ys m n h x v e room.0 bytes flushed) done_one.holds

-- A record that passes is taken, and the scan goes on behind it.
rescan-image :
    (fuel offset : ℕ) (stop : ℤ) (x : Record) (left : Bytes) (s s' : Segment)
    → IsRecord x
    → x.offset ≡ pos offset
    → Passes stop offset
    → recount s offset (encoded_size x) ≡ (s', done tt)
    → rescan (suc fuel) stop (image x ++ left) s ≡ rescan fuel stop left s'
unfolding rescan rescan_step rescan_rest
rescan-image fuel offset stop x left s s' v e passes c =
    ap (rescan_step stop s (λ l t. rescan fuel stop l t)) (decode_record-image x left v)
    ∙ ap
        (λ z.
          if leb_ℤ (pos 0) stop && leb_ℤ stop z
          then (s, done tt)
          else rescan_rest (rescan fuel stop left) (recount s (pos_part z) (encoded_size x)))
        e
    ∙ ap
        (λ b.
          if b
          then (s, done tt)
          else rescan_rest (rescan fuel stop left) (recount s offset (encoded_size x)))
        passes
    ∙ ap (rescan_rest (rescan fuel stop left)) c

module _ (stop : ℤ) (bytes tail : Bytes) (flushed : ℕ) (ends : Ends stop tail) where
  pub rescan-Rescanned :
      (xs : List Record) (fuel : ℕ) (a : Segment) (ys : List Record) (m : List Entry) (n : ℕ)
      → Holds a ys m n
      → IsRun a.next_offset xs
      → AllFit a xs
      → a.max_bytes ≤ 2 ^ 32
      → a.next_offset + length xs < 2 ^ 63
      → ((k : ℕ) → k < a.next_offset + length xs → Passes stop k)
      → length xs < fuel
      → Rescanned a ys xs bytes flushed
          (rescan fuel stop (log_bytes xs ++ tail) (on_file bytes flushed a))
  unfolding rescan rescan_step rescan_rest
  rescan-Rescanned xs zero a ys m n h run fit limit small below f = absurd (omega arith)
  rescan-Rescanned [] (suc fuel) a ys m n h run fit limit small below f = record {
    scanned = ends (on_file bytes flushed a) (rescan fuel stop);
    slots = m;
    count = n;
    holds = rw append-nil h;
    base = refl;
  }
  rescan-Rescanned (x ∷ xs) (suc fuel) a ys m n h (v, e, run) (not_full, fit) limit small below f =
      let g = append-Grew a ys m n x bytes flushed h v e not_full limit (omega arith) in
      let next = g.next in
      let rest =
        rescan-Rescanned xs fuel (append a x).0 (ys ++ x ∷ []) g.slots g.count g.holds
          (subst (λ o. IsRun o xs) (sym next) run) fit (omega (arith, g.limit))
          (omega (arith, next)) (λ k lt. below k (omega (arith, next))) (omega arith) in
      record {
        scanned =
            ap (λ file. rescan (suc fuel) stop file (on_file bytes flushed a))
              (append_assoc (image x) (log_bytes xs) tail)
            ∙ rescan-image fuel a.next_offset stop x (log_bytes xs ++ tail)
                (on_file bytes flushed a) (on_file bytes flushed (append a x).0) v e
                (below a.next_offset (omega arith)) g.counted
            ∙ rest.scanned;
        slots = rest.slots;
        count = rest.count;
        holds =
            subst (λ zs. Holds (append_all a (x ∷ xs)) zs rest.slots rest.count)
              (append_assoc ys (x ∷ []) xs) rest.holds;
        base = rest.base ∙ g.base;
      }
