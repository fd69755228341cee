-- ===== src/Storage/Segment/Contents.antt =====
-- What a segment holds: the list of its records, against the bytes and the index.
use mini_kafka.Prelude.{
  ℕ, zero, suc, ◌+◌, ◌*◌, ◌≤◌, ◌<◌, ◌≡◌, refl, ap, ◌∙◌, List, [], ◌∷◌, ◌++◌, length, length-append,
  take, drop, drop-drop, false, arith,
}
use mini_kafka.Prelude.Int.{pos}
use mathlib.Core.Path.{subst}
use mathlib.Core.List.{append_assoc}
use mini_kafka.Protocol.Stream.{Bytes}
use mini_kafka.Storage.Record.{Record, image, max_record_size}
use mini_kafka.Storage.Record.RoundTrip.{IsRecord, length-image, le-encoded_size}
use mini_kafka.Storage.Index.{Entry, slot}
use mini_kafka.Storage.Index.Invariant.{IsValid}
use mini_kafka.Storage.Segment.{Segment, max_uint32}

-- The records' encodings, one behind the other.
abbrev pub log_bytes : List Record → Bytes
log_bytes [] = []
log_bytes (r ∷ rs) = image r ++ log_bytes rs

-- The records are well formed and carry the offsets from `offset` on, without a gap.
abbrev pub IsRun : ℕ → List Record → Type 0
IsRun offset [] = Unit {0}
IsRun offset (r ∷ rs) = IsRecord r × (r.offset ≡ pos offset) × IsRun (suc offset) rs

-- Where the record number `k` begins.
abbrev pub start_of : List Record → ℕ → ℕ
start_of rs k = length (log_bytes (take k rs))

-- The segment holds just the records `rs`: in its bytes, its counters and, for the indexed ones,
-- in its index, whose mapped slots are `m` with `n` of them in use; one at least, unless there is no
-- record.
pub record Holds (s : Segment) (rs : List Record) (m : List Entry) (n : ℕ) : Type 0 where
  pub is_open : s.closed ≡ false
  pub bytes : s.written ≡ log_bytes rs
  pub size : s.bytes_written ≡ length s.written
  pub next : s.next_offset ≡ s.base_offset + length rs
  pub run : IsRun s.base_offset rs
  pub bounded : s.bytes_written ≤ max_uint32 + max_record_size
  pub index : IsValid s.index m n
  pub indexed : (k : ℕ) → k < n → (slot m k).relative_offset < length rs
  pub placed : (k : ℕ) → k < n → (slot m k).position ≡ start_of rs (slot m k).relative_offset
  pub covered : 0 < length rs → 0 < n

pub log_bytes-append : (xs ys : List Record) → log_bytes (xs ++ ys) ≡ log_bytes xs ++ log_bytes ys
log_bytes-append [] ys = refl
log_bytes-append (x ∷ xs) ys = rw (log_bytes-append xs ys, append_assoc)

pub IsRun-append :
    (offset : ℕ) (rs : List Record) (r : Record)
    → IsRun offset rs
    → IsRecord r
    → r.offset ≡ pos (offset + length rs)
    → IsRun offset (rs ++ r ∷ [])
IsRun-append offset [] r h v e = (v, e ∙ ap pos (omega arith), tt)
IsRun-append offset (x ∷ xs) r (vx, ex, h) v e =
    (vx, ex, IsRun-append (suc offset) xs r h v (e ∙ ap pos (omega arith)))

-- Each record takes 33 bytes at least.
pub length-log_bytes : (rs : List Record) → 33 * length rs ≤ length (log_bytes rs)
length-log_bytes [] = omega arith
length-log_bytes (r ∷ rs) = omega (
  arith,
  length-append (image r) (log_bytes rs),
  length-image r,
  le-encoded_size r,
  length-log_bytes rs,
)

-- The bytes from the start of record `k` on are those of the records from there on.
pub drop-start_of :
    (rs : List Record) (k : ℕ) → drop (start_of rs k) (log_bytes rs) ≡ log_bytes (drop k rs)
drop-start_of rs zero = refl
drop-start_of [] (suc k) = refl
drop-start_of (r ∷ rs) (suc k) =
    rw
      (
        length-append (image r) (log_bytes (take k rs)),
        drop-drop (image r) (log_bytes rs) (start_of rs k),
      )
      (drop-start_of rs k)

pub take-append_small :
    (xs ys : List Record) (k : ℕ) → k ≤ length xs → take k (xs ++ ys) ≡ take k xs
take-append_small xs ys zero h = refl
take-append_small [] ys (suc k) h = absurd (omega arith)
take-append_small (x ∷ xs) ys (suc k) h = ap (λ t. x ∷ t) (take-append_small xs ys k (omega arith))

pub IsRun-drop :
    (offset k : ℕ) (rs : List Record) → IsRun offset rs → IsRun (offset + k) (drop k rs)
IsRun-drop offset zero rs h = subst (λ o. IsRun o rs) (omega arith) h
IsRun-drop offset (suc k) [] h = tt
IsRun-drop offset (suc k) (r ∷ rs) (v, e, h) =
    subst (λ o. IsRun o (drop k rs)) (omega arith) (IsRun-drop (suc offset) k rs h)
