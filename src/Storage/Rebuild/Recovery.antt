-- ===== src/Storage/Rebuild/Recovery.antt =====
-- What the recovery of a segment leaves.
use mini_kafka.Prelude.{
  ℕ, suc, ◌+◌, ◌^◌, ◌≤◌, ◌<◌, ◌≡◌, refl, sym, ap, ◌∙◌, true, false, ◌&&◌, List, [], ◌++◌, length,
  length-append, take, take-append, if◌then◌else◌, arith,
}
use mini_kafka.Prelude.Int.{ℤ, pos, leb_ℤ}
use mathlib.Core.Path.{subst}
use mini_kafka.Protocol.Stream.{Bytes, Result, err}
use mini_kafka.Storage.Record.{Record, image, decode_record}
use mini_kafka.Storage.Record.RoundTrip.{IsRecord, decode_record-image}
use mini_kafka.Storage.Record.Torn.{Fails, decode_record-torn}
use mini_kafka.Storage.Index.{Entry, Index, opened, new_index, entry_size}
use mini_kafka.Storage.Index.Fresh.{FreshIndex, new_index-Fresh}
use mini_kafka.Storage.Index.Invariant.{IsValid}
use mini_kafka.Storage.Segment.{Segment, Reply, done, failed, segment_closed}
use mini_kafka.Storage.Segment.Contents.{Holds, IsRun, log_bytes, length-log_bytes}
use mini_kafka.Storage.Rebuild.{rescan, rescan_step, cut, with_index, rebuild_segment}
use mini_kafka.Storage.Rebuild.Again.{on_file}
use mini_kafka.Storage.Rebuild.Scan.{append_all, AllFit, Passes, Ends, Rescanned, rescan-Rescanned}

-- What stands behind the records that are kept: a record of which the end is missing, something
-- else that is not decoded, or a record that reaches the stop offset.
pub data IsTail (stop : ℤ) : Bytes → Type 0 where
  torn : (r : Record) (k : ℕ) → IsRecord r → k < length (image r) → IsTail stop (take k (image r))
  refused : (tail : Bytes) → Fails (decode_record tail) → IsTail stop tail
  reached :
      (r : Record) (rest : Bytes)
      → IsRecord r
      → (leb_ℤ (pos 0) stop && leb_ℤ stop r.offset) ≡ true
      → IsTail stop (image r ++ rest)

Fails-Ends : (stop : ℤ) (tail : Bytes) → Fails (decode_record tail) → Ends stop tail
unfolding rescan_step
Fails-Ends stop tail f s further = stops (decode_record tail) f.is
  where
    stops :
        (out : Result (Record × ℕ) × Bytes)
        → out.0 ≡ err f.error
        → rescan_step stop s further out ≡ (s, done tt)
    stops (Result.ok p, left) e = cc
    stops (Result.err x, left) e = refl

IsTail-Ends : (stop : ℤ) (tail : Bytes) → IsTail stop tail → Ends stop tail
unfolding rescan_step
IsTail-Ends stop _ (torn r k v lt) =
    Fails-Ends stop (take k (image r)) (decode_record-torn r k v lt)
IsTail-Ends stop tail (refused _ f) = Fails-Ends stop tail f
IsTail-Ends stop _ (reached r rest v e) = λ s further. rw (decode_record-image r rest v, e) refl

-- The segment without its bytes, with the index `i`.
abbrev pub emptied : Segment → Index → Segment
emptied s i = record s {
  next_offset = s.base_offset;
  written = [];
  flushed = 0;
  index = i;
  bytes_written = 0;
  bytes_since_last_index = 0;
}

-- The segment holds the records, has nothing in its buffer, and is the one that appending them to
-- the emptied segment gives, but for the buffer.
pub record Recovered (s : Segment) (i : Index) (xs : List Record) (out : Segment × Reply (Unit {0}))
    : Type 0 where
  pub again :
      out ≡ (on_file (log_bytes xs) (length (log_bytes xs)) (append_all (emptied s i) xs), done tt)
  pub slots : List Entry
  pub count : ℕ
  pub holds : Holds out.0 xs slots count
  pub all : out.0.flushed ≡ length out.0.written
  pub base : out.0.base_offset ≡ s.base_offset

on_file-Holds :
    (a : Segment) (xs : List Record) (m : List Entry) (n flushed : ℕ)
    → Holds a xs m n
    → Holds (on_file (log_bytes xs) flushed a) xs m n
on_file-Holds a xs m n flushed h = record {
  is_open = h.is_open;
  bytes = refl;
  size = h.size ∙ ap length h.bytes;
  next = h.next;
  run = h.run;
  bounded = h.bounded;
  index = h.index;
  indexed = h.indexed;
  placed = h.placed;
  covered = h.covered;
}

module _ (s : Segment) (stop : ℤ) (xs : List Record) (tail : Bytes) (i : Index)
    (file : s.written ≡ log_bytes xs ++ tail) (is_open : s.closed ≡ false)
    (room : entry_size ≤ s.index.max_size) (made : new_index [] s.index.max_size ≡ opened i)
    (limit : s.max_bytes ≤ 2 ^ 32) (small : s.base_offset + length xs < 2 ^ 63)
    (run : IsRun s.base_offset xs) (fit : AllFit (emptied s i) xs)
    (below : (k : ℕ) → k < s.base_offset + length xs → Passes stop k) (t : IsTail stop tail) where
  f : FreshIndex s.index.max_size
  f = new_index-Fresh s.index.max_size room

  same_index : f.index ≡ i
  same_index = opened-injective (sym f.made ∙ made)
    where
      opened-injective : {a b : Index} → opened a ≡ opened b → a ≡ b
      opened-injective e = cc

  empty-Holds : Holds (emptied s i) [] f.slots 0
  empty-Holds = record {
    is_open = is_open;
    bytes = refl;
    size = refl;
    next = omega arith;
    run = tt;
    bounded = omega arith;
    index = subst (λ j. IsValid j f.slots 0) same_index f.valid;
    indexed = λ k lt. absurd (omega arith);
    placed = λ k lt. absurd (omega arith);
    covered = λ lt. absurd (omega arith);
  }

  rebuilt : Segment
  rebuilt = append_all (emptied s i) xs

  scan : Rescanned (emptied s i) [] xs s.written (length s.written) (
      rescan
        (suc (length s.written))
        stop
        (log_bytes xs ++ tail)
        (on_file s.written (length s.written) (emptied s i)))
  scan =
      rescan-Rescanned stop s.written tail (length s.written) (IsTail-Ends stop tail t) xs
        (suc (length s.written)) (emptied s i) [] f.slots 0 empty-Holds run fit limit small below
        (omega (arith, ap length file, length-append (log_bytes xs) tail, length-log_bytes xs))

  count_lem : rebuilt.bytes_written ≡ length (log_bytes xs)
  unfolding rebuilt
  count_lem = scan.holds.size ∙ ap length scan.holds.bytes

  cut_lem :
      cut (on_file s.written (length s.written) rebuilt, done tt)
      ≡ (on_file (log_bytes xs) (length (log_bytes xs)) rebuilt, done tt)
  unfolding cut
  cut_lem =
      ap (λ n. (on_file (take n s.written) n rebuilt, done tt)) count_lem
      ∙ ap (λ w. (on_file w (length (log_bytes xs)) rebuilt, done tt))
          (ap (take (length (log_bytes xs))) file ∙ take-append (log_bytes xs) tail)

  rebuild_lem :
      rebuild_segment s stop ≡ (on_file (log_bytes xs) (length (log_bytes xs)) rebuilt, done tt)
  unfolding rebuild_segment with_index rebuilt
  rebuild_lem =
      ap
        (λ b.
          if b
          then (s, failed segment_closed)
          else with_index stop (record s { flushed = length s.written })
              (new_index [] s.index.max_size))
        is_open
      ∙ ap (with_index stop (record s { flushed = length s.written })) made
      ∙ ap
          (λ bytes. cut (
            rescan (suc (length s.written)) stop bytes
              (on_file s.written (length s.written) (emptied s i))))
          file
      ∙ ap cut scan.scanned
      ∙ cut_lem

  -- On an open segment whose file has the encodings of the records xs, a gapless run from the base
  -- offset on that ends below 2^63, and behind them a record of which the end is missing, other
  -- bytes that do not decode, or a record at or above the stop offset, where no record of xs is: if
  -- xs fits the segment as the log fills it, with an index of one entry at least and a limit of
  -- 2^32 bytes at most, the rebuild succeeds and leaves the segment that appending xs to the
  -- emptied segment gives, index and counters included, with all bytes in the file: it holds just
  -- xs.
  pub rebuild_segment-Recovered : Recovered s i xs (rebuild_segment s stop)
  rebuild_segment-Recovered = subst (Recovered s i xs) (sym rebuild_lem) (
      unfold rebuilt in
      record {
        again = refl;
        slots = scan.slots;
        count = scan.count;
        holds = on_file-Holds _ xs scan.slots scan.count (length (log_bytes xs)) scan.holds;
        all = refl;
        base = scan.base;
      })
