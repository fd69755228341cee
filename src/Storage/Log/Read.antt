-- ===== src/Storage/Log/Read.antt =====
-- internal/storage/log.go: a read against the list of records.
use mini_kafka.Prelude.{
  ℕ, zero, suc, ◌+◌, ◌-◌, ◌≤◌, ◌<◌, ◌≡◌, inl, inr, refl, sym, ap, ◌∙◌, false, Bool-cases, some,
  List, [], ◌∷◌, All, length, length-append, get_elem?, ltb, lt→ltb, ltb→lt, le→ltb_false,
  if◌then◌else◌, arith,
}
use mini_kafka.Prelude.Int.{pos}
use mathlib.Core.Path.{subst}
use mini_kafka.Storage.Record.{Record}
use mini_kafka.Storage.Search.{Splits, sort_search-Splits}
use mini_kafka.Storage.Segment.{Segment, Reply, done, flush_writer}
use mini_kafka.Storage.Segment
use mini_kafka.Storage.Segment.Contents.{Holds}
use mini_kafka.Storage.Segment.Read.{found, read-found}
use mini_kafka.Storage.Segment.Flush.{flush_writer-Flushed}
use mini_kafka.Storage.Log.{
  Log, LogReply, segments, base_at, find_segment, out_of_range, reply, read_flushed, read_segment,
  read_found, read,
}
use mini_kafka.Storage.Log.Contents.{Stored, IsChain, IsChain-snoc, LogHolds}
use mini_kafka.Storage.Log.Append.{flushed-IsActive}
use mini_kafka.Storage.Log.Chain.{base_at_mono, At, IsChain-At, get_elem?-snoc}

pub flush_writer-open :
    (s : Segment)
    → s.closed ≡ false
    → flush_writer s ≡ (record s { flushed = length s.written }, done tt)
unfolding flush_writer
flush_writer-open s o = simp o refl

All-get_elem? :
    {A : Type 0} (P : A → Type 0) (xs : List A) (i : ℕ) (a : A)
    → All P xs
    → get_elem? xs i ≡ some a
    → P a
All-get_elem? P [] i a h e = cc
All-get_elem? P (x ∷ xs) zero a (p, h) e = subst P (cc) p
All-get_elem? P (x ∷ xs) (suc i) a (p, h) e = All-get_elem? P xs i a h e

-- What a read gives, and that the log holds the same records after it.
pub record Reads (lowest : ℕ) (rs : List Record) (o : LogReply Record) (out : Log × LogReply Record)
    : Type 0 where
  pub replied : out.1 ≡ o
  pub holds : LogHolds out.0 lowest rs

module _ (l : Log) (lowest : ℕ) (rs : List Record) (h : LogHolds l lowest rs) where
  pub whole : IsChain lowest (segments l) rs
  whole = rw h.all (
      IsChain-snoc lowest l.sealed h.old h.recent l.active h.chain h.base
        (h.active.slots, h.active.count, h.active.holds))

  some_segment : 0 < length (segments l)
  some_segment = omega (arith, length-append l.sealed (l.active ∷ []))

  pub base_at-lowest : base_at (segments l) 0 ≡ lowest
  base_at-lowest = go (segments l) rs whole some_segment
    where
      go :
          (ss : List Segment) (xs : List Record)
          → IsChain lowest ss xs
          → 0 < length ss
          → base_at ss 0 ≡ lowest
      go [] xs c p = absurd (omega arith)
      go (s ∷ ss) xs (us, vs, e, b, st, c) p = b

  -- A segment that is flushed.
  flushed_read :
      (s : Segment) (xs : List Record) (offset : ℕ)
      → Stored s xs
      → s.flushed ≡ length s.written
      → s.base_offset ≤ offset
      → Segment.read s (pos offset) ≡ found (get_elem? xs (offset - s.base_offset))
  flushed_read s xs offset (m, n, k) all le =
      read-found s xs m n k all offset ∙ rw (le→ltb_false offset s.base_offset le) refl

  read_active :
      (xs : List Record) (offset : ℕ)
      → Stored l.active xs
      → l.active.base_offset ≤ offset
      → Reads lowest rs
          (reply (found (get_elem? xs (offset - l.active.base_offset))))
          (read_flushed l offset (flush_writer l.active))
  unfolding read_flushed
  read_active xs offset (m, n, k) le =
      simp (flush_writer-open l.active h.active.holds.is_open) (record {
        replied = ap reply (
            flushed_read _ xs offset (m, n, same (flush_writer-Flushed l.active xs m n k).holds)
              refl le);
        holds = record {
          is_open = h.is_open;
          usable = h.usable;
          old = h.old;
          recent = h.recent;
          all = h.all;
          chain = h.chain;
          synced = h.synced;
          base = h.base;
          active = flushed-IsActive l.config l.active h.recent h.active;
        };
      })
    where
      same :
          Holds (flush_writer l.active).0 xs m n
          → Holds (record l.active { flushed = length l.active.written }) xs m n
      same k' = subst (λ p. Holds p.0 xs m n) (flush_writer-open l.active h.active.holds.is_open) k'

  -- Wherever the search ends, the segment there gives what the list has at the offset.
  module _ (offset : ℕ) (le : lowest ≤ offset) where
    abbrev wanted : LogReply Record
    wanted = reply (found (get_elem? rs (offset - lowest)))

    read_segment-Reads :
        (i : ℕ)
        → i < length (segments l)
        → base_at (segments l) i ≤ offset
        → ((suc i < length (segments l)) → offset < base_at (segments l) (suc i))
        → Reads lowest rs wanted (read_segment l i offset)
    unfolding read_segment
    read_segment-Reads i lt below above =
        rw (a.agrees offset low above)
          (elim (get_elem?-snoc l.sealed l.active a.segment i a.there) [
            | inl old ↦
                rw (old, read_segment)
                  (record {
                    replied = ap reply (
                        flushed_read a.segment a.records offset a.stored
                          (All-get_elem? _ l.sealed i a.segment h.synced old) low);
                    holds = h;
                  })
            | inr recent ↦
                rw (recent.0, read_segment)
                  (subst
                    (λ o.
                      Reads lowest rs (reply (found (get_elem? a.records (offset - o))))
                        (read_flushed l offset (flush_writer l.active)))
                    (ap (λ (s : Segment). s.base_offset) recent.1)
                    (read_active a.records offset
                      (subst (λ s. Stored s a.records) (sym recent.1) a.stored)
                      (omega (arith, low, ap (λ (s : Segment). s.base_offset) recent.1))))
          ])
      where
        a : At lowest i (segments l) rs
        a = IsChain-At lowest i (segments l) rs whole lt

        at_base : base_at (segments l) i ≡ a.segment.base_offset
        at_base = rw (a.there, base_at) refl

        low : a.segment.base_offset ≤ offset
        low = omega (arith, at_base)

    found_at :
        Splits
          (length (segments l))
          (λ i. ltb offset (base_at (segments l) i))
          (find_segment l offset)
    unfolding find_segment
    found_at =
        sort_search-Splits (length (segments l)) (λ i. ltb offset (base_at (segments l) i))
          λ i j i_le lt e. lt→ltb _ _ (
            omega (
              arith,
              ltb→lt offset (base_at (segments l) i) e,
              base_at_mono lowest i j (segments l) rs whole i_le lt,
            ))

    read_found-Reads :
        (k : ℕ)
        → Splits (length (segments l)) (λ i. ltb offset (base_at (segments l) i)) k
        → Reads lowest rs wanted (read_found l offset k)
    unfolding read_found
    read_found-Reads zero s =
        absurd
          (omega (arith, base_at-lowest, ltb→lt offset _ (s.above 0 (omega arith) some_segment)))
    read_found-Reads (suc i) s =
        read_segment-Reads i s.bound (ground (arith, s.below i (omega arith)))
          (λ lt. ltb→lt offset _ (s.above (suc i) (omega arith) lt))

  -- On an open log that holds the records rs from the offset lowest on, a read of an offset, which
  -- searches for the segment and flushes the active one, replies with the element of rs at that
  -- offset; below lowest the reply is "out of range", above the end "not found"; the log holds the
  -- same records after it.
  pub read-Reads :
      (offset : ℕ)
      → Reads lowest rs
          (if ltb offset lowest
            then out_of_range
            else reply (found (get_elem? rs (offset - lowest))))
          (read l (pos offset))
  unfolding read
  read-Reads offset =
      simp (h.is_open, base_at-lowest)
        (elim (Bool-cases (ltb offset lowest)) [
          | inl low ↦
              rw (low, lt→ltb (offset + 0) (lowest + 0) (ground arith))
                (record { replied = refl; holds = h })
          | inr inside ↦
              rw (inside, le→ltb_false (offset + 0) (lowest + 0) (ground arith))
                (read_found-Reads offset (ground arith) _ (found_at offset (ground arith)))
        ])
