-- ===== src/Storage/Segment/Read.antt =====
-- internal/storage/segment.go: a read against the list of records.
use mini_kafka.Prelude.{
  ℕ, zero, suc, ◌+◌, ◌-◌, ◌%◌, ◌^◌, ◌≤◌, ◌<◌, ◌≡◌, refl, sym, ap, ◌∙◌, true, false, Option, none,
  some, List, [], ◌∷◌, inl, inr, ◌==◌, ltb, length, get_elem?, get_elem?-drop, drop-cons, take_all,
  drop, Bool-cases, le→ltb_false, arith, if◌then◌else◌,
}
use mini_kafka.Prelude.Int.{pos}
use mathlib.Core.Path.{subst}
use mini_kafka.Protocol.Stream.{ok, err, eof, read_full, ◌>>=◌}
use mini_kafka.Storage.Record.{Record, encoded_size, decode_record}
use mini_kafka.Storage.Record.RoundTrip.{IsRecord, decode_record-image}
use mini_kafka.Storage.Index.{Entry, Answer, lookup}
use mini_kafka.Storage.Index.Lookup.{Finds, exact, lower, nothing, lookup-Finds, IsSorted}
use mini_kafka.Storage.Index.Invariant.{entries-IsValid}
use mini_kafka.Storage.Segment.{
  Segment, Reply, done, failed, offset_not_found, offset_out_of_range, same_offset, scanned, scan,
  scan_from, read_at, read_step, view_from, looked_up, read,
}
use mini_kafka.Storage.Segment.Contents.{
  Holds, IsRun, IsRun-drop, log_bytes, length-log_bytes, start_of, drop-start_of,
}

-- A place in the list of records, as `read` replies.
abbrev pub found : Option Record → Reply Record
found none = failed offset_not_found
found (some r) = done r

same_pos : (a b : ℕ) → same_offset (pos a) (pos b) ≡ (a == b)
unfolding same_offset
same_pos a b = ground arith

pub decode_empty : decode_record [] ≡ (err eof, [])
unfolding decode_record read_full ◌>>=◌
decode_empty = refl

scan-found :
    (fuel offset target : ℕ) (rs : List Record)
    → length rs < fuel
    → offset ≤ target
    → IsRun offset rs
    → scan fuel (log_bytes rs) (pos target) ≡ found (get_elem? rs (target - offset))
unfolding scan scanned
scan-found zero offset target rs f le h = absurd (omega arith)
scan-found (suc fuel) offset target [] f le h = rw decode_empty refl
scan-found (suc fuel) offset target (r ∷ rs) f le (v, e, h) =
    rw (decode_record-image r (log_bytes rs) v) (
      rw (e, same_pos offset target)
        (elim (Bool-cases (offset == target)) [
          | inl here ↦ rw (here, at_once here)
          | inr later ↦
              rw (later, le→ltb_false (target + 0) (offset + 0) (omega arith), next_place later)
                (scan-found fuel (suc offset) target rs (omega arith) (ground arith) h)
        ]))
  where
    at_once : (offset == target) ≡ true → target - offset ≡ 0
    at_once t = ground arith

    next_place : (offset == target) ≡ false → target - offset ≡ suc (target - suc offset)
    next_place t = ground arith

module _ (s : Segment) (rs : List Record) (m : List Entry) (n : ℕ) (h : Holds s rs m n)
    (all : s.flushed ≡ length s.written) where
  pub view_from-start_of : (j : ℕ) → view_from s (start_of rs j) ≡ log_bytes (drop j rs)
  unfolding view_from
  view_from-start_of j =
      rw
        (
          all,
          take_all s.written (length s.written) (omega arith),
          h.size,
          take_all s.written (length s.written) (omega arith),
          h.bytes,
        )
        (drop-start_of rs j)

  scan_from-found :
      (j k : ℕ)
      → j ≤ k
      → scan_from s (start_of rs j) (pos (s.base_offset + k)) ≡ found (get_elem? rs k)
  unfolding scan_from
  scan_from-found j k le = rw view_from-start_of (
      scan-found (suc (length (log_bytes (drop j rs)))) (s.base_offset + j) (s.base_offset + k)
        (drop j rs) (omega (arith, length-log_bytes (drop j rs))) (omega arith)
        (IsRun-drop s.base_offset j rs h.run)
      ∙ ap (λ i. found (get_elem? (drop j rs) i)) (omega arith)
      ∙ ap found (get_elem?-drop rs j k le))

  read_at_lem :
      (j k : ℕ)
      → read_at s (start_of rs j) (pos (s.base_offset + k))
        ≡ read_step
            (pos (s.base_offset + k))
            (scan_from s (start_of rs j) (pos (s.base_offset + k)))
            (decode_record (log_bytes (drop j rs)))
  read_at_lem j k = unfold read_at in rw view_from-start_of refl

  read_at-found :
      (j k : ℕ)
      → j < length rs
      → j ≤ k
      → read_at s (start_of rs j) (pos (s.base_offset + k)) ≡ found (get_elem? rs k)
  unfolding read_step
  read_at-found j k lt le =
      rw (read_at_lem j k, decoded)
        (rw (sound.1, same_pos (s.base_offset + j) (s.base_offset + k))
          (elim (Bool-cases (s.base_offset + j == s.base_offset + k)) [
            | inl here ↦
                rw here (
                  sym
                    (ap found (subst (λ i. get_elem? rs i ≡ some split.0) (ground arith) split.3)))
            | inr later ↦ rw later (scan_from-found j k le)
          ]))
    where
      split : (x : Record) × (ys : List Record) × (drop j rs ≡ x ∷ ys) × (get_elem? rs j ≡ some x)
      split = drop-cons rs j lt

      sound :
          IsRecord split.0
          × (split.0.offset ≡ pos (s.base_offset + j))
          × IsRun (suc (s.base_offset + j)) split.1
      sound = subst (IsRun (s.base_offset + j)) split.2 (IsRun-drop s.base_offset j rs h.run)

      decoded :
          decode_record (log_bytes (drop j rs))
          ≡ (ok (split.0, encoded_size split.0), log_bytes split.1)
      decoded = rw split.2 (decode_record-image split.0 (log_bytes split.1) sound.0)

  -- Wherever the index sends the reader, it ends at the record, or finds that there is none.
  looked_up-found :
      (k : ℕ) (a : Answer)
      → Finds m n (k % 2 ^ 32) a
      → looked_up s (pos (s.base_offset + k)) a ≡ found (get_elem? rs k)
  unfolding looked_up
  looked_up-found k _ (exact j lt e) =
      rw (h.placed j lt) (read_at-found _ k (h.indexed j lt) (omega (arith, e)))
  looked_up-found k _ (lower j lt e _) = rw (h.placed j lt) (scan_from-found _ k (omega (arith, e)))
  looked_up-found k _ (nothing _) = scan_from-found 0 k (omega arith)

  pub lookup-found : (target : ℕ) → Finds m n target (lookup s.index target)
  lookup-found target =
      subst (λ c. Finds m c target (lookup s.index target)) (entries-IsValid h.index)
        (lookup-Finds s.index m target h.index.mapped
          (subst (IsSorted m) (sym (entries-IsValid h.index)) h.index.sorted))

  read_lem :
      (offset : ℕ)
      → read s (pos offset) ≡ (
          if ltb offset s.base_offset
          then failed offset_out_of_range
          else looked_up s (pos offset) (lookup s.index ((offset - s.base_offset) % 2 ^ 32)))
  unfolding read
  read_lem offset = simp h.is_open

  at_place :
      (offset : ℕ)
      → s.base_offset ≤ offset
      → looked_up s (pos offset) (lookup s.index ((offset - s.base_offset) % 2 ^ 32))
        ≡ found (get_elem? rs (offset - s.base_offset))
  at_place offset le =
      subst (λ o. looked_up s (pos o) (lookup s.index (k % 2 ^ 32)) ≡ found (get_elem? rs k))
        (omega arith) (looked_up-found k _ (lookup-found (k % 2 ^ 32)))
    where
      k : ℕ
      k = offset - s.base_offset

  -- On an open segment that holds the records rs and whose writer is flushed, a read of an offset,
  -- which looks the index up and then decodes or scans the file, replies with the element of rs at
  -- that offset; above the end the reply is "not found", below the base offset "out of range".
  pub read-found :
      (offset : ℕ)
      → read s (pos offset) ≡ (
          if ltb offset s.base_offset
          then failed offset_out_of_range
          else found (get_elem? rs (offset - s.base_offset)))
  read-found offset = read_lem offset ∙ elim (Bool-cases (ltb offset s.base_offset)) [
    | inl low ↦ rw low
    | inr inside ↦ rw inside (at_place offset (ground arith))
  ]
