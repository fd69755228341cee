-- ===== src/Storage/Segment/ReadFrom/Within.antt =====
-- ReadFrom of internal/storage/segment.go against the list of records and the budget.
use mini_kafka.Prelude.{
  ℕ, zero, suc, ◌+◌, ◌-◌, ◌%◌, ◌^◌, ◌≤◌, ◌<◌, ◌≡◌, refl, sym, ap, ◌∙◌, false, ◌&&◌, Bool-cases, inl,
  inr, List, [], ◌∷◌, length, drop, ltb, le→ltb_false, lt→ltb, arith, if◌then◌else◌,
}
use mini_kafka.Prelude.Int.{ℤ, pos, ltb_ℤ, leb_ℤ, add_wrapped-pos}
use mathlib.Core.Path.{subst}
use mini_kafka.Storage.Record.{Record, encoded_size, max_record_size}
use mini_kafka.Storage.Record.RoundTrip.{IsRecord, decode_record-image}
use mini_kafka.Storage.Index.{Entry, Answer, lookup}
use mini_kafka.Storage.Index.Lookup.{Finds, exact, lower, nothing}
use mini_kafka.Storage.Segment.{Segment, done, failed, offset_out_of_range}
use mini_kafka.Storage.Segment.Contents.{Holds, IsRun, IsRun-drop, log_bytes, length-log_bytes}
use mini_kafka.Storage.Segment.Read.{decode_empty, view_from-start_of, lookup-found}
use mini_kafka.Storage.Segment.ReadFrom.{
  Batch, complete, consed, gather_step, gather, gather_from, read_from,
}

-- The first records of which the sizes, with `taken` before them, are within the budget; the first
-- of all in any case.
abbrev pub within : ℕ → ℕ → List Record → List Record
within budget taken [] = []
within budget taken (r ∷ rs) =
    let rest = within budget (taken + encoded_size r) rs in
    if ltb 0 taken && ltb budget (taken + encoded_size r) then [] else r ∷ rest

drop_nil : (k : ℕ) → ◌≡◌ {A = List Record} (drop k []) []
drop_nil zero = refl
drop_nil (suc k) = refl

module _ (offset budget : ℕ) (small : budget + max_record_size < 2 ^ 31) where
  -- The tests of a round, for a record at `z` and a sum.
  chosen :
      (o taken n : ℕ) (z sum : ℤ) (again : Batch) (rest : ℤ → Batch)
      → z ≡ pos o
      → sum ≡ pos (taken + n)
      → offset ≤ o
      → (if ltb_ℤ z (pos offset)
          then again
          else if ltb_ℤ (pos 0) (pos taken) && ltb_ℤ (pos budget) sum
          then complete []
          else rest sum)
        ≡ (if ltb 0 taken && ltb budget (taken + n) then complete [] else rest (pos (taken + n)))
  chosen o taken n z sum again rest e f le =
      rw (e, f, le→ltb_false (o + 0) (offset + 0) (omega arith))
        (ap (λ b. if b then complete [] else rest (pos (taken + n))) same_test)
    where
      same_test :
          (ltb 0 (taken + 0) && ltb (budget + 0) (taken + n + 0))
          ≡ (ltb 0 taken && ltb budget (taken + n))
      same_test = ground arith

  -- A record that is not below the offset is taken, or ends the scan.
  gather-take :
      (fuel o taken : ℕ) (r : Record) (rs : List Record)
      → IsRecord r
      → r.offset ≡ pos o
      → offset ≤ o
      → taken + max_record_size < 2 ^ 31
      → gather (suc fuel) offset (pos budget) (pos taken) (log_bytes (r ∷ rs)) ≡ (
          if ltb 0 taken && ltb budget (taken + encoded_size r)
          then complete []
          else consed r
              (gather fuel offset (pos budget) (pos (taken + encoded_size r)) (log_bytes rs)))
  unfolding gather gather_step
  gather-take fuel o taken r rs v e le t =
      ap (gather_step offset (pos budget) (pos taken) (gather fuel offset (pos budget)))
        (decode_record-image r (log_bytes rs) v)
      ∙ chosen o taken (encoded_size r) r.offset _
          (gather fuel offset (pos budget) (pos taken) (log_bytes rs))
          (λ sum. consed r (gather fuel offset (pos budget) sum (log_bytes rs))) e
          (add_wrapped-pos (2 ^ 31) taken (encoded_size r) (omega (arith, v.fits))) le

  -- A record below the offset is skipped.
  gather-skip :
      (fuel o taken : ℕ) (r : Record) (rs : List Record)
      → IsRecord r
      → r.offset ≡ pos o
      → o < offset
      → gather (suc fuel) offset (pos budget) (pos taken) (log_bytes (r ∷ rs))
        ≡ gather fuel offset (pos budget) (pos taken) (log_bytes rs)
  unfolding gather gather_step
  gather-skip fuel o taken r rs v e lt =
      ap (gather_step offset (pos budget) (pos taken) (gather fuel offset (pos budget)))
        (decode_record-image r (log_bytes rs) v)
      ∙ skipped _ _ r.offset e
    where
      skipped :
          (rest other : Batch) (z : ℤ)
          → z ≡ pos o
          → (if ltb_ℤ z (pos offset) then rest else other) ≡ rest
      skipped rest other z f = rw (f, lt→ltb (o + 0) (offset + 0) (omega arith)) refl

  gather-nil : (fuel : ℕ) (taken : ℤ) → gather (suc fuel) offset (pos budget) taken [] ≡ complete []
  unfolding gather gather_step
  gather-nil fuel taken = rw decode_empty refl

  gather-within :
      (rs : List Record) (fuel o taken : ℕ)
      → length rs < fuel
      → IsRun o rs
      → offset ≤ o
      → taken + max_record_size < 2 ^ 31
      → gather fuel offset (pos budget) (pos taken) (log_bytes rs)
        ≡ complete (within budget taken rs)
  gather-within rs zero o taken f run le t = absurd (omega arith)
  gather-within [] (suc fuel) o taken f run le t = gather-nil fuel (pos taken)
  gather-within (r ∷ rs) (suc fuel) o taken f (v, e, run) le t =
      gather-take fuel o taken r rs v e le t
      ∙ elim (Bool-cases (ltb 0 taken && ltb budget (taken + encoded_size r))) [
        | inl spent ↦ rw spent refl
        | inr fits ↦ rw fits (
            ap (consed r) (
              gather-within rs fuel (suc o) (taken + encoded_size r) (omega arith) run (omega arith)
                (let f = v.fits in ground arith)))
      ]

  gather-drop :
      (rs : List Record) (fuel o : ℕ)
      → length rs < fuel
      → IsRun o rs
      → o ≤ offset
      → gather fuel offset (pos budget) (pos 0) (log_bytes rs)
        ≡ complete (within budget 0 (drop (offset - o) rs))
  gather-drop rs zero o f run le = absurd (omega arith)
  gather-drop [] (suc fuel) o f run le =
      gather-nil fuel (pos 0)
      ∙ ap (λ zs. complete (within budget 0 zs)) (sym (drop_nil (offset - o)))
  gather-drop (r ∷ rs) (suc fuel) o f (v, e, run) le = elim (Bool-cases (ltb o offset)) [
    | inl below ↦
        let next : suc (offset - suc o) ≡ offset - o = ground arith in
        gather-skip fuel o 0 r rs v e (ground arith)
        ∙ gather-drop rs fuel (suc o) (omega arith) run (ground arith)
        ∙ ap (λ k. complete (within budget 0 (drop k (r ∷ rs)))) next
    | inr reached ↦
        let here : 0 ≡ offset - o = ground arith in
        gather-within (r ∷ rs) (suc fuel) o 0 f (v, e, run) (ground arith) (omega arith)
        ∙ ap (λ k. complete (within budget 0 (drop k (r ∷ rs)))) here
  ]

drop-plus : (j k : ℕ) (rs : List Record) → drop k (drop j rs) ≡ drop (j + k) rs
drop-plus zero k rs = ap (λ i. drop i rs) (omega arith)
drop-plus (suc j) k [] = drop_nil k ∙ sym (drop_nil (suc j + k))
drop-plus (suc j) k (r ∷ rs) =
    drop-plus j k rs ∙ ap (λ i. drop i (r ∷ rs)) {x = suc (j + k)} (omega arith)

module _ (s : Segment) (rs : List Record) (m : List Entry) (n : ℕ) (h : Holds s rs m n)
    (all : s.flushed ≡ length s.written) (budget : ℕ)
    (small : budget + max_record_size < 2 ^ 31) where
  -- From a place at or before the offset.
  gather-place :
      (j k : ℕ)
      → j ≤ k
      → gather
          (suc (length (log_bytes (drop j rs))))
          (s.base_offset + k)
          (pos budget)
          (pos 0)
          (log_bytes (drop j rs))
        ≡ complete (within budget 0 (drop k rs))
  gather-place j k le =
      gather-drop (s.base_offset + k) budget small (drop j rs) _ (s.base_offset + j)
        (omega (arith, length-log_bytes (drop j rs))) (IsRun-drop s.base_offset j rs h.run)
        (omega arith)
      ∙ ap (λ zs. complete (within budget 0 zs))
          (drop-plus j (s.base_offset + k - (s.base_offset + j)) rs)
      ∙ ap (λ i. complete (within budget 0 (drop i rs))) same_place
    where
      same_place : j + (s.base_offset + k - (s.base_offset + j)) ≡ k
      same_place = omega arith

  gather_from-within :
      (k : ℕ) (a : Answer)
      → Finds m n (k % 2 ^ 32) a
      → gather_from s (s.base_offset + k) (pos budget) a
        ≡ done (complete (within budget 0 (drop k rs)))
  unfolding gather_from
  gather_from-within k _ (exact j lt e) =
      rw (h.placed j lt, view_from-start_of s rs m n h all)
        (ap done (gather-place _ k (omega (arith, e))))
  gather_from-within k _ (lower j lt e _) =
      rw (h.placed j lt, view_from-start_of s rs m n h all)
        (ap done (gather-place _ k (omega (arith, e))))
  gather_from-within k _ (nothing _) =
      rw (view_from-start_of s rs m n h all 0) (ap done (gather-place 0 k (omega arith)))

  from_place :
      (offset : ℕ)
      → s.base_offset ≤ offset
      → gather_from s offset (pos budget) (lookup s.index ((offset - s.base_offset) % 2 ^ 32))
        ≡ done (complete (within budget 0 (drop (offset - s.base_offset) rs)))
  from_place offset le =
      subst
        (λ o.
          gather_from s o (pos budget) (lookup s.index (k % 2 ^ 32))
          ≡ done (complete (within budget 0 (drop k rs))))
        (omega arith) (gather_from-within k _ (lookup-found s rs m n h all (k % 2 ^ 32)))
    where
      k : ℕ
      k = offset - s.base_offset

  -- On an open segment that holds the records rs and whose writer is flushed, with a positive
  -- budget that lies more than 1 MiB below 2^31, ReadFrom of an offset, which looks the index up,
  -- scans and skips, gives without an error the records of rs from that offset on, as many as are
  -- within the budget, and the first of them in any case; below the base offset the reply is "out
  -- of range".
  pub read_from-within :
      (offset : ℕ)
      → 0 < budget
      → read_from s (pos offset) (pos budget) ≡ (
          if ltb offset s.base_offset
          then failed offset_out_of_range
          else done (complete (within budget 0 (drop (offset - s.base_offset) rs))))
  unfolding read_from
  read_from-within offset some_budget =
      simp (h.is_open, positive, same_test)
        (elim (Bool-cases (ltb offset s.base_offset)) [
          | inl low ↦ rw low refl
          | inr inside ↦ rw inside (from_place offset (ground arith))
        ])
    where
      positive : leb_ℤ (pos budget) (pos 0) ≡ false
      positive = ground arith

      same_test : ltb_ℤ (pos offset) (pos s.base_offset) ≡ ltb offset s.base_offset
      same_test = ground arith
