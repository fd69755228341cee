-- ===== src/Coordinator/Offsets/Replay.antt =====
-- internal/coordinator/offsets.go: the replay of a log by Start.
use mini_kafka.Prelude.{
  ℕ, zero, suc, ◌+◌, ◌^◌, ◌<◌, ◌≡◌, refl, sym, ap, ◌∙◌, Bool-cases, inl, inr, none, List, [], ◌∷◌,
  ◌++◌, length, length-append, if◌then◌else◌, drop, some, true, ltb, ◌&&◌, arith,
}
use mini_kafka.Prelude.Int.{pos, ◌+ℤ◌}
use mathlib.Core.Path.{subst}
use native.Mathlib.Nat.{zero-add, suc-add}
use mini_kafka.Storage.Record.{Record, encoded_size}
use mini_kafka.Storage.Segment.Contents.{IsRun, IsRun-drop}
use mini_kafka.Storage.Segment.ReadFrom.Within.{within}
use mini_kafka.Storage.Log.{Log, returned, highest_offset}
use mini_kafka.Storage.Log.ReadFrom.{read_from}
use mini_kafka.Storage.Log.ReadFrom.Only.{IsOnly, flushed_log, flushed_log-IsOnly, read_from-only}
use mini_kafka.Coordinator.Offsets.{
  CacheEntry, OffsetStore, replayed, started_log, replay_records, replay_key, replay_step,
  replay_log, behind_last,
}

-- What is within a budget is a first part.
within-prefix :
    (b t : ℕ) (rs : List Record) → within b t rs ++ drop (length (within b t rs)) rs ≡ rs
within-prefix b t [] = refl
within-prefix b t (r ∷ rs) = elim (Bool-cases (ltb 0 t && ltb b (t + encoded_size r))) [
  | inl spent ↦ simp spent refl
  | inr fits ↦ simp fits (ap (λ zs. r ∷ zs) (within-prefix b (t + encoded_size r) rs))
]

replay_records-both :
    (cache : List CacheEntry) (xs ys : List Record)
    → replay_records (replay_records cache xs) ys ≡ replay_records cache (xs ++ ys)
unfolding replay_records
replay_records-both cache [] ys = refl
replay_records-both cache (x ∷ xs) ys = replay_records-both (replay_key cache x.key x.value) xs ys

-- The offset behind the last record of a run.
behind_last-IsRun :
    (o : ℕ) (r : Record) (rs : List Record)
    → IsRun o (r ∷ rs)
    → behind_last r rs ≡ pos (o + suc (length rs))
unfolding behind_last ◌+ℤ◌
behind_last-IsRun o r [] (v, e, run) = rw e (ground arith)
behind_last-IsRun o r (s ∷ rs) (v, e, run) =
    behind_last-IsRun (suc o) s rs run ∙ ap pos (omega arith)

IsRun-prefix : (o : ℕ) (xs ys : List Record) → IsRun o (xs ++ ys) → IsRun o xs
IsRun-prefix o [] ys h = tt
IsRun-prefix o (x ∷ xs) ys (v, e, h) = (v, e, IsRun-prefix (suc o) xs ys h)

within-nil : (b : ℕ) (rs : List Record) → within b 0 rs ≡ [] → rs ≡ []
within-nil b [] e = refl
within-nil b (r ∷ rs) e = cc

drop_plus : (j k : ℕ) (xs : List Record) → drop (j + k) xs ≡ drop k (drop j xs)
drop_plus zero k xs = rw zero-add refl
drop_plus (suc j) zero [] = rw suc-add refl
drop_plus (suc j) (suc k) [] = rw suc-add refl
drop_plus (suc j) k (x ∷ xs) = rw suc-add (drop_plus j k xs)

drop-zero : (xs : List Record) → drop 0 xs ≡ xs
drop-zero [] = refl
drop-zero (x ∷ xs) = refl

abbrev budget : ℕ
budget = 2 ^ 30

module _ (ys : List Record) (fuel : ℕ) (l : Log) (k : ℕ) (cache : List CacheEntry)
    (run : IsRun 0 ys)
    (ih : (k' : ℕ) (cache' : List CacheEntry)
      → length (drop k' ys) < fuel
      → replay_log fuel l (pos k') cache' ≡ some (l, replay_records cache' (drop k' ys))) where
  round :
      (w : List Record)
      → within budget 0 (drop k ys) ≡ w
      → length (drop k ys) < suc fuel
      → replay_step cache (λ l' o c. replay_log fuel l' o c) (l, (w, none))
        ≡ some (l, replay_records cache (drop k ys))
  unfolding replay_step
  round [] e h =
      ap (λ xs. some (l, replay_records cache xs)) (sym (within-nil budget (drop k ys) e))
  round (r ∷ w) e h =
      ap (λ o. replay_log fuel l o (replay_records cache (r ∷ w))) reached
      ∙ ih (k + suc (length w)) (replay_records cache (r ∷ w)) fewer
      ∙ ap (λ c. some (l, c))
          (replay_records-both cache (r ∷ w) (drop (k + suc (length w)) ys)
            ∙ ap (λ zs. replay_records cache (r ∷ w ++ zs)) (drop_plus k (suc (length w)) ys)
            ∙ ap (replay_records cache) split)
    where
      split : r ∷ w ++ drop (suc (length w)) (drop k ys) ≡ drop k ys
      split =
          subst (λ xs. xs ++ drop (length xs) (drop k ys) ≡ drop k ys) e
            (within-prefix budget 0 (drop k ys))

      fewer : length (drop (k + suc (length w)) ys) < fuel
      fewer = omega (
        arith,
        h,
        ap length (drop_plus k (suc (length w)) ys),
        ap length split,
        length-append (r ∷ w) (drop (suc (length w)) (drop k ys)),
      )

      reached : behind_last r w ≡ pos (k + suc (length w))
      reached = behind_last-IsRun k r w (
          IsRun-prefix k (r ∷ w) (drop (suc (length w)) (drop k ys)) (
            subst (λ xs. IsRun k xs) (sym split)
              (subst (λ j. IsRun j (drop k ys)) (omega arith) (IsRun-drop 0 k ys run))))

-- The loop of Start over a log of one segment, whose base offset is 0 and that holds the records
-- ys, ends if it may go as many rounds as there are records from the number k on, at which it
-- begins, and one more: it then gives the log, flushed, and the cache that the records from there
-- on, each replayed once and in order, make of the one before.
pub replay_log-all :
    (fuel : ℕ) (l : Log) (ys : List Record) (k : ℕ) (cache : List CacheEntry)
    → IsOnly l ys
    → l.active.base_offset ≡ 0
    → length (drop k ys) < fuel
    → replay_log fuel l (pos k) cache ≡ some (flushed_log l, replay_records cache (drop k ys))
unfolding replay_log
replay_log-all zero l ys k cache o base h = absurd (omega arith)
replay_log-all (suc fuel) l ys k cache o base h =
    ap (replay_step cache (λ l' o' c. replay_log fuel l' o' c)) found
    ∙ round ys fuel (flushed_log l) k cache (subst (λ j. IsRun j ys) base o.holds.run)
        (λ k' cache' h'.
          replay_log-all fuel (flushed_log l) ys k' cache' (flushed_log-IsOnly l ys o) base h')
        (within budget 0 (drop k ys)) refl h
  where
    found : read_from l (pos k) (pos budget) ≡ (flushed_log l, (within budget 0 (drop k ys), none))
    found =
        subst
          (λ j.
            read_from l (pos j) (pos budget) ≡ (flushed_log l, (within budget 0 (drop k ys), none)))
          (omega (arith, base)) (read_from-only l ys o k budget (omega arith) (omega arith))

-- When Start opens a log of one segment, whose base offset is 0 and that holds the records ys, the
-- rounds that it is given are enough: the store gets the log, flushed and behind the logs before
-- it, and the cache that the records ys, each replayed once and in order, make of the one before.
pub started_log-replayed :
    (s : OffsetStore) (l : Log) (ys : List Record)
    → IsOnly l ys
    → l.active.base_offset ≡ 0
    → started_log s (returned l)
      ≡ (record s { cache = replay_records s.cache ys; logs = s.logs ++ flushed_log l ∷ [] }, true)
unfolding started_log highest_offset
started_log-replayed s l ys o base =
    ap (replayed s) (
      replay_log-all (suc (highest_offset l)) l ys 0 s.cache o base
        (omega (arith, end, ap length (drop-zero ys))))
    ∙ ap (λ xs. replayed s (some (flushed_log l, replay_records s.cache xs))) (drop-zero ys)
  where
    end : highest_offset l ≡ length ys
    end =
        ap (λ c. if c then 0 else l.active.next_offset) o.is_open
        ∙ omega (arith, o.holds.next, base)
