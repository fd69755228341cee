-- ===== src/Client/Producer/Held.antt =====
-- The waiters of pkg/client/producer.go in lists, batches and results, and batches with records.
use mini_kafka.Prelude.{
  ℕ, zero, suc, ◌+◌, ◌≡◌, refl, ◌∙◌, false, Bool-cases, inl, inr, Option, none, some, List, [], ◌∷◌,
  ◌++◌, All, length, length-append, ◌<◌, ◌==◌, if◌then◌else◌, arith,
}
use mini_kafka.Prelude.Int.{ℤ, pos, leb_ℤ}
use mini_kafka.Protocol.Stream.{Bytes}
use mini_kafka.Storage.Record.{Record}
use mini_kafka.Client.Producer.{
  PendingBatch, Delivery, is_for, joined, new_batch, sort_out, add_record, take_off, deliver,
  flush_batch,
}
use mini_kafka.Client.Producer.Steps.{pick, flushed}

-- How often a waiter stands in a list, waits in batches, or is answered.
abbrev pub tally : ℕ → List ℕ → ℕ
tally x [] = 0
tally x (w ∷ ws) = (if w == x then 1 else 0) + tally x ws

abbrev pub held : ℕ → List PendingBatch → ℕ
held x [] = 0
held x (pb ∷ pbs) = tally x pb.waiters + held x pbs

abbrev pub answered : ℕ → List Delivery → ℕ
answered x [] = 0
answered x (d ∷ ds) = (if d.waiter == x then 1 else 0) + answered x ds

pub tally-append : (x : ℕ) (ws vs : List ℕ) → tally x (ws ++ vs) ≡ tally x ws + tally x vs
tally-append x [] vs = omega arith
tally-append x (w ∷ ws) vs = omega (arith, tally-append x ws vs)

pub held-append : (x : ℕ) (ws vs : List PendingBatch) → held x (ws ++ vs) ≡ held x ws + held x vs
held-append x [] vs = omega arith
held-append x (w ∷ ws) vs = omega (arith, held-append x ws vs)

pub answered-append :
    (x : ℕ) (ws vs : List Delivery) → answered x (ws ++ vs) ≡ answered x ws + answered x vs
answered-append x [] vs = omega arith
answered-append x (w ∷ ws) vs = omega (arith, answered-append x ws vs)

-- Every waiter gets one result, whatever the number of offsets.
pub answered-deliver :
    (x : ℕ) (ws : List ℕ) (offsets : List ℤ) → answered x (deliver ws offsets) ≡ tally x ws
unfolding deliver
answered-deliver x [] offsets = refl
answered-deliver x (w ∷ ws) [] = omega (arith, answered-deliver x ws [])
answered-deliver x (w ∷ ws) (o ∷ os) = omega (arith, answered-deliver x ws os)

-- The batch has a record.
abbrev pub IsFilled : PendingBatch → Type 0
IsFilled pb = 0 < length pb.records

pub filled : (pb : PendingBatch) → IsFilled pb → (length pb.records == 0) ≡ false
filled pb h = ground arith

pub answered-flush_batch :
    (x : ℕ) (pb : PendingBatch) (offsets : Option (List ℤ))
    → IsFilled pb
    → answered x (flush_batch pb offsets) ≡ tally x pb.waiters
unfolding flush_batch
answered-flush_batch x pb none h = rw (filled pb h) (answered-deliver x pb.waiters [])
answered-flush_batch x pb (some offsets) h =
    rw (filled pb h) (answered-deliver x pb.waiters offsets)

pub answered-flushed :
    (x : ℕ) (pbs : List PendingBatch) (offsets : Option (List ℤ))
    → All IsFilled pbs
    → answered x (flushed offsets pbs) ≡ held x pbs
answered-flushed x [] offsets h = refl
answered-flushed x (pb ∷ pbs) offsets (h, hs) = omega (
  arith,
  answered-append x (flush_batch pb offsets) (flushed offsets pbs),
  answered-flush_batch x pb offsets h,
  answered-flushed x pbs offsets hs,
)

pub IsFilled-append :
    (xs ys : List PendingBatch) → All IsFilled xs → All IsFilled ys → All IsFilled (xs ++ ys)
IsFilled-append [] ys h k = k
IsFilled-append (x ∷ xs) ys (h, hs) k = (h, IsFilled-append xs ys hs k)

pub IsFilled-sort_out :
    (size : ℤ) (pb : PendingBatch) (pbs : List PendingBatch)
    → IsFilled pb
    → All IsFilled pbs
    → All IsFilled (sort_out size pb pbs).kept × All IsFilled (sort_out size pb pbs).full
unfolding sort_out
IsFilled-sort_out size pb pbs h hs = elim (Bool-cases (leb_ℤ size (pos pb.bytes))) [
  | inl full ↦ simp full (hs, (h, tt))
  | inr some_room ↦ simp some_room ((h, hs), tt)
]

pub IsFilled-joined :
    (rec : Record) (waiter : ℕ) (pb : PendingBatch) → IsFilled (joined rec waiter pb)
unfolding joined
IsFilled-joined rec waiter pb = omega (arith, length-append pb.records (rec ∷ []))

pub IsFilled-add_record :
    (size : ℤ) (id : ℕ) (topic : Bytes) (partition : ℤ) (rec : Record) (waiter : ℕ)
    (pbs : List PendingBatch)
    → All IsFilled pbs
    → All IsFilled (add_record size id topic partition rec waiter pbs).kept
      × All IsFilled (add_record size id topic partition rec waiter pbs).full
unfolding add_record
IsFilled-add_record size id topic partition rec waiter [] h =
    IsFilled-sort_out size (joined rec waiter (new_batch id topic partition)) []
      (IsFilled-joined rec waiter (new_batch id topic partition)) tt
IsFilled-add_record size id topic partition rec waiter (pb ∷ pbs) (h, hs) =
    elim (Bool-cases (is_for topic partition pb)) [
      | inl here ↦
          simp here
            (IsFilled-sort_out size (joined rec waiter pb) pbs (IsFilled-joined rec waiter pb) hs)
      | inr other ↦
          let rest = IsFilled-add_record size id topic partition rec waiter pbs hs in
          simp other ((h, rest.0), rest.1)
    ]

pub IsFilled-take_off :
    (id : ℕ) (pbs : List PendingBatch)
    → All IsFilled pbs
    → All IsFilled (take_off id pbs).0 × All IsFilled (take_off id pbs).1
unfolding take_off
IsFilled-take_off id [] h = (tt, tt)
IsFilled-take_off id (pb ∷ pbs) (h, hs) = elim (Bool-cases (pb.id == id)) [
  | inl here ↦ simp here (hs, (h, tt))
  | inr other ↦ let rest = IsFilled-take_off id pbs hs in simp other ((h, rest.0), rest.1)
]

pub IsFilled-pick :
    (i : ℕ) (pbs : List PendingBatch)
    → All IsFilled pbs
    → All IsFilled (pick i pbs).0 × All IsFilled (pick i pbs).1
IsFilled-pick zero [] h = (tt, tt)
IsFilled-pick (suc i) [] h = (tt, tt)
IsFilled-pick zero (pb ∷ pbs) (h, hs) = (hs, (h, tt))
IsFilled-pick (suc i) (pb ∷ pbs) (h, hs) =
    let rest = IsFilled-pick i pbs hs in ((h, rest.0), rest.1)

pub held-sort_out :
    (x : ℕ) (size : ℤ) (pb : PendingBatch) (pbs : List PendingBatch)
    → held x (sort_out size pb pbs).kept + held x (sort_out size pb pbs).full
      ≡ tally x pb.waiters + held x pbs
unfolding sort_out
held-sort_out x size pb pbs = ground arith

pub held-add_record :
    (x : ℕ) (size : ℤ) (id : ℕ) (topic : Bytes) (partition : ℤ) (rec : Record) (waiter : ℕ)
    (pbs : List PendingBatch)
    → held x (add_record size id topic partition rec waiter pbs).kept
        + held x (add_record size id topic partition rec waiter pbs).full
      ≡ (if waiter == x then 1 else 0) + held x pbs
unfolding add_record joined
held-add_record x size id topic partition rec waiter [] =
    held-sort_out x size (joined rec waiter (new_batch id topic partition)) [] ∙ omega arith
held-add_record x size id topic partition rec waiter (pb ∷ pbs) =
    elim (Bool-cases (is_for topic partition pb)) [
      | inl here ↦ simp here (
          held-sort_out x size (joined rec waiter pb) pbs
          ∙ omega (arith, tally-append x pb.waiters (waiter ∷ [])))
      | inr other ↦
          simp other (omega (arith, held-add_record x size id topic partition rec waiter pbs))
    ]

pub held-take_off :
    (x id : ℕ) (pbs : List PendingBatch)
    → held x (take_off id pbs).0 + held x (take_off id pbs).1 ≡ held x pbs
unfolding take_off
held-take_off x id [] = refl
held-take_off x id (pb ∷ pbs) = elim (Bool-cases (pb.id == id)) [
  | inl here ↦ simp here (omega arith)
  | inr other ↦ simp other (omega (arith, held-take_off x id pbs))
]

pub held-pick :
    (x i : ℕ) (pbs : List PendingBatch) → held x (pick i pbs).0 + held x (pick i pbs).1 ≡ held x pbs
held-pick x zero [] = refl
held-pick x (suc i) [] = refl
held-pick x zero (pb ∷ pbs) = omega arith
held-pick x (suc i) (pb ∷ pbs) = omega (arith, held-pick x i pbs)
