-- ===== src/Coordinator/Assignor/Range.antt =====
-- The ranges of a topic's partitions.
use mini_kafka.Prelude.{
  ℕ, zero, suc, ◌+◌, ◌/◌, ◌%◌, ◌≤◌, ◌<◌, ◌≡◌, ◌≢◌, refl, sym, ap, ◌∙◌, true, false, List, [], ◌∷◌,
  ◌++◌, All, length, str_eq, str_eq_iff, Bool-cases, inl, inr, arith,
}
use mini_kafka.Prelude.Int.{ℤ, pos}
use mini_kafka.Protocol.Stream.{Bytes}
use mathlib.Core.List.{append-nil}
use native.Mathlib.Nat.{
  add-zero, add-suc, suc-add, zero-add, mul-suc, mul-zero, div-add-mod', mod-lt,
}
use mini_kafka.Coordinator.Assignor.{
  appended, numbers, range_start, range_length, range_of, sort_strings,
}
use mini_kafka.Coordinator.Assignor.Order.{
  AreDistinct, AreDistinct-sort_strings, length-sort_strings,
}

-- The lists that `f` gives for the members, one behind the other.
abbrev pub concat_of : (Bytes → List ℤ) → List Bytes → List ℤ
concat_of f [] = []
concat_of f (m ∷ ms) = f m ++ concat_of f ms

concat_of-congr :
    (f g : Bytes → List ℤ) (ms : List Bytes)
    → All (λ m. f m ≡ g m) ms
    → concat_of f ms ≡ concat_of g ms
concat_of-congr f g [] h = refl
concat_of-congr f g (m ∷ ms) (e, h) = rw (e, concat_of-congr f g ms h) refl

numbers-append : (start a b : ℕ) → numbers start a ++ numbers (start + a) b ≡ numbers start (a + b)
numbers-append start zero b = rw (add-zero, zero-add) refl
numbers-append start (suc a) b =
    ap (λ r. pos start ∷ r)
      (ap (λ k. numbers (suc start) a ++ numbers k b) (omega arith)
        ∙ numbers-append (suc start) a b)
    ∙ ap (numbers start) (sym (suc-add a b))

length-numbers : (start n : ℕ) → length (numbers start n) ≡ n
length-numbers start zero = refl
length-numbers start (suc n) = ap suc (length-numbers (suc start) n)

same : (m : Bytes) → str_eq m m ≡ true
same m = (str_eq_iff m m).1 refl

differs : (m t : Bytes) → m ≢ t → str_eq m t ≡ false
differs m t h = elim (Bool-cases (str_eq m t)) [
  | inl e ↦ absurd (h ((str_eq_iff m t).0 e))
  | inr e ↦ e
]

module _ (per_consumer extra : ℕ) where
  range_start-suc :
      (i : ℕ)
      → range_start per_consumer extra (suc i)
        ≡ range_start per_consumer extra i + range_length per_consumer extra i
  range_start-suc i = ground (arith, mul-suc per_consumer i)

  width : ℕ → List Bytes → ℕ
  width i [] = 0
  width i (m ∷ ms) = range_length per_consumer extra i + width (suc i) ms

  range_start-width :
      (i : ℕ) (ms : List Bytes)
      → range_start per_consumer extra i + width i ms
        ≡ range_start per_consumer extra (i + length ms)
  unfolding width
  range_start-width i [] =
      add-zero (range_start per_consumer extra i)
      ∙ ap (range_start per_consumer extra) (sym (add-zero i))
  range_start-width i (m ∷ ms) =
      omega (arith, range_start-suc i, range_start-width (suc i) ms)
      ∙ ap (range_start per_consumer extra) (suc-add i (length ms) ∙ sym (add-suc i (length ms)))

  -- A string that is no member gets nothing.
  appended-absent :
      (i : ℕ) (ms : List Bytes) (t : Bytes)
      → All (λ m. t ≢ m) ms
      → appended per_consumer extra i ms t ≡ []
  unfolding appended
  appended-absent i [] t h = refl
  appended-absent i (m ∷ ms) t (n, h) =
      rw (differs m t (λ e. n (sym e))) (appended-absent (suc i) ms t h)

  appended-first :
      (i : ℕ) (m : Bytes) (ms : List Bytes)
      → All (λ t. m ≢ t) ms
      → appended per_consumer extra i (m ∷ ms) m
        ≡ numbers (range_start per_consumer extra i) (range_length per_consumer extra i)
  unfolding appended
  appended-first i m ms h = rw (same m, appended-absent (suc i) ms m h) (append-nil _)

  -- The first member takes nothing from the others.
  appended-later :
      (i : ℕ) (m : Bytes) (ms ts : List Bytes)
      → All (λ t. m ≢ t) ts
      → All
          (λ t. appended per_consumer extra i (m ∷ ms) t ≡ appended per_consumer extra (suc i) ms t)
          ts
  unfolding appended
  appended-later i m ms [] h = tt
  appended-later i m ms (t ∷ ts) (n, h) = (rw (differs m t n) refl, appended-later i m ms ts h)

  concat_of-appended :
      (i : ℕ) (ms : List Bytes)
      → AreDistinct ms
      → concat_of (appended per_consumer extra i ms) ms
        ≡ numbers (range_start per_consumer extra i) (width i ms)
  unfolding width
  concat_of-appended i [] h = refl
  concat_of-appended i (m ∷ ms) (n, h) =
      rw
        (
          appended-first i m ms n,
          concat_of-congr _ _ ms (appended-later i m ms ms n),
          concat_of-appended (suc i) ms h,
          range_start-suc i,
        )
        (numbers-append _ (range_length per_consumer extra i) (width (suc i) ms))

  -- Each member gets the quotient, or one more.
  length-appended :
      (i : ℕ) (ms : List Bytes)
      → AreDistinct ms
      → All
          (λ m.
            (per_consumer ≤ length (appended per_consumer extra i ms m))
            × (length (appended per_consumer extra i ms m) ≤ per_consumer + 1))
          ms
  length-appended i [] h = tt
  length-appended i (m ∷ ms) (n, h) = (
    rw (appended-first i m ms n, length-numbers) (ground arith),
    later ms (appended-later i m ms ms n) (length-appended (suc i) ms h),
  )
    where
      later :
          (ts : List Bytes)
          → All
              (λ t.
                appended per_consumer extra i (m ∷ ms) t ≡ appended per_consumer extra (suc i) ms t)
              ts
          → All
              (λ t.
                (per_consumer ≤ length (appended per_consumer extra (suc i) ms t))
                × (length (appended per_consumer extra (suc i) ms t) ≤ per_consumer + 1))
              ts
          → All
              (λ t.
                (per_consumer ≤ length (appended per_consumer extra i (m ∷ ms) t))
                × (length (appended per_consumer extra i (m ∷ ms) t) ≤ per_consumer + 1))
              ts
      later [] e b = tt
      later (t ∷ ts) (e, es) (b, bs) = (rw e b, later ts es bs)

range_start-zero : (per_consumer extra : ℕ) → range_start per_consumer extra 0 ≡ 0
range_start-zero per_consumer extra = ground (arith, mul-zero per_consumer)

range_start-last : (n k : ℕ) → 0 < k → range_start (n / k) (n % k) k ≡ n
range_start-last n k h = ground (arith, div-add-mod' n k, mod-lt n h)

module _ (members : List Bytes) (n : ℕ) (distinct : AreDistinct members)
    (some_member : 0 < length members) where
  abbrev sorted : List Bytes
  sorted = sort_strings members

  -- If the members of a group are distinct and there is one at least, the ranges of a topic with n
  -- partitions, taken in the sorted order of the members, are the numbers from 0 to n - 1: every
  -- partition goes to exactly one member, and each member gets consecutive ones.
  pub concat_of-range_of : concat_of (range_of sorted (pos n)) sorted ≡ numbers 0 n
  unfolding range_of
  concat_of-range_of =
      concat_of-appended (n / length sorted) (n % length sorted) 0 sorted
        (AreDistinct-sort_strings members distinct)
      ∙ ap (λ s. numbers s (width (n / k) (n % k) 0 sorted)) (range_start-zero (n / k) (n % k))
      ∙ ap (numbers 0) all
    where
      k : ℕ
      k = length sorted

      some_sorted : 0 < k
      some_sorted = omega (arith, length-sort_strings members)

      all : width (n / k) (n % k) 0 sorted ≡ n
      all =
          omega
            (arith, range_start-zero (n / k) (n % k), range_start-width (n / k) (n % k) 0 sorted)
          ∙ ap (range_start (n / k) (n % k)) (zero-add k)
          ∙ range_start-last n k some_sorted

  -- If the members of a group are distinct and there is one at least, each member gets, of a topic
  -- with n partitions, the quotient of n by the number of members, or one more.
  pub length-range_of :
      All
        (λ m.
          (n / length members ≤ length (range_of sorted (pos n) m))
          × (length (range_of sorted (pos n) m) ≤ n / length members + 1))
        sorted
  unfolding range_of
  length-range_of = rw (← length-sort_strings members) (
      length-appended (n / length sorted) (n % length sorted) 0 sorted
        (AreDistinct-sort_strings members distinct))
