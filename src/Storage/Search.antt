-- ===== src/Storage/Search.antt =====
-- sort.Search of Go's library, as index.go calls it, and what it finds.
use mini_kafka.Prelude.{
  ℕ, zero, suc, ◌+◌, ◌/◌, ◌≤◌, ◌<◌, ◌≡◌, Bool, true, false, inl, inr, Bool-cases, ltb,
  if◌then◌else◌, arith,
}

-- `for i < j { h := (i+j)/2; if !f(h) { i = h + 1 } else { j = h } }`, for at most `fuel` rounds.
search_loop : ℕ → (ℕ → Bool) → ℕ → ℕ → ℕ
search_loop zero f i j = i
search_loop (suc fuel) f i j =
    let h = (i + j) / 2 in
    let left = search_loop fuel f i h in
    let right = search_loop fuel f (h + 1) j in if ltb i j then (if f h then left else right) else i

-- Each round shortens the interval, so `n` rounds are enough.
unfoldable pub sort_search : ℕ → (ℕ → Bool) → ℕ
unfolding search_loop
sort_search n f = search_loop n f 0 n

-- `k` splits the positions below `n` into those that fail `f` and those that pass.
pub record Splits (n : ℕ) (f : ℕ → Bool) (k : ℕ) : Type 0 where
  pub bound : k ≤ n
  pub below : (m : ℕ) → m < k → f m ≡ false
  pub above : (m : ℕ) → k ≤ m → m < n → f m ≡ true

module _ (n : ℕ) (f : ℕ → Bool) (mono : (a b : ℕ) → a ≤ b → b < n → f a ≡ true → f b ≡ true) where
  passes_above : (h : ℕ) → f h ≡ true → (m : ℕ) → h ≤ m → m < n → f m ≡ true
  passes_above h e m le lt = mono h m le lt e

  fails_below : (h : ℕ) → h < n → f h ≡ false → (m : ℕ) → m < h + 1 → f m ≡ false
  fails_below h lt e m mh = elim (Bool-cases (f m)) [
    | inl t ↦ absurd (cc (mono m h (omega arith) lt t))
    | inr no_pass ↦ no_pass
  ]

  search_loop-Splits :
      (fuel i j : ℕ)
      → j ≤ i + fuel
      → i ≤ j
      → j ≤ n
      → ((m : ℕ) → m < i → f m ≡ false)
      → ((m : ℕ) → j ≤ m → m < n → f m ≡ true)
      → Splits n f (search_loop fuel f i j)
  unfolding search_loop
  search_loop-Splits zero i j enough le jn lo hi = record {
    bound = omega arith;
    below = lo;
    above = λ m a b. hi m (omega arith) b;
  }
  search_loop-Splits (suc fuel) i j enough le jn lo hi = elim (Bool-cases (ltb i j)) [
    | inr done ↦
        rw done (record { bound = omega arith; below = lo; above = λ m a b. hi m (ground arith) b })
    | inl more ↦ elim (Bool-cases (f ((i + j) / 2))) [
      | inl pass ↦
          rw (more, pass)
            (search_loop-Splits fuel i ((i + j) / 2) (ground arith) (omega arith) (omega arith) lo
              (passes_above ((i + j) / 2) pass))
      | inr miss ↦
          rw (more, miss)
            (search_loop-Splits fuel ((i + j) / 2 + 1) j (ground arith) (ground arith) jn
              (fails_below ((i + j) / 2) (ground arith) miss) hi)
    ]
  ]

  -- For a test that stays true once it is, the binary search over n positions returns the first
  -- position that passes, and n if none does.
  pub sort_search-Splits : Splits n f (sort_search n f)
  unfolding sort_search
  sort_search-Splits =
      search_loop-Splits n 0 n (omega arith) (omega arith) (omega arith)
        (λ m h. absurd (omega arith)) (λ m h k. absurd (omega arith))
