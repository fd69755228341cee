-- ===== src/Storage/Index/Lookup.antt =====
-- internal/storage/index.go: the binary search of a lookup.
use mini_kafka.Prelude.{
  ℕ, zero, suc, ◌≤◌, ◌<◌, ◌≡◌, true, false, some, List, inl, inr, ◌&&◌, ltb, leb, ◌==◌, le→leb,
  leb→le, Bool-cases, Bool, ==_iff, leb_false→lt, if◌then◌else◌, arith,
}
use mathlib.Core.Path.{subst}
use mini_kafka.Storage.Search.{sort_search, sort_search-Splits, Splits}
use mini_kafka.Storage.Index.{
  Entry, Index, slot, Answer, answer, entries, nearest_lower, lookup_entries, lookup,
}

-- The entries in use have rising offsets.
pub record IsSorted (m : List Entry) (n : ℕ) : Type 0 where
  pub rising : (a b : ℕ) → a < b → b < n → (slot m a).relative_offset < (slot m b).relative_offset

-- What an answer says of the first `n` slots: the entry of the offset itself; else the last entry
-- below it; else that all entries are above it.
pub data Finds (m : List Entry) (n target : ℕ) : Answer → Type 0 where
  exact :
      (k : ℕ)
      → k < n
      → (slot m k).relative_offset ≡ target
      → Finds m n target (answer (slot m k).position true)
  lower :
      (k : ℕ)
      → k < n
      → (slot m k).relative_offset < target
      → ((j : ℕ) → k < j → j < n → target < (slot m j).relative_offset)
      → Finds m n target (answer (slot m k).position false)
  nothing :
      ((j : ℕ) → j < n → target < (slot m j).relative_offset) → Finds m n target (answer 0 false)

module _ (m : List Entry) (n target : ℕ) (s : IsSorted m n) where
  at_target :
      (a b : ℕ)
      → a ≤ b
      → b < n
      → leb target (slot m a).relative_offset ≡ true
      → leb target (slot m b).relative_offset ≡ true
  at_target a b le lt e = elim (Bool-cases (a == b)) [
    | inl same ↦ subst (λ c. leb target (slot m c).relative_offset ≡ true) ((==_iff a b).0 same) e
    | inr differ ↦
        le→leb _ _ (
          omega (arith, leb→le target (slot m a).relative_offset e, s.rising a b (ground arith) lt))
  ]

  nearest_lower-Finds :
      (idx : ℕ)
      → idx ≤ n
      → ((k : ℕ) → k < idx → leb target (slot m k).relative_offset ≡ false)
      → ((k : ℕ) → idx ≤ k → k < n → target < (slot m k).relative_offset)
      → Finds m n target (nearest_lower m idx)
  unfolding nearest_lower
  nearest_lower-Finds zero le below above = nothing (λ j h. above j (omega arith) h)
  nearest_lower-Finds (suc k) le below above =
      lower k (omega arith) (leb_false→lt _ _ (below k (omega arith)))
        (λ j h l. above j (omega arith) l)

  -- Where the first entry at or above the target is not at it, all from there on are above.
  strictly_above :
      (idx : ℕ)
      → (ltb idx n && (slot m idx).relative_offset == target) ≡ false
      → ((k : ℕ) → idx ≤ k → k < n → leb target (slot m k).relative_offset ≡ true)
      → (k : ℕ) → idx ≤ k
      → k < n
      → target < (slot m k).relative_offset
  strictly_above idx miss above k le lt = elim (Bool-cases (idx == k)) [
    | inl same ↦ ground (arith, above idx (omega arith) (ground arith))
    | inr differ ↦ omega (
      arith,
      leb→le target (slot m idx).relative_offset (above idx (omega arith) (ground arith)),
      s.rising idx k (ground arith) lt,
    )
  ]

  lookup_entries-Finds : Finds m n target (lookup_entries m n target)
  unfolding lookup_entries
  lookup_entries-Finds = split (sort_search n f) (sort_search-Splits n f at_target)
    where
      f : ℕ → Bool
      f j = leb target (slot m j).relative_offset

      split :
          (idx : ℕ)
          → Splits n f idx
          → Finds m n target (
              if n == 0
              then answer 0 false
              else if ltb idx n && (slot m idx).relative_offset == target
              then answer (slot m idx).position true
              else nearest_lower m idx)
      split idx sp = elim (Bool-cases (n == 0)) [
        | inl empty ↦ rw empty (nothing (λ j h. absurd (ground arith)))
        | inr used ↦ elim (Bool-cases (ltb idx n && (slot m idx).relative_offset == target)) [
          | inl hit ↦ rw (used, hit) (exact idx (ground arith) (ground arith))
          | inr miss ↦
              rw (used, miss)
                (nearest_lower-Finds idx sp.bound sp.below (strictly_above idx miss sp.above))
        ]
      ]

-- On a mapped index whose entries rise, the binary search of a lookup returns the entry of the
-- offset itself if it is indexed; otherwise the last entry below it, and position 0 if there is
-- none below.
pub lookup-Finds :
    (i : Index) (m : List Entry) (target : ℕ)
    → i.slots ≡ some m
    → IsSorted m (entries i)
    → Finds m (entries i) target (lookup i target)
lookup-Finds i m target e s = unfold lookup in rw e (lookup_entries-Finds m (entries i) target s)
