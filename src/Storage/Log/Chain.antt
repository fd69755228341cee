-- ===== src/Storage/Log/Chain.antt =====
-- Where in a chain of segments an offset stands.
use mini_kafka.Prelude.{
  ℕ, zero, suc, ◌+◌, ◌-◌, ◌≤◌, ◌<◌, ◌≡◌, ◌⊎◌, inl, inr, refl, sym, ap, ◌∙◌, none, some, List, [],
  ◌∷◌, ◌++◌, length, get_elem?, arith,
}
use mathlib.Core.Path.{subst}
use mathlib.Core.List.{append-nil}
use mini_kafka.Storage.Record.{Record}
use mini_kafka.Storage.Segment.{Segment}
use mini_kafka.Storage.Log.{base_at}
use mini_kafka.Storage.Log.Contents.{Stored, IsChain}

get_elem?-append_left :
    {A : Type 0} (xs ys : List A) (j : ℕ) → j < length xs → get_elem? (xs ++ ys) j ≡ get_elem? xs j
get_elem?-append_left [] ys j h = absurd (omega arith)
get_elem?-append_left (x ∷ xs) ys zero h = refl
get_elem?-append_left (x ∷ xs) ys (suc j) h = get_elem?-append_left xs ys j (omega arith)

get_elem?-append_right :
    {A : Type 0} (xs ys : List A) (j k : ℕ)
    → j ≡ length xs + k
    → get_elem? (xs ++ ys) j ≡ get_elem? ys k
get_elem?-append_right [] ys j k e = ap (get_elem? ys) (omega arith)
get_elem?-append_right (x ∷ xs) ys zero k e = absurd (omega arith)
get_elem?-append_right (x ∷ xs) ys (suc j) k e = get_elem?-append_right xs ys j k (omega arith)

pub base_at-low :
    (base i : ℕ) (ss : List Segment) (rs : List Record)
    → IsChain base ss rs
    → i < length ss
    → base ≤ base_at ss i
base_at-low base i [] rs c h = absurd (omega arith)
base_at-low base zero (s ∷ ss) rs (xs, ys, e, b, st, c) h = omega arith
base_at-low base (suc i) (s ∷ ss) rs (xs, ys, e, b, st, c) h =
    omega (arith, base_at-low (base + length xs) i ss ys c (omega arith))

pub base_at_mono :
    (base i j : ℕ) (ss : List Segment) (rs : List Record)
    → IsChain base ss rs
    → i ≤ j
    → j < length ss
    → base_at ss i ≤ base_at ss j
base_at_mono base i j [] rs c le h = absurd (omega arith)
base_at_mono base zero zero (s ∷ ss) rs c le h = omega arith
base_at_mono base zero (suc j) (s ∷ ss) rs (xs, ys, e, b, st, c) le h =
    omega (arith, base_at-low (base + length xs) j ss ys c (omega arith))
base_at_mono base (suc i) zero (s ∷ ss) rs c le h = absurd (omega arith)
base_at_mono base (suc i) (suc j) (s ∷ ss) rs (xs, ys, e, b, st, c) le h =
    base_at_mono (base + length xs) i j ss ys c (omega arith) (omega arith)

-- The segment number `i` of a chain, with its records, which are those of the whole from its base
-- offset up to that of the next segment.
pub record At (base i : ℕ) (ss : List Segment) (rs : List Record) : Type 0 where
  pub segment : Segment
  pub records : List Record
  pub there : get_elem? ss i ≡ some segment
  pub stored : Stored segment records
  pub low : base ≤ segment.base_offset
  pub agrees :
      (k : ℕ)
      → segment.base_offset ≤ k
      → ((suc i < length ss) → k < base_at ss (suc i))
      → get_elem? rs (k - base) ≡ get_elem? records (k - segment.base_offset)

first_agrees :
    (base : ℕ) (ss : List Segment) (xs ys : List Record) (k : ℕ)
    → IsChain (base + length xs) ss ys
    → base ≤ k
    → ((0 < length ss) → k < base_at ss 0)
    → get_elem? (xs ++ ys) (k - base) ≡ get_elem? xs (k - base)
first_agrees base [] xs ys k c le lt = rw (c, append-nil xs) refl
first_agrees base (t ∷ ss) xs ys k (us, vs, e, b, st, c) le lt =
    get_elem?-append_left xs ys (k - base) (omega (arith, lt (omega arith)))

later-At :
    (base i : ℕ) (s : Segment) (ss : List Segment) (xs ys : List Record)
    → At (base + length xs) i ss ys
    → At base (suc i) (s ∷ ss) (xs ++ ys)
later-At base i s ss xs ys a = record {
  segment = a.segment;
  records = a.records;
  there = a.there;
  stored = a.stored;
  low = omega (arith, a.low);
  agrees = λ k le lt.
      get_elem?-append_right xs ys (k - base) (k - (base + length xs)) (omega (arith, a.low))
      ∙ a.agrees k le (λ some_next. lt (omega arith));
}

pub IsChain-At :
    (base i : ℕ) (ss : List Segment) (rs : List Record)
    → IsChain base ss rs
    → i < length ss
    → At base i ss rs
IsChain-At base i [] rs c h = absurd (omega arith)
IsChain-At base zero (s ∷ ss) rs (xs, ys, e, b, st, c) h = record {
  segment = s;
  records = xs;
  there = refl;
  stored = st;
  low = omega arith;
  agrees = λ k le lt.
      ap (λ zs. get_elem? zs (k - base)) e
      ∙ first_agrees base ss xs ys k c (omega arith) (λ some_next. lt (omega arith))
      ∙ ap (λ o. get_elem? xs (k - o)) (sym b);
}
IsChain-At base (suc i) (s ∷ ss) rs (xs, ys, e, b, st, c) h =
    subst (At base (suc i) (s ∷ ss)) (sym e)
      (later-At base i s ss xs ys (IsChain-At (base + length xs) i ss ys c (omega arith)))

pub get_elem?-snoc :
    {A : Type 0} (xs : List A) (x a : A) (i : ℕ)
    → get_elem? (xs ++ x ∷ []) i ≡ some a
    → (get_elem? xs i ≡ some a) ⊎ ((get_elem? xs i ≡ none) × (x ≡ a))
get_elem?-snoc [] x a zero e = inr (refl, cc)
get_elem?-snoc [] x a (suc i) e = cc
get_elem?-snoc (y ∷ xs) x a zero e = inl e
get_elem?-snoc (y ∷ xs) x a (suc i) e = get_elem?-snoc xs x a i e
