-- ===== src/Coordinator/Assignor/Order.antt =====
-- The sorted list of members in internal/coordinator/assignor.go.
use mini_kafka.Prelude.{
  ◌≡◌, refl, sym, ap, ◌∙◌, ◌≢◌, suc, List, [], ◌∷◌, All, length, Bool-cases, inl, inr,
}
use mini_kafka.Protocol.Stream.{Bytes}
use mini_kafka.Coordinator.Assignor.{str_le, insert, sort_strings}

-- No string stands twice in the list.
abbrev pub AreDistinct : List Bytes → Type 0
AreDistinct [] = Unit {0}
AreDistinct (s ∷ ss) = All (λ t. s ≢ t) ss × AreDistinct ss

All-insert :
    (P : Bytes → Type 0) (s : Bytes) (ss : List Bytes) → P s → All P ss → All P (insert s ss)
unfolding insert
All-insert P s [] p h = (p, tt)
All-insert P s (t ∷ ts) p (q, h) = elim (Bool-cases (str_le s t)) [
  | inl before ↦ rw before (p, (q, h))
  | inr behind ↦ rw behind (q, All-insert P s ts p h)
]

All-sort_strings : (P : Bytes → Type 0) (ss : List Bytes) → All P ss → All P (sort_strings ss)
unfolding sort_strings
All-sort_strings P [] h = tt
All-sort_strings P (s ∷ ss) (p, h) = All-insert P s _ p (All-sort_strings P ss h)

AreDistinct-insert :
    (s : Bytes) (ss : List Bytes) → All (λ t. s ≢ t) ss → AreDistinct ss → AreDistinct (insert s ss)
unfolding insert
AreDistinct-insert s [] n h = (tt, tt)
AreDistinct-insert s (t ∷ ts) (n, ns) (d, h) = elim (Bool-cases (str_le s t)) [
  | inl before ↦ rw before ((n, ns), (d, h))
  | inr behind ↦ rw behind (All-insert _ s ts (λ e. n (sym e)) d, AreDistinct-insert s ts ns h)
]

pub AreDistinct-sort_strings : (ss : List Bytes) → AreDistinct ss → AreDistinct (sort_strings ss)
unfolding sort_strings
AreDistinct-sort_strings [] h = tt
AreDistinct-sort_strings (s ∷ ss) (n, h) =
    AreDistinct-insert s _ (All-sort_strings _ ss n) (AreDistinct-sort_strings ss h)

length-insert : (s : Bytes) (ss : List Bytes) → length (insert s ss) ≡ suc (length ss)
unfolding insert
length-insert s [] = refl
length-insert s (t ∷ ts) = elim (Bool-cases (str_le s t)) [
  | inl before ↦ rw before refl
  | inr behind ↦ rw behind (ap suc (length-insert s ts))
]

pub length-sort_strings : (ss : List Bytes) → length (sort_strings ss) ≡ length ss
unfolding sort_strings
length-sort_strings [] = refl
length-sort_strings (s ∷ ss) = length-insert s (sort_strings ss) ∙ ap suc (length-sort_strings ss)
