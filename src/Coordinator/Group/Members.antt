-- ===== src/Coordinator/Group/Members.antt =====
-- The map of members under its updates.
use mini_kafka.Prelude.{
  ◌≡◌, inl, inr, refl, sym, ◌∙◌, Bool, true, false, ◌||◌, some, List, [], ◌∷◌, map, Bool-cases,
  str_eq, str_eq_iff, arith,
}
use mathlib.Core.Path.{subst}
use mathlib.Core.Option.{some-injective}
use mini_kafka.Protocol.Stream.{Bytes}
use mini_kafka.Coordinator.Group.{Member, find_member, has_member, put_member, keep_members}

-- No id stands twice.
abbrev pub HasDistinct : List Member → Type 0
HasDistinct [] = Unit {0}
HasDistinct (m ∷ ms) = (has_member m.id ms ≡ false) × HasDistinct ms

pub str_eq-sym : (s t : Bytes) → str_eq s t ≡ str_eq t s
str_eq-sym s t = elim (Bool-cases (str_eq s t)) [
  | inl e ↦ e ∙ sym ((str_eq_iff t s).1 (sym ((str_eq_iff s t).0 e)))
  | inr e ↦ elim (Bool-cases (str_eq t s)) [
    | inl f ↦ ground (arith, str_eq_iff s t, str_eq_iff t s)
    | inr f ↦ e ∙ sym f
  ]
]

pub has_member-put_member :
    (id : Bytes) (m : Member) (ms : List Member)
    → has_member id (put_member m ms) ≡ (str_eq m.id id || has_member id ms)
unfolding has_member put_member
has_member-put_member id m [] = refl
has_member-put_member id m (other ∷ ms) = elim (Bool-cases (str_eq other.id m.id)) [
  | inl same ↦ rw same (rw ((str_eq_iff other.id m.id).0 same) ground arith)
  | inr differs ↦ rw differs (rw (has_member-put_member id m ms) (ground arith))
]

pub put_member-HasDistinct :
    (m : Member) (ms : List Member) → HasDistinct ms → HasDistinct (put_member m ms)
unfolding put_member has_member
put_member-HasDistinct m [] h = (refl, tt)
put_member-HasDistinct m (other ∷ ms) (n, h) = elim (Bool-cases (str_eq other.id m.id)) [
  | inl same ↦
      rw same (subst (λ i. has_member i ms ≡ false) ((str_eq_iff other.id m.id).0 same) n, h)
  | inr differs ↦ rw differs (
    has_member-put_member other.id m ms ∙ rw (str_eq-sym m.id other.id, differs, n) refl,
    put_member-HasDistinct m ms h,
  )
]

-- A change of the members that leaves their ids.
abbrev pub KeepsId : (Member → Member) → Type 0
KeepsId f = (m : Member) → (f m).id ≡ m.id

pub has_member-map :
    (f : Member → Member)
    → KeepsId f
    → (id : Bytes) (ms : List Member) → has_member id (map f ms) ≡ has_member id ms
unfolding has_member
has_member-map f k id [] = refl
has_member-map f k id (m ∷ ms) = rw (k m, has_member-map f k id ms) refl

pub map-HasDistinct :
    (f : Member → Member) → KeepsId f → (ms : List Member) → HasDistinct ms → HasDistinct (map f ms)
map-HasDistinct f k [] h = tt
map-HasDistinct f k (m ∷ ms) (n, h) =
    (rw (k m) (has_member-map f k m.id ms ∙ n), map-HasDistinct f k ms h)

has_member-keep_members :
    (test : Member → Bool) (id : Bytes) (ms : List Member)
    → has_member id ms ≡ false
    → has_member id (keep_members test ms) ≡ false
unfolding has_member keep_members
has_member-keep_members test id [] h = refl
has_member-keep_members test id (m ∷ ms) h = ground (arith, has_member-keep_members test id ms)

pub keep_members-HasDistinct :
    (test : Member → Bool) (ms : List Member) → HasDistinct ms → HasDistinct (keep_members test ms)
unfolding keep_members
keep_members-HasDistinct test [] h = tt
keep_members-HasDistinct test (m ∷ ms) (n, h) = elim (Bool-cases (test m)) [
  | inl kept ↦ rw kept (has_member-keep_members test m.id ms n, keep_members-HasDistinct test ms h)
  | inr gone ↦ rw gone (keep_members-HasDistinct test ms h)
]

-- What is found under an id has that id.
pub find_member-id :
    (id : Bytes) (ms : List Member) (m : Member)
    → find_member id ms ≡ some m
    → (m.id ≡ id) × (has_member id ms ≡ true)
unfolding find_member has_member
find_member-id id [] m e = cc
find_member-id id (x ∷ ms) m e = elim (Bool-cases (str_eq x.id id)) [
  | inl here ↦
      let e' : some x ≡ some m = rw here at e in
      (rw (sym (some-injective x m e')) ((str_eq_iff x.id id).0 here), rw here refl)
  | inr other ↦
      let e' : find_member id ms ≡ some m = rw other at e in
      let r = find_member-id id ms m e' in (r.0, rw (other, r.1) refl)
]
