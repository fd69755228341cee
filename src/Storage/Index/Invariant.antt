-- ===== src/Storage/Index/Invariant.antt =====
-- The invariant of a mapped index, and that appending keeps it.
use mini_kafka.Prelude.{
  ℕ, suc, ◌+◌, ◌*◌, ◌/◌, ◌≤◌, ◌<◌, ◌≡◌, ◌≢◌, refl, Option, ltb, none, some, List, inl, inr, ◌==◌,
  length, set, length-set, get_elem?-set_self, get_elem?-set_ne, lt→ltb, le→ltb_false, ==_iff,
  Bool-cases, arith,
}
use mathlib.Core.Path.{subst}
use mini_kafka.Storage.Index.{
  Entry, Index, index_full, slot, entry_size, entries, append, put_entry,
}
use mini_kafka.Storage.Index.Lookup.{IsSorted}

-- `n` entries with rising offsets in the mapped slots `m`, and the sizes that say so.
pub record IsValid (i : Index) (m : List Entry) (n : ℕ) : Type 0 where
  pub mapped : i.slots ≡ some m
  pub size : i.size ≡ n * entry_size
  pub max_size : i.max_size ≡ length m * entry_size
  pub used : n ≤ length m
  pub sorted : IsSorted m n

pub entries-IsValid : {i : Index} {m : List Entry} {n : ℕ} → IsValid i m n → entries i ≡ n
unfolding entries
entries-IsValid v = omega (arith, v.size)

pub slot-set_self : (m : List Entry) (n : ℕ) (e : Entry) → n < length m → slot (set m n e) n ≡ e
slot-set_self m n e h = rw (get_elem?-set_self m n e h, slot)

pub slot-set_ne : (m : List Entry) (n k : ℕ) (e : Entry) → n ≢ k → slot (set m n e) k ≡ slot m k
slot-set_ne m n k e h = rw (get_elem?-set_ne m n k e h, slot)

-- The new entry lies above all the old ones.
abbrev pub IsAbove : List Entry → ℕ → ℕ → Type 0
IsAbove m n relative_offset = (k : ℕ) → k < n → (slot m k).relative_offset < relative_offset

IsSorted-set :
    (m : List Entry) (n : ℕ) (e : Entry)
    → n < length m
    → IsSorted m n
    → IsAbove m n e.relative_offset
    → IsSorted (set m n e) (suc n)
IsSorted-set m n e room s top = record { rising = rising }
  where
    rising :
        (a b : ℕ)
        → a < b
        → b < suc n
        → (slot (set m n e) a).relative_offset < (slot (set m n e) b).relative_offset
    rising a b lt le = elim (Bool-cases (n == b)) [
      | inl last ↦
          subst (λ c. (slot (set m n e) a).relative_offset < (slot (set m n e) c).relative_offset)
            ((==_iff n b).0 last)
            (rw (slot-set_self m n e room, slot-set_ne m n a e (ground arith))
              (top a (ground arith)))
      | inr inner ↦
          rw (slot-set_ne m n a e (ground arith), slot-set_ne m n b e (ground arith))
            (s.rising a b lt (ground arith))
    ]

-- On a valid index with room for one more entry, appending an offset above all others succeeds,
-- stores the entry in the slot behind them and keeps the index valid: its size counts the entries
-- and their offsets rise.
pub append-IsValid :
    (i : Index) (m : List Entry) (n relative_offset position : ℕ)
    → IsValid i m n
    → n < length m
    → IsAbove m n relative_offset
    → ((append i relative_offset position).0 ≡ none)
      × IsValid
          (append i relative_offset position).1
          (set m n (record { relative_offset = relative_offset; position = position }))
          (suc n)
unfolding append put_entry
append-IsValid i m n relative_offset position v room top =
    rw
      (
        le→ltb_false i.max_size (i.size + entry_size) (omega (arith, v.size, v.max_size)),
        v.mapped,
        len,
      )
      (
        refl,
        record {
          mapped = refl;
          size = omega (arith, v.size);
          max_size = rw length-set v.max_size;
          used = rw length-set room;
          sorted = IsSorted-set m n _ room v.sorted top;
        },
      )
  where
    len : i.size / entry_size ≡ n
    len = omega (arith, v.size)

-- On a valid index whose slots are all used, an append replies that the index is full and changes
-- nothing.
pub append-full :
    (i : Index) (m : List Entry) (n relative_offset position : ℕ)
    → IsValid i m n
    → n ≡ length m
    → append i relative_offset position ≡ (some index_full, i)
unfolding append
append-full i m n relative_offset position v full =
    rw (lt→ltb i.max_size (i.size + entry_size) (omega (arith, v.size, v.max_size)))

put_entry-is_open :
    (i : Index) (m : Option (List Entry)) (e : Entry) → (put_entry i m e).1.is_open ≡ i.is_open
unfolding put_entry
put_entry-is_open i none e = refl
put_entry-is_open i (some m) e = refl

-- An append leaves the file as it is, open or not.
pub append-is_open :
    (i : Index) (relative_offset position : ℕ)
    → (append i relative_offset position).1.is_open ≡ i.is_open
unfolding append
append-is_open i relative_offset position =
    elim (Bool-cases (ltb i.max_size (i.size + entry_size))) [
      | inl full ↦ rw full refl
      | inr room ↦ rw room (put_entry-is_open i i.slots _)
    ]
