-- ===== src/Storage/Index/Sealed.antt =====
-- internal/storage/index.go: the entries of a sealed index.
use mini_kafka.Prelude.{
  ℕ, zero, suc, ◌*◌, ◌≤◌, ◌<◌, ◌≡◌, refl, sym, ap, ◌∙◌, true, none, some, List, [], ◌∷◌, length,
  take, get_elem?, arith,
}
use mini_kafka.Storage.Index.{Entry, Index, slot, entry_size, seal, sealed_slots}
use mini_kafka.Storage.Index.Invariant.{IsValid, entries-IsValid}

length-take : {A : Type 0} (n : ℕ) (xs : List A) → n ≤ length xs → length (take n xs) ≡ n
length-take zero xs h = refl
length-take (suc n) [] h = absurd (omega arith)
length-take (suc n) (x ∷ xs) h = ap suc (length-take n xs (omega arith))

get_elem?-take :
    {A : Type 0} (n k : ℕ) (xs : List A) → k < n → get_elem? (take n xs) k ≡ get_elem? xs k
get_elem?-take zero k xs h = absurd (omega arith)
get_elem?-take (suc n) k [] h = refl
get_elem?-take (suc n) zero (x ∷ xs) h = refl
get_elem?-take (suc n) (suc k) (x ∷ xs) h = get_elem?-take n k xs (omega arith)

pub slot-take : (n k : ℕ) (m : List Entry) → k < n → slot (take n m) k ≡ slot m k
slot-take n k m h = rw (get_elem?-take n k m h, slot) refl

some_slots : (m : List Entry) (n : ℕ) → 0 < n → sealed_slots (some m) n ≡ some (take n m)
unfolding sealed_slots
some_slots m zero h = absurd (omega arith)
some_slots m (suc n) h = ground arith

-- Sealing a valid index that has a file and an entry succeeds, and keeps the entries.
pub seal-IsValid :
    (i : Index) (m : List Entry) (n : ℕ)
    → IsValid i m n
    → i.is_open ≡ true
    → 0 < n
    → ((seal i).0 ≡ none) × IsValid (seal i).1 (take n m) n
unfolding seal
seal-IsValid i m n v o h = rw o (
  refl,
  record {
    mapped = rw (entries-IsValid v, v.mapped) (some_slots m n h);
    size = v.size;
    max_size = v.size ∙ ap (λ t. t * entry_size) (sym (length-take n m v.used));
    used = omega (arith, length-take n m v.used);
    sorted = record {
      rising = λ a b lt le.
          rw (slot-take n a m (omega arith), slot-take n b m le) (v.sorted.rising a b lt le);
    };
  },
)
