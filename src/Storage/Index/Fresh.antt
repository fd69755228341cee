-- ===== src/Storage/Index/Fresh.antt =====
-- internal/storage/index.go: a new index.
use mini_kafka.Prelude.{
  ℕ, zero, suc, ◌-◌, ◌*◌, ◌/◌, ◌≤◌, ◌<◌, ◌≡◌, refl, sym, ap, ◌∙◌, le→ltb_false, true, List, [],
  ◌++◌, length, take, replicate, arith,
}
use mini_kafka.Storage.Index.{
  Entry, Index, opened, entry_size, zero_entry, new_index, recovered, drop_zero_tail,
}
use mini_kafka.Storage.Index.Invariant.{IsValid}

length-replicate : {A : Type 0} (n : ℕ) (a : A) → length (replicate n a) ≡ n
length-replicate zero a = refl
length-replicate (suc n) a = ap suc (length-replicate n a)

take-nil : {A : Type 0} (n : ℕ) → ◌≡◌ {A = List A} (take n []) []
take-nil zero = refl
take-nil (suc n) = refl

pub record FreshIndex (max_bytes : ℕ) : Type 0 where
  pub index : Index
  pub slots : List Entry
  pub made : new_index [] max_bytes ≡ opened index
  pub valid : IsValid index slots 0
  pub capacity : 0 < length slots
  pub file : index.is_open ≡ true

pub new_index-Fresh : (max_bytes : ℕ) → entry_size ≤ max_bytes → FreshIndex max_bytes
unfolding new_index recovered drop_zero_tail
new_index-Fresh max_bytes h = record {
  index = recovered [] max_bytes;
  slots = take (max_bytes / entry_size) [] ++ replicate (max_bytes / entry_size - 0) zero_entry;
  made = ground arith;
  valid = record {
    mapped = refl;
    size = rw (le→ltb_false (max_bytes / entry_size) 0 (omega arith)) refl;
    max_size = ap (λ t. t * entry_size) (sym len);
    used = omega arith;
    sorted = record { rising = λ a b lt le. absurd (omega arith) };
  };
  capacity = omega (arith, len);
  file = refl;
}
  where
    len :
        length
          (take (max_bytes / entry_size) [] ++ replicate (max_bytes / entry_size - 0) zero_entry)
        ≡ max_bytes / entry_size
    len =
        rw (take-nil {A = Entry} (max_bytes / entry_size))
          (length-replicate (max_bytes / entry_size - 0) zero_entry ∙ omega arith)
