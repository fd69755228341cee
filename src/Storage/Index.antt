-- ===== src/Storage/Index.antt =====
-- internal/storage/index.go: the sparse index of a segment. The mapped region is the list of its
-- 8-byte slots, each a relative offset and a position, both uint32; sizes are in bytes.
pub mod Lookup
pub mod Invariant
pub mod Sealed
pub mod Fresh
use mini_kafka.Prelude.{
  ℕ, zero, suc, ◌+◌, ◌-◌, ◌*◌, ◌/◌, ◌%◌, Bool, true, false, Option, none, some, List, [], ◌∷◌, ◌++◌,
  ◌&&◌, ltb, leb, ◌==◌, get_elem?, set, take, length, replicate, if◌then◌else◌,
}
use mini_kafka.Storage.Search.{sort_search}

abbrev pub entry_size : ℕ
entry_size = 8

pub record Entry : Type 0 where
  pub relative_offset : ℕ
  pub position : ℕ

abbrev pub zero_entry : Entry
zero_entry = record { relative_offset = 0; position = 0 }

pub data IndexError : Type 0 where
  index_full not_mapped already_closed invalid_file max_size_too_small : IndexError

-- `slots` is none when nothing is mapped; `is_open` says that there is a file.
pub record Index : Type 0 where
  pub slots : Option (List Entry)
  pub size : ℕ
  pub max_size : ℕ
  pub is_open : Bool

abbrev pub slot : List Entry → ℕ → Entry
slot m i = elim (get_elem? m i) [ none ↦ zero_entry | some e ↦ e ]

-- The scan from the end that drops zero entries, and keeps the first entry in any case.
drop_zero_tail : List Entry → ℕ → ℕ
drop_zero_tail m zero = zero
drop_zero_tail m (suc zero) = suc zero
drop_zero_tail m (suc (suc n)) =
    let shorter = drop_zero_tail m (suc n) in
    if (slot m (suc n)).relative_offset == 0 && (slot m (suc n)).position == 0
    then shorter
    else suc (suc n)

-- NewIndex on a file with the slots `file`, the bytes behind the last whole slot left out:
-- the file is cut or zero-filled to `max_bytes`.
recovered : List Entry → ℕ → Index
unfolding drop_zero_tail
recovered file max_bytes =
    let slots = max_bytes / entry_size in
    let logical = if ltb slots (length file) then slots else length file in
    let mapped = take slots file ++ replicate (slots - length file) zero_entry in
    record {
      slots = some mapped;
      size = drop_zero_tail mapped logical * entry_size;
      max_size = slots * entry_size;
      is_open = true;
    }

pub data Opened : Type 0 where
  opened : Index → Opened
  refused : IndexError → Opened

unfoldable pub new_index : List Entry → ℕ → Opened
unfolding recovered
new_index file max_bytes =
    if max_bytes / entry_size == 0
    then refused max_size_too_small
    else opened (recovered file max_bytes)

unfoldable pub entries : Index → ℕ
entries i = i.size / entry_size

-- The write to the mapped region, at the end of the entries.
put_entry : Index → Option (List Entry) → Entry → Option IndexError × Index
put_entry i none e = (some not_mapped, i)
put_entry i (some m) e =
    (none, record i { slots = some (set m (i.size / entry_size) e); size = i.size + entry_size })

unfoldable pub append : Index → ℕ → ℕ → Option IndexError × Index
unfolding put_entry
append i relative_offset position =
    if ltb i.max_size (i.size + entry_size)
    then (some index_full, i)
    else put_entry i i.slots (record { relative_offset = relative_offset; position = position })

-- What a lookup answers: a position, and whether the offset itself is indexed.
pub data Answer : Type 0 where
  answer : ℕ → Bool → Answer
  lookup_failed : IndexError → Answer

-- The nearest lower entry before `idx`, if there is one.
nearest_lower : List Entry → ℕ → Answer
nearest_lower m zero = answer 0 false
nearest_lower m (suc k) = answer (slot m k).position false

lookup_entries : List Entry → ℕ → ℕ → Answer
unfolding nearest_lower
lookup_entries m n target =
    let idx = sort_search n (λ j. leb target (slot m j).relative_offset) in
    if n == 0
    then answer 0 false
    else if ltb idx n && (slot m idx).relative_offset == target
    then answer (slot m idx).position true
    else nearest_lower m idx

lookup_slots : Option (List Entry) → ℕ → ℕ → Answer
lookup_slots none n target = lookup_failed not_mapped
lookup_slots (some m) n target = lookup_entries m n target

unfoldable pub lookup : Index → ℕ → Answer
unfolding lookup_entries lookup_slots entries
lookup i target = lookup_slots i.slots (entries i) target

-- Seal: the file is cut to the entries, and mapped again unless it is empty. Both calls to the
-- system are taken to succeed.
sealed_slots : Option (List Entry) → ℕ → Option (List Entry)
sealed_slots none n = none
sealed_slots (some m) n = if n == 0 then none else some (take n m)

unfoldable pub seal : Index → Option IndexError × Index
unfolding sealed_slots entries
seal i =
    if i.is_open
    then (none, record i { slots = sealed_slots i.slots (entries i); max_size = i.size })
    else (some already_closed, i)

-- Close: the region is unmapped and the file cut to the entries; a second call does nothing.
pub close : Index → Index
close i = record i { slots = none; is_open = false }

-- Truncate: the same, but without a file it fails once the region is unmapped.
pub truncate : Index → Option IndexError × Index
truncate i =
    if i.is_open
    then (none, record i { slots = none; is_open = false })
    else (some invalid_file, record i { slots = none })
