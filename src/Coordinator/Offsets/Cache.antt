-- ===== src/Coordinator/Offsets/Cache.antt =====
-- internal/coordinator/offsets.go: the cache of offsets as a map, and the record of a commit.
use mini_kafka.Prelude.{
  ℕ, ◌≡◌, refl, sym, Option, none, some, List, [], ◌∷◌, ◌++◌, take_all, str_eq, str_eq_iff, ◌^◌,
  if◌then◌else◌, arith,
}
use mini_kafka.Prelude.Int.{ℤ, unsigned, signed-unsigned, unsigned-lt, IsInt64}
use mini_kafka.Protocol.Stream.{Bytes}
use mini_kafka.Protocol.Codec.{be}
use mathlib.Core.Path.{subst}
use mini_kafka.Protocol.Codec.RoundTrip.{length-be, of_be-be}
use mini_kafka.Storage.Record.{Record}
use mini_kafka.Coordinator.Offsets.{
  CacheEntry, lookup, put, delete, rolled_back, replay_records, replay_key, replay_field,
  commit_record, offset_key,
}

pub lookup-put :
    (es : List CacheEntry) (key key' : Bytes) (offset : ℤ)
    → lookup (put es key offset) key' ≡ (if str_eq key key' then some offset else lookup es key')
unfolding lookup put
lookup-put [] key key' offset = ground (arith, str_eq_iff key key')
lookup-put (e ∷ es) key key' offset = ground (
  arith,
  lookup-put es key key' offset,
  str_eq_iff e.key key,
  str_eq_iff e.key key',
  str_eq_iff key key',
)

pub lookup-delete :
    (es : List CacheEntry) (key key' : Bytes)
    → lookup (delete es key) key' ≡ (if str_eq key key' then none else lookup es key')
unfolding lookup delete
lookup-delete [] key key' = ground (arith, str_eq_iff key key')
lookup-delete (e ∷ es) key key' = ground (
  arith,
  lookup-delete es key key',
  str_eq_iff e.key key,
  str_eq_iff e.key key',
  str_eq_iff key key',
)

restored :
    (es : List CacheEntry) (key key' : Bytes) (offset : ℤ) (old : Option ℤ)
    → lookup es key ≡ old
    → lookup (rolled_back (put es key offset) old key) key' ≡ lookup es key'
unfolding rolled_back
restored es key key' offset none e = ground (
  arith,
  lookup-delete (put es key offset) key key',
  lookup-put es key key' offset,
  str_eq_iff key key',
  e,
)
restored es key key' offset (some old) e = ground (
  arith,
  lookup-put (put es key offset) key key' old,
  lookup-put es key key' offset,
  str_eq_iff key key',
  e,
)

-- The roll-back of a commit gives the cache from before it back.
pub lookup-rolled_back :
    (es : List CacheEntry) (key key' : Bytes) (offset : ℤ)
    → lookup (rolled_back (put es key offset) (lookup es key) key) key' ≡ lookup es key'
lookup-rolled_back es key key' offset = restored es key key' offset (lookup es key) refl

pub replay_records-append :
    (es : List CacheEntry) (rs : List Record) (r : Record)
    → replay_records es (rs ++ r ∷ []) ≡ replay_key (replay_records es rs) r.key r.value
unfolding replay_records
replay_records-append es [] r = refl
replay_records-append es (s ∷ rs) r = replay_records-append (replay_key es s.key s.value) rs r

-- A key has a colon at least.
offset_key-cons :
    (group_id topic : Bytes) (partition : ℤ)
    → (b : ℕ) × (bs : Bytes) × (offset_key group_id topic partition ≡ b ∷ bs)
unfolding offset_key
offset_key-cons [] topic partition = (_, _, refl)
offset_key-cons (b ∷ bs) topic partition = (_, _, refl)

replay_field-int64 :
    (es : List CacheEntry) (key : Bytes) (offset : ℤ)
    → IsInt64 offset
    → replay_field es key (some (be 8 (unsigned (2 ^ 63) offset))) ≡ put es key offset
unfolding replay_field
replay_field-int64 es key offset h =
    rw
      (
        length-be 8 n,
        take_all (be 8 n) 8 (omega (arith, length-be 8 n)),
        of_be-be 8 n (omega (arith, unsigned-lt (2 ^ 63) offset h)),
        signed-unsigned (2 ^ 63) offset h,
      )
      refl
  where
    n : ℕ
    n = unsigned (2 ^ 63) offset

-- The record of a commit, replayed, puts the offset in the cache.
pub replay_key-commit :
    (es : List CacheEntry) (now : ℕ) (group_id topic : Bytes) (partition offset : ℤ)
    → IsInt64 offset
    → replay_key es
        (commit_record now (offset_key group_id topic partition) offset).key
        (commit_record now (offset_key group_id topic partition) offset).value
      ≡ put es (offset_key group_id topic partition) offset
unfolding replay_key commit_record
replay_key-commit es now group_id topic partition offset h =
    let c = offset_key-cons group_id topic partition in
    subst
      (λ key. replay_key es (some key) (some (be 8 (unsigned (2 ^ 63) offset))) ≡ put es key offset)
      (sym c.2) (replay_field-int64 es (c.0 ∷ c.1) offset h)
