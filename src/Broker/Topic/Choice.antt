-- ===== src/Broker/Topic/Choice.antt =====
-- PartitionFor of internal/broker/topic.go.
use mini_kafka.Prelude.{
  ℕ, suc, sym, ap, ◌∙◌, ◌+◌, ◌%◌, ◌^◌, ◌<◌, ◌≡◌, refl, inl, inr, ◌⊎◌, leb, length, arith, some,
  get_elem?, zero, List, [], ◌∷◌, false, true,
}
use mini_kafka.Prelude.Int.{ℤ, pos, wrap, leb_ℤ, signed, signed-small}
use native.Mathlib.Nat.{mod-lt, mod-eq_of_lt}
use mathlib.Core.Path.{subst}
use mini_kafka.Protocol.Stream.{Bytes}
use mini_kafka.Broker.Murmur.{murmur2}
use mini_kafka.Broker.Partition.{Partition}
use mini_kafka.Broker.Topic.{Topic, partition_for, get_partition}

-- The topic has the partition.
abbrev pub Has : Topic → ℤ → Type 0
Has t id = (p : Partition) × (get_partition t id ≡ some p)

get_elem?-found :
    {A : Type 0} (xs : List A) (i : ℕ) → i < length xs → (x : A) × (get_elem? xs i ≡ some x)
get_elem?-found [] i h = absurd (omega arith)
get_elem?-found (x ∷ xs) zero h = (x, refl)
get_elem?-found (x ∷ xs) (suc i) h = get_elem?-found xs i (omega arith)

-- What `n` choices without a key leave of a topic.
unfoldable pub turns : ℕ → Topic → Topic
turns zero t = t
turns (suc n) t = turns n (partition_for t []).0

module _ (t : Topic) (some_partition : 0 < length t.partitions)
    (small : length t.partitions < 2 ^ 31) where
  -- The count of partitions fits an int32.
  count : wrap (2 ^ 31) (pos (length t.partitions)) ≡ pos (length t.partitions)
  unfolding wrap
  count =
      ap (signed (2 ^ 31)) (mod-eq_of_lt (omega arith))
      ∙ signed-small (2 ^ 31) (length t.partitions) small

  turn : (m : ℕ) → signed (2 ^ 31) (m % length t.partitions) ≡ pos (m % length t.partitions)
  turn m = signed-small (2 ^ 31) (m % length t.partitions) (omega (arith, mod-lt m some_partition))

  positive : leb_ℤ (pos (length t.partitions)) (pos 0) ≡ false
  positive = ground arith

  keyed : (n : ℕ) → leb 1 (suc n) ≡ true
  keyed n = ground arith

  partition_for-keyed :
      (b : ℕ) (bs : Bytes)
      → partition_for t (b ∷ bs) ≡ (t, pos (murmur2 (b ∷ bs) % length t.partitions))
  unfolding partition_for
  partition_for-keyed b bs =
      rw (count, positive, keyed (length bs)) (ap (λ z. (t, z)) (turn (murmur2 (b ∷ bs))))

  partition_for-nil : partition_for t [] ≡ (
    record t { round_robin_counter = (t.round_robin_counter + 1) % 2 ^ 32 },
    pos (t.round_robin_counter % length t.partitions),
  )
  unfolding partition_for
  partition_for-nil =
      rw (count, positive)
        (ap (λ z. (record t { round_robin_counter = (t.round_robin_counter + 1) % 2 ^ 32 }, z))
          (turn t.round_robin_counter))

  mod-Has : (m : ℕ) → Has t (pos (m % length t.partitions))
  unfolding get_partition
  mod-Has m = get_elem?-found t.partitions (m % length t.partitions) (mod-lt m some_partition)

  partition_for-found : (key : Bytes) → Has t (partition_for t key).1
  partition_for-found [] =
      subst (λ o. Has t o.1) (sym partition_for-nil) (mod-Has t.round_robin_counter)
  partition_for-found (b ∷ bs) =
      subst (λ o. Has t o.1) (sym (partition_for-keyed b bs)) (mod-Has (murmur2 (b ∷ bs)))

-- A counter that does not pass 2^32 counts the choices.
turns-counter :
    (n : ℕ) (t : Topic)
    → 0 < length t.partitions
    → length t.partitions < 2 ^ 31
    → t.round_robin_counter + n < 2 ^ 32
    → turns n t ≡ record t { round_robin_counter = t.round_robin_counter + n }
unfolding turns
turns-counter zero t some_partition small fits =
    ap (λ c. record t { round_robin_counter = c }) (omega arith)
turns-counter (suc n) t some_partition small fits =
    ap (λ o. turns n o.0) (partition_for-nil t some_partition small)
    ∙ turns-counter n (record t { round_robin_counter = (t.round_robin_counter + 1) % 2 ^ 32 })
        some_partition small (omega (arith, counted))
    ∙ ap (λ c. record t { round_robin_counter = c }) (omega (arith, counted))
  where
    counted : (t.round_robin_counter + 1) % 2 ^ 32 ≡ t.round_robin_counter + 1
    counted = mod-eq_of_lt (omega arith)

same_key :
    (t : Topic) (c : ℕ) (key : Bytes)
    → 0 < length t.partitions
    → length t.partitions < 2 ^ 31
    → (length key ≡ 0)
      ⊎ ((partition_for (record t { round_robin_counter = c }) key).1 ≡ (partition_for t key).1)
same_key t c [] some_partition small = inl refl
same_key t c (b ∷ bs) some_partition small = inr (
    ap (λ o. o.1)
      (partition_for-keyed (record t { round_robin_counter = c }) some_partition small b bs)
    ∙ sym (ap (λ o. o.1) (partition_for-keyed t some_partition small b bs)))

-- For a topic with one partition at least and fewer than 2^31, behind n choices without a key that
-- do not take its counter past 2^32 - 1: the partition that is chosen for any key is one that the
-- topic has, and the partitions are as they were; a choice without a key takes the partition with
-- the number counter + n, modulo the number of partitions, so that these choices go round; and a
-- choice with a key that is not empty is the one that was made for it before.
pub partition_for-Has :
    (t : Topic) (n : ℕ) (key : Bytes)
    → 0 < length t.partitions
    → length t.partitions < 2 ^ 31
    → t.round_robin_counter + n < 2 ^ 32
    → Has t (partition_for (turns n t) key).1
      × ((turns n t).partitions ≡ t.partitions)
      × ((partition_for (turns n t) []).1 ≡ pos ((t.round_robin_counter + n) % length t.partitions))
      × ((length key ≡ 0) ⊎ ((partition_for (turns n t) key).1 ≡ (partition_for t key).1))
unfolding get_partition
partition_for-Has t n key some_partition small fits =
    rw (turns-counter n t some_partition small fits) (
      partition_for-found t' some_partition small key,
      refl,
      ap (λ o. o.1) (partition_for-nil t' some_partition small),
      same_key t (t.round_robin_counter + n) key some_partition small,
    )
  where
    t' : Topic
    t' = record t { round_robin_counter = t.round_robin_counter + n }
