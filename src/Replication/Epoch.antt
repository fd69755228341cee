-- ===== src/Replication/Epoch.antt =====
-- internal/replication/epoch.go: leader epochs by topic and partition. The two levels of maps are
-- one list, searched by both keys; a topic is its bytes.
use mini_kafka.Prelude.{
  ◌≡◌, refl, Bool, true, false, Option, none, some, List, [], ◌∷◌, ◌↔◌, Bool-cases, inl, inr, ◌&&◌,
  str_eq, str_eq_iff, arith, if◌then◌else◌,
}
use mini_kafka.Prelude.Int.{ℤ, pos, ◌+ℤ◌, leb_ℤ, ◌==ℤ◌, ==ℤ_iff}
use mini_kafka.Protocol.Stream.{Bytes}

pub record PartitionEpoch : Type 0 where
  pub topic : Bytes
  pub partition : ℤ
  pub epoch : ℤ
  pub leader_id : ℤ

abbrev pub EpochManager : Type 0
EpochManager = List PartitionEpoch

-- The same topic and the same partition.
unfoldable pub same_partition : Bytes → ℤ → Bytes → ℤ → Bool
same_partition topic partition topic' partition' = str_eq topic topic' && partition ==ℤ partition'

pub same_partition_iff :
    (topic : Bytes) (partition : ℤ) (topic' : Bytes) (partition' : ℤ)
    → (same_partition topic partition topic' partition' ≡ true)
      ↔ ((topic ≡ topic') × (partition ≡ partition'))
unfolding same_partition
same_partition_iff topic partition topic' partition' =
    ground (arith, str_eq_iff topic topic', ==ℤ_iff partition partition')

abbrev is_for : Bytes → ℤ → PartitionEpoch → Bool
is_for topic partition pe = same_partition pe.topic pe.partition topic partition

-- pe.Epoch++ on an int32 whose wrap-around is left out: no partition changes its leader 2^31 times.
bump_epoch : ℤ → PartitionEpoch → PartitionEpoch
bump_epoch leader_id pe = record pe { epoch = pe.epoch +ℤ pos 1; leader_id = leader_id }

-- IncrementEpoch: the manager after, and the epoch that it returns.
pub increment_epoch : EpochManager → Bytes → ℤ → ℤ → EpochManager × ℤ
unfolding bump_epoch
increment_epoch [] topic partition leader_id = (
  record { topic = topic; partition = partition; epoch = pos 1; leader_id = leader_id } ∷ [],
  pos 1,
)
increment_epoch (pe ∷ em) topic partition leader_id =
    let (em', e) = increment_epoch em topic partition leader_id in
    if is_for topic partition pe
    then (bump_epoch leader_id pe ∷ em, (bump_epoch leader_id pe).epoch)
    else (pe ∷ em', e)

-- GetEpoch; `none` is its error for an unknown topic or partition.
unfoldable pub get_epoch : EpochManager → Bytes → ℤ → Option (ℤ × ℤ)
get_epoch [] topic partition = none
get_epoch (pe ∷ em) topic partition =
    if is_for topic partition pe
    then some (pe.epoch, pe.leader_id)
    else get_epoch em topic partition

current : Option (ℤ × ℤ) → ℤ → Bool
current none epoch = true
current (some (active, leader)) epoch = leb_ℤ active epoch

-- ValidateEpoch
pub validate_epoch : EpochManager → Bytes → ℤ → ℤ → Bool
unfolding current
validate_epoch em topic partition epoch = current (get_epoch em topic partition) epoch

-- The epoch that follows: 1 for a partition that is not tracked.
abbrev pub next_epoch : Option (ℤ × ℤ) → ℤ
next_epoch none = pos 1
next_epoch (some (e, leader)) = e +ℤ pos 1

returned-epoch :
    (em : EpochManager) (topic : Bytes) (partition leader_id : ℤ)
    → (increment_epoch em topic partition leader_id).1 ≡ next_epoch (get_epoch em topic partition)
unfolding increment_epoch get_epoch
returned-epoch [] topic partition leader_id = refl
returned-epoch (pe ∷ em) topic partition leader_id = elim (Bool-cases (is_for topic partition pe)) [
  | inl here ↦ rw here
  | inr other ↦ rw other (returned-epoch em topic partition leader_id)
]

stored-epoch :
    (em : EpochManager) (topic topic' : Bytes) (partition partition' leader_id : ℤ)
    → get_epoch (increment_epoch em topic partition leader_id).0 topic' partition' ≡ (
        if same_partition topic partition topic' partition'
        then some (next_epoch (get_epoch em topic partition), leader_id)
        else get_epoch em topic' partition')
unfolding increment_epoch get_epoch
stored-epoch [] topic topic' partition partition' leader_id = refl
stored-epoch (pe ∷ em) topic topic' partition partition' leader_id = ground (
  arith,
  stored-epoch em topic topic' partition partition' leader_id,
  same_partition_iff pe.topic pe.partition topic partition,
  same_partition_iff pe.topic pe.partition topic' partition',
  same_partition_iff topic partition topic' partition',
)

-- After an increment the partition has the epoch that was returned and the new leader, and every
-- other partition keeps its own; the returned epoch is one more than the old, and 1 for a partition
-- that was not tracked.
pub get_epoch-increment_epoch :
    (em : EpochManager) (topic topic' : Bytes) (partition partition' leader_id : ℤ)
    → (get_epoch (increment_epoch em topic partition leader_id).0 topic' partition' ≡ (
        if same_partition topic partition topic' partition'
        then some ((increment_epoch em topic partition leader_id).1, leader_id)
        else get_epoch em topic' partition'))
      × ((increment_epoch em topic partition leader_id).1
          ≡ next_epoch (get_epoch em topic partition))
get_epoch-increment_epoch em topic topic' partition partition' leader_id = (
  rw (returned-epoch em topic partition leader_id)
      (stored-epoch em topic topic' partition partition' leader_id),
  returned-epoch em topic partition leader_id,
)

next_epoch_order :
    (e : ℤ) → (leb_ℤ (e +ℤ pos 1) e ≡ false) × (leb_ℤ (e +ℤ pos 1) (e +ℤ pos 1) ≡ true)
unfolding ◌+ℤ◌
next_epoch_order e = ground arith

-- A leader is fenced once its partition has moved on: the epoch that was current before an
-- increment is refused after it, and the epoch that the increment returned is accepted.
pub validate_epoch-increment_epoch :
    (em : EpochManager) (topic : Bytes) (partition leader_id epoch old_leader : ℤ)
    → get_epoch em topic partition ≡ some (epoch, old_leader)
    → (validate_epoch (increment_epoch em topic partition leader_id).0 topic partition epoch
        ≡ false)
      × (validate_epoch
            (increment_epoch em topic partition leader_id).0
            topic
            partition
            (increment_epoch em topic partition leader_id).1
          ≡ true)
unfolding validate_epoch
validate_epoch-increment_epoch em topic partition leader_id epoch old_leader e =
    rw
      (
        stored-epoch em topic topic partition partition leader_id,
        (same_partition_iff topic partition topic partition).1 (refl, refl),
        returned-epoch em topic partition leader_id,
        e,
      )
      (next_epoch_order epoch)
