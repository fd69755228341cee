-- ===== src/Broker/Topic.antt =====
-- internal/broker/topic.go: a topic, its partitions by their numbers, and the choice of one for a
-- key. NewTopic fails if a partition does.
pub mod Choice
use mini_kafka.Prelude.{
  ℕ, zero, suc, ◌+◌, ◌%◌, ◌^◌, ◌<◌, ◌≡◌, refl, Bool, true, false, Option, none, some, List, [], ◌∷◌,
  leb, ◌==◌, length, get_elem?, set, if◌then◌else◌, arith, Bool-cases, inl, inr,
}
use mini_kafka.Prelude.Int.{ℤ, pos, negsuc, signed, wrap, leb_ℤ, pos_part}
use native.Mathlib.Nat.{mod-lt}
use mini_kafka.Protocol.Stream.{Bytes}
use mini_kafka.Storage.Config.{Config}
use mini_kafka.Storage.Log.Open.{SegmentFile}
use mini_kafka.Broker.Murmur.{murmur2}
use mini_kafka.Broker.Partition.{Partition, new_partition}

pub record Topic : Type 0 where
  pub name : Bytes
  pub partitions : List Partition
  pub round_robin_counter : ℕ

abbrev pub put_first : Option Partition → Option (List Partition) → Option (List Partition)
put_first none rest = none
put_first (some p) none = none
put_first (some p) (some ps) = some (p ∷ ps)

-- The loop of NewTopic, for `count` partitions from the number `i` on, with what the directory of
-- each holds.
unfoldable pub open_partitions :
    Config → (ℕ → List SegmentFile) → ℕ → ℕ → ℕ → Option (List Partition)
open_partitions cfg files now i zero = some []
open_partitions cfg files now i (suc count) =
    put_first (new_partition cfg (files i) now) (open_partitions cfg files now (suc i) count)

abbrev pub with_partitions : Bytes → Option (List Partition) → Option Topic
with_partitions name none = none
with_partitions name (some ps) =
    some (record { name = name; partitions = ps; round_robin_counter = 0 })

-- NewTopic
unfoldable pub new_topic : Bytes → ℤ → Config → (ℕ → List SegmentFile) → ℕ → Option Topic
unfolding open_partitions
new_topic name num_partitions cfg files now =
    with_partitions name (open_partitions cfg files now 0 (pos_part num_partitions))

-- GetPartition
unfoldable pub get_partition : Topic → ℤ → Option Partition
get_partition t (pos i) = get_elem? t.partitions i
get_partition t (negsuc k) = none

-- PartitionFor: the hash of a key, or the turn of the counter, a uint32. The number of partitions is
-- an int32.
pub partition_for : Topic → Bytes → Topic × ℤ
partition_for t key =
    let n = wrap (2 ^ 31) (pos (length t.partitions)) in
    if leb_ℤ n (pos 0)
    then (t, pos 0)
    else if leb 1 (length key)
    then (t, signed (2 ^ 31) (murmur2 key % pos_part n))
    else (
      record t { round_robin_counter = (t.round_robin_counter + 1) % 2 ^ 32 },
      signed (2 ^ 31) (t.round_robin_counter % pos_part n),
    )
