-- ===== src/Broker/Replicas.antt =====
-- internal/broker/broker_replication.go: the replicas of a partition, its leader, and the trackers
-- of in-sync replicas.
pub mod Fence
pub mod Untouched
use mini_kafka.Prelude.{
  ℕ, zero, suc, ◌+◌, ◌%◌, ◌^◌, Bool, true, false, Option, none, some, List, [], ◌∷◌, ◌==◌, length,
  get_elem?, if◌then◌else◌, map,
}
use mini_kafka.Prelude.Int.{ℤ, pos, negsuc, wrap, pos_part, neg_part, leb_ℤ, ◌==ℤ◌}
use mini_kafka.Protocol.Stream.{Bytes}
use mini_kafka.Protocol.Responses.Metadata.{BrokerMetadata}
use mini_kafka.Replication.Isr.{IsrTracker, new_isr_tracker, update_leo}
use mini_kafka.Replication.Epoch.{get_epoch, increment_epoch}
use mini_kafka.Broker.State.{
  Broker, BrokerConfig, World, ClusterBroker, TrackerEntry, find_tracker, put_tracker,
}

abbrev contains : ℤ → List ℤ → Bool
contains id [] = false
contains id (i ∷ is) = if i ==ℤ id then true else contains id is

-- The loop over the brokers of the cluster, with the ids that were seen.
unfoldable pub distinct_ids : List ℤ → List ClusterBroker → List ℤ
distinct_ids seen [] = []
distinct_ids seen (br ∷ brs) =
    let id = wrap (2 ^ 31) br.id in
    let again = distinct_ids seen brs in
    let fresh = distinct_ids (id ∷ seen) brs in if contains id seen then again else id ∷ fresh

-- clusterReplicaIDs; the ids are int32.
unfoldable pub cluster_replica_ids : BrokerConfig → List ℤ
unfolding distinct_ids
cluster_replica_ids cfg =
    if length cfg.cluster == 0 then wrap (2 ^ 31) cfg.id ∷ [] else distinct_ids [] cfg.cluster

-- minInsyncReplicas
unfoldable pub min_insync_replicas : Broker → ℕ
min_insync_replicas b =
    if leb_ℤ b.config.min_insync_replicas (pos 0) then 1 else pos_part b.config.min_insync_replicas

-- lagTimeMaxMs
pub lag_time_max_ms : Broker → ℤ
lag_time_max_ms b =
    if leb_ℤ b.config.replica_lag_time_max_ms (pos 0)
    then pos 30000
    else b.config.replica_lag_time_max_ms

-- staticPartitionLeader: Go's remainder has the sign of the partition, which is taken off.
unfoldable pub static_partition_leader : Broker → ℤ → ℤ
static_partition_leader b partition =
    if length b.replica_ids == 0
    then b.local_id
    else elim (get_elem? b.replica_ids
        ((pos_part partition + neg_part partition) % length b.replica_ids)) [
          | none ↦ b.local_id
          | some id ↦ id
        ]

-- partitionLeader
unfoldable pub partition_leader : Broker → Bytes → ℤ → ℤ
partition_leader b topic partition = elim (get_epoch b.epochs topic partition) [
  | none ↦ static_partition_leader b partition
  | some active ↦ active.1
]

-- The leader epoch of a partition that is not tracked, from the static assignment.
unfoldable pub seed_epoch : Broker → Bytes → ℤ → Broker
seed_epoch b topic partition = record b {
  epochs = (increment_epoch b.epochs topic partition (static_partition_leader b partition)).0;
}

unfoldable pub led_by : Broker → Bytes → ℤ → Option (ℤ × ℤ) → Broker × Bool
led_by b topic partition none =
    (seed_epoch b topic partition, static_partition_leader b partition ==ℤ b.local_id)
led_by b topic partition (some (epoch, leader)) = (b, leader ==ℤ b.local_id)

-- isLeader
unfoldable pub is_leader : Broker → Bytes → ℤ → Broker × Bool
unfolding led_by
is_leader b topic partition = led_by b topic partition (get_epoch b.epochs topic partition)

-- A new tracker for a partition with this leader.
pub fresh_tracker : World → Broker → Bytes → ℤ → ℤ → IsrTracker
unfolding lag_time_max_ms
fresh_tracker w b topic partition leader =
    new_isr_tracker leader b.replica_ids (lag_time_max_ms b) w.now (w.checkpoint topic partition)

unfoldable pub with_tracker : Broker → Bytes → ℤ → IsrTracker → Broker
with_tracker b topic partition t = record b { trackers = put_tracker b.trackers topic partition t }

unfoldable pub tracked : World → Broker → Bytes → ℤ → Option IsrTracker → Broker × IsrTracker
tracked w b topic partition (some t) = (b, t)
tracked w b topic partition none =
    let t = fresh_tracker w b topic partition (partition_leader b topic partition) in
    (with_tracker b topic partition t, t)

-- getOrCreateISRTracker
unfoldable pub get_or_create_isr_tracker : World → Broker → Bytes → ℤ → Broker × IsrTracker
unfolding tracked
get_or_create_isr_tracker w b topic partition =
    tracked w b topic partition (find_tracker b.trackers topic partition)

unfoldable pub seeded_from : Broker → Bytes → ℤ → Option (ℤ × ℤ) → Broker
seeded_from b topic partition none = seed_epoch b topic partition
seeded_from b topic partition (some active) = b

unfoldable pub seeded : Broker → Bytes → ℤ → Broker
unfolding seeded_from
seeded b topic partition = seeded_from b topic partition (get_epoch b.epochs topic partition)

-- initTopicReplication, for `count` partitions from the number `p` on.
unfoldable pub init_partitions : World → Broker → Bytes → ℕ → ℕ → Broker
unfolding seeded
init_partitions w b topic p zero = b
init_partitions w b topic p (suc count) =
    init_partitions w (get_or_create_isr_tracker w (seeded b topic (pos p)) topic (pos p)).0 topic
      (suc p) count

unfoldable pub init_topic_replication : World → Broker → Bytes → ℤ → Broker
init_topic_replication w b topic num_partitions =
    init_partitions w b topic 0 (pos_part num_partitions)

-- updateReplicaLEO; it returns the new high watermark.
unfoldable pub update_replica_leo : World → Broker → Bytes → ℤ → ℤ → ℤ → ℤ → Broker × ℤ
update_replica_leo w b topic partition replica_id leo leader_leo =
    let (b', t) = get_or_create_isr_tracker w b topic partition in
    let (t', hw) = update_leo t w.now replica_id leo leader_leo in
    (with_tracker b' topic partition t', hw)

-- updateLeaderLEO
abbrev pub update_leader_leo : World → Broker → Bytes → ℤ → ℤ → Broker × ℤ
update_leader_leo w b topic partition leader_leo =
    update_replica_leo w b topic partition b.local_id leader_leo leader_leo

-- PromoteLeader: the new epoch is returned.
unfoldable pub promote_leader : World → Broker → Bytes → ℤ → ℤ → Broker × ℤ
promote_leader w b topic partition new_leader_id =
    let (em, epoch) = increment_epoch b.epochs topic partition new_leader_id in
    (
      with_tracker (record b { epochs = em }) topic partition
          (fresh_tracker w b topic partition new_leader_id),
      epoch,
    )

-- clusterBrokerMetadata
pub cluster_broker_metadata : Broker → List BrokerMetadata
cluster_broker_metadata b =
    if length b.config.cluster == 0
    then record { node_id = b.local_id; host = b.config.host; port = wrap (2 ^ 31) b.config.port }
      ∷ []
    else map
        (λ br. record {
          node_id = wrap (2 ^ 31) br.id;
          host = br.host;
          port = wrap (2 ^ 31) br.port;
        })
        b.config.cluster
