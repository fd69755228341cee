-- ===== src/Broker/Replicas/Fence.antt =====
-- PromoteLeader of internal/broker/broker_replication.go, for producers and followers.
use mini_kafka.Prelude.{◌≡◌, ◌≢◌, refl, ap, ◌∙◌, false, some, arith, if◌then◌else◌}
use mini_kafka.Prelude.Int.{ℤ, ◌==ℤ◌, ==ℤ_iff}
use mini_kafka.Protocol.Stream.{Bytes}
use mini_kafka.Protocol.Requests.Produce.{ProduceRequestPartition}
use mini_kafka.Replication.Epoch.{
  EpochManager, get_epoch, increment_epoch, get_epoch-increment_epoch, same_partition_iff,
}
use mini_kafka.Broker.Codes.{err_not_leader_for_partition}
use mini_kafka.Broker.State.{Broker, World, find_partition}
use mini_kafka.Broker.Partition.{Partition}
use mini_kafka.Broker.Replicas.{promote_leader, is_leader, led_by, with_tracker}
use mini_kafka.Broker.Produce.{produce_partition, produce_at, as_leader, refused}
use mini_kafka.Replication.Wire.{ReplicaFetchRequest}
use mini_kafka.Broker.Follower.{handle_replica_fetch, serve_at, serve_replica, rejected}

get_epoch-promoted :
    (em : EpochManager) (topic : Bytes) (partition leader : ℤ)
    → get_epoch (increment_epoch em topic partition leader).0 topic partition
      ≡ some ((increment_epoch em topic partition leader).1, leader)
get_epoch-promoted em topic partition leader =
    (get_epoch-increment_epoch em topic topic partition partition leader).0
    ∙ ap
        (λ same.
          if same
          then some ((increment_epoch em topic partition leader).1, leader)
          else get_epoch em topic partition)
        ((same_partition_iff topic partition topic partition).1 (refl, refl))

-- The new leader leads, and nobody else.
pub is_leader-promote_leader :
    (w : World) (b : Broker) (topic : Bytes) (partition leader : ℤ)
    → is_leader (promote_leader w b topic partition leader).0 topic partition
      ≡ ((promote_leader w b topic partition leader).0, leader ==ℤ b.local_id)
unfolding is_leader promote_leader led_by with_tracker
is_leader-promote_leader w b topic partition leader =
    ap (led_by (promote_leader w b topic partition leader).0 topic partition)
      (get_epoch-promoted b.epochs topic partition leader)

==ℤ-ne : (a b : ℤ) → a ≢ b → (a ==ℤ b) ≡ false
==ℤ-ne a b h = ground (arith, ==ℤ_iff a b)

-- After a broker has been told that another one leads a partition that it has, it refuses every
-- produce to the partition and every fetch of a follower from it with "not leader for partition",
-- and its state stays as it was.
pub promote_leader-Fences :
    (w : World) (b : Broker) (topic : Bytes) (id leader acks : ℤ) (record_set : Bytes)
    (replica_id max_wait_ms fetch_offset : ℤ) (p : Partition)
    → leader ≢ b.local_id
    → find_partition b topic id ≡ some p
    → (produce_partition w acks topic
          (promote_leader w b topic id leader).0
          (record { partition_id = id; record_set = record_set })
        ≡ ((promote_leader w b topic id leader).0, refused id err_not_leader_for_partition))
      × (handle_replica_fetch w (promote_leader w b topic id leader).0 (record {
        replica_id = replica_id;
        max_wait_ms = max_wait_ms;
        topic = topic;
        partition = id;
        fetch_offset = fetch_offset;
      })
          ≡ ((promote_leader w b topic id leader).0, rejected err_not_leader_for_partition))
unfolding produce_partition produce_at as_leader handle_replica_fetch serve_at serve_replica
    promote_leader with_tracker find_partition
promote_leader-Fences w b topic id leader acks record_set replica_id max_wait_ms fetch_offset p
      other there =
    (
      ap (produce_at w acks topic b' req) there ∙ ap (as_leader w acks topic req p) led,
      ap (serve_at w b' fetch) there ∙ ap (serve_replica w fetch p) led,
    )
  where
    b' : Broker
    b' = (promote_leader w b topic id leader).0

    req : ProduceRequestPartition
    req = record { partition_id = id; record_set = record_set }

    fetch : ReplicaFetchRequest
    fetch = record {
      replica_id = replica_id;
      max_wait_ms = max_wait_ms;
      topic = topic;
      partition = id;
      fetch_offset = fetch_offset;
    }

    led : is_leader b' topic id ≡ (b', false)
    led =
        is_leader-promote_leader w b topic id leader
        ∙ ap (λ yes. (b', yes)) (==ℤ-ne leader b.local_id other)
