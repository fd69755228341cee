-- ===== src/Broker/Replicas/Untouched.antt =====
-- What internal/broker/broker_replication.go does to the topics and the metadata.
use mini_kafka.Prelude.{ℕ, zero, suc, ◌≡◌, refl, ◌∙◌, Option, none, some}
use mini_kafka.Prelude.Int.{ℤ, pos, pos_part}
use mini_kafka.Protocol.Stream.{Bytes}
use mini_kafka.Replication.Isr.{IsrTracker}
use mini_kafka.Replication.Epoch.{get_epoch}
use mini_kafka.Broker.State.{Broker, World, find_tracker, find_partition}
use mini_kafka.Broker.Replicas.{
  tracked, with_tracker, get_or_create_isr_tracker, update_replica_leo, seeded, seeded_from,
  seed_epoch, init_partitions, init_topic_replication,
}

abbrev Same : Broker → Broker → Type 0
Same b b' = (b'.topics ≡ b.topics) × (b'.metadata ≡ b.metadata)

tracked-Same :
    (w : World) (b : Broker) (topic : Bytes) (id : ℤ) (t : Option IsrTracker)
    → Same b (tracked w b topic id t).0
unfolding tracked with_tracker
tracked-Same w b topic id none = (refl, refl)
tracked-Same w b topic id (some t) = (refl, refl)

-- An update of the trackers leaves the topics alone.
pub update_replica_leo-topics :
    (w : World) (b : Broker) (topic : Bytes) (id replica leo leader_leo : ℤ)
    → (update_replica_leo w b topic id replica leo leader_leo).0.topics ≡ b.topics
unfolding update_replica_leo get_or_create_isr_tracker with_tracker
update_replica_leo-topics w b topic id replica leo leader_leo =
    (tracked-Same w b topic id (find_tracker b.trackers topic id)).0

seeded_from-Same :
    (b : Broker) (topic : Bytes) (id : ℤ) (active : Option (ℤ × ℤ))
    → Same b (seeded_from b topic id active)
unfolding seeded_from seed_epoch
seeded_from-Same b topic id none = (refl, refl)
seeded_from-Same b topic id (some active) = (refl, refl)

init_partitions-Same :
    (w : World) (b : Broker) (topic : Bytes) (p count : ℕ)
    → Same b (init_partitions w b topic p count)
unfolding init_partitions get_or_create_isr_tracker seeded
init_partitions-Same w b topic p zero = (refl, refl)
init_partitions-Same w b topic p (suc count) =
    let s = seeded_from-Same b topic (pos p) (get_epoch b.epochs topic (pos p)) in
    let b' = seeded b topic (pos p) in
    let t = tracked-Same w b' topic (pos p) (find_tracker b'.trackers topic (pos p)) in
    let r =
      init_partitions-Same w (get_or_create_isr_tracker w b' topic (pos p)).0 topic (suc p) count in
    (r.0 ∙ t.0 ∙ s.0, r.1 ∙ t.1 ∙ s.1)

pub init_topic_replication-Same :
    (w : World) (b : Broker) (topic : Bytes) (n : ℤ) → Same b (init_topic_replication w b topic n)
unfolding init_topic_replication
init_topic_replication-Same w b topic n = init_partitions-Same w b topic 0 (pos_part n)

pub same_topics :
    (b b' : Broker) (topic : Bytes) (id : ℤ)
    → b'.topics ≡ b.topics
    → find_partition b' topic id ≡ find_partition b topic id
unfolding find_partition
same_topics b b' topic id e = rw e refl
