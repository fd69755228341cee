-- ===== src/Broker/Produce/Sole.antt =====
-- waitForAcksAll of internal/broker/broker_replication.go, where the leader is the only replica.
use mini_kafka.Prelude.{
  ℕ, suc, ◌≡◌, refl, sym, ap, ◌∙◌, Bool, true, false, Bool-cases, inl, inr, Option, none, some, [],
  ◌∷◌, ltb, arith, if◌then◌else◌, length,
}
use mini_kafka.Prelude.Int.{ℤ, pos, leb_ℤ, ◌≤ℤ◌, ◌==ℤ◌}
use mathlib.Core.Path.{subst}
use mathlib.Core.Option.{some-injective}
use mini_kafka.Protocol.Stream.{Bytes}
use mini_kafka.Protocol.Requests.Produce.{ProduceRequestPartition}
use mini_kafka.Storage.Log.{LogError, highest_offset}
use mini_kafka.Replication.Isr.{IsrTracker, ReplicaState, update_leo, get_isr}
use mini_kafka.Replication.Isr.Sole.{update_leo-sole}
use mini_kafka.Replication.Epoch.{get_epoch}
use mini_kafka.Broker.Partition.{Partition, append_batch, log_end_offset}
use mini_kafka.Broker.State.{Broker, World, find_partition, find_tracker, with_partition}
use mini_kafka.Broker.State.Change.{find_tracker-put_tracker}
use mini_kafka.Broker.Replicas.{
  is_leader, led_by, tracked, with_tracker, get_or_create_isr_tracker, update_replica_leo,
  min_insync_replicas,
}
use mini_kafka.Broker.Produce.{
  PendingAck, Produced, Decoded, produce_partition, produce_at, as_leader, check_replicas,
  lacks_replicas, produce_records, too_large, append_decoded, after_append, committed,
  decode_records, asks_all, start_wait,
}

-- The tracker of a partition whose only replica is its leader.
pub record IsSole (local_id : ℤ) (t : IsrTracker) : Type 0 where
  pub replica : ReplicaState
  pub only : t.replicas ≡ replica ∷ []
  pub leads : t.leader_id ≡ local_id
  pub is_local : replica.broker_id ≡ local_id

-- What is answered may wait for nothing but what is there already.
abbrev NoWait : World → ℕ → Broker × Produced → Type 0
NoWait w ch out =
    (ack : PendingAck) → out.1.pending ≡ some ack → (start_wait w out.0 ack ch).1 ≡ none

-- A tracker that has reached the offset ends the wait.
start_wait-reached :
    (w : World) (b : Broker) (ack : PendingAck) (ch : ℕ) (t : IsrTracker)
    → find_tracker b.trackers ack.topic ack.partition ≡ some t
    → leb_ℤ ack.required_hw t.high_watermark ≡ true
    → (start_wait w b ack ch).1 ≡ none
unfolding start_wait get_or_create_isr_tracker tracked
start_wait-reached w b ack ch t e le = elim (Bool-cases (leb_ℤ ack.required_hw (pos 0))) [
  | inl nothing ↦ simp nothing refl
  | inr some_hw ↦ simp (some_hw, e, le) refl
]

pending-ack :
    (all : Bool) (a ack : PendingAck) → (if all then some a else none) ≡ some ack → a ≡ ack
pending-ack true a ack e = some-injective a ack e
pending-ack false a ack e = cc

reaches : (a b : ℤ) → a ≤ℤ b → leb_ℤ a b ≡ true
reaches a b h = ground arith

module _ (w w' : World) (ch : ℕ) (acks : ℤ) (topic : Bytes) (id : ℤ) (b : Broker) (t : IsrTracker)
    (tracks : find_tracker b.trackers topic id ≡ some t) (sole : IsSole b.local_id t) where
  abbrev updated : ℕ → IsrTracker × ℤ
  updated n = update_leo t w.now b.local_id (pos n) (pos n)

  update-tracks :
      (n : ℕ)
      → update_replica_leo w b topic id b.local_id (pos n) (pos n)
        ≡ (with_tracker b topic id (updated n).0, (updated n).1)
  unfolding update_replica_leo get_or_create_isr_tracker tracked
  update-tracks n = simp tracks refl

  reached : (n : ℕ) → leb_ℤ (pos n) (updated n).0.high_watermark ≡ true
  unfolding update_leo
  reached n =
      reaches (pos n) (updated n).1
        (update_leo-sole t w.now n b.local_id sole.replica sole.only sole.leads sole.is_local)

  tracked-after :
      (base : ℕ) (p : Partition)
      → find_tracker (committed w acks topic id base b p).0.trackers topic id
        ≡ some (updated (highest_offset p.log)).0
  unfolding committed with_partition with_tracker
  tracked-after base p =
      ap (λ out. find_tracker out.0.trackers topic id) (update-tracks (highest_offset p.log))
      ∙ find_tracker-put_tracker b.trackers topic id (updated (highest_offset p.log)).0

  committed-NoWait : (base : ℕ) (p : Partition) → NoWait w' ch (committed w acks topic id base b p)
  unfolding committed
  committed-NoWait base p ack pending =
      subst (λ a. (start_wait w' (committed w acks topic id base b p).0 a ch).1 ≡ none)
        (pending-ack (asks_all acks) _ ack pending)
        (start_wait-reached w' (committed w acks topic id base b p).0
          (record { topic = topic; partition = id; required_hw = log_end_offset p }) ch
          (updated (highest_offset p.log)).0 (tracked-after base p)
          (reached (highest_offset p.log)))

  after_append-NoWait :
      (out : Partition × (ℕ × Option LogError)) → NoWait w' ch (after_append w acks topic id b out)
  unfolding after_append
  after_append-NoWait (p, (base, some e)) ack pending = cc
  after_append-NoWait (p, (base, none)) ack pending = committed-NoWait base p ack pending

  append_decoded-NoWait :
      (p : Partition) (d : Decoded) → NoWait w' ch (append_decoded w acks topic id b p d)
  unfolding append_decoded
  append_decoded-NoWait p (rs, true) ack pending = cc
  append_decoded-NoWait p ([], false) ack pending = cc
  append_decoded-NoWait p (r ∷ rs, false) ack pending =
      after_append-NoWait (append_batch p w.now (r ∷ rs)) ack pending

  module _ (record_set : Bytes) where
    abbrev req : ProduceRequestPartition
    req = record { partition_id = id; record_set = record_set }

    produce_records-NoWait : (p : Partition) → NoWait w' ch (produce_records w acks topic req b p)
    unfolding produce_records
    produce_records-NoWait p = elim (Bool-cases (too_large b record_set)) [
      | inl large ↦ simp large (λ ack pending. cc)
      | inr fits ↦
          simp fits (append_decoded-NoWait p (decode_records (suc (length record_set)) record_set))
    ]

    check_replicas-NoWait :
        (p : Partition) (lacks : Bool) → NoWait w' ch (check_replicas w acks topic req p (b, lacks))
    unfolding check_replicas
    check_replicas-NoWait p true = λ ack pending. cc
    check_replicas-NoWait p false = produce_records-NoWait p

    checked :
        (lacks : Bool) × ((if asks_all acks then lacks_replicas w b topic id else (b, false))
          ≡ (b, lacks))
    unfolding lacks_replicas get_or_create_isr_tracker tracked
    checked = elim (Bool-cases (asks_all acks)) [
      | inl all ↦
          (ltb (length (get_isr t.replicas)) (min_insync_replicas b), simp (all, tracks) refl)
      | inr some_acks ↦ (false, simp some_acks refl)
    ]

    as_leader-NoWait :
        (p : Partition) (led : Bool) → NoWait w' ch (as_leader w acks topic req p (b, led))
    unfolding as_leader
    as_leader-NoWait p false = λ ack pending. cc
    as_leader-NoWait p true =
        subst (λ c. NoWait w' ch (check_replicas w acks topic req p c)) (sym checked.1)
          (check_replicas-NoWait p checked.0)

    module _ (epoch leader : ℤ) (active : get_epoch b.epochs topic id ≡ some (epoch, leader)) where
      produce_at-NoWait :
          (found : Option Partition) → NoWait w' ch (produce_at w acks topic b req found)
      unfolding produce_at is_leader led_by
      produce_at-NoWait none = λ ack pending. cc
      produce_at-NoWait (some p) =
          subst (λ a. NoWait w' ch (as_leader w acks topic req p (led_by b topic id a)))
            (sym active) (as_leader-NoWait p (leader ==ℤ b.local_id))

      -- If a partition's only replica is the local broker, its leader, and the partition has an
      -- epoch, then whatever is produced to it with acks=all does not wait: when a produce has a
      -- wait to begin, the high watermark has reached the required offset, and the wait ends at
      -- once.
      pub produce_partition-pending :
          (ack : PendingAck)
          → (produce_partition w acks topic b req).1.pending ≡ some ack
          → (start_wait w' (produce_partition w acks topic b req).0 ack ch).1 ≡ none
      unfolding produce_partition
      produce_partition-pending ack pending =
          produce_at-NoWait (find_partition b topic id) ack pending
