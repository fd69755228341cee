-- ===== src/Broker/Produce/Refused.antt =====
-- handleProduce of internal/broker/broker.go: the produce that is refused.
use mini_kafka.Prelude.{
  ◌≡◌, ◌≢◌, ◌⊎◌, ◌∙◌, refl, Bool, true, false, Bool-cases, inl, inr, Option, none, some, [], ◌∷◌, ℕ,
}
use mini_kafka.Prelude.Int.{ℤ}
use mini_kafka.Protocol.Stream.{Bytes}
use mini_kafka.Protocol.Requests.Produce.{ProduceRequestPartition}
use mini_kafka.Protocol.Responses.Produce.{ProduceResponsePartition}
use mini_kafka.Coordinator.Group.{err_request_timed_out}
use mini_kafka.Server.Handler.{err_none, err_unknown}
use mini_kafka.Storage.Log.{LogError}
use mini_kafka.Replication.Epoch.{get_epoch}
use mini_kafka.Broker.State.{Broker, World, find_partition, find_tracker}
use mini_kafka.Broker.Partition.{Partition, append_batch}
use mini_kafka.Broker.Replicas
use mini_kafka.Broker.Produce
use mini_kafka.Replication.Isr.{IsrTracker}
use mini_kafka.Broker.Replicas.{is_leader, led_by, tracked, get_or_create_isr_tracker}
use mini_kafka.Broker.Produce.{
  PendingAck, settle, settled, Produced, Decoded, refused, produce_partition, produce_at, as_leader,
  check_replicas, lacks_replicas, produce_records, too_large, append_decoded, after_append,
  committed, decode_records,
}

-- The same logs and high watermarks, the same waiting requests, and nobody told.
abbrev pub Untouched : Broker → Broker × Produced → Type 0
Untouched b out =
    (out.0.topics ≡ b.topics)
    × (out.0.purgatory ≡ b.purgatory)
    × (out.0.metadata ≡ b.metadata)
    × (out.1.pending ≡ none)
    × (out.1.completed ≡ [])
    × (out.1.notified ≡ [])

-- The code is none, or that of a failed append, or the broker is untouched.
abbrev Safe : Broker → Broker × Produced → Type 0
Safe b out =
    out.1.response.error_code ≢ err_none → out.1.response.error_code ≢ err_unknown → Untouched b out

after_append-Safe :
    (w : World) (acks : ℤ) (topic : Bytes) (id : ℤ) (b b' : Broker)
    (out : Partition × (ℕ × Option LogError))
    → Safe b (after_append w acks topic id b' out)
unfolding after_append committed
after_append-Safe w acks topic id b b' (p, (base, some e)) ok bad = absurd (bad refl)
after_append-Safe w acks topic id b b' (p, (base, none)) ok bad = absurd (ok refl)

-- A broker with the same topics, metadata and waiting requests.
abbrev Same : Broker → Broker → Type 0
Same b b' = (b'.topics ≡ b.topics) × (b'.purgatory ≡ b.purgatory) × (b'.metadata ≡ b.metadata)

append_decoded-Safe :
    (w : World) (acks : ℤ) (topic : Bytes) (id : ℤ) (b b' : Broker) (p : Partition) (d : Decoded)
    → Same b b'
    → Safe b (append_decoded w acks topic id b' p d)
unfolding append_decoded
append_decoded-Safe w acks topic id b b' p (rs, true) (t, q, m) ok bad = (t, q, m, refl, refl, refl)
append_decoded-Safe w acks topic id b b' p ([], false) (t, q, m) ok bad =
    (t, q, m, refl, refl, refl)
append_decoded-Safe w acks topic id b b' p (r ∷ rs, false) same ok bad =
    after_append-Safe w acks topic id b b' (append_batch p w.now (r ∷ rs)) ok bad

produce_records-Safe :
    (w : World) (acks : ℤ) (topic : Bytes) (req : ProduceRequestPartition) (b b' : Broker)
    (p : Partition)
    → Same b b'
    → Safe b (produce_records w acks topic req b' p)
unfolding produce_records
produce_records-Safe w acks topic req b b' p (t, q, m) =
    elim (Bool-cases (too_large b' req.record_set)) [
      | inl large ↦ rw large (λ ok bad. (t, q, m, refl, refl, refl))
      | inr fits ↦
          rw fits (
            append_decoded-Safe w acks topic req.partition_id b b' p (decode_records _ _) (t, q, m))
    ]

check_replicas-Safe :
    (w : World) (acks : ℤ) (topic : Bytes) (req : ProduceRequestPartition) (b : Broker)
    (p : Partition) (checked : Broker × Bool)
    → Same b checked.0
    → Safe b (check_replicas w acks topic req p checked)
unfolding check_replicas
check_replicas-Safe w acks topic req b p (b', true) (t, q, m) ok bad = (t, q, m, refl, refl, refl)
check_replicas-Safe w acks topic req b p (b', false) same ok bad =
    produce_records-Safe w acks topic req b b' p same ok bad

tracked-Same :
    (w : World) (b b' : Broker) (topic : Bytes) (id : ℤ) (t : Option IsrTracker)
    → Same b b'
    → Same b (tracked w b' topic id t).0
unfolding tracked Replicas.with_tracker
tracked-Same w b b' topic id none same = same
tracked-Same w b b' topic id (some t) same = same

lacks_replicas-Same :
    (w : World) (b b' : Broker) (topic : Bytes) (id : ℤ)
    → Same b b'
    → Same b (lacks_replicas w b' topic id).0
unfolding lacks_replicas get_or_create_isr_tracker
lacks_replicas-Same w b b' topic id same =
    tracked-Same w b b' topic id (find_tracker b'.trackers topic id) same

as_leader-Safe :
    (w : World) (acks : ℤ) (topic : Bytes) (req : ProduceRequestPartition) (b : Broker)
    (p : Partition) (led : Broker × Bool)
    → Same b led.0
    → Safe b (as_leader w acks topic req p led)
unfolding as_leader
as_leader-Safe w acks topic req b p (b', false) (t, q, m) = λ ok bad. (t, q, m, refl, refl, refl)
as_leader-Safe w acks topic req b p (b', true) same =
    check_replicas-Safe w acks topic req b p _ (elim (Bool-cases (Produce.asks_all acks)) [
      | inl all ↦ rw all (lacks_replicas-Same w b b' topic req.partition_id same)
      | inr some_acks ↦ rw some_acks same
    ])

led_by-Same :
    (b : Broker) (topic : Bytes) (id : ℤ) (active : Option (ℤ × ℤ))
    → Same b (led_by b topic id active).0
unfolding led_by Replicas.seed_epoch
led_by-Same b topic id none = (refl, refl, refl)
led_by-Same b topic id (some (epoch, leader)) = (refl, refl, refl)

produce_at-Safe :
    (w : World) (acks : ℤ) (topic : Bytes) (b : Broker) (req : ProduceRequestPartition)
    (found : Option Partition)
    → Safe b (produce_at w acks topic b req found)
unfolding produce_at
produce_at-Safe w acks topic b req none = λ ok bad. (refl, refl, refl, refl, refl, refl)
produce_at-Safe w acks topic b req (some p) =
    as_leader-Safe w acks topic req b p (is_leader b topic req.partition_id) (
      unfold is_leader in
      led_by-Same b topic req.partition_id (get_epoch b.epochs topic req.partition_id))

-- The answer is that of the append, or the wait timed out.
settled-cases :
    (acked : PendingAck → Bool) (response : ProduceResponsePartition) (pending : Option PendingAck)
    → ((settled acked response pending).error_code ≡ response.error_code)
      ⊎ ((settled acked response pending).error_code ≡ err_request_timed_out)
settled-cases acked response none = inl refl
settled-cases acked response (some ack) = elim (Bool-cases (acked ack)) [
  | inl answered ↦ inl (simp answered refl)
  | inr late ↦ inr (simp late refl)
]

produce_partition-Safe :
    (w : World) (acks : ℤ) (topic : Bytes) (b : Broker) (req : ProduceRequestPartition)
    → Safe b (produce_partition w acks topic b req)
unfolding produce_partition
produce_partition-Safe w acks topic b req =
    produce_at-Safe w acks topic b req (find_partition b topic req.partition_id)

-- If a produce to a partition is answered in the end, behind its wait if it has one, with any other
-- code than "none", "unknown" and "request timed out", be it for a partition that is not there, a
-- broker that does not lead it, too few replicas in sync, a record set that is too large or one
-- that does not decode, then it has left all topics with their logs and high watermarks, the
-- metadata and the waiting requests as they were, waited for nothing, and woken nobody.
pub produce_partition-Untouched :
    (w : World) (acks : ℤ) (topic : Bytes) (b : Broker) (req : ProduceRequestPartition)
    (acked : PendingAck → Bool)
    → (settle acked (produce_partition w acks topic b req).1).error_code ≢ err_none
    → (settle acked (produce_partition w acks topic b req).1).error_code ≢ err_unknown
    → (settle acked (produce_partition w acks topic b req).1).error_code ≢ err_request_timed_out
    → Untouched b (produce_partition w acks topic b req)
unfolding settle
produce_partition-Untouched w acks topic b req acked ok bad late =
    elim (settled-cases acked out.response out.pending) [
      | inl same ↦
          produce_partition-Safe w acks topic b req (λ e. ok (same ∙ e)) (λ e. bad (same ∙ e))
      | inr timed_out ↦ absurd (late timed_out)
    ]
  where
    out : Produced
    out = (produce_partition w acks topic b req).1
