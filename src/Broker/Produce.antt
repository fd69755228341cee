-- ===== src/Broker/Produce.antt =====
-- internal/broker/broker.go: handleProduce. The broker's locks make each access to the shared state
-- a step; the handler is one step up to its wait for acks=all, and one behind it. The time is that
-- of the call.
pub mod Records
pub mod Leader
pub mod Sole
pub mod Refused
use mini_kafka.Prelude.{
  ℕ, zero, suc, ◌/◌, ◌^◌, Bool, true, false, Option, none, some, List, [], ◌∷◌, ltb, length, ◌&&◌,
  map, if◌then◌else◌,
}
use mini_kafka.Prelude.Int.{ℤ, pos, negsuc, ltb_ℤ, leb_ℤ, ◌==ℤ◌}
use mini_kafka.Protocol.Stream.{Bytes, Result, ok, err, eof}
use mini_kafka.Protocol.Requests.Produce.{
  ProduceRequest, ProduceRequestTopic, ProduceRequestPartition,
}
use mini_kafka.Protocol.Responses.Produce.{
  ProduceResponse, ProduceResponseTopic, ProduceResponsePartition,
}
use mini_kafka.Server.Handler.{err_none, err_unknown}
use mini_kafka.Coordinator.Group.{err_request_timed_out}
use mini_kafka.Storage.Record.{Record, decode_record}
use mini_kafka.Storage.Log.{LogError}
use mini_kafka.Replication.Isr.{get_isr}
use mini_kafka.Replication.Purgatory.{check_and_complete, watch, cancel}
use mini_kafka.Broker.Codes.{
  err_corrupt_message, err_unknown_topic_or_partition, err_not_leader_for_partition,
  err_message_too_large, err_not_enough_replicas, err_invalid_topic_exception,
}
use mini_kafka.Broker.Partition.{Partition, append_batch, set_high_watermark, log_end_offset}
use mini_kafka.Broker.State.{Broker, World, find_partition, with_partition}
use mini_kafka.Broker.Replicas.{
  is_leader, get_or_create_isr_tracker, update_leader_leo, min_insync_replicas,
}
use mini_kafka.Broker.Listeners.{notify_appended}
use mini_kafka.Broker.Topics.{TopicError, invalid_topic_name, other_error, get_or_create_topic}

-- The records that are decoded, and whether an error ends them.
abbrev pub Decoded : Type 0
Decoded = List Record × Bool

pub decode_step : (Bytes → Decoded) → Result (Record × ℕ) × Bytes → Decoded
decode_step further (err eof, left) = ([], false)
decode_step further (err e, left) = ([], true)
decode_step further (ok (r, n), left) = let (rs, corrupt) = further left in (r ∷ rs, corrupt)

-- The loop over the record set, for at most `fuel` records. A record takes a byte at least.
pub decode_records : ℕ → Bytes → Decoded
unfolding decode_step
decode_records zero bs = ([], false)
decode_records (suc fuel) [] = ([], false)
decode_records (suc fuel) (b ∷ bs) =
    decode_step (λ left. decode_records fuel left) (decode_record (b ∷ bs))

-- A partition that waits for acks=all, with the offset that the high watermark must reach.
pub record PendingAck : Type 0 where
  pub topic : Bytes
  pub partition : ℤ
  pub required_hw : ℤ

-- What a partition of the request gives: its response, with the wait that it needs, the waiting
-- requests that get a nil, and the listeners that are sent to.
pub record Produced : Type 0 where
  pub response : ProduceResponsePartition
  pub pending : Option PendingAck
  pub completed : List ℕ
  pub notified : List ℕ

abbrev pub refused : ℤ → ℤ → Produced
refused id code = record {
  response = record {
    partition_id = id;
    error_code = code;
    base_offset = pos 0;
    log_append_time = pos 0;
  };
  pending = none;
  completed = [];
  notified = [];
}

abbrev code_of : TopicError → ℤ
code_of invalid_topic_name = err_invalid_topic_exception
code_of other_error = err_unknown_topic_or_partition

abbrev asks_all : ℤ → Bool
asks_all acks = acks ==ℤ negsuc 0

-- Behind a successful append: the end of the log counts for the leader, the high watermark follows,
-- and the waiting requests and listeners are told.
unfoldable pub committed : World → ℤ → Bytes → ℤ → ℕ → Broker → Partition → Broker × Produced
committed w acks topic id base b p =
    let leo = log_end_offset p in
    let (b', hw) = update_leader_leo w b topic id leo in
    let (purgatory, sent) = check_and_complete b'.purgatory topic id hw in
    (
      record (with_partition b' topic id (set_high_watermark p hw)) { purgatory = purgatory },
      record {
        response = record {
          partition_id = id;
          error_code = err_none;
          base_offset = pos base;
          log_append_time = pos (w.now / 10 ^ 6);
        };
        pending =
            if asks_all acks
            then some (record { topic = topic; partition = id; required_hw = leo })
            else none;
        completed = sent;
        notified = notify_appended b.listeners topic id;
      },
    )

unfoldable pub after_append :
    World → ℤ → Bytes → ℤ → Broker → Partition × (ℕ × Option LogError) → Broker × Produced
unfolding committed
after_append w acks topic id b (p, (base, some e)) =
    (with_partition b topic id p, refused id err_unknown)
after_append w acks topic id b (p, (base, none)) = committed w acks topic id base b p

-- The append of what was decoded, if there is any.
unfoldable pub append_decoded :
    World → ℤ → Bytes → ℤ → Broker → Partition → Decoded → Broker × Produced
unfolding after_append
append_decoded w acks topic id b p (rs, true) = (b, refused id err_corrupt_message)
append_decoded w acks topic id b p ([], false) = (b, refused id err_none)
append_decoded w acks topic id b p (r ∷ rs, false) =
    after_append w acks topic id b (append_batch p w.now (r ∷ rs))

unfoldable pub too_large : Broker → Bytes → Bool
too_large b record_set =
    ltb_ℤ (pos 0) b.config.max_message_bytes
    && ltb_ℤ b.config.max_message_bytes (pos (length record_set))

unfoldable pub produce_records :
    World → ℤ → Bytes → ProduceRequestPartition → Broker → Partition → Broker × Produced
unfolding append_decoded
produce_records w acks topic req b p =
    if too_large b req.record_set
    then (b, refused req.partition_id err_message_too_large)
    else append_decoded w acks topic req.partition_id b p
        (decode_records (suc (length req.record_set)) req.record_set)

-- Whether there are too few replicas in sync for acks=all; the tracker is made if there is none.
unfoldable pub lacks_replicas : World → Broker → Bytes → ℤ → Broker × Bool
lacks_replicas w b topic id =
    let (b', t) = get_or_create_isr_tracker w b topic id in
    (b', ltb (length (get_isr t.replicas)) (min_insync_replicas b))

unfoldable pub check_replicas :
    World → ℤ → Bytes → ProduceRequestPartition → Partition → Broker × Bool → Broker × Produced
unfolding produce_records
check_replicas w acks topic req p (b, true) = (b, refused req.partition_id err_not_enough_replicas)
check_replicas w acks topic req p (b, false) = produce_records w acks topic req b p

unfoldable pub as_leader :
    World → ℤ → Bytes → ProduceRequestPartition → Partition → Broker × Bool → Broker × Produced
unfolding check_replicas
as_leader w acks topic req p (b, false) = (b, refused req.partition_id err_not_leader_for_partition)
as_leader w acks topic req p (b, true) =
    check_replicas w acks topic req p
      (if asks_all acks then lacks_replicas w b topic req.partition_id else (b, false))

-- A partition of a topic that is there, as far as it is there itself.
unfoldable pub produce_at :
    World → ℤ → Bytes → Broker → ProduceRequestPartition → Option Partition → Broker × Produced
unfolding as_leader
produce_at w acks topic b req none = (b, refused req.partition_id err_unknown_topic_or_partition)
produce_at w acks topic b req (some p) =
    as_leader w acks topic req p (is_leader b topic req.partition_id)

unfoldable pub produce_partition :
    World → ℤ → Bytes → Broker → ProduceRequestPartition → Broker × Produced
unfolding produce_at
produce_partition w acks topic b req =
    produce_at w acks topic b req (find_partition b topic req.partition_id)

unfoldable pub produce_either :
    World → ℤ → Bytes → Option TopicError → Broker → ProduceRequestPartition → Broker × Produced
unfolding produce_partition
produce_either w acks topic (some e) b req = (b, refused req.partition_id (code_of e))
produce_either w acks topic none b req = produce_partition w acks topic b req

pub produce_partitions :
    World
    → ℤ
    → Bytes
    → Option TopicError
    → Broker
    → List ProduceRequestPartition
    → Broker × List Produced
unfolding produce_either
produce_partitions w acks topic e b [] = (b, [])
produce_partitions w acks topic e b (req ∷ reqs) =
    let (b', out) = produce_either w acks topic e b req in
    let (b'', outs) = produce_partitions w acks topic e b' reqs in (b'', out ∷ outs)

pub produce_topic : World → ℤ → Broker → ProduceRequestTopic → Broker × (Bytes × List Produced)
unfolding produce_partitions
produce_topic w acks b req =
    let (b', e) = get_or_create_topic w b req.name (pos 0) in
    let (b'', outs) = produce_partitions w acks req.name e b' req.partitions in
    (b'', (req.name, outs))

-- The loop of handleProduce over the topics.
pub produce_topics :
    World → ℤ → Broker → List ProduceRequestTopic → Broker × List (Bytes × List Produced)
unfolding produce_topic
produce_topics w acks b [] = (b, [])
produce_topics w acks b (req ∷ reqs) =
    let (b', out) = produce_topic w acks b req in
    let (b'', outs) = produce_topics w acks b' reqs in (b'', out ∷ outs)

-- waitForAcksAll, the item in the waiting room, with the second look at the high watermark: the
-- item's id, and the channels that get a nil.
pub enter_wait : World → Broker → PendingAck → ℕ → Broker × (ℕ × List ℕ)
enter_wait w b ack ch =
    let (watched, id) = watch b.purgatory ack.topic ack.partition ack.required_hw ch in
    let (b', t) =
      get_or_create_isr_tracker w (record b { purgatory = watched }) ack.topic ack.partition in
    let (p, sent) = check_and_complete b'.purgatory ack.topic ack.partition t.high_watermark in
    if leb_ℤ ack.required_hw t.high_watermark
    then (record b' { purgatory = p }, (id, sent))
    else (b', (id, []))

abbrev waiting : Broker × (ℕ × List ℕ) → Broker × Option (ℕ × List ℕ)
waiting (b, out) = (b, some out)

-- waitForAcksAll up to its wait: `none` if there is nothing to wait for.
pub start_wait : World → Broker → PendingAck → ℕ → Broker × Option (ℕ × List ℕ)
unfolding enter_wait
start_wait w b ack ch =
    if leb_ℤ ack.required_hw (pos 0)
    then (b, none)
    else let (b', t) = get_or_create_isr_tracker w b ack.topic ack.partition in
      if leb_ℤ ack.required_hw t.high_watermark
      then (b', none)
      else waiting (enter_wait w b' ack ch)

-- The end of the wait: without an answer before the deadline, the item is taken away.
pub end_wait : Broker → ℕ → Bool → Broker
end_wait b id answered = if answered then b else record b { purgatory = cancel b.purgatory id }

abbrev pub settled :
    (PendingAck → Bool) → ProduceResponsePartition → Option PendingAck → ProduceResponsePartition
settled answered response none = response
settled answered response (some ack) =
    if answered ack then response else record response { error_code = err_request_timed_out }

-- The response of a partition, given which waits were answered before the deadline. The answers
-- are all nil, so that no wait ends with another error.
unfoldable pub settle : (PendingAck → Bool) → Produced → ProduceResponsePartition
settle answered out = settled answered out.response out.pending

settle_topic : (PendingAck → Bool) → Bytes × List Produced → ProduceResponseTopic
unfolding settle
settle_topic answered (name, outs) = record { name = name; partitions = map (settle answered) outs }

-- handleProduce, on the decoded request: what it does before its waits, and its response.
pub handle_produce :
    World → (PendingAck → Bool) → Broker → ProduceRequest → Broker × ProduceResponse
unfolding produce_topics settle_topic
handle_produce w answered b req =
    let (b', outs) = produce_topics w req.acks b req.topics in
    (b', record { topics = map (settle_topic answered) outs })
