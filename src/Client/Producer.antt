-- ===== src/Client/Producer.antt =====
-- pkg/client/producer.go: the producer. Its locks make each access to the batches a step; a flush is
-- a step of its own behind the one that takes the batch off the map. A channel for a result is a
-- number, and so is the identity of a batch. The connection is an argument: a function from the
-- request to the response, if one comes back. The fill ratio of the batches is left out.
pub mod Steps
pub mod Held
pub mod Answered
use mini_kafka.Prelude.{
  ℕ, zero, suc, ◌+◌, ◌^◌, ◌≡◌, Bool, true, false, Option, none, some, List, [], ◌∷◌, ◌++◌, ◌&&◌,
  not, ltb, leb, ◌==◌, map, length, if◌then◌else◌,
}
use mini_kafka.Prelude.Int.{ℤ, pos, negsuc, leb_ℤ, pos_part, add_wrapped, ◌==ℤ◌}
use mini_kafka.Protocol.Stream.{Bytes, Result, ok, err}
use mini_kafka.Protocol.Frame.{RequestFrame, ResponseFrame}
use mini_kafka.Protocol.Requests.Produce.{ProduceRequest}
use mini_kafka.Protocol.Requests
use mini_kafka.Protocol.Responses.Produce.{ProduceResponse, ProduceResponsePartition}
use mini_kafka.Protocol.Responses
use mini_kafka.Storage.Record.{Record, encode, encoded_size}
use mini_kafka.Replication.Epoch.{same_partition}

pub record ProducerConfig : Type 0 where
  pub client_id : Bytes
  pub acks : ℤ
  pub timeout_ms : ℤ
  pub linger_ms : ℤ
  pub batch_size : ℤ

-- "mini-kafka-producer"
abbrev default_client_id : Bytes
default_client_id =
    109 ∷ 105 ∷ 110 ∷ 105 ∷ 45 ∷ 107 ∷ 97 ∷ 102 ∷ 107 ∷ 97 ∷ 45 ∷ 112 ∷ 114 ∷ 111 ∷ 100 ∷ 117 ∷ 99
    ∷ 101 ∷ 114 ∷ []

-- DefaultProducerConfig
pub default_producer_config : ProducerConfig
default_producer_config = record {
  client_id = default_client_id;
  acks = pos 1;
  timeout_ms = pos 30000;
  linger_ms = pos 0;
  batch_size = pos 16384;
}

-- What NewProducer makes of its configuration.
pub with_defaults : ProducerConfig → ProducerConfig
with_defaults c = record {
  client_id = if length c.client_id == 0 then default_client_id else c.client_id;
  acks = if c.acks ==ℤ pos 0 then pos 1 else c.acks;
  timeout_ms = if leb_ℤ c.timeout_ms (pos 0) then pos 30000 else c.timeout_ms;
  linger_ms = c.linger_ms;
  batch_size = if leb_ℤ c.batch_size (pos 0) then pos 16384 else c.batch_size;
}

-- A batch, whose records and waiters have the same order.
pub record PendingBatch : Type 0 where
  pub id : ℕ
  pub topic : Bytes
  pub partition : ℤ
  pub records : List Record
  pub bytes : ℕ
  pub waiters : List ℕ

pub data BatchResult : Type 0 where
  sent : ℤ → BatchResult
  not_sent : BatchResult

-- A result on its way to the channel that waits for it.
pub record Delivery : Type 0 where
  pub waiter : ℕ
  pub result : BatchResult

-- `in_flight` are the batches that are taken off the map and not yet flushed.
pub record Producer : Type 0 where
  pub config : ProducerConfig
  pub closed : Bool
  pub finalized : Bool
  pub next_batch : ℕ
  pub pending : List PendingBatch
  pub in_flight : List PendingBatch

-- NewProducer, for one broker address at least.
pub new_producer : ProducerConfig → Producer
unfolding with_defaults
new_producer c = record {
  config = with_defaults c;
  closed = false;
  finalized = false;
  next_batch = 0;
  pending = [];
  in_flight = [];
}

abbrev is_for : Bytes → ℤ → PendingBatch → Bool
is_for topic partition pb = same_partition pb.topic pb.partition topic partition

-- The record and its waiter in a batch.
unfoldable pub joined : Record → ℕ → PendingBatch → PendingBatch
joined rec waiter pb = record pb {
  records = pb.records ++ rec ∷ [];
  bytes = pb.bytes + encoded_size rec;
  waiters = pb.waiters ++ waiter ∷ [];
}

abbrev new_batch : ℕ → Bytes → ℤ → PendingBatch
new_batch id topic partition = record {
  id = id;
  topic = topic;
  partition = partition;
  records = [];
  bytes = 0;
  waiters = [];
}

-- The batches with the record added: those that stay, and the batch that is full.
pub record Added : Type 0 where
  pub kept : List PendingBatch
  pub full : List PendingBatch

unfoldable pub sort_out : ℤ → PendingBatch → List PendingBatch → Added
sort_out batch_size pb rest =
    if leb_ℤ batch_size (pos pb.bytes)
    then record { kept = rest; full = pb ∷ [] }
    else record { kept = pb ∷ rest; full = [] }

abbrev behind : PendingBatch → Added → Added
behind pb a = record a { kept = pb ∷ a.kept }

unfoldable pub add_record : ℤ → ℕ → Bytes → ℤ → Record → ℕ → List PendingBatch → Added
unfolding sort_out joined
add_record batch_size id topic partition rec waiter [] =
    sort_out batch_size (joined rec waiter (new_batch id topic partition)) []
add_record batch_size id topic partition rec waiter (pb ∷ pbs) =
    let rest = add_record batch_size id topic partition rec waiter pbs in
    if is_for topic partition pb
    then sort_out batch_size (joined rec waiter pb) pbs
    else behind pb rest

-- The record of sendBatched, with the present time in nanoseconds.
abbrev pub new_record : ℕ → Option Bytes → Option Bytes → Record
new_record now_ms key value = record {
  offset = pos 0;
  timestamp = pos now_ms;
  attributes = pos 0;
  key = key;
  value = value;
}

-- sendBatched up to its wait: false if the producer is closed.
unfoldable pub send_batched : Producer → Bytes → ℤ → Record → ℕ → Producer × Bool
unfolding add_record
send_batched p topic partition rec waiter =
    let a = add_record p.config.batch_size p.next_batch topic partition rec waiter p.pending in
    if p.closed then (p, false) else (
      record p {
        next_batch = p.next_batch + 1;
        pending = a.kept;
        in_flight = p.in_flight ++ a.full;
      },
      true,
    )

-- The batches without the one of a number, and that one.
unfoldable pub take_off : ℕ → List PendingBatch → List PendingBatch × List PendingBatch
take_off id [] = ([], [])
take_off id (pb ∷ pbs) =
    let rest = take_off id pbs in if pb.id == id then (pbs, pb ∷ []) else (pb ∷ rest.0, rest.1)

-- lingerFire: nothing if the batch is no more on the map.
unfoldable pub linger_fire : Producer → ℕ → Producer
unfolding take_off
linger_fire p id =
    let out = take_off id p.pending in
    record p { pending = out.0; in_flight = p.in_flight ++ out.1 }

-- flushAllPending, up to its flushes.
unfoldable pub flush_all_pending : Producer → Producer
flush_all_pending p = record p { pending = []; in_flight = p.in_flight ++ p.pending }

-- Close up to its flushes: no new records are taken from here on. The two locks of Close are taken
-- in one step: between them no record is added, and a batch that a timer takes off is in flight
-- either way.
unfoldable pub begin_close : Producer → Producer
unfolding flush_all_pending
begin_close p =
    if p.finalized
    then p
    else if p.closed
    then p
    else if leb_ℤ p.config.linger_ms (pos 0)
    then record p { closed = true }
    else flush_all_pending (record p { closed = true })

-- The results for the waiters from the number of an offset on.
unfoldable pub deliver : List ℕ → List ℤ → List Delivery
deliver [] offsets = []
deliver (w ∷ ws) [] = record { waiter = w; result = not_sent } ∷ deliver ws []
deliver (w ∷ ws) (o ∷ offsets) = record { waiter = w; result = sent o } ∷ deliver ws offsets

-- flushBatch, on what produceRecords gives: a batch without records is left alone.
unfoldable pub flush_batch : PendingBatch → Option (List ℤ) → List Delivery
unfolding deliver
flush_batch pb none = if length pb.records == 0 then [] else deliver pb.waiters []
flush_batch pb (some offsets) = if length pb.records == 0 then [] else deliver pb.waiters offsets

-- The records in a buffer, unless one of them does not encode.
abbrev encode_rest : Result (Unit {0}) × Bytes → (Bytes → Option Bytes) → Option Bytes
encode_rest (ok u, buf) further = further buf
encode_rest (err e, buf) further = none

unfoldable pub encode_records : List Record → Bytes → Option Bytes
encode_records [] buf = some buf
encode_records (r ∷ rs) buf = let further = encode_records rs in encode_rest (encode r buf) further

-- `count` offsets from a base on, each an int64.
unfoldable pub offsets_from : ℤ → ℕ → ℕ → List ℤ
offsets_from base i zero = []
offsets_from base i (suc count) = add_wrapped (2 ^ 63) base i ∷ offsets_from base (suc i) count

-- The answer for the partition.
unfoldable pub partition_answer : ℕ → ProduceResponsePartition → Option (List ℤ)
partition_answer count p =
    if p.error_code ==ℤ pos 0 then some (offsets_from p.base_offset 0 count) else none

unfoldable pub decoded_answer : ℕ → Result ProduceResponse × Bytes → Option (List ℤ)
unfolding partition_answer
decoded_answer count (err e, left) = none
decoded_answer count (ok r, left) = elim r.topics [
  | [] ↦ none
  | t ∷ ts ↦ elim t.partitions [ [] ↦ none | p ∷ ps ↦ partition_answer count p ]
]

-- The response frame against the request's correlation id.
unfoldable pub frame_answer : ℕ → ℤ → Option ResponseFrame → Option (List ℤ)
unfolding decoded_answer
frame_answer count correlation_id none = none
frame_answer count correlation_id (some f) =
    if f.correlation_id ==ℤ correlation_id
    then (if f.error_code ==ℤ pos 0
        then decoded_answer count (Responses.Produce.decode f.payload)
        else none)
    else none

abbrev produce_request : ProducerConfig → Bytes → ℤ → Bytes → ProduceRequest
produce_request c topic partition record_set = record {
  acks = c.acks;
  timeout_ms = c.timeout_ms;
  topics =
      record {
        name = topic;
        partitions = record { partition_id = partition; record_set = record_set } ∷ [];
      }
      ∷ [];
}

unfoldable pub request_frame : ProducerConfig → ℤ → Bytes → RequestFrame
request_frame c correlation_id payload = record {
  size = pos 0;
  api_key = pos 0;
  api_version = pos 1;
  correlation_id = correlation_id;
  client_id = c.client_id;
  payload = payload;
}

unfoldable pub send_request :
    ProducerConfig
    → ℤ
    → (RequestFrame → Option ResponseFrame)
    → ℕ
    → Result (Unit {0}) × Bytes
    → Option (List ℤ)
unfolding frame_answer request_frame
send_request c correlation_id exchange count (err e, payload) = none
send_request c correlation_id exchange count (ok u, payload) =
    frame_answer count correlation_id (exchange (request_frame c correlation_id payload))

unfoldable pub send_encoded :
    ProducerConfig
    → ℤ
    → (RequestFrame → Option ResponseFrame)
    → Bytes
    → ℤ
    → ℕ
    → Option Bytes
    → Option (List ℤ)
unfolding send_request
send_encoded c correlation_id exchange topic partition count none = none
send_encoded c correlation_id exchange topic partition count (some record_set) =
    send_request c correlation_id exchange count
      (Requests.Produce.encode (produce_request c topic partition record_set) [])

-- produceRecords, with the correlation id that it takes: the offsets, or `none` for an error.
unfoldable pub produce_records :
    ProducerConfig
    → ℤ
    → (RequestFrame → Option ResponseFrame)
    → Bytes
    → ℤ
    → List Record
    → Option (List ℤ)
unfolding encode_records send_encoded
produce_records c correlation_id exchange topic partition [] = some []
produce_records c correlation_id exchange topic partition (r ∷ rs) =
    send_encoded c correlation_id exchange topic partition (suc (length rs))
      (encode_records (r ∷ rs) [])

-- Close behind its flushes: the connection goes, and a further Close does nothing.
pub finalize : Producer → Producer
finalize p = record p { finalized = true }
