-- ===== src/Protocol/Requests/Produce.antt =====
-- internal/protocol/requests.go: the Produce request (apiKey 0).
use mini_kafka.Prelude.{All, List, length, ◌≤◌}
use mini_kafka.Prelude.Int.{IsInt16, IsInt32, ℤ}
use mini_kafka.Protocol.Stream.{Bytes, Reader, Writer, pure, ◌>>=◌, ◌>>◌}
use mini_kafka.Protocol.Trips.{Trips, Trips-last, Trips-seq}
use mini_kafka.Protocol.Codec.{
  bytes, int16, int32, max_bytes_length, max_int16, put_bytes, put_int16, put_int32, put_string,
  safety_limit, string,
}
use mini_kafka.Protocol.Codec.Array.{Trips-capped_array, put_array, read_capped_array}
use mini_kafka.Protocol.Codec.RoundTrip.{Trips-bytes, Trips-int16, Trips-int32, Trips-string}

pub record ProduceRequestPartition : Type 0 where
  pub partition_id : ℤ
  pub record_set : Bytes

pub record ProduceRequestTopic : Type 0 where
  pub name : Bytes
  pub partitions : List ProduceRequestPartition

pub record ProduceRequest : Type 0 where
  pub acks : ℤ
  pub timeout_ms : ℤ
  pub topics : List ProduceRequestTopic

put_partition : ProduceRequestPartition → Writer
put_partition p = do put_int32 p.partition_id; put_bytes p.record_set

put_topic : ProduceRequestTopic → Writer
put_topic t = do put_string t.name; put_array put_partition t.partitions

pub encode : ProduceRequest → Writer
encode r = do put_int16 r.acks; put_int32 r.timeout_ms; put_array put_topic r.topics

get_partition : Reader ProduceRequestPartition
get_partition = do
  partition_id ← int32
  record_set ← bytes
  pure (record { partition_id = partition_id; record_set = record_set })

get_topic : Reader ProduceRequestTopic
get_topic = do
  name ← string
  partitions ← read_capped_array get_partition
  pure (record { name = name; partitions = partitions })

pub decode : Reader ProduceRequest
decode = do
  acks ← int16
  timeout_ms ← int32
  topics ← read_capped_array get_topic
  pure (record { acks = acks; timeout_ms = timeout_ms; topics = topics })

pub record IsWirePartition (p : ProduceRequestPartition) : Type 0 where
  pub partition_id : IsInt32 p.partition_id
  pub record_set : length p.record_set ≤ max_bytes_length

pub record IsWireTopic (t : ProduceRequestTopic) : Type 0 where
  pub name : length t.name ≤ max_int16
  pub count_partitions : length t.partitions ≤ safety_limit
  pub partitions : All IsWirePartition t.partitions

pub record IsWire (r : ProduceRequest) : Type 0 where
  pub acks : IsInt16 r.acks
  pub timeout_ms : IsInt32 r.timeout_ms
  pub count_topics : length r.topics ≤ safety_limit
  pub topics : All IsWireTopic r.topics

put_partition-Trips :
    (p : ProduceRequestPartition) → IsWirePartition p → Trips (put_partition p) get_partition p
unfolding put_partition get_partition
put_partition-Trips p h =
    Trips-seq _ _ (Trips-int32 _ h.partition_id) (Trips-last _ _ (Trips-bytes _ h.record_set))

put_topic-Trips : (t : ProduceRequestTopic) → IsWireTopic t → Trips (put_topic t) get_topic t
unfolding put_topic get_topic
put_topic-Trips t h =
    Trips-seq _ _ (Trips-string _ h.name) (
      Trips-last _ _ (Trips-capped_array _ _ put_partition-Trips _ h.count_partitions h.partitions))

-- What ProduceRequest writes is read back whole, wherever it stands in the stream.
pub encode-Trips : (r : ProduceRequest) → IsWire r → Trips (encode r) decode r
unfolding encode decode
encode-Trips r h = Trips-seq _ _ (Trips-int16 _ h.acks) (
    Trips-seq _ _ (Trips-int32 _ h.timeout_ms)
      (Trips-last _ _ (Trips-capped_array _ _ put_topic-Trips _ h.count_topics h.topics)))
