-- ===== src/Protocol/Requests/Fetch.antt =====
-- internal/protocol/requests.go: the Fetch request (apiKey 1).
use mini_kafka.Prelude.{All, List, length, ◌≤◌}
use mini_kafka.Prelude.Int.{IsInt32, IsInt64, ℤ}
use mini_kafka.Protocol.Stream.{Bytes, Reader, Writer, pure, ◌>>=◌, ◌>>◌}
use mini_kafka.Protocol.Trips.{Trips, Trips-last, Trips-seq}
use mini_kafka.Protocol.Codec.{
  int32, int64, max_int16, put_int32, put_int64, put_string, safety_limit, string,
}
use mini_kafka.Protocol.Codec.Array.{Trips-capped_array, put_array, read_capped_array}
use mini_kafka.Protocol.Codec.RoundTrip.{Trips-int32, Trips-int64, Trips-string}

pub record FetchRequestPartition : Type 0 where
  pub partition_id : ℤ
  pub fetch_offset : ℤ
  pub max_bytes : ℤ

pub record FetchRequestTopic : Type 0 where
  pub name : Bytes
  pub partitions : List FetchRequestPartition

pub record FetchRequest : Type 0 where
  pub max_wait_ms : ℤ
  pub min_bytes : ℤ
  pub max_bytes : ℤ
  pub topics : List FetchRequestTopic

put_partition : FetchRequestPartition → Writer
put_partition p = do put_int32 p.partition_id; put_int64 p.fetch_offset; put_int32 p.max_bytes

put_topic : FetchRequestTopic → Writer
put_topic t = do put_string t.name; put_array put_partition t.partitions

pub encode : FetchRequest → Writer
encode r = do
  put_int32 r.max_wait_ms
  put_int32 r.min_bytes
  put_int32 r.max_bytes
  put_array put_topic r.topics

get_partition : Reader FetchRequestPartition
get_partition = do
  partition_id ← int32
  fetch_offset ← int64
  max_bytes ← int32
  pure (record { partition_id = partition_id; fetch_offset = fetch_offset; max_bytes = max_bytes })

get_topic : Reader FetchRequestTopic
get_topic = do
  name ← string
  partitions ← read_capped_array get_partition
  pure (record { name = name; partitions = partitions })

pub decode : Reader FetchRequest
decode = do
  max_wait_ms ← int32
  min_bytes ← int32
  max_bytes ← int32
  topics ← read_capped_array get_topic
  pure (record {
    max_wait_ms = max_wait_ms;
    min_bytes = min_bytes;
    max_bytes = max_bytes;
    topics = topics;
  })

pub record IsWirePartition (p : FetchRequestPartition) : Type 0 where
  pub partition_id : IsInt32 p.partition_id
  pub fetch_offset : IsInt64 p.fetch_offset
  pub max_bytes : IsInt32 p.max_bytes

pub record IsWireTopic (t : FetchRequestTopic) : Type 0 where
  pub name : length t.name ≤ max_int16
  pub count_partitions : length t.partitions ≤ safety_limit
  pub partitions : All IsWirePartition t.partitions

pub record IsWire (r : FetchRequest) : Type 0 where
  pub max_wait_ms : IsInt32 r.max_wait_ms
  pub min_bytes : IsInt32 r.min_bytes
  pub max_bytes : IsInt32 r.max_bytes
  pub count_topics : length r.topics ≤ safety_limit
  pub topics : All IsWireTopic r.topics

put_partition-Trips :
    (p : FetchRequestPartition) → IsWirePartition p → Trips (put_partition p) get_partition p
unfolding put_partition get_partition
put_partition-Trips p h =
    Trips-seq _ _ (Trips-int32 _ h.partition_id)
      (Trips-seq _ _ (Trips-int64 _ h.fetch_offset) (Trips-last _ _ (Trips-int32 _ h.max_bytes)))

put_topic-Trips : (t : FetchRequestTopic) → IsWireTopic t → Trips (put_topic t) get_topic t
unfolding put_topic get_topic
put_topic-Trips t h =
    Trips-seq _ _ (Trips-string _ h.name) (
      Trips-last _ _ (Trips-capped_array _ _ put_partition-Trips _ h.count_partitions h.partitions))

-- What FetchRequest writes is read back whole, wherever it stands in the stream.
pub encode-Trips : (r : FetchRequest) → IsWire r → Trips (encode r) decode r
unfolding encode decode
encode-Trips r h = Trips-seq _ _ (Trips-int32 _ h.max_wait_ms) (
    Trips-seq _ _ (Trips-int32 _ h.min_bytes) (
      Trips-seq _ _ (Trips-int32 _ h.max_bytes)
        (Trips-last _ _ (Trips-capped_array _ _ put_topic-Trips _ h.count_topics h.topics))))
