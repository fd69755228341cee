-- ===== src/Protocol/Requests/ListOffsets.antt =====
-- internal/protocol/requests.go: the ListOffsets request (apiKey 10).
use mini_kafka.Prelude.{All, List, length, ◌≤◌}
use mini_kafka.Prelude.Int.{IsInt32, IsInt64, ℤ}
use mini_kafka.Protocol.Stream.{Bytes, Reader, Writer, pure, ◌>>=◌, ◌>>◌}
use mini_kafka.Protocol.Trips.{Trips, Trips-last, Trips-seq}
use mini_kafka.Protocol.Codec.{
  int32, int64, max_int16, put_int32, put_int64, put_string, safety_limit, string,
}
use mini_kafka.Protocol.Codec.Array.{Trips-capped_array, put_array, read_capped_array}
use mini_kafka.Protocol.Codec.RoundTrip.{Trips-int32, Trips-int64, Trips-string}

pub record ListOffsetsRequestPartition : Type 0 where
  pub partition_id : ℤ
  pub timestamp : ℤ

pub record ListOffsetsRequestTopic : Type 0 where
  pub name : Bytes
  pub partitions : List ListOffsetsRequestPartition

pub record ListOffsetsRequest : Type 0 where
  pub topics : List ListOffsetsRequestTopic

put_partition : ListOffsetsRequestPartition → Writer
put_partition p = do put_int32 p.partition_id; put_int64 p.timestamp

put_topic : ListOffsetsRequestTopic → Writer
put_topic t = do put_string t.name; put_array put_partition t.partitions

pub encode : ListOffsetsRequest → Writer
encode r = put_array put_topic r.topics

get_partition : Reader ListOffsetsRequestPartition
get_partition = do
  partition_id ← int32
  timestamp ← int64
  pure (record { partition_id = partition_id; timestamp = timestamp })

get_topic : Reader ListOffsetsRequestTopic
get_topic = do
  name ← string
  partitions ← read_capped_array get_partition
  pure (record { name = name; partitions = partitions })

pub decode : Reader ListOffsetsRequest
decode = do topics ← read_capped_array get_topic; pure (record { topics = topics })

pub record IsWirePartition (p : ListOffsetsRequestPartition) : Type 0 where
  pub partition_id : IsInt32 p.partition_id
  pub timestamp : IsInt64 p.timestamp

pub record IsWireTopic (t : ListOffsetsRequestTopic) : Type 0 where
  pub name : length t.name ≤ max_int16
  pub count_partitions : length t.partitions ≤ safety_limit
  pub partitions : All IsWirePartition t.partitions

pub record IsWire (r : ListOffsetsRequest) : Type 0 where
  pub count_topics : length r.topics ≤ safety_limit
  pub topics : All IsWireTopic r.topics

put_partition-Trips :
    (p : ListOffsetsRequestPartition) → IsWirePartition p → Trips (put_partition p) get_partition p
unfolding put_partition get_partition
put_partition-Trips p h =
    Trips-seq _ _ (Trips-int32 _ h.partition_id) (Trips-last _ _ (Trips-int64 _ h.timestamp))

put_topic-Trips : (t : ListOffsetsRequestTopic) → IsWireTopic t → Trips (put_topic t) get_topic t
unfolding put_topic get_topic
put_topic-Trips t h =
    Trips-seq _ _ (Trips-string _ h.name) (
      Trips-last _ _ (Trips-capped_array _ _ put_partition-Trips _ h.count_partitions h.partitions))

-- What ListOffsetsRequest writes is read back whole, wherever it stands in the stream.
pub encode-Trips : (r : ListOffsetsRequest) → IsWire r → Trips (encode r) decode r
unfolding encode decode
encode-Trips r h = Trips-last _ _ (Trips-capped_array _ _ put_topic-Trips _ h.count_topics h.topics)
