-- ===== src/Protocol/Responses/OffsetCommit.antt =====
-- internal/protocol/responses.go: the OffsetCommit response (apiKey 8).
use mini_kafka.Prelude.{All, List, length, ◌≤◌}
use mini_kafka.Prelude.Int.{IsInt16, IsInt32, ℤ}
use mini_kafka.Protocol.Stream.{Bytes, Reader, Writer, pure, ◌>>=◌, ◌>>◌}
use mini_kafka.Protocol.Trips.{Trips, Trips-last, Trips-seq}
use mini_kafka.Protocol.Codec.{
  int16, int32, max_int16, max_int32, put_int16, put_int32, put_string, string,
}
use mini_kafka.Protocol.Codec.Array.{Trips-array, put_array, read_array}
use mini_kafka.Protocol.Codec.RoundTrip.{Trips-int16, Trips-int32, Trips-string}

pub record OffsetCommitResponsePartition : Type 0 where
  pub partition_id : ℤ
  pub error_code : ℤ

pub record OffsetCommitResponseTopic : Type 0 where
  pub name : Bytes
  pub partitions : List OffsetCommitResponsePartition

pub record OffsetCommitResponse : Type 0 where
  pub topics : List OffsetCommitResponseTopic

put_partition : OffsetCommitResponsePartition → Writer
put_partition p = do put_int32 p.partition_id; put_int16 p.error_code

put_topic : OffsetCommitResponseTopic → Writer
put_topic t = do put_string t.name; put_array put_partition t.partitions

pub encode : OffsetCommitResponse → Writer
encode r = put_array put_topic r.topics

get_partition : Reader OffsetCommitResponsePartition
get_partition = do
  partition_id ← int32
  error_code ← int16
  pure (record { partition_id = partition_id; error_code = error_code })

get_topic : Reader OffsetCommitResponseTopic
get_topic = do
  name ← string
  partitions ← read_array get_partition
  pure (record { name = name; partitions = partitions })

pub decode : Reader OffsetCommitResponse
decode = do topics ← read_array get_topic; pure (record { topics = topics })

pub record IsWirePartition (p : OffsetCommitResponsePartition) : Type 0 where
  pub partition_id : IsInt32 p.partition_id
  pub error_code : IsInt16 p.error_code

pub record IsWireTopic (t : OffsetCommitResponseTopic) : Type 0 where
  pub name : length t.name ≤ max_int16
  pub count_partitions : length t.partitions ≤ max_int32
  pub partitions : All IsWirePartition t.partitions

pub record IsWire (r : OffsetCommitResponse) : Type 0 where
  pub count_topics : length r.topics ≤ max_int32
  pub topics : All IsWireTopic r.topics

put_partition-Trips :
    (p : OffsetCommitResponsePartition)
    → IsWirePartition p
    → Trips (put_partition p) get_partition p
unfolding put_partition get_partition
put_partition-Trips p h =
    Trips-seq _ _ (Trips-int32 _ h.partition_id) (Trips-last _ _ (Trips-int16 _ h.error_code))

put_topic-Trips : (t : OffsetCommitResponseTopic) → IsWireTopic t → Trips (put_topic t) get_topic t
unfolding put_topic get_topic
put_topic-Trips t h =
    Trips-seq _ _ (Trips-string _ h.name)
      (Trips-last _ _ (Trips-array _ _ put_partition-Trips _ h.count_partitions h.partitions))

-- What OffsetCommitResponse writes is read back whole, wherever it stands in the stream.
pub encode-Trips : (r : OffsetCommitResponse) → IsWire r → Trips (encode r) decode r
unfolding encode decode
encode-Trips r h = Trips-last _ _ (Trips-array _ _ put_topic-Trips _ h.count_topics h.topics)
