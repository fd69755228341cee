-- ===== src/Protocol/Requests/OffsetCommit.antt =====
-- internal/protocol/requests.go: the OffsetCommit request (apiKey 8).
use mini_kafka.Prelude.{All, List, length, ◌≤◌}
use mini_kafka.Prelude.Int.{IsInt32, IsInt64, ℤ}
use mini_kafka.Protocol.Stream.{Bytes, Reader, Writer, pure, ◌>>=◌, ◌>>◌}
use mini_kafka.Protocol.Trips.{Trips, Trips-last, Trips-seq}
use mini_kafka.Protocol.Codec.{
  int32, int64, max_int16, put_int32, put_int64, put_string, safety_limit, string,
}
use mini_kafka.Protocol.Codec.Array.{Trips-capped_array, put_array, read_capped_array}
use mini_kafka.Protocol.Codec.RoundTrip.{Trips-int32, Trips-int64, Trips-string}

pub record OffsetCommitRequestPartition : Type 0 where
  pub partition_id : ℤ
  pub offset : ℤ
  pub metadata : Bytes

pub record OffsetCommitRequestTopic : Type 0 where
  pub name : Bytes
  pub partitions : List OffsetCommitRequestPartition

pub record OffsetCommitRequest : Type 0 where
  pub group_id : Bytes
  pub generation_id : ℤ
  pub member_id : Bytes
  pub topics : List OffsetCommitRequestTopic

put_partition : OffsetCommitRequestPartition → Writer
put_partition p = do put_int32 p.partition_id; put_int64 p.offset; put_string p.metadata

put_topic : OffsetCommitRequestTopic → Writer
put_topic t = do put_string t.name; put_array put_partition t.partitions

pub encode : OffsetCommitRequest → Writer
encode r = do
  put_string r.group_id
  put_int32 r.generation_id
  put_string r.member_id
  put_array put_topic r.topics

get_partition : Reader OffsetCommitRequestPartition
get_partition = do
  partition_id ← int32
  offset ← int64
  metadata ← string
  pure (record { partition_id = partition_id; offset = offset; metadata = metadata })

get_topic : Reader OffsetCommitRequestTopic
get_topic = do
  name ← string
  partitions ← read_capped_array get_partition
  pure (record { name = name; partitions = partitions })

pub decode : Reader OffsetCommitRequest
decode = do
  group_id ← string
  generation_id ← int32
  member_id ← string
  topics ← read_capped_array get_topic
  pure (record {
    group_id = group_id;
    generation_id = generation_id;
    member_id = member_id;
    topics = topics;
  })

pub record IsWirePartition (p : OffsetCommitRequestPartition) : Type 0 where
  pub partition_id : IsInt32 p.partition_id
  pub offset : IsInt64 p.offset
  pub metadata : length p.metadata ≤ max_int16

pub record IsWireTopic (t : OffsetCommitRequestTopic) : Type 0 where
  pub name : length t.name ≤ max_int16
  pub count_partitions : length t.partitions ≤ safety_limit
  pub partitions : All IsWirePartition t.partitions

pub record IsWire (r : OffsetCommitRequest) : Type 0 where
  pub group_id : length r.group_id ≤ max_int16
  pub generation_id : IsInt32 r.generation_id
  pub member_id : length r.member_id ≤ max_int16
  pub count_topics : length r.topics ≤ safety_limit
  pub topics : All IsWireTopic r.topics

put_partition-Trips :
    (p : OffsetCommitRequestPartition) → IsWirePartition p → Trips (put_partition p) get_partition p
unfolding put_partition get_partition
put_partition-Trips p h =
    Trips-seq _ _ (Trips-int32 _ h.partition_id)
      (Trips-seq _ _ (Trips-int64 _ h.offset) (Trips-last _ _ (Trips-string _ h.metadata)))

put_topic-Trips : (t : OffsetCommitRequestTopic) → IsWireTopic t → Trips (put_topic t) get_topic t
unfolding put_topic get_topic
put_topic-Trips t h =
    Trips-seq _ _ (Trips-string _ h.name) (
      Trips-last _ _ (Trips-capped_array _ _ put_partition-Trips _ h.count_partitions h.partitions))

-- What OffsetCommitRequest writes is read back whole, wherever it stands in the stream.
pub encode-Trips : (r : OffsetCommitRequest) → IsWire r → Trips (encode r) decode r
unfolding encode decode
encode-Trips r h = Trips-seq _ _ (Trips-string _ h.group_id) (
    Trips-seq _ _ (Trips-int32 _ h.generation_id) (
      Trips-seq _ _ (Trips-string _ h.member_id)
        (Trips-last _ _ (Trips-capped_array _ _ put_topic-Trips _ h.count_topics h.topics))))
