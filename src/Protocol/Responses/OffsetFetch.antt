-- ===== src/Protocol/Responses/OffsetFetch.antt =====
-- internal/protocol/responses.go: the OffsetFetch response (apiKey 9).
use mini_kafka.Prelude.{All, List, length, ◌≤◌}
use mini_kafka.Prelude.Int.{IsInt16, IsInt32, IsInt64, ℤ}
use mini_kafka.Protocol.Stream.{Bytes, Reader, Writer, pure, ◌>>=◌, ◌>>◌}
use mini_kafka.Protocol.Trips.{Trips, Trips-last, Trips-seq}
use mini_kafka.Protocol.Codec.{
  int16, int32, int64, max_int16, max_int32, put_int16, put_int32, put_int64, put_string, string,
}
use mini_kafka.Protocol.Codec.Array.{Trips-array, put_array, read_array}
use mini_kafka.Protocol.Codec.RoundTrip.{Trips-int16, Trips-int32, Trips-int64, Trips-string}

pub record OffsetFetchResponsePartition : Type 0 where
  pub partition_id : ℤ
  pub offset : ℤ
  pub error_code : ℤ

pub record OffsetFetchResponseTopic : Type 0 where
  pub name : Bytes
  pub partitions : List OffsetFetchResponsePartition

pub record OffsetFetchResponse : Type 0 where
  pub topics : List OffsetFetchResponseTopic

put_partition : OffsetFetchResponsePartition → Writer
put_partition p = do put_int32 p.partition_id; put_int64 p.offset; put_int16 p.error_code

put_topic : OffsetFetchResponseTopic → Writer
put_topic t = do put_string t.name; put_array put_partition t.partitions

pub encode : OffsetFetchResponse → Writer
encode r = put_array put_topic r.topics

get_partition : Reader OffsetFetchResponsePartition
get_partition = do
  partition_id ← int32
  offset ← int64
  error_code ← int16
  pure (record { partition_id = partition_id; offset = offset; error_code = error_code })

get_topic : Reader OffsetFetchResponseTopic
get_topic = do
  name ← string
  partitions ← read_array get_partition
  pure (record { name = name; partitions = partitions })

pub decode : Reader OffsetFetchResponse
decode = do topics ← read_array get_topic; pure (record { topics = topics })

pub record IsWirePartition (p : OffsetFetchResponsePartition) : Type 0 where
  pub partition_id : IsInt32 p.partition_id
  pub offset : IsInt64 p.offset
  pub error_code : IsInt16 p.error_code

pub record IsWireTopic (t : OffsetFetchResponseTopic) : Type 0 where
  pub name : length t.name ≤ max_int16
  pub count_partitions : length t.partitions ≤ max_int32
  pub partitions : All IsWirePartition t.partitions

pub record IsWire (r : OffsetFetchResponse) : Type 0 where
  pub count_topics : length r.topics ≤ max_int32
  pub topics : All IsWireTopic r.topics

put_partition-Trips :
    (p : OffsetFetchResponsePartition) → IsWirePartition p → Trips (put_partition p) get_partition p
unfolding put_partition get_partition
put_partition-Trips p h =
    Trips-seq _ _ (Trips-int32 _ h.partition_id)
      (Trips-seq _ _ (Trips-int64 _ h.offset) (Trips-last _ _ (Trips-int16 _ h.error_code)))

put_topic-Trips : (t : OffsetFetchResponseTopic) → IsWireTopic t → Trips (put_topic t) get_topic t
unfolding put_topic get_topic
put_topic-Trips t h =
    Trips-seq _ _ (Trips-string _ h.name)
      (Trips-last _ _ (Trips-array _ _ put_partition-Trips _ h.count_partitions h.partitions))

-- What OffsetFetchResponse writes is read back whole, wherever it stands in the stream.
pub encode-Trips : (r : OffsetFetchResponse) → IsWire r → Trips (encode r) decode r
unfolding encode decode
encode-Trips r h = Trips-last _ _ (Trips-array _ _ put_topic-Trips _ h.count_topics h.topics)
