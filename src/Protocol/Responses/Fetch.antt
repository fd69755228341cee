-- ===== src/Protocol/Responses/Fetch.antt =====
-- internal/protocol/responses.go: the Fetch response (apiKey 1).
use mini_kafka.Prelude.{All, List, length, ◌≤◌}
use mini_kafka.Prelude.Int.{IsInt16, IsInt32, IsInt64, ℤ}
use mini_kafka.Protocol.Stream.{Bytes, Reader, Writer, pure, ◌>>=◌, ◌>>◌}
use mini_kafka.Protocol.Trips.{Trips, Trips-last, Trips-seq}
use mini_kafka.Protocol.Codec.{
  bytes, int16, int32, int64, max_bytes_length, max_int16, max_int32, put_bytes, put_int16,
  put_int32, put_int64, put_string, string,
}
use mini_kafka.Protocol.Codec.Array.{Trips-array, put_array, read_array}
use mini_kafka.Protocol.Codec.RoundTrip.{
  Trips-bytes, Trips-int16, Trips-int32, Trips-int64, Trips-string,
}

pub record FetchResponsePartition : Type 0 where
  pub partition_id : ℤ
  pub error_code : ℤ
  pub high_watermark : ℤ
  pub log_start_offset : ℤ
  pub record_set : Bytes

pub record FetchResponseTopic : Type 0 where
  pub name : Bytes
  pub partitions : List FetchResponsePartition

pub record FetchResponse : Type 0 where
  pub topics : List FetchResponseTopic

put_partition : FetchResponsePartition → Writer
put_partition p = do
  put_int32 p.partition_id
  put_int16 p.error_code
  put_int64 p.high_watermark
  put_int64 p.log_start_offset
  put_bytes p.record_set

put_topic : FetchResponseTopic → Writer
put_topic t = do put_string t.name; put_array put_partition t.partitions

pub encode : FetchResponse → Writer
encode r = put_array put_topic r.topics

get_partition : Reader FetchResponsePartition
get_partition = do
  partition_id ← int32
  error_code ← int16
  high_watermark ← int64
  log_start_offset ← int64
  record_set ← bytes
  pure (record {
    partition_id = partition_id;
    error_code = error_code;
    high_watermark = high_watermark;
    log_start_offset = log_start_offset;
    record_set = record_set;
  })

get_topic : Reader FetchResponseTopic
get_topic = do
  name ← string
  partitions ← read_array get_partition
  pure (record { name = name; partitions = partitions })

pub decode : Reader FetchResponse
decode = do topics ← read_array get_topic; pure (record { topics = topics })

pub record IsWirePartition (p : FetchResponsePartition) : Type 0 where
  pub partition_id : IsInt32 p.partition_id
  pub error_code : IsInt16 p.error_code
  pub high_watermark : IsInt64 p.high_watermark
  pub log_start_offset : IsInt64 p.log_start_offset
  pub record_set : length p.record_set ≤ max_bytes_length

pub record IsWireTopic (t : FetchResponseTopic) : Type 0 where
  pub name : length t.name ≤ max_int16
  pub count_partitions : length t.partitions ≤ max_int32
  pub partitions : All IsWirePartition t.partitions

pub record IsWire (r : FetchResponse) : Type 0 where
  pub count_topics : length r.topics ≤ max_int32
  pub topics : All IsWireTopic r.topics

put_partition-Trips :
    (p : FetchResponsePartition) → IsWirePartition p → Trips (put_partition p) get_partition p
unfolding put_partition get_partition
put_partition-Trips p h = Trips-seq _ _ (Trips-int32 _ h.partition_id) (
    Trips-seq _ _ (Trips-int16 _ h.error_code) (
      Trips-seq _ _ (Trips-int64 _ h.high_watermark) (
        Trips-seq _ _ (Trips-int64 _ h.log_start_offset)
          (Trips-last _ _ (Trips-bytes _ h.record_set)))))

put_topic-Trips : (t : FetchResponseTopic) → IsWireTopic t → Trips (put_topic t) get_topic t
unfolding put_topic get_topic
put_topic-Trips t h =
    Trips-seq _ _ (Trips-string _ h.name)
      (Trips-last _ _ (Trips-array _ _ put_partition-Trips _ h.count_partitions h.partitions))

-- What FetchResponse writes is read back whole, wherever it stands in the stream.
pub encode-Trips : (r : FetchResponse) → IsWire r → Trips (encode r) decode r
unfolding encode decode
encode-Trips r h = Trips-last _ _ (Trips-array _ _ put_topic-Trips _ h.count_topics h.topics)
