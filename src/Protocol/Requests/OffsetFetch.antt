-- ===== src/Protocol/Requests/OffsetFetch.antt =====
-- internal/protocol/requests.go: the OffsetFetch request (apiKey 9).
use mini_kafka.Prelude.{All, List, length, ◌≤◌}
use mini_kafka.Prelude.Int.{IsInt32, ℤ}
use mini_kafka.Protocol.Stream.{Bytes, Reader, Writer, pure, ◌>>=◌, ◌>>◌}
use mini_kafka.Protocol.Trips.{Trips, Trips-last, Trips-seq}
use mini_kafka.Protocol.Codec.{int32, max_int16, put_int32, put_string, safety_limit, string}
use mini_kafka.Protocol.Codec.Array.{Trips-capped_array, put_array, read_capped_array}
use mini_kafka.Protocol.Codec.RoundTrip.{Trips-int32, Trips-string}

pub record OffsetFetchRequestTopic : Type 0 where
  pub name : Bytes
  pub partitions : List ℤ

pub record OffsetFetchRequest : Type 0 where
  pub group_id : Bytes
  pub topics : List OffsetFetchRequestTopic

put_topic : OffsetFetchRequestTopic → Writer
put_topic t = do put_string t.name; put_array put_int32 t.partitions

pub encode : OffsetFetchRequest → Writer
encode r = do put_string r.group_id; put_array put_topic r.topics

get_topic : Reader OffsetFetchRequestTopic
get_topic = do
  name ← string
  partitions ← read_capped_array int32
  pure (record { name = name; partitions = partitions })

pub decode : Reader OffsetFetchRequest
decode = do
  group_id ← string
  topics ← read_capped_array get_topic
  pure (record { group_id = group_id; topics = topics })

pub record IsWireTopic (t : OffsetFetchRequestTopic) : Type 0 where
  pub name : length t.name ≤ max_int16
  pub count_partitions : length t.partitions ≤ safety_limit
  pub partitions : All IsInt32 t.partitions

pub record IsWire (r : OffsetFetchRequest) : Type 0 where
  pub group_id : length r.group_id ≤ max_int16
  pub count_topics : length r.topics ≤ safety_limit
  pub topics : All IsWireTopic r.topics

put_topic-Trips : (t : OffsetFetchRequestTopic) → IsWireTopic t → Trips (put_topic t) get_topic t
unfolding put_topic get_topic
put_topic-Trips t h =
    Trips-seq _ _ (Trips-string _ h.name)
      (Trips-last _ _ (Trips-capped_array _ _ Trips-int32 _ h.count_partitions h.partitions))

-- What OffsetFetchRequest writes is read back whole, wherever it stands in the stream.
pub encode-Trips : (r : OffsetFetchRequest) → IsWire r → Trips (encode r) decode r
unfolding encode decode
encode-Trips r h =
    Trips-seq _ _ (Trips-string _ h.group_id)
      (Trips-last _ _ (Trips-capped_array _ _ put_topic-Trips _ h.count_topics h.topics))
