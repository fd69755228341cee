-- ===== src/Protocol/Requests/CreateTopics.antt =====
-- internal/protocol/requests.go: the CreateTopics request (apiKey 3).
use mini_kafka.Prelude.{All, List, length, ◌≤◌}
use mini_kafka.Prelude.Int.{IsInt16, IsInt32, ℤ}
use mini_kafka.Protocol.Stream.{Bytes, Reader, Writer, pure, ◌>>=◌, ◌>>◌}
use mini_kafka.Protocol.Trips.{Trips, Trips-last, Trips-seq}
use mini_kafka.Protocol.Codec.{
  int16, int32, max_int16, put_int16, put_int32, put_string, safety_limit, string,
}
use mini_kafka.Protocol.Codec.Array.{Trips-capped_array, put_array, read_capped_array}
use mini_kafka.Protocol.Codec.RoundTrip.{Trips-int16, Trips-int32, Trips-string}

pub record CreateTopicsRequestTopic : Type 0 where
  pub name : Bytes
  pub num_partitions : ℤ
  pub replication_factor : ℤ

pub record CreateTopicsRequest : Type 0 where
  pub topics : List CreateTopicsRequestTopic

put_topic : CreateTopicsRequestTopic → Writer
put_topic t = do put_string t.name; put_int32 t.num_partitions; put_int16 t.replication_factor

pub encode : CreateTopicsRequest → Writer
encode r = put_array put_topic r.topics

get_topic : Reader CreateTopicsRequestTopic
get_topic = do
  name ← string
  num_partitions ← int32
  replication_factor ← int16
  pure (record {
    name = name;
    num_partitions = num_partitions;
    replication_factor = replication_factor;
  })

pub decode : Reader CreateTopicsRequest
decode = do topics ← read_capped_array get_topic; pure (record { topics = topics })

pub record IsWireTopic (t : CreateTopicsRequestTopic) : Type 0 where
  pub name : length t.name ≤ max_int16
  pub num_partitions : IsInt32 t.num_partitions
  pub replication_factor : IsInt16 t.replication_factor

pub record IsWire (r : CreateTopicsRequest) : Type 0 where
  pub count_topics : length r.topics ≤ safety_limit
  pub topics : All IsWireTopic r.topics

put_topic-Trips : (t : CreateTopicsRequestTopic) → IsWireTopic t → Trips (put_topic t) get_topic t
unfolding put_topic get_topic
put_topic-Trips t h = Trips-seq _ _ (Trips-string _ h.name) (
    Trips-seq _ _ (Trips-int32 _ h.num_partitions)
      (Trips-last _ _ (Trips-int16 _ h.replication_factor)))

-- What CreateTopicsRequest writes is read back whole, wherever it stands in the stream.
pub encode-Trips : (r : CreateTopicsRequest) → IsWire r → Trips (encode r) decode r
unfolding encode decode
encode-Trips r h = Trips-last _ _ (Trips-capped_array _ _ put_topic-Trips _ h.count_topics h.topics)
