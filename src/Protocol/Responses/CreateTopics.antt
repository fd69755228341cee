-- ===== src/Protocol/Responses/CreateTopics.antt =====
-- internal/protocol/responses.go: the CreateTopics response (apiKey 3).
use mini_kafka.Prelude.{All, List, length, ◌≤◌}
use mini_kafka.Prelude.Int.{IsInt16, ℤ}
use mini_kafka.Protocol.Stream.{Bytes, Reader, Writer, pure, ◌>>=◌, ◌>>◌}
use mini_kafka.Protocol.Trips.{Trips, Trips-last, Trips-seq}
use mini_kafka.Protocol.Codec.{int16, max_int16, max_int32, put_int16, put_string, string}
use mini_kafka.Protocol.Codec.Array.{Trips-array, put_array, read_array}
use mini_kafka.Protocol.Codec.RoundTrip.{Trips-int16, Trips-string}

pub record CreateTopicResponseTopic : Type 0 where
  pub name : Bytes
  pub error_code : ℤ

pub record CreateTopicsResponse : Type 0 where
  pub topics : List CreateTopicResponseTopic

put_topic : CreateTopicResponseTopic → Writer
put_topic t = do put_string t.name; put_int16 t.error_code

pub encode : CreateTopicsResponse → Writer
encode r = put_array put_topic r.topics

get_topic : Reader CreateTopicResponseTopic
get_topic = do
  name ← string
  error_code ← int16
  pure (record { name = name; error_code = error_code })

pub decode : Reader CreateTopicsResponse
decode = do topics ← read_array get_topic; pure (record { topics = topics })

pub record IsWireTopic (t : CreateTopicResponseTopic) : Type 0 where
  pub name : length t.name ≤ max_int16
  pub error_code : IsInt16 t.error_code

pub record IsWire (r : CreateTopicsResponse) : Type 0 where
  pub count_topics : length r.topics ≤ max_int32
  pub topics : All IsWireTopic r.topics

put_topic-Trips : (t : CreateTopicResponseTopic) → IsWireTopic t → Trips (put_topic t) get_topic t
unfolding put_topic get_topic
put_topic-Trips t h =
    Trips-seq _ _ (Trips-string _ h.name) (Trips-last _ _ (Trips-int16 _ h.error_code))

-- What CreateTopicsResponse writes is read back whole, wherever it stands in the stream.
pub encode-Trips : (r : CreateTopicsResponse) → IsWire r → Trips (encode r) decode r
unfolding encode decode
encode-Trips r h = Trips-last _ _ (Trips-array _ _ put_topic-Trips _ h.count_topics h.topics)
