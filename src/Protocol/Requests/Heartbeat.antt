-- ===== src/Protocol/Requests/Heartbeat.antt =====
-- internal/protocol/requests.go: the Heartbeat request (apiKey 6).
use mini_kafka.Prelude.{length, ◌≤◌}
use mini_kafka.Prelude.Int.{IsInt32, ℤ}
use mini_kafka.Protocol.Stream.{Bytes, Reader, Writer, pure, ◌>>=◌, ◌>>◌}
use mini_kafka.Protocol.Trips.{Trips, Trips-last, Trips-seq}
use mini_kafka.Protocol.Codec.{int32, max_int16, put_int32, put_string, string}
use mini_kafka.Protocol.Codec.RoundTrip.{Trips-int32, Trips-string}

pub record HeartbeatRequest : Type 0 where
  pub group_id : Bytes
  pub generation_id : ℤ
  pub member_id : Bytes

pub encode : HeartbeatRequest → Writer
encode r = do put_string r.group_id; put_int32 r.generation_id; put_string r.member_id

pub decode : Reader HeartbeatRequest
decode = do
  group_id ← string
  generation_id ← int32
  member_id ← string
  pure (record { group_id = group_id; generation_id = generation_id; member_id = member_id })

pub record IsWire (r : HeartbeatRequest) : Type 0 where
  pub group_id : length r.group_id ≤ max_int16
  pub generation_id : IsInt32 r.generation_id
  pub member_id : length r.member_id ≤ max_int16

-- What HeartbeatRequest writes is read back whole, wherever it stands in the stream.
pub encode-Trips : (r : HeartbeatRequest) → IsWire r → Trips (encode r) decode r
unfolding encode decode
encode-Trips r h =
    Trips-seq _ _ (Trips-string _ h.group_id)
      (Trips-seq _ _ (Trips-int32 _ h.generation_id) (Trips-last _ _ (Trips-string _ h.member_id)))
