-- ===== src/Protocol/Requests/LeaveGroup.antt =====
-- internal/protocol/requests.go: the LeaveGroup request (apiKey 7).
use mini_kafka.Prelude.{length, ◌≤◌}
use mini_kafka.Protocol.Stream.{Bytes, Reader, Writer, pure, ◌>>=◌, ◌>>◌}
use mini_kafka.Protocol.Trips.{Trips, Trips-last, Trips-seq}
use mini_kafka.Protocol.Codec.{max_int16, put_string, string}
use mini_kafka.Protocol.Codec.RoundTrip.{Trips-string}

pub record LeaveGroupRequest : Type 0 where
  pub group_id : Bytes
  pub member_id : Bytes

pub encode : LeaveGroupRequest → Writer
encode r = do put_string r.group_id; put_string r.member_id

pub decode : Reader LeaveGroupRequest
decode = do
  group_id ← string
  member_id ← string
  pure (record { group_id = group_id; member_id = member_id })

pub record IsWire (r : LeaveGroupRequest) : Type 0 where
  pub group_id : length r.group_id ≤ max_int16
  pub member_id : length r.member_id ≤ max_int16

-- What LeaveGroupRequest writes is read back whole, wherever it stands in the stream.
pub encode-Trips : (r : LeaveGroupRequest) → IsWire r → Trips (encode r) decode r
unfolding encode decode
encode-Trips r h =
    Trips-seq _ _ (Trips-string _ h.group_id) (Trips-last _ _ (Trips-string _ h.member_id))
