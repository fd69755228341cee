-- ===== src/Protocol/Responses/JoinGroup.antt =====
-- internal/protocol/responses.go: the JoinGroup response (apiKey 4).
use mini_kafka.Prelude.{All, List, length, ◌≤◌}
use mini_kafka.Prelude.Int.{IsInt16, IsInt32, ℤ}
use mini_kafka.Protocol.Stream.{Bytes, Reader, Writer, pure, ◌>>=◌, ◌>>◌}
use mini_kafka.Protocol.Trips.{Trips, Trips-last, Trips-seq}
use mini_kafka.Protocol.Codec.{
  bytes, int16, int32, max_bytes_length, max_int16, max_int32, put_bytes, put_int16, put_int32,
  put_string, string,
}
use mini_kafka.Protocol.Codec.Array.{Trips-array, put_array, read_array}
use mini_kafka.Protocol.Codec.RoundTrip.{Trips-bytes, Trips-int16, Trips-int32, Trips-string}

pub record JoinGroupMember : Type 0 where
  pub member_id : Bytes
  pub metadata : Bytes

pub record JoinGroupResponse : Type 0 where
  pub error_code : ℤ
  pub generation_id : ℤ
  pub protocol_name : Bytes
  pub leader_id : Bytes
  pub member_id : Bytes
  pub members : List JoinGroupMember

put_member : JoinGroupMember → Writer
put_member m = do put_string m.member_id; put_bytes m.metadata

pub encode : JoinGroupResponse → Writer
encode r = do
  put_int16 r.error_code
  put_int32 r.generation_id
  put_string r.protocol_name
  put_string r.leader_id
  put_string r.member_id
  put_array put_member r.members

get_member : Reader JoinGroupMember
get_member = do
  member_id ← string
  metadata ← bytes
  pure (record { member_id = member_id; metadata = metadata })

pub decode : Reader JoinGroupResponse
decode = do
  error_code ← int16
  generation_id ← int32
  protocol_name ← string
  leader_id ← string
  member_id ← string
  members ← read_array get_member
  pure (record {
    error_code = error_code;
    generation_id = generation_id;
    protocol_name = protocol_name;
    leader_id = leader_id;
    member_id = member_id;
    members = members;
  })

pub record IsWireMember (m : JoinGroupMember) : Type 0 where
  pub member_id : length m.member_id ≤ max_int16
  pub metadata : length m.metadata ≤ max_bytes_length

pub record IsWire (r : JoinGroupResponse) : Type 0 where
  pub error_code : IsInt16 r.error_code
  pub generation_id : IsInt32 r.generation_id
  pub protocol_name : length r.protocol_name ≤ max_int16
  pub leader_id : length r.leader_id ≤ max_int16
  pub member_id : length r.member_id ≤ max_int16
  pub count_members : length r.members ≤ max_int32
  pub members : All IsWireMember r.members

put_member-Trips : (m : JoinGroupMember) → IsWireMember m → Trips (put_member m) get_member m
unfolding put_member get_member
put_member-Trips m h =
    Trips-seq _ _ (Trips-string _ h.member_id) (Trips-last _ _ (Trips-bytes _ h.metadata))

-- What JoinGroupResponse writes is read back whole, wherever it stands in the stream.
pub encode-Trips : (r : JoinGroupResponse) → IsWire r → Trips (encode r) decode r
unfolding encode decode
encode-Trips r h = Trips-seq _ _ (Trips-int16 _ h.error_code) (
    Trips-seq _ _ (Trips-int32 _ h.generation_id) (
      Trips-seq _ _ (Trips-string _ h.protocol_name) (
        Trips-seq _ _ (Trips-string _ h.leader_id) (
          Trips-seq _ _ (Trips-string _ h.member_id)
            (Trips-last _ _ (Trips-array _ _ put_member-Trips _ h.count_members h.members))))))
