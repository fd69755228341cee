-- ===== src/Protocol/Requests/JoinGroup.antt =====
-- internal/protocol/requests.go: the JoinGroup request (apiKey 4).
use mini_kafka.Prelude.{All, List, length, ◌≤◌}
use mini_kafka.Prelude.Int.{IsInt32, ℤ}
use mini_kafka.Protocol.Stream.{Bytes, Reader, Writer, pure, ◌>>=◌, ◌>>◌}
use mini_kafka.Protocol.Trips.{Trips, Trips-last, Trips-seq}
use mini_kafka.Protocol.Codec.{
  bytes, int32, max_bytes_length, max_int16, put_bytes, put_int32, put_string, safety_limit, string,
}
use mini_kafka.Protocol.Codec.Array.{Trips-capped_array, put_array, read_capped_array}
use mini_kafka.Protocol.Codec.RoundTrip.{Trips-bytes, Trips-int32, Trips-string}

pub record JoinGroupProtocol : Type 0 where
  pub name : Bytes
  pub metadata : Bytes

pub record JoinGroupRequest : Type 0 where
  pub group_id : Bytes
  pub session_timeout_ms : ℤ
  pub member_id : Bytes
  pub protocol_type : Bytes
  pub protocols : List JoinGroupProtocol

put_protocol : JoinGroupProtocol → Writer
put_protocol p = do put_string p.name; put_bytes p.metadata

pub encode : JoinGroupRequest → Writer
encode r = do
  put_string r.group_id
  put_int32 r.session_timeout_ms
  put_string r.member_id
  put_string r.protocol_type
  put_array put_protocol r.protocols

get_protocol : Reader JoinGroupProtocol
get_protocol = do
  name ← string
  metadata ← bytes
  pure (record { name = name; metadata = metadata })

pub decode : Reader JoinGroupRequest
decode = do
  group_id ← string
  session_timeout_ms ← int32
  member_id ← string
  protocol_type ← string
  protocols ← read_capped_array get_protocol
  pure (record {
    group_id = group_id;
    session_timeout_ms = session_timeout_ms;
    member_id = member_id;
    protocol_type = protocol_type;
    protocols = protocols;
  })

pub record IsWireProtocol (p : JoinGroupProtocol) : Type 0 where
  pub name : length p.name ≤ max_int16
  pub metadata : length p.metadata ≤ max_bytes_length

pub record IsWire (r : JoinGroupRequest) : Type 0 where
  pub group_id : length r.group_id ≤ max_int16
  pub session_timeout_ms : IsInt32 r.session_timeout_ms
  pub member_id : length r.member_id ≤ max_int16
  pub protocol_type : length r.protocol_type ≤ max_int16
  pub count_protocols : length r.protocols ≤ safety_limit
  pub protocols : All IsWireProtocol r.protocols

put_protocol-Trips :
    (p : JoinGroupProtocol) → IsWireProtocol p → Trips (put_protocol p) get_protocol p
unfolding put_protocol get_protocol
put_protocol-Trips p h =
    Trips-seq _ _ (Trips-string _ h.name) (Trips-last _ _ (Trips-bytes _ h.metadata))

-- What JoinGroupRequest writes is read back whole, wherever it stands in the stream.
pub encode-Trips : (r : JoinGroupRequest) → IsWire r → Trips (encode r) decode r
unfolding encode decode
encode-Trips r h = Trips-seq _ _ (Trips-string _ h.group_id) (
    Trips-seq _ _ (Trips-int32 _ h.session_timeout_ms) (
      Trips-seq _ _ (Trips-string _ h.member_id) (
        Trips-seq _ _ (Trips-string _ h.protocol_type) (
          Trips-last _ _
            (Trips-capped_array _ _ put_protocol-Trips _ h.count_protocols h.protocols)))))
