-- ===== src/Protocol/Responses/LeaveGroup.antt =====
-- internal/protocol/responses.go: the LeaveGroup response (apiKey 7).
use mini_kafka.Prelude.Int.{IsInt16, ℤ}
use mini_kafka.Protocol.Stream.{Reader, Writer, pure, ◌>>=◌}
use mini_kafka.Protocol.Trips.{Trips, Trips-last}
use mini_kafka.Protocol.Codec.{int16, put_int16}
use mini_kafka.Protocol.Codec.RoundTrip.{Trips-int16}

pub record LeaveGroupResponse : Type 0 where
  pub error_code : ℤ

pub encode : LeaveGroupResponse → Writer
encode r = put_int16 r.error_code

pub decode : Reader LeaveGroupResponse
decode = do error_code ← int16; pure (record { error_code = error_code })

pub record IsWire (r : LeaveGroupResponse) : Type 0 where
  pub error_code : IsInt16 r.error_code

-- What LeaveGroupResponse writes is read back whole, wherever it stands in the stream.
pub encode-Trips : (r : LeaveGroupResponse) → IsWire r → Trips (encode r) decode r
unfolding encode decode
encode-Trips r h = Trips-last _ _ (Trips-int16 _ h.error_code)
