-- ===== src/Protocol/Responses/SyncGroup.antt =====
-- internal/protocol/responses.go: the SyncGroup response (apiKey 5).
use mini_kafka.Prelude.{length, ◌≤◌}
use mini_kafka.Prelude.Int.{IsInt16, ℤ}
use mini_kafka.Protocol.Stream.{Bytes, Reader, Writer, pure, ◌>>=◌, ◌>>◌}
use mini_kafka.Protocol.Trips.{Trips, Trips-last, Trips-seq}
use mini_kafka.Protocol.Codec.{bytes, int16, max_bytes_length, put_bytes, put_int16}
use mini_kafka.Protocol.Codec.RoundTrip.{Trips-bytes, Trips-int16}

pub record SyncGroupResponse : Type 0 where
  pub error_code : ℤ
  pub assignment : Bytes

pub encode : SyncGroupResponse → Writer
encode r = do put_int16 r.error_code; put_bytes r.assignment

pub decode : Reader SyncGroupResponse
decode = do
  error_code ← int16
  assignment ← bytes
  pure (record { error_code = error_code; assignment = assignment })

pub record IsWire (r : SyncGroupResponse) : Type 0 where
  pub error_code : IsInt16 r.error_code
  pub assignment : length r.assignment ≤ max_bytes_length

-- What SyncGroupResponse writes is read back whole, wherever it stands in the stream.
pub encode-Trips : (r : SyncGroupResponse) → IsWire r → Trips (encode r) decode r
unfolding encode decode
encode-Trips r h =
    Trips-seq _ _ (Trips-int16 _ h.error_code) (Trips-last _ _ (Trips-bytes _ h.assignment))
