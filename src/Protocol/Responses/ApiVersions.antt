-- ===== src/Protocol/Responses/ApiVersions.antt =====
-- internal/protocol/responses.go: the ApiVersions response (apiKey 12).
use mini_kafka.Prelude.{All, List, length, ◌≤◌}
use mini_kafka.Prelude.Int.{IsInt16, ℤ}
use mini_kafka.Protocol.Stream.{Reader, Writer, pure, ◌>>=◌, ◌>>◌}
use mini_kafka.Protocol.Trips.{Trips, Trips-last, Trips-seq}
use mini_kafka.Protocol.Codec.{int16, max_int32, put_int16}
use mini_kafka.Protocol.Codec.Array.{Trips-array, put_array, read_array}
use mini_kafka.Protocol.Codec.RoundTrip.{Trips-int16}

pub record ApiVersion : Type 0 where
  pub api_key : ℤ
  pub min_version : ℤ
  pub max_version : ℤ

pub record ApiVersionsResponse : Type 0 where
  pub api_keys : List ApiVersion

put_version : ApiVersion → Writer
put_version v = do put_int16 v.api_key; put_int16 v.min_version; put_int16 v.max_version

pub encode : ApiVersionsResponse → Writer
encode r = put_array put_version r.api_keys

get_version : Reader ApiVersion
get_version = do
  api_key ← int16
  min_version ← int16
  max_version ← int16
  pure (record { api_key = api_key; min_version = min_version; max_version = max_version })

pub decode : Reader ApiVersionsResponse
decode = do api_keys ← read_array get_version; pure (record { api_keys = api_keys })

pub record IsWireVersion (v : ApiVersion) : Type 0 where
  pub api_key : IsInt16 v.api_key
  pub min_version : IsInt16 v.min_version
  pub max_version : IsInt16 v.max_version

pub record IsWire (r : ApiVersionsResponse) : Type 0 where
  pub count_api_keys : length r.api_keys ≤ max_int32
  pub api_keys : All IsWireVersion r.api_keys

put_version-Trips : (v : ApiVersion) → IsWireVersion v → Trips (put_version v) get_version v
unfolding put_version get_version
put_version-Trips v h =
    Trips-seq _ _ (Trips-int16 _ h.api_key)
      (Trips-seq _ _ (Trips-int16 _ h.min_version) (Trips-last _ _ (Trips-int16 _ h.max_version)))

-- What ApiVersionsResponse writes is read back whole, wherever it stands in the stream.
pub encode-Trips : (r : ApiVersionsResponse) → IsWire r → Trips (encode r) decode r
unfolding encode decode
encode-Trips r h = Trips-last _ _ (Trips-array _ _ put_version-Trips _ h.count_api_keys h.api_keys)
