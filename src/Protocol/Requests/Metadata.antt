-- ===== src/Protocol/Requests/Metadata.antt =====
-- internal/protocol/requests.go: the Metadata request (apiKey 2). Its nil topics ask for all.
use mini_kafka.Prelude.{◌≤◌, Option, none, some, List, length, All, arith, refl}
use mini_kafka.Prelude.Int.{ℤ, pos, negsuc}
use mini_kafka.Protocol.Stream.{Bytes, Reader, Writer, pure, ◌>>=◌}
use mini_kafka.Protocol.Trips.{Trips, Trips-seq, Trips-last, Trips-done}
use mini_kafka.Protocol.Codec.{
  put_array_header, read_array_header, put_string, string, max_int16, safety_limit,
}
use mini_kafka.Protocol.Codec.Array.{put_array, read_n, Trips-put_all, All-map}
use mini_kafka.Protocol.Codec.RoundTrip.{Trips-read_array_header, Trips-string}

pub record MetadataRequest : Type 0 where
  pub topics : Option (List Bytes)

put_topics : Option (List Bytes) → Writer
put_topics none = put_array_header (negsuc 0)
put_topics (some ts) = put_array put_string ts

pub encode : MetadataRequest → Writer
unfolding put_topics
encode r = put_topics r.topics

get_topics : ℤ → Reader MetadataRequest
get_topics (negsuc k) = pure (record { topics = none })
get_topics (pos n) = do ts ← read_n string n; pure (record { topics = some ts })

pub decode : Reader MetadataRequest
unfolding get_topics
decode = do count ← read_array_header; get_topics count

-- At most 100,000 names of at most 32,767 bytes; nil is allowed.
abbrev pub IsWireTopics : Option (List Bytes) → Type 0
IsWireTopics none = Unit
IsWireTopics (some ts) = (length ts ≤ safety_limit) × All (λ s. length s ≤ max_int16) ts

abbrev pub IsWire : MetadataRequest → Type 0
IsWire r = IsWireTopics r.topics

put_topics-Trips :
    (ts : Option (List Bytes))
    → IsWireTopics ts
    → Trips (put_topics ts) decode (record { topics = ts })
unfolding put_topics put_array decode
put_topics-Trips none h =
    Trips-done _ (negsuc 0) (Trips-read_array_header _ (omega arith) (omega arith)) refl
put_topics-Trips (some ts) (fits, h) =
    Trips-seq _ (pos (length ts)) (Trips-read_array_header _ (omega arith) (omega arith))
      (Trips-last _ ts (Trips-put_all _ _ ts (All-map Trips-string ts h)))

-- What MetadataRequest writes is read back whole, nil topics too, wherever it stands in the stream.
pub encode-Trips : (r : MetadataRequest) → IsWire r → Trips (encode r) decode r
unfolding encode
encode-Trips r h = put_topics-Trips r.topics h
