-- ===== src/Replication/Wire.antt =====
-- internal/replication/replication.go: the bodies of a follower's fetch and of the leader's answer.
pub mod Answer
use mini_kafka.Prelude.{
  ℕ, zero, suc, ◌+◌, ◌*◌, ◌≤◌, ◌<◌, ◌≡◌, refl, sym, ap, ◌∙◌, List, [], ◌∷◌, ◌++◌, All, length,
  length-append, arith,
}
use mini_kafka.Prelude.Int.{ℤ, IsInt16, IsInt32, IsInt64}
use mathlib.Core.List.{append-nil, append_assoc}
use mini_kafka.Protocol.Stream.{Bytes, Result, ok, err, Reader, Writer, pure, ◌>>=◌, ◌>>◌, skip}
use mini_kafka.Protocol.Trips.{Trips, Trips-seq, Trips-last}
use mini_kafka.Protocol.Codec.{
  put_int16, put_int32, put_int64, put_string, int16, int32, int64, string, max_int16,
}
use mini_kafka.Protocol.Codec.RoundTrip.{Trips-int16, Trips-int32, Trips-int64, Trips-string}
use mini_kafka.Storage.Record.{Record, encode, encoded_size, image, decode_record}
use mini_kafka.Storage.Record.RoundTrip.{
  IsRecord, encode_record-Trips, decode_record-image, length-image, le-encoded_size,
}
use mini_kafka.Storage.Segment.Contents.{log_bytes, length-log_bytes}

pub record ReplicaFetchRequest : Type 0 where
  pub replica_id : ℤ
  pub max_wait_ms : ℤ
  pub topic : Bytes
  pub partition : ℤ
  pub fetch_offset : ℤ

-- EncodeReplicaFetchRequest
pub encode_replica_fetch_request : ReplicaFetchRequest → Writer
encode_replica_fetch_request r = do
  put_int32 r.replica_id
  put_int32 r.max_wait_ms
  put_string r.topic
  put_int32 r.partition
  put_int64 r.fetch_offset

-- DecodeReplicaFetchRequest
pub decode_replica_fetch_request : Reader ReplicaFetchRequest
decode_replica_fetch_request = do
  replica_id ← int32
  max_wait_ms ← int32
  topic ← string
  partition ← int32
  fetch_offset ← int64
  pure (record {
    replica_id = replica_id;
    max_wait_ms = max_wait_ms;
    topic = topic;
    partition = partition;
    fetch_offset = fetch_offset;
  })

-- The loop over the records, none of which is nil.
put_records : List Record → Writer
put_records [] = skip
put_records (r ∷ rs) = do encode r; put_records rs

-- EncodeReplicaFetchResponse
pub encode_replica_fetch_response : ℤ → ℤ → List Record → Writer
unfolding put_records
encode_replica_fetch_response error_code hw rs = do
  put_int16 error_code
  put_int64 hw
  put_records rs

pub record ReplicaFetchAnswer : Type 0 where
  pub error_code : ℤ
  pub high_watermark : ℤ
  pub records : List Record

pub gather_step : (Bytes → List Record) → Result (Record × ℕ) × Bytes → List Record
gather_step further (err e, left) = []
gather_step further (ok (r, n), left) = r ∷ further left

-- The loop over the rest, for at most `fuel` records; an error ends it.
pub gather : ℕ → Bytes → List Record
unfolding gather_step
gather zero bs = []
gather (suc fuel) [] = []
gather (suc fuel) (b ∷ bs) = gather_step (λ left. gather fuel left) (decode_record (b ∷ bs))

-- All that is left. A record takes a byte at least, so the number of bytes is fuel enough.
get_records : Reader (List Record)
unfolding gather
get_records s = (ok (gather (suc (length s)) s), [])

-- DecodeReplicaFetchResponse
pub decode_replica_fetch_response : Reader ReplicaFetchAnswer
unfolding get_records
decode_replica_fetch_response = do
  error_code ← int16
  hw ← int64
  records ← get_records
  pure (record { error_code = error_code; high_watermark = hw; records = records })

pub record IsWireFetch (r : ReplicaFetchRequest) : Type 0 where
  pub replica_id : IsInt32 r.replica_id
  pub max_wait_ms : IsInt32 r.max_wait_ms
  pub topic : length r.topic ≤ max_int16
  pub partition : IsInt32 r.partition
  pub fetch_offset : IsInt64 r.fetch_offset

-- A follower's fetch whose fields fit their types, and whose topic has at most 32,767 bytes, is
-- encoded without an error, and decoding its bytes gives the same fetch.
pub encode_replica_fetch_request-Trips :
    (r : ReplicaFetchRequest)
    → IsWireFetch r
    → Trips (encode_replica_fetch_request r) decode_replica_fetch_request r
unfolding encode_replica_fetch_request decode_replica_fetch_request
encode_replica_fetch_request-Trips r h = Trips-seq _ _ (Trips-int32 _ h.replica_id) (
    Trips-seq _ _ (Trips-int32 _ h.max_wait_ms) (
      Trips-seq _ _ (Trips-string _ h.topic) (
        Trips-seq _ _ (Trips-int32 _ h.partition) (Trips-last _ _ (Trips-int64 _ h.fetch_offset)))))
