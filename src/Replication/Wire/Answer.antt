-- ===== src/Replication/Wire/Answer.antt =====
-- internal/replication/replication.go: the leader's answer, encoded and decoded.
use mini_kafka.Prelude.{
  ℕ, zero, suc, ◌<◌, ◌≡◌, refl, ap, ◌∙◌, List, [], ◌∷◌, ◌++◌, All, length, length-append, arith,
}
use mini_kafka.Prelude.Int.{ℤ, IsInt16, IsInt64}
use mathlib.Core.List.{append-nil, append_assoc}
use mini_kafka.Protocol.Stream.{Bytes, ok, Reader, Writer, pure, ◌>>=◌, ◌>>◌, skip}
use mini_kafka.Protocol.Trips.{Trips}
use mini_kafka.Protocol.Codec.RoundTrip.{Trips-int16, Trips-int64}
use mini_kafka.Storage.Record.{Record, encoded_size, image, decode_record}
use mini_kafka.Storage.Record.RoundTrip.{
  IsRecord, encode-image, decode_record-image, length-image, le-encoded_size,
}
use mini_kafka.Storage.Segment.Contents.{log_bytes, length-log_bytes}
use mini_kafka.Replication.Wire.{
  put_records, gather, gather_step, get_records, encode_replica_fetch_response,
  decode_replica_fetch_response,
}

-- A writer and a reader that fit at the end of the stream.
pub record Ends {A : Type 0} (p : Writer) (g : Reader A) (a : A) : Type 0 where
  pub bytes : Bytes
  pub writes : (w : Bytes) → p w ≡ (ok tt, w ++ bytes)
  pub reads : g bytes ≡ (ok a, [])

module _ {A B : Type 0} where
  Ends-seq :
      {p q : Writer} {g : Reader A} (k : A → Reader B) (a : A) {b : B}
      → Trips p g a
      → Ends q (k a) b
      → Ends (p >> q) (g >>= k) b
  unfolding ◌>>◌ ◌>>=◌
  Ends-seq k a s t = record {
    bytes = s.bytes ++ t.bytes;
    writes = λ w. rw (s.writes w) (rw (t.writes (w ++ s.bytes)) (rw append_assoc));
    reads = rw (s.reads t.bytes) t.reads;
  }

  Ends-last :
      {p : Writer} {g : Reader A} (f : A → B) (a : A)
      → Ends p g a
      → Ends p (g >>= λ x. pure (f x)) (f a)
  unfolding ◌>>=◌ pure
  Ends-last f a t = record { bytes = t.bytes; writes = t.writes; reads = rw t.reads refl }

put_records-writes :
    (rs : List Record) (w : Bytes) → All IsRecord rs → put_records rs w ≡ (ok tt, w ++ log_bytes rs)
unfolding put_records ◌>>◌ skip
put_records-writes [] w v = rw append-nil
put_records-writes (r ∷ rs) w (v, vs) =
    rw (encode-image r w v.fits) (put_records-writes rs (w ++ image r) vs ∙ rw append_assoc refl)

gather-some :
    (fuel : ℕ) (bs : Bytes)
    → 0 < length bs
    → gather (suc fuel) bs ≡ gather_step (λ left. gather fuel left) (decode_record bs)
unfolding gather
gather-some fuel [] h = absurd (omega arith)
gather-some fuel (b ∷ bs) h = refl

gather_step-ok :
    (further : Bytes → List Record) (r : Record) (n : ℕ) (left : Bytes)
    → gather_step further (ok (r, n), left) ≡ r ∷ further left
unfolding gather_step
gather_step-ok further r n left = refl

gather-log_bytes :
    (fuel : ℕ) (rs : List Record)
    → All IsRecord rs
    → length rs < fuel
    → gather fuel (log_bytes rs) ≡ rs
gather-log_bytes zero rs v h = absurd (omega arith)
gather-log_bytes (suc fuel) [] v h = unfold gather in refl
gather-log_bytes (suc fuel) (r ∷ rs) (v, vs) h =
    gather-some fuel (image r ++ log_bytes rs)
      (omega (arith, length-append (image r) (log_bytes rs), length-image r, le-encoded_size r))
    ∙ ap (gather_step (λ left. gather fuel left)) (decode_record-image r (log_bytes rs) v)
    ∙ gather_step-ok (λ left. gather fuel left) r (encoded_size r) (log_bytes rs)
    ∙ ap (λ out. r ∷ out) (gather-log_bytes fuel rs vs (omega arith))

Ends-records : (rs : List Record) → All IsRecord rs → Ends (put_records rs) get_records rs
unfolding get_records
Ends-records rs v = record {
  bytes = log_bytes rs;
  writes = λ w. put_records-writes rs w v;
  reads =
      ap (λ out. (ok out, []))
        (gather-log_bytes (suc (length (log_bytes rs))) rs v (omega (arith, length-log_bytes rs)));
}

-- The answer to a follower's fetch, with an error code of 16 bits, a high watermark of 64 bits and
-- well formed records, is encoded without an error, and decoding its bytes gives back the code, the
-- high watermark and just these records, with nothing left.
pub encode_replica_fetch_response-Ends :
    (error_code hw : ℤ) (rs : List Record)
    → IsInt16 error_code
    → IsInt64 hw
    → All IsRecord rs
    → Ends
        (encode_replica_fetch_response error_code hw rs)
        decode_replica_fetch_response
        (record { error_code = error_code; high_watermark = hw; records = rs })
unfolding encode_replica_fetch_response decode_replica_fetch_response
encode_replica_fetch_response-Ends error_code hw rs c w v =
    Ends-seq _ _ (Trips-int16 error_code c)
      (Ends-seq _ _ (Trips-int64 hw w) (Ends-last _ _ (Ends-records rs v)))
