-- ===== src/Broker/Produce/Records.antt =====
-- handleProduce of internal/broker/broker.go: the record set of a request.
use mini_kafka.Prelude.{
  ℕ, zero, suc, ◌<◌, ◌≡◌, refl, ap, ◌∙◌, Bool, false, List, [], ◌∷◌, ◌++◌, All, length,
  length-append, arith,
}
use mini_kafka.Storage.Record.{Record, image, encoded_size, decode_record}
use mini_kafka.Storage.Record.RoundTrip.{
  IsRecord, decode_record-image, length-image, le-encoded_size,
}
use mini_kafka.Storage.Segment.Contents.{log_bytes}
use mini_kafka.Protocol.Stream.{Bytes, ok}
use mini_kafka.Broker.Produce.{decode_records, decode_step}

-- A set of bytes that are there is decoded record by record.
decode_records-some :
    (fuel : ℕ) (bs : Bytes)
    → 0 < length bs
    → decode_records (suc fuel) bs
      ≡ decode_step (λ left. decode_records fuel left) (decode_record bs)
unfolding decode_records
decode_records-some fuel [] h = absurd (omega arith)
decode_records-some fuel (b ∷ bs) h = refl

decode_step-ok :
    (further : Bytes → List Record × Bool) (r : Record) (n : ℕ) (left : Bytes)
    → decode_step further (ok (r, n), left) ≡ (r ∷ (further left).0, (further left).1)
unfolding decode_step
decode_step-ok further r n left = refl

pub decode_records-log_bytes :
    (fuel : ℕ) (rs : List Record)
    → All IsRecord rs
    → length rs < fuel
    → decode_records fuel (log_bytes rs) ≡ (rs, false)
decode_records-log_bytes zero rs v h = absurd (omega arith)
decode_records-log_bytes (suc fuel) [] v h = unfold decode_records in refl
decode_records-log_bytes (suc fuel) (r ∷ rs) (v, vs) h =
    decode_records-some fuel (image r ++ log_bytes rs)
      (omega (arith, length-append (image r) (log_bytes rs), length-image r, le-encoded_size r))
    ∙ ap (decode_step (λ left. decode_records fuel left)) (decode_record-image r (log_bytes rs) v)
    ∙ decode_step-ok (λ left. decode_records fuel left) r (encoded_size r) (log_bytes rs)
    ∙ ap (λ out. (r ∷ out.0, out.1)) (decode_records-log_bytes fuel rs vs (omega arith))
