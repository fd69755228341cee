-- ===== src/Storage/Record/Torn.antt =====
-- internal/storage/record.go: a record of which the end is missing.
use mini_kafka.Prelude.{
  false, ℕ, ◌+◌, ◌-◌, ◌%◌, ◌^◌, ◌≤◌, ◌<◌, ◌≡◌, refl, sym, ap, ◌∙◌, Bool-cases, inl, inr, ◌++◌,
  length, take, leb, take-append_over, length-take_le, le→ltb_false, arith,
}
use mathlib.Core.Path.{subst}
use mini_kafka.Prelude.Int.{pos}
use mini_kafka.Protocol.Stream.{Bytes, Error, Result, err, ◌>>=◌, read_full}
use mini_kafka.Protocol.Codec.{be}
use mini_kafka.Protocol.Codec.RoundTrip.{length-be}
use mini_kafka.Storage.Record.{Record, image, decode_body, decode_record, max_record_size}
use mini_kafka.Storage.Record.RoundTrip.{
  IsRecord, put_payload, length-put_payload, image_split, length_field, length-image,
}

-- The result is an error.
pub record Fails {A : Type 0} (out : Result A × Bytes) : Type 0 where
  pub error : Error
  pub is : out.0 ≡ err error

read_full-Fails :
    {A : Type 0} (n : ℕ) (s : Bytes) (f : Bytes → Bytes → Result A × Bytes)
    → length s < n
    → Fails ((read_full n >>= f) s)
unfolding read_full ◌>>=◌
read_full-Fails n s f lt = simp (short_of) (record { error = _; is = refl })
  where
    short_of : leb n (length s) ≡ false
    short_of = ground arith

decode_body-Fails :
    (n : ℕ) (s : Bytes) → n ≤ max_record_size → length s < n → Fails (decode_body (pos n) s)
unfolding decode_body
decode_body-Fails n s small lt =
    rw (le→ltb_false max_record_size n small) (read_full-Fails n s _ lt)

module _ (r : Record) (k : ℕ) (v : IsRecord r) (lt : k < length (image r)) where
  abbrev payload : Bytes
  payload = put_payload r

  abbrev field : Bytes
  field = be 4 (length payload % 2 ^ 32)

  size : 4 + length payload ≡ length (image r)
  size = length-put_payload r ∙ sym (length-image r)

  -- The length field is whole, and the payload is not.
  torn_payload :
      4 ≤ k
      → decode_record (take k (image r)) ≡ decode_body (pos (length payload)) (take (k - 4) payload)
  torn_payload le =
      ap (λ bytes. decode_record (take k bytes)) (image_split r)
      ∙ ap decode_record (take-append_over field payload k (omega (arith, len)))
      ∙ ap (λ j. decode_record (field ++ take (k - j) payload)) len
      ∙ length_field (length payload) (take (k - 4) payload)
          (omega (arith, length-put_payload r, v.fits))
    where
      len : length field ≡ 4
      len = length-be 4 _

  pub decode_record-torn : Fails (decode_record (take k (image r)))
  decode_record-torn = elim (Bool-cases (leb 4 k)) [
    | inl whole_length ↦ subst Fails (sym (torn_payload (ground arith))) (
        decode_body-Fails (length payload) (take (k - 4) payload)
          (omega (arith, length-put_payload r, v.fits))
          (let t = length-take_le (k - 4) payload in ground (arith, size)))
    | inr no_length ↦
        unfold decode_record in
        read_full-Fails 4 _ _ (let t = length-take_le k (image r) in ground arith)
  ]
