-- ===== src/Storage/Record/RoundTrip.antt =====
-- internal/storage/record.go: decoding a record that was encoded.
use mini_kafka.Prelude.{
  ℕ, ◌+◌, ◌-◌, ◌%◌, ◌^◌, ◌≤◌, ◌<◌, ◌≡◌, refl, ap, ◌∙◌, Option, none, some, [], ◌++◌, length,
  length-append, take-append, drop-append, le→leb, le→ltb_false, arith,
}
use mini_kafka.Prelude.Int.{
  pos, IsInt8, IsInt64, signed, signed-small, unsigned, signed-unsigned, unsigned-lt,
}
use mathlib.Core.List.{append-nil, append_assoc}
use mini_kafka.Protocol.Stream.{ok, Bytes, Reader, pure, ◌>>=◌, write, read_full}
use mini_kafka.Protocol.Trips.{Trips}
use mini_kafka.Protocol.Codec.{be}
use mini_kafka.Protocol.Codec.RoundTrip.{length-be, of_be-be, read_full-append}
use mini_kafka.Storage.Crc32c.{crc32c, crc32c-lt}
use mini_kafka.Storage.Record.{
  Record, payload_size, encoded_size, put_field, put_region, image, encode, need, get_uint,
  check_crc, field_body, get_field, get_payload, parse_payload, decode_body, decode_record,
  max_record_size, min_payload,
}

-- The values of the Go type, and a size that the code accepts.
pub record IsRecord (r : Record) : Type 0 where
  pub offset : IsInt64 r.offset
  pub timestamp : IsInt64 r.timestamp
  pub attributes : IsInt8 r.attributes
  pub fits : encoded_size r ≤ max_record_size

module _ {A B : Type 0} where
  pub bind-ok :
      (m : Reader A) (f : A → Reader B) {s s' : Bytes} {a : A}
      → m s ≡ (ok a, s')
      → (m >>= f) s ≡ f a s'
  unfolding ◌>>=◌
  bind-ok m f e = rw e

pub need-append : (xs ys : Bytes) → need (length xs) (xs ++ ys) ≡ (ok xs, ys)
unfolding need
need-append xs ys = rw (
  le→leb (length xs) (length (xs ++ ys)) (omega (arith, length-append xs ys)),
  take-append,
  drop-append,
)

pub get_uint-be : (n v : ℕ) (ys : Bytes) → v < 256 ^ n → get_uint n (be n v ++ ys) ≡ (ok v, ys)
unfolding get_uint
get_uint-be n v ys h =
    bind-ok (need n) _ {s' = ys} {a = be n v} (rw length-be at (need-append (be n v) ys))
    ∙ (unfold pure in rw (of_be-be n v h))

get_field-put_field :
    (o : Option Bytes) (ys : Bytes)
    → payload_size o < 2 ^ 31
    → get_field (put_field o ++ ys) ≡ (ok o, ys)
unfolding get_field put_field field_body
get_field-put_field none ys h =
    bind-ok _ _ (get_uint-be 4 (2 ^ 32 - 1) ys (omega arith)) ∙ (unfold signed pure in refl)
get_field-put_field (some bs) ys h =
    rw (small, append_assoc)
      (bind-ok _ _ (get_uint-be 4 (length bs) (bs ++ ys) (omega arith))
        ∙ rw (signed-small (2 ^ 31) (length bs) h)
            (bind-ok (need (length bs)) _ (need-append bs ys) ∙ (unfold pure in refl)))
  where
    small : length bs % 2 ^ 32 ≡ length bs
    small = omega arith

-- The payload of an encoded record, the part behind the length field.
pub put_payload : Record → Bytes
put_payload r =
    be 8 (unsigned (2 ^ 63) r.offset)
    ++ (be 8 (unsigned (2 ^ 63) r.timestamp) ++ (be 4 (crc32c (put_region r)) ++ put_region r))

check_crc-ok : (s : Bytes) → check_crc (crc32c s) s ≡ (ok tt, s)
unfolding check_crc
check_crc-ok s = ground arith

get_payload-put_payload : (r : Record) → IsRecord r → get_payload (put_payload r) ≡ (ok r, [])
unfolding get_payload put_payload encoded_size
get_payload-put_payload r h =
    bind-ok _ _ (get_uint-be 8 _ _ (unsigned-lt (2 ^ 63) r.offset h.offset))
    ∙ bind-ok _ _ (get_uint-be 8 _ _ (unsigned-lt (2 ^ 63) r.timestamp h.timestamp))
    ∙ bind-ok _ _ (get_uint-be 4 _ _ (crc32c-lt (put_region r)))
    ∙ bind-ok _ _ (check_crc-ok (put_region r))
    ∙ (unfold put_region in
        bind-ok _ _ (get_uint-be 1 _ _ (unsigned-lt (2 ^ 7) r.attributes h.attributes))
        ∙ bind-ok _ _ (get_field-put_field r.key (put_field r.value) (omega (arith, h.fits)))
        ∙ bind-ok _ _ last
        ∙ (unfold pure in
            rw (
              signed-unsigned (2 ^ 63) r.offset h.offset,
              signed-unsigned (2 ^ 63) r.timestamp h.timestamp,
              signed-unsigned (2 ^ 7) r.attributes h.attributes,
            )))
  where
    last : get_field (put_field r.value) ≡ (ok r.value, [])
    last = rw append-nil at (get_field-put_field r.value [] (omega (arith, h.fits)))

length-put_field : (o : Option Bytes) → length (put_field o) ≡ 4 + payload_size o
unfolding put_field
length-put_field none = length-be 4 _
length-put_field (some bs) = rw length-append (omega (arith, length-be 4 (length bs % 2 ^ 32)))

pub length-put_payload : (r : Record) → 4 + length (put_payload r) ≡ encoded_size r
unfolding put_payload put_region encoded_size
length-put_payload r = simp (length-append, length-be, length-put_field) (omega arith)

pub le-encoded_size : (r : Record) → 33 ≤ encoded_size r
unfolding encoded_size
le-encoded_size r = omega arith

parse_payload-put_payload :
    (r : Record) (rest : Bytes)
    → IsRecord r
    → parse_payload (put_payload r) rest ≡ (ok (r, encoded_size r), rest)
unfolding parse_payload
parse_payload-put_payload r rest h = rw (
  le→ltb_false (length (put_payload r)) min_payload enough,
  get_payload-put_payload r h,
  length-put_payload,
)
  where
    enough : min_payload ≤ length (put_payload r)
    enough = omega (arith, length-put_payload r, le-encoded_size r)

pub length_field :
    (n : ℕ) (rest : Bytes)
    → n < 2 ^ 31
    → decode_record (be 4 (n % 2 ^ 32) ++ rest) ≡ decode_body (pos n) rest
unfolding decode_record
length_field n rest h =
    bind-ok (read_full 4) _ {s' = rest} {a = be 4 (n % 2 ^ 32)}
      (rw length-be at (read_full-append (be 4 (n % 2 ^ 32)) rest))
    ∙ rw (small, of_be-be 4 n (omega arith), signed-small (2 ^ 31) n h)
  where
    small : n % 2 ^ 32 ≡ n
    small = omega arith

decode_body-payload :
    (payload rest : Bytes)
    → length payload ≤ max_record_size
    → decode_body (pos (length payload)) (payload ++ rest) ≡ parse_payload payload rest
unfolding decode_body
decode_body-payload payload rest h =
    rw (le→ltb_false max_record_size (length payload) h)
      (bind-ok _ _ (read_full-append payload rest))

-- A length field and that many bytes reach the parser.
pub decode_record-payload :
    (payload rest : Bytes)
    → length payload ≤ max_record_size
    → decode_record (be 4 (length payload % 2 ^ 32) ++ (payload ++ rest))
      ≡ parse_payload payload rest
decode_record-payload payload rest h =
    length_field (length payload) (payload ++ rest) (omega arith)
    ∙ decode_body-payload payload rest h

pub image_split : (r : Record) → image r ≡ be 4 (length (put_payload r) % 2 ^ 32) ++ put_payload r
unfolding image put_payload
image_split r = ap (λ n. be 4 (n % 2 ^ 32) ++ put_payload r) (omega (arith, length-put_payload r))

encode-fits : (r : Record) → encoded_size r ≤ max_record_size → encode r ≡ write (image r)
unfolding encode
encode-fits r h = unfold encoded_size in rw (le→ltb_false max_record_size (encoded_size r) h)

pub encode-image :
    (r : Record) (w : Bytes) → encoded_size r ≤ max_record_size → encode r w ≡ (ok tt, w ++ image r)
encode-image r w h = rw (encode-fits r h) (unfold write in refl)

pub decode_record-image :
    (r : Record) (rest : Bytes)
    → IsRecord r
    → decode_record (image r ++ rest) ≡ (ok (r, encoded_size r), rest)
decode_record-image r rest h =
    rw (image_split r, append_assoc)
      (decode_record-payload (put_payload r) rest (omega (arith, length-put_payload r, h.fits))
        ∙ parse_payload-put_payload r rest h)

pub length-image : (r : Record) → length (image r) ≡ encoded_size r
length-image r = rw (image_split r, length-append, length-be) (length-put_payload r)

-- A record whose integer fields fit their types and whose encoded size is at most 1 MiB is encoded
-- without an error, and decoding its bytes, whatever stands behind them in the stream, gives the
-- same record with its size, checksum verified, nil keys and values kept apart from empty ones.
pub encode_record-Trips :
    (r : Record) → IsRecord r → Trips (encode r) decode_record (r, encoded_size r)
encode_record-Trips r h = record {
  bytes = image r;
  writes = λ w. encode-image r w h.fits;
  reads = λ rest. decode_record-image r rest h;
}
