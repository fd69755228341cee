-- ===== src/Storage/Record/Corruption.antt =====
-- What decoding refuses.
use mini_kafka.Prelude.{
  ℕ, ◌+◌, ◌%◌, ◌^◌, ◌≤◌, ◌<◌, ◌≡◌, ◌≢◌, ◌∙◌, ◌++◌, length, length-append, lt→ltb, le→ltb_false,
  arith,
}
use mini_kafka.Prelude.Int.{pos, signed}
use mini_kafka.Protocol.Stream.{
  ok, err, corrupt_record, record_too_large, Bytes, fail, ◌>>=◌, read_full,
}
use mini_kafka.Protocol.Codec.{be, of_be}
use mini_kafka.Protocol.Codec.RoundTrip.{length-be}
use mini_kafka.Storage.Crc32c.{crc32c}
use mini_kafka.Storage.Record.{
  check_crc, get_payload, parse_payload, decode_body, decode_record, max_record_size, min_payload,
}
use mini_kafka.Storage.Record.RoundTrip.{bind-ok, get_uint-be, decode_record-payload}

check_crc-corrupt :
    (sum : ℕ) (s : Bytes) → crc32c s ≢ sum → check_crc sum s ≡ (err corrupt_record, s)
unfolding check_crc
check_crc-corrupt sum s h = ground arith

-- A payload whose checksum field does not fit the bytes behind it.
abbrev pub payload_of : ℕ → ℕ → ℕ → Bytes → Bytes
payload_of offset timestamp checksum region =
    be 8 offset ++ (be 8 timestamp ++ (be 4 checksum ++ region))

get_payload-corrupt :
    (offset timestamp checksum : ℕ) (region : Bytes)
    → offset < 2 ^ 64
    → timestamp < 2 ^ 64
    → checksum < 2 ^ 32
    → crc32c region ≢ checksum
    → get_payload (payload_of offset timestamp checksum region) ≡ (err corrupt_record, region)
unfolding get_payload
get_payload-corrupt offset timestamp checksum region ho ht hc h =
    bind-ok _ _ (get_uint-be 8 offset _ ho)
    ∙ bind-ok _ _ (get_uint-be 8 timestamp _ ht)
    ∙ bind-ok _ _ (get_uint-be 4 checksum _ hc)
    ∙ (unfold ◌>>=◌ in rw (check_crc-corrupt checksum region h))

-- A record on disk whose length field is at most 1 MiB, with at least 9 bytes from the attributes
-- on, whose stored checksum is not that of these bytes, is refused as corrupt, whatever the bytes
-- are; the stream goes on behind the record. The length field does not count itself, so that the
-- whole record may have 4 bytes more.
pub decode_record-corrupt :
    (offset timestamp checksum : ℕ) (region rest : Bytes)
    → offset < 2 ^ 64
    → timestamp < 2 ^ 64
    → checksum < 2 ^ 32
    → crc32c region ≢ checksum
    → 9 ≤ length region
    → 20 + length region ≤ max_record_size
    → decode_record (
        be 4 ((20 + length region) % 2 ^ 32)
        ++ (payload_of offset timestamp checksum region ++ rest))
      ≡ (err corrupt_record, rest)
decode_record-corrupt offset timestamp checksum region rest ho ht hc h lo hi = rw (← len) (
    decode_record-payload (payload_of offset timestamp checksum region) rest (rw len hi)
    ∙ (unfold parse_payload in
        rw (
          le→ltb_false (length (payload_of offset timestamp checksum region)) min_payload
              (rw len (omega arith)),
          get_payload-corrupt offset timestamp checksum region ho ht hc h,
        )))
  where
    len : length (payload_of offset timestamp checksum region) ≡ 20 + length region
    len = simp (length-append, length-be) (omega arith)

-- A length field above 1 MiB is refused before the payload is read.
pub decode_record-too_large :
    (stream rest field : Bytes)
    → read_full 4 stream ≡ (ok field, rest)
    → (n : ℕ) → signed (2 ^ 31) (of_be field) ≡ pos n
    → max_record_size < n
    → decode_record stream ≡ (err record_too_large, rest)
unfolding decode_record decode_body fail
decode_record-too_large stream rest field e n s h =
    bind-ok (read_full 4) _ e ∙ rw s (rw (lt→ltb max_record_size n h))
