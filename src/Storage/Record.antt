-- ===== src/Storage/Record.antt =====
-- internal/storage/record.go: the record and its binary form.
pub mod RoundTrip
pub mod Corruption
pub mod Torn
use mini_kafka.Prelude.{
  ℕ, zero, suc, ◌+◌, ◌-◌, ◌*◌, ◌%◌, ◌^◌, Option, none, some, [], ◌∷◌, ◌++◌, ltb, leb, ◌==◌, length,
  take, drop, if◌then◌else◌,
}
use mini_kafka.Prelude.Int.{ℤ, pos, negsuc, signed, unsigned}
use mini_kafka.Protocol.Stream.{
  Bytes, ok, err, unexpected_eof, corrupt_record, record_too_large, Reader, Writer, pure, fail,
  ◌>>=◌, write, write_fails, read_full,
}
use mini_kafka.Protocol.Codec.{be, of_be}
use mini_kafka.Storage.Crc32c.{crc32c}

abbrev pub max_record_size : ℕ
max_record_size = 1048576

-- A nil key or value is `none`.
pub record Record : Type 0 where
  pub offset : ℤ
  pub timestamp : ℤ
  pub attributes : ℤ
  pub key : Option Bytes
  pub value : Option Bytes

abbrev pub payload_size : Option Bytes → ℕ
payload_size none = 0
payload_size (some bs) = length bs

unfoldable pub encoded_size : Record → ℕ
encoded_size r = 4 + 8 + 8 + 4 + 1 + 4 + payload_size r.key + 4 + payload_size r.value

-- A length and the bytes; the length of nil is the bit pattern of -1.
pub put_field : Option Bytes → Bytes
put_field none = be 4 (2 ^ 32 - 1)
put_field (some bs) = be 4 (length bs % 2 ^ 32) ++ bs

-- The part that the checksum covers.
pub put_region : Record → Bytes
put_region r = be 1 (unsigned (2 ^ 7) r.attributes) ++ (put_field r.key ++ put_field r.value)

pub image : Record → Bytes
unfolding encoded_size
image r =
    be 4 ((encoded_size r - 4) % 2 ^ 32)
    ++ (be 8 (unsigned (2 ^ 63) r.offset)
        ++ (be 8 (unsigned (2 ^ 63) r.timestamp) ++ (be 4 (crc32c (put_region r)) ++ put_region r)))

unfoldable pub encode : Record → Writer
unfolding image put_region put_field encoded_size
encode r =
    if ltb max_record_size (encoded_size r) then write_fails record_too_large else write (image r)

-- payload[off : off + n], where `off + n > len(payload)` is an unexpected end.
pub need : ℕ → Reader Bytes
need n s = if leb n (length s) then (ok (take n s), drop n s) else (err unexpected_eof, s)

pub get_uint : ℕ → Reader ℕ
unfolding need
get_uint n = do bs ← need n; pure (of_be bs)

-- The checksum covers all that is left of the payload.
pub check_crc : ℕ → Reader (Unit {0})
check_crc checksum s = if crc32c s == checksum then (ok tt, s) else (err corrupt_record, s)

pub field_body : ℤ → Reader (Option Bytes)
field_body (negsuc zero) = pure none
field_body (negsuc (suc k)) = fail corrupt_record
field_body (pos n) = do bs ← need n; pure (some bs)

pub get_field : Reader (Option Bytes)
unfolding get_uint field_body
get_field = do len ← get_uint 4; field_body (signed (2 ^ 31) len)

abbrev min_payload : ℕ
min_payload = 8 + 8 + 4 + 1 + 4 + 4

-- The payload behind the length field; bytes behind the value are ignored.
pub get_payload : Reader Record
unfolding get_uint get_field check_crc
get_payload = do
  offset ← get_uint 8
  timestamp ← get_uint 8
  checksum ← get_uint 4
  u ← check_crc checksum
  attributes ← get_uint 1
  key ← get_field
  value ← get_field
  pure (record {
    offset = signed (2 ^ 63) offset;
    timestamp = signed (2 ^ 63) timestamp;
    attributes = signed (2 ^ 7) attributes;
    key = key;
    value = value;
  })

-- The parse of a payload that has been read whole: what it leaves is dropped.
pub parse_payload : Bytes → Reader (Record × ℕ)
unfolding get_payload
parse_payload payload s =
    if ltb (length payload) min_payload
    then (err unexpected_eof, s)
    else elim (get_payload payload).0 [
      | ok rec ↦ (ok (rec, 4 + length payload), s)
      | err e ↦ (err e, s)
    ]

pub decode_body : ℤ → Reader (Record × ℕ)
unfolding parse_payload
decode_body (negsuc k) = fail corrupt_record
decode_body (pos n) =
    if ltb max_record_size n
    then fail record_too_large
    else (do payload ← read_full n; parse_payload payload)

-- The record and the number of bytes taken.
unfoldable pub decode_record : Reader (Record × ℕ)
unfolding decode_body
decode_record = do len ← read_full 4; decode_body (signed (2 ^ 31) (of_be len))
