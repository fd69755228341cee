-- ===== src/Protocol/Codec.antt =====
-- internal/protocol/codec.go: the primitive wire types. A []byte or a string is its list of bytes.
pub mod RoundTrip
pub mod Array
pub mod Sizes
use mini_kafka.Prelude.{
  ℕ, zero, suc, ◌+◌, ◌-◌, ◌*◌, ◌/◌, ◌%◌, ◌^◌, Bool, true, false, not, Option, none, some, List, [],
  ◌∷◌, ◌++◌, ltb, leb, ◌==◌, length, if◌then◌else◌,
}
use mini_kafka.Prelude.Int.{ℤ, pos, negsuc, ltb_ℤ, pos_part, signed, unsigned}
use mathlib.Core.List.{foldl}
use mini_kafka.Protocol.Stream.{
  Bytes, Reader, Writer, string_too_long, bytes_too_long, array_too_long, array_over_limit, pure,
  fail, ◌>>=◌, ◌>>◌, write, write_fails, skip, read_full,
}

-- encoding/binary's big-endian order: the lowest `n` bytes of `v`, the highest first.
unfoldable pub be : ℕ → ℕ → Bytes
be zero v = []
be (suc n) v = be n (v / 256) ++ (v % 256) ∷ []

unfoldable pub of_be : Bytes → ℕ
of_be = foldl (λ acc b. acc * 256 + b) 0

-- binary.Write and binary.Read of an integer of `n` bytes, whose modulus is `2 * half`.
put_int : ℕ → ℕ → ℤ → Writer
put_int n half v = write (be n (unsigned half v))

unfoldable pub get_int : ℕ → ℕ → Reader ℤ
get_int n half = do bs ← read_full n; pure (signed half (of_be bs))

pub put_int8 : ℤ → Writer
unfolding put_int
put_int8 v = put_int 1 (2 ^ 7) v

pub put_int16 : ℤ → Writer
unfolding put_int
put_int16 v = put_int 2 (2 ^ 15) v

pub put_int32 : ℤ → Writer
unfolding put_int
put_int32 v = put_int 4 (2 ^ 31) v

pub put_int64 : ℤ → Writer
unfolding put_int
put_int64 v = put_int 8 (2 ^ 63) v

pub put_bool : Bool → Writer
put_bool v = put_int8 (if v then pos 1 else pos 0)

abbrev pub max_int16 : ℕ
max_int16 = 2 ^ 15 - 1

abbrev pub max_int32 : ℕ
max_int32 = 2 ^ 31 - 1

pub put_string : Bytes → Writer
put_string v =
    let n = length v in
    if ltb max_int16 n
    then write_fails string_too_long
    else do put_int16 (pos n); if n == 0 then skip else write v

pub put_nullable_string : Option Bytes → Writer
put_nullable_string none = put_int16 (negsuc 0)
put_nullable_string (some v) = put_string v

pub put_bytes : Bytes → Writer
put_bytes v =
    let n = length v in
    if ltb max_int32 n
    then write_fails bytes_too_long
    else do put_int32 (pos n); if n == 0 then skip else write v

pub put_nullable_bytes : Option Bytes → Writer
put_nullable_bytes none = put_int32 (negsuc 0)
put_nullable_bytes (some v) = put_bytes v

pub put_array_header : ℤ → Writer
put_array_header n = if ltb_ℤ (pos max_int32) n then write_fails array_too_long else put_int32 n

pub int8 : Reader ℤ
unfolding get_int
int8 = get_int 1 (2 ^ 7)

pub int16 : Reader ℤ
unfolding get_int
int16 = get_int 2 (2 ^ 15)

unfoldable pub int32 : Reader ℤ
unfolding get_int
int32 = get_int 4 (2 ^ 31)

pub int64 : Reader ℤ
unfolding get_int
int64 = get_int 8 (2 ^ 63)

pub bool : Reader Bool
bool = do v ← int8; pure (if ltb_ℤ v (pos 0) then true else not (pos_part v == 0))

abbrev pub max_string_length : ℕ
max_string_length = 10 * 1024 * 1024

abbrev pub max_bytes_length : ℕ
max_bytes_length = 100 * 1024 * 1024

-- A null string in a context that is not nullable is the empty one.
string_body : ℤ → Reader Bytes
string_body (negsuc k) = pure []
string_body (pos n) =
    if n == 0
    then pure []
    else if ltb max_string_length n
    then fail string_too_long
    else read_full n

pub string : Reader Bytes
unfolding string_body
string = do n ← int16; string_body n

nullable_string_body : ℤ → Reader (Option Bytes)
nullable_string_body (negsuc k) = pure none
nullable_string_body (pos n) =
    if n == 0
    then pure (some [])
    else if ltb max_string_length n
    then fail string_too_long
    else do buf ← read_full n; pure (some buf)

pub nullable_string : Reader (Option Bytes)
unfolding nullable_string_body
nullable_string = do n ← int16; nullable_string_body n

nullable_bytes_body : ℤ → Reader (Option Bytes)
nullable_bytes_body (negsuc k) = pure none
nullable_bytes_body (pos n) =
    if n == 0
    then pure (some [])
    else if ltb max_bytes_length n
    then fail bytes_too_long
    else do buf ← read_full n; pure (some buf)

pub nullable_bytes : Reader (Option Bytes)
unfolding nullable_bytes_body
nullable_bytes = do n ← int32; nullable_bytes_body n

bytes_body : ℤ → Reader Bytes
bytes_body (negsuc k) = pure []
bytes_body (pos n) =
    if n == 0 then pure [] else if ltb max_bytes_length n then fail bytes_too_long else read_full n

-- `Bytes` of codec.go, where the callers do not tell nil from empty.
pub bytes : Reader Bytes
unfolding bytes_body
bytes = do n ← int32; bytes_body n

pub array_header : Reader ℤ
array_header = do v ← int32; if ltb_ℤ (pos max_int32) v then fail array_too_long else pure v

abbrev pub safety_limit : ℕ
safety_limit = 100000

pub read_array_header : Reader ℤ
read_array_header = do
  count ← array_header
  if ltb_ℤ (pos safety_limit) count then fail array_over_limit else pure count
