-- ===== src/Protocol/Frame.antt =====
-- internal/protocol/frame.go: length-prefixed request and response frames.
pub mod Sizes
pub mod RoundTrip
pub mod Limits
use mini_kafka.Prelude.{
  ℕ, ◌+◌, ◌*◌, ◌%◌, ◌^◌, Bool, [], ◌∷◌, ◌++◌, ◌&&◌, ◌||◌, ltb, leb, length, take, drop,
  if◌then◌else◌,
}
use mini_kafka.Prelude.Int.{ℤ, pos, ltb_ℤ, pos_part, signed}
use mini_kafka.Protocol.Stream.{
  Bytes, Result, ok, err, eof, frame_too_large, frame_size_mismatch, Reader, Writer, pure, fail,
  ◌>>=◌, ◌>>◌, write, write_fails,
}
use mini_kafka.Protocol.Codec.{
  put_int16, put_int32, put_string, put_bytes, int16, int32, string, bytes,
}

abbrev pub max_frame_size : ℕ
max_frame_size = 100 * 1024 * 1024

pub record RequestFrame : Type 0 where
  pub size : ℤ
  pub api_key : ℤ
  pub api_version : ℤ
  pub correlation_id : ℤ
  pub client_id : Bytes
  pub payload : Bytes

pub record ResponseFrame : Type 0 where
  pub size : ℤ
  pub correlation_id : ℤ
  pub error_code : ℤ
  pub payload : Bytes

-- io.LimitedReader: the reader sees `n` bytes at most, and what it leaves stays in the stream.
limited : {A : Type 0} → ℕ → Reader A → Reader A
limited n g s = let (r, left) = g (take n s) in (r, left ++ drop n s)

-- The one-byte probe behind the last field.
probe : Reader (Unit {0})
probe [] = (ok tt, [])
probe (b ∷ left) = (err frame_size_mismatch, left)

-- io.CopyN(io.Discard, r, n)
discard : ℕ → Reader (Unit {0})
discard n s = if leb n (length s) then (ok tt, drop n s) else (err eof, [])

request_fields : ℤ → Reader RequestFrame
request_fields size = do
  api_key ← int16
  api_version ← int16
  correlation_id ← int32
  client_id ← string
  payload ← bytes
  pure (record {
    size = size;
    api_key = api_key;
    api_version = api_version;
    correlation_id = correlation_id;
    client_id = client_id;
    payload = payload;
  })

response_fields : ℤ → Reader ResponseFrame
response_fields size = do
  correlation_id ← int32
  error_code ← int16
  payload ← bytes
  pure (record {
    size = size;
    correlation_id = correlation_id;
    error_code = error_code;
    payload = payload;
  })

-- The fields, and nothing behind them.
exactly : {A : Type 0} → Reader A → Reader A
unfolding probe
exactly fields = do f ← fields; u ← probe; pure f

-- `size < 0 || size > MaxFrameSize`
pub bad_size : ℤ → Bool
bad_size size = ltb_ℤ size (pos 0) || ltb_ℤ (pos max_frame_size) size

sized_request : ℤ → ℤ → Reader RequestFrame
unfolding bad_size limited exactly discard request_fields
sized_request max_request_bytes size =
    if bad_size size
    then fail frame_too_large
    else if ltb_ℤ (pos 0) max_request_bytes && ltb_ℤ max_request_bytes size
    then (do u ← discard (pos_part size); fail frame_too_large)
    else limited (pos_part size) (exactly (request_fields size))

pub read_request_frame_with_limit : ℤ → Reader RequestFrame
unfolding sized_request
read_request_frame_with_limit max_request_bytes = do
  size ← int32
  sized_request max_request_bytes size

pub read_request_frame : Reader RequestFrame
unfolding read_request_frame_with_limit
read_request_frame = read_request_frame_with_limit (pos 0)

sized_response : ℤ → Reader ResponseFrame
unfolding bad_size limited exactly response_fields
sized_response size =
    if bad_size size
    then fail frame_too_large
    else limited (pos_part size) (exactly (response_fields size))

pub read_response_frame : Reader ResponseFrame
unfolding sized_response
read_response_frame = do size ← int32; sized_response size

pub put_request_body : RequestFrame → Writer
put_request_body f = do
  put_int16 f.api_key
  put_int16 f.api_version
  put_int32 f.correlation_id
  put_string f.client_id
  put_bytes f.payload

pub put_response_body : ResponseFrame → Writer
put_response_body f = do put_int32 f.correlation_id; put_int16 f.error_code; put_bytes f.payload

-- int32(body.Len())
body_size : Bytes → ℤ
body_size body = signed (2 ^ 31) (length body % 2 ^ 32)

-- The body is written to a buffer first: where that fails, nothing is written to the stream.
send : Result (Unit {0}) × Bytes → Writer
unfolding body_size
send (ok u, body) = do put_int32 (body_size body); write body
send (err e, body) = write_fails e

-- `Write` sets the frame's size too; what it writes is read off the other fields alone.
pub write_request_frame : RequestFrame → Writer
unfolding put_request_body send
write_request_frame f = send (put_request_body f [])

pub write_response_frame : ResponseFrame → Writer
unfolding put_response_body send
write_response_frame f = send (put_response_body f [])
