-- ===== src/Protocol/Frame/Limits.antt =====
-- What a frame reader refuses, and in which state it leaves the stream.
use mini_kafka.Prelude.{
  ℕ, ◌≤◌, ◌≡◌, true, ◌++◌, ◌&&◌, ◌⊎◌, length, drop-append, length-append, le→leb, arith,
}
use mini_kafka.Prelude.Int.{ℤ, pos, ltb_ℤ, ◌<ℤ◌}
use mini_kafka.Protocol.Stream.{ok, err, Bytes, frame_too_large, fail, ◌>>=◌}
use mini_kafka.Protocol.Codec.{int32}
use mini_kafka.Protocol.Frame.RoundTrip.{not_bad_size}
use mini_kafka.Protocol.Frame.{
  bad_size, discard, max_frame_size, sized_request, read_request_frame_with_limit,
}

over_limit :
    (limit : ℤ) (n : ℕ)
    → pos 0 <ℤ limit
    → limit <ℤ pos n
    → (ltb_ℤ (pos 0) limit && ltb_ℤ limit (pos n)) ≡ true
over_limit limit n h k = ground arith

is_bad_size : (size : ℤ) → (size <ℤ pos 0) ⊎ (pos max_frame_size <ℤ size) → bad_size size ≡ true
unfolding bad_size
is_bad_size size h = ground arith

-- A frame whose size field is negative or above 100 MiB is refused, whatever the limit of the
-- server, and nothing behind the size field is read.
pub read_request_frame-bad_size :
    (limit size : ℤ) (stream rest : Bytes)
    → int32 stream ≡ (ok size, rest)
    → (size <ℤ pos 0) ⊎ (pos max_frame_size <ℤ size)
    → read_request_frame_with_limit limit stream ≡ (err frame_too_large, rest)
unfolding read_request_frame_with_limit sized_request ◌>>=◌ fail
read_request_frame-bad_size limit size stream rest e bad = rw e (rw (is_bad_size size bad))

-- If the server sets a positive limit, a frame whose body is above it, of at most 100 MiB and
-- wholly in the stream, is refused undecoded and drained: the stream goes on with the bytes behind
-- it, the next frame.
pub read_request_frame-over_limit :
    (limit : ℤ) (stream body rest : Bytes)
    → int32 stream ≡ (ok (pos (length body)), body ++ rest)
    → pos 0 <ℤ limit
    → limit <ℤ pos (length body)
    → length body ≤ max_frame_size
    → read_request_frame_with_limit limit stream ≡ (err frame_too_large, rest)
unfolding read_request_frame_with_limit sized_request discard ◌>>=◌ fail
read_request_frame-over_limit limit stream body rest e lo hi fits = rw e (
    rw (
      not_bad_size (length body) fits,
      over_limit limit (length body) lo hi,
      le→leb (length body) (length (body ++ rest)) (omega (arith, length-append body rest)),
      drop-append,
    ))
