-- ===== src/Protocol/Frame/RoundTrip.antt =====
-- internal/protocol/frame.go: reading a frame against writing it.
use mini_kafka.Prelude.{
  ℕ, ◌≤◌, ◌≡◌, refl, sym, ap, ◌∙◌, false, [], ◌++◌, ◌&&◌, length, take-append, drop-append, ◌⊎◌,
  arith,
}
use mini_kafka.Prelude.Int.{ℤ, pos, IsInt16, IsInt32, ltb_ℤ, ◌≤ℤ◌, signed}
use mathlib.Core.List.{append-nil}
use mini_kafka.Protocol.Stream.{ok, Bytes, Reader, Writer, pure, ◌>>=◌, write}
use mini_kafka.Protocol.Trips.{Trips, Trips-seq, Trips-last}
use mini_kafka.Protocol.Codec.{max_int16, int32}
use mini_kafka.Protocol.Codec.RoundTrip.{Trips-int16, Trips-int32, Trips-string, Trips-bytes}
use mini_kafka.Protocol.Codec.Sizes.{Appends}
use mini_kafka.Protocol.Frame.{
  RequestFrame, ResponseFrame, put_request_body, put_response_body, request_fields, response_fields,
  limited, exactly, probe, bad_size, body_size, max_frame_size, send, sized_request, sized_response,
  read_request_frame_with_limit, read_response_frame, write_request_frame, write_response_frame,
}
use mini_kafka.Protocol.Frame.Sizes.{
  request_size, response_size, put_request_body-Appends, put_response_body-Appends,
}

pub record IsWireRequest (f : RequestFrame) : Type 0 where
  pub api_key : IsInt16 f.api_key
  pub api_version : IsInt16 f.api_version
  pub correlation_id : IsInt32 f.correlation_id
  pub client_id : length f.client_id ≤ max_int16
  pub fits : request_size f ≤ max_frame_size

pub record IsWireResponse (f : ResponseFrame) : Type 0 where
  pub correlation_id : IsInt32 f.correlation_id
  pub error_code : IsInt16 f.error_code
  pub fits : response_size f ≤ max_frame_size

request_fields-Trips :
    (size : ℤ) (f : RequestFrame)
    → IsWireRequest f
    → Trips (put_request_body f) (request_fields size) (record f { size = size })
unfolding put_request_body request_fields
request_fields-Trips size f h = Trips-seq _ _ (Trips-int16 _ h.api_key) (
    Trips-seq _ _ (Trips-int16 _ h.api_version) (
      Trips-seq _ _ (Trips-int32 _ h.correlation_id) (
        Trips-seq _ _ (Trips-string _ h.client_id)
          (Trips-last _ _ (Trips-bytes _ (omega (arith, h.fits)))))))

response_fields-Trips :
    (size : ℤ) (f : ResponseFrame)
    → IsWireResponse f
    → Trips (put_response_body f) (response_fields size) (record f { size = size })
unfolding put_response_body response_fields
response_fields-Trips size f h = Trips-seq _ _ (Trips-int32 _ h.correlation_id) (
    Trips-seq _ _ (Trips-int16 _ h.error_code)
      (Trips-last _ _ (Trips-bytes _ (omega (arith, h.fits)))))

-- The limited reader takes off a body exactly.
limited-exactly :
    {A : Type 0} (g : Reader A) (a : A) (n : ℕ) (body rest : Bytes)
    → length body ≡ n
    → g (body ++ []) ≡ (ok a, [])
    → limited n (exactly g) (body ++ rest) ≡ (ok a, rest)
unfolding limited exactly probe ◌>>=◌ pure
limited-exactly g a n body rest len e =
    rw (← len, take-append, drop-append) (rw (rw append-nil at e))

fits_body_size : (body : Bytes) → length body ≤ max_frame_size → body_size body ≡ pos (length body)
unfolding body_size signed
fits_body_size body h = ground arith

pub not_bad_size : (n : ℕ) → n ≤ max_frame_size → bad_size (pos n) ≡ false
unfolding bad_size
not_bad_size n h = ground arith

-- A body of `n` bytes behind its size, against a reader that is handed the size.
Trips-send :
    {A : Type 0} (body : Bytes) (n : ℕ) (sized : ℤ → Reader A) (a : A)
    → length body ≡ n
    → n ≤ max_frame_size
    → ((rest : Bytes) → sized (pos n) (body ++ rest) ≡ (ok a, rest))
    → Trips (send (ok tt, body)) (int32 >>= sized) a
unfolding send
Trips-send body n sized a len fits reads =
    rw (fits_body_size body (rw len fits), len)
      (Trips-seq sized (pos n) (Trips-int32 (pos n) (omega arith)) rest_trips)
  where
    rest_trips : Trips (write body) (sized (pos n)) a
    rest_trips = record { bytes = body; writes = λ w. unfold write in refl; reads = reads }

-- The server's own limit is off, or the frame keeps to it.
abbrev pub WithinLimit : ℤ → ℕ → Type 0
WithinLimit limit n = (limit ≤ℤ pos 0) ⊎ (pos n ≤ℤ limit)

within_limit :
    (limit : ℤ) (n : ℕ) → WithinLimit limit n → (ltb_ℤ (pos 0) limit && ltb_ℤ limit (pos n)) ≡ false
within_limit limit n h = ground arith

body_length :
    (p : Writer) (n : ℕ) (body : Bytes) → Appends n p → p [] ≡ (ok tt, body) → length body ≡ n
body_length p n body s e = sym (ap (λ r. length r.1) e) ∙ s.grows [] ∙ omega arith

-- A request frame whose fields fit their types and whose body is at most 100 MiB, and within the
-- server's own limit where one is set, is written without an error and read back with its size
-- filled in; the stream goes on behind it.
pub write_request_frame-Trips :
    (limit : ℤ) (f : RequestFrame)
    → IsWireRequest f
    → WithinLimit limit (request_size f)
    → Trips
        (write_request_frame f)
        (read_request_frame_with_limit limit)
        (record f { size = pos (request_size f) })
unfolding write_request_frame read_request_frame_with_limit
write_request_frame-Trips limit f h lim = rw (t.writes []) (
    Trips-send t.bytes n (sized_request limit) _ len h.fits λ rest.
      unfold sized_request in
      rw (not_bad_size n h.fits, within_limit limit n lim)
        (limited-exactly _ _ n t.bytes rest len (t.reads [])))
  where
    n : ℕ
    n = request_size f

    t : Trips (put_request_body f) (request_fields (pos n)) (record f { size = pos n })
    t = request_fields-Trips (pos n) f h

    len : length t.bytes ≡ n
    len =
        body_length _ n t.bytes (put_request_body-Appends f h.client_id (omega (arith, h.fits)))
          (t.writes [])

-- A response frame whose fields fit their types and whose body is at most 100 MiB is written
-- without an error and read back with its size filled in; the stream goes on behind it.
pub write_response_frame-Trips :
    (f : ResponseFrame)
    → IsWireResponse f
    → Trips (write_response_frame f) read_response_frame (record f { size = pos (response_size f) })
unfolding write_response_frame read_response_frame
write_response_frame-Trips f h = rw (t.writes []) (
    Trips-send t.bytes n sized_response _ len h.fits λ rest.
      unfold sized_response in
      rw (not_bad_size n h.fits) (limited-exactly _ _ n t.bytes rest len (t.reads [])))
  where
    n : ℕ
    n = response_size f

    t : Trips (put_response_body f) (response_fields (pos n)) (record f { size = pos n })
    t = response_fields-Trips (pos n) f h

    len : length t.bytes ≡ n
    len =
        body_length _ n t.bytes (put_response_body-Appends f (omega (arith, h.fits))) (t.writes [])
