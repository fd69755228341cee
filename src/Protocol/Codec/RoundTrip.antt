-- ===== src/Protocol/Codec/RoundTrip.antt =====
-- internal/protocol/codec.go: the primitive readers against the writers.
use mini_kafka.Prelude.{
  ℕ, zero, suc, ◌+◌, ◌*◌, ◌/◌, ◌^◌, ◌≤◌, ◌<◌, ◌≡◌, refl, Bool, true, false, [], ◌∷◌, ◌++◌, length,
  length-append, take-append, drop-append, le→leb, le→ltb_false, ltb, ◌==◌, arith, Option, none,
  some,
}
use mini_kafka.Prelude.Int.{
  ℤ, pos, negsuc, pos_part, neg_part, InRange, IsInt8, IsInt16, IsInt32, IsInt64, unsigned, signed,
  signed-unsigned, unsigned-lt,
}
use mathlib.Core.Path.{subst}
use mathlib.Core.List.{foldl-append}
use native.Mathlib.Nat.{pow-suc}
use mini_kafka.Protocol.Stream.{ok, Bytes, read_full, write}
use mini_kafka.Protocol.Trips.{Trips, Trips-seq, Trips-last, Trips-done, Trips-skip}
use mini_kafka.Protocol.Codec.{
  be, of_be, put_int, get_int, put_int8, put_int16, put_int32, put_int64, int8, int16, int32, int64,
  put_bool, bool, put_string, string, put_nullable_string, nullable_string, put_bytes, bytes,
  put_nullable_bytes, nullable_bytes, put_array_header, array_header, read_array_header, max_int16,
  max_int32, max_string_length, max_bytes_length, safety_limit, string_body, bytes_body,
  nullable_string_body, nullable_bytes_body,
}

pub length-be : (n v : ℕ) → length (be n v) ≡ n
unfolding be
length-be zero v = refl
length-be (suc n) v = rw length-append (omega (arith, length-be n (v / 256)))

pub of_be-be : (n v : ℕ) → v < 256 ^ n → of_be (be n v) ≡ v
unfolding be of_be
of_be-be zero v h = omega arith
of_be-be (suc n) v h =
    rw foldl-append (rw (of_be-be n (v / 256) (omega (arith, pow-suc 256 n))) (omega arith))

pub read_full-append : (bs rest : Bytes) → read_full (length bs) (bs ++ rest) ≡ (ok bs, rest)
unfolding read_full
read_full-append bs rest =
    rw (le→leb (length bs) (length (bs ++ rest)) (omega (arith, length-append bs rest)))
      (rw (take-append, drop-append))

pub Trips-write : (bs : Bytes) → Trips (write bs) (read_full (length bs)) bs
unfolding write
Trips-write bs = record { bytes = bs; writes = λ w. refl; reads = read_full-append bs }

Trips-be : (n u : ℕ) → Trips (write (be n u)) (read_full n) (be n u)
Trips-be n u =
    subst (λ k. Trips (write (be n u)) (read_full k) (be n u)) (length-be n u)
      (Trips-write (be n u))

Trips-int :
    (n half : ℕ) (v : ℤ)
    → 2 * half ≡ 256 ^ n
    → InRange half v
    → Trips (put_int n half v) (get_int n half) v
unfolding put_int get_int
Trips-int n half v e h =
    subst (λ z. Trips (put_int n half v) (get_int n half) z) value
      (Trips-last (λ bs. signed half (of_be bs)) (be n u) (Trips-be n u))
  where
    u : ℕ
    u = unsigned half v

    value : signed half (of_be (be n u)) ≡ v
    value = rw (of_be-be n u (rw (← e) (unsigned-lt half v h))) (signed-unsigned half v h)

pub Trips-int8 : (v : ℤ) → IsInt8 v → Trips (put_int8 v) int8 v
unfolding put_int8 int8
Trips-int8 v h = Trips-int 1 (2 ^ 7) v refl h

pub Trips-int16 : (v : ℤ) → IsInt16 v → Trips (put_int16 v) int16 v
unfolding put_int16 int16
Trips-int16 v h = Trips-int 2 (2 ^ 15) v refl h

pub Trips-int32 : (v : ℤ) → IsInt32 v → Trips (put_int32 v) int32 v
unfolding put_int32 int32
Trips-int32 v h = Trips-int 4 (2 ^ 31) v refl h

-- A 64-bit integer is written as its two's complement in big-endian order and read back with its
-- sign, whatever stands around it.
pub Trips-int64 : (v : ℤ) → IsInt64 v → Trips (put_int64 v) int64 v
unfolding put_int64 int64
Trips-int64 v h = Trips-int 8 (2 ^ 63) v refl h

pub Trips-bool : (v : Bool) → Trips (put_bool v) bool v
unfolding put_bool bool
Trips-bool true = Trips-last _ (pos 1) (Trips-int8 (pos 1) (omega arith))
Trips-bool false = Trips-last _ (pos 0) (Trips-int8 (pos 0) (omega arith))

-- The tests that guard a payload of `suc n` bytes.
payload : (limit n : ℕ) → suc n ≤ limit → ((suc n == 0) ≡ false) × (ltb limit (suc n) ≡ false)
payload limit n h = ground arith

-- A string of at most 32,767 bytes is written without an error and read back, whatever stands
-- around it.
pub Trips-string : (v : Bytes) → length v ≤ max_int16 → Trips (put_string v) string v
unfolding put_string string string_body
Trips-string [] h = Trips-seq _ (pos 0) (Trips-int16 (pos 0) (omega arith)) (Trips-skip [])
Trips-string (b ∷ v) h =
    let (nonzero, fits) = payload max_string_length (length v) (omega arith) in
    rw (le→ltb_false max_int16 (length (b ∷ v)) h) (
      Trips-seq string_body (pos (length (b ∷ v))) (Trips-int16 _ (omega arith))
        (rw (nonzero, fits) (Trips-write (b ∷ v))))

pub Trips-nullable_string-some :
    (v : Bytes)
    → length v ≤ max_int16
    → Trips (put_nullable_string (some v)) nullable_string (some v)
unfolding put_nullable_string put_string nullable_string nullable_string_body
Trips-nullable_string-some [] h =
    Trips-seq _ (pos 0) (Trips-int16 (pos 0) (omega arith)) (Trips-skip (some []))
Trips-nullable_string-some (b ∷ v) h =
    let (nonzero, fits) = payload max_string_length (length v) (omega arith) in
    rw (le→ltb_false max_int16 (length (b ∷ v)) h) (
      Trips-seq nullable_string_body (pos (length (b ∷ v))) (Trips-int16 _ (omega arith))
        (rw (nonzero, fits) (Trips-last some (b ∷ v) (Trips-write (b ∷ v)))))

pub Trips-nullable_string :
    (v : Option Bytes)
    → ((s : Bytes) → v ≡ some s → length s ≤ max_int16)
    → Trips (put_nullable_string v) nullable_string v
Trips-nullable_string none h =
    unfold put_nullable_string nullable_string nullable_string_body in
    Trips-done _ _ (Trips-int16 (negsuc 0) (omega arith)) refl
Trips-nullable_string (some s) h = Trips-nullable_string-some s (h s refl)

pub Trips-bytes : (v : Bytes) → length v ≤ max_bytes_length → Trips (put_bytes v) bytes v
unfolding put_bytes bytes bytes_body
Trips-bytes [] h = Trips-seq _ (pos 0) (Trips-int32 (pos 0) (omega arith)) (Trips-skip [])
Trips-bytes (b ∷ v) h =
    let (nonzero, fits) = payload max_bytes_length (length v) h in
    rw (le→ltb_false max_int32 (length (b ∷ v)) (omega arith)) (
      Trips-seq bytes_body (pos (length (b ∷ v))) (Trips-int32 _ (omega arith))
        (rw (nonzero, fits) (Trips-write (b ∷ v))))

pub Trips-nullable_bytes-some :
    (v : Bytes)
    → length v ≤ max_bytes_length
    → Trips (put_nullable_bytes (some v)) nullable_bytes (some v)
unfolding put_nullable_bytes put_bytes nullable_bytes nullable_bytes_body
Trips-nullable_bytes-some [] h =
    Trips-seq _ (pos 0) (Trips-int32 (pos 0) (omega arith)) (Trips-skip (some []))
Trips-nullable_bytes-some (b ∷ v) h =
    let (nonzero, fits) = payload max_bytes_length (length v) h in
    rw (le→ltb_false max_int32 (length (b ∷ v)) (omega arith)) (
      Trips-seq nullable_bytes_body (pos (length (b ∷ v))) (Trips-int32 _ (omega arith))
        (rw (nonzero, fits) (Trips-last some (b ∷ v) (Trips-write (b ∷ v)))))

-- Nullable bytes, nil or of at most 100 MiB, are written without an error and read back with nil
-- and empty kept apart, whatever stands around them.
pub Trips-nullable_bytes :
    (v : Option Bytes)
    → ((s : Bytes) → v ≡ some s → length s ≤ max_bytes_length)
    → Trips (put_nullable_bytes v) nullable_bytes v
Trips-nullable_bytes none h =
    unfold put_nullable_bytes nullable_bytes nullable_bytes_body in
    Trips-done _ _ (Trips-int32 (negsuc 0) (omega arith)) refl
Trips-nullable_bytes (some s) h = Trips-nullable_bytes-some s (h s refl)

pub Trips-array_header : (n : ℤ) → IsInt32 n → Trips (put_array_header n) array_header n
unfolding put_array_header array_header
Trips-array_header n h = rw (le→ltb_false (max_int32 + neg_part n) (pos_part n + 0) (omega arith)) (
    Trips-done _ n (Trips-int32 n h)
      (rw (le→ltb_false (max_int32 + neg_part n) (pos_part n + 0) (omega arith))))

-- The capped header of the requests.
pub Trips-read_array_header :
    (n : ℤ) → IsInt32 n → pos_part n ≤ safety_limit → Trips (put_array_header n) read_array_header n
unfolding read_array_header
Trips-read_array_header n h cap =
    Trips-done _ n (Trips-array_header n h)
      (rw (le→ltb_false (safety_limit + neg_part n) (pos_part n + 0) (omega arith)))
