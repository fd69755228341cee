-- ===== src/Protocol/Codec/Sizes.antt =====
-- How many bytes the primitive writers append.
use mini_kafka.Prelude.{
  ℕ, ◌+◌, ◌≤◌, ◌≡◌, refl, [], ◌∷◌, length, length-append, le→ltb_false, suc_ne_zero, ◌==◌,
  if◌then◌else◌, arith,
}
use mini_kafka.Prelude.Int.{ℤ, pos}
use mathlib.Core.Path.{subst}
use mini_kafka.Protocol.Stream.{ok, Bytes, Writer, ◌>>◌, write, skip}
use mini_kafka.Protocol.Codec.{
  be, put_int, put_int16, put_int32, put_int64, put_string, put_bytes, max_int16, max_int32,
}
use mini_kafka.Protocol.Codec.RoundTrip.{length-be}

pub record Appends (n : ℕ) (p : Writer) : Type 0 where
  pub succeeds : (w : Bytes) → (p w).0 ≡ ok tt
  pub grows : (w : Bytes) → length (p w).1 ≡ length w + n

pub Appends-write : (bs : Bytes) → Appends (length bs) (write bs)
unfolding write
Appends-write bs = record { succeeds = λ w. refl; grows = λ w. length-append w bs }

Appends-skip : Appends 0 skip
unfolding skip
Appends-skip = record { succeeds = λ w. refl; grows = λ w. omega arith }

pub Appends-seq : (m n : ℕ) {p q : Writer} → Appends m p → Appends n q → Appends (m + n) (p >> q)
unfolding ◌>>◌
Appends-seq m n {p} {q} s t = record {
  succeeds = λ w. rw (s.succeeds w) (t.succeeds (p w).1);
  grows = λ w. rw (s.succeeds w) (omega (arith, s.grows w, t.grows (p w).1));
}

Appends-be : (n u : ℕ) → Appends n (write (be n u))
Appends-be n u = subst (λ k. Appends k (write (be n u))) (length-be n u) (Appends-write (be n u))

pub Appends-int16 : (v : ℤ) → Appends 2 (put_int16 v)
unfolding put_int16 put_int
Appends-int16 v = Appends-be 2 _

pub Appends-int32 : (v : ℤ) → Appends 4 (put_int32 v)
unfolding put_int32 put_int
Appends-int32 v = Appends-be 4 _

pub Appends-int64 : (v : ℤ) → Appends 8 (put_int64 v)
unfolding put_int64 put_int
Appends-int64 v = Appends-be 8 _

Appends-payload : (v : Bytes) → Appends (length v) (if length v == 0 then skip else write v)
Appends-payload [] = Appends-skip
Appends-payload (b ∷ v) = rw (suc_ne_zero (length v)) (Appends-write (b ∷ v))

pub Appends-string : (v : Bytes) → length v ≤ max_int16 → Appends (2 + length v) (put_string v)
unfolding put_string
Appends-string v h =
    rw (le→ltb_false max_int16 (length v) h)
      (Appends-seq 2 (length v) (Appends-int16 (pos (length v))) (Appends-payload v))

pub Appends-bytes : (v : Bytes) → length v ≤ max_int32 → Appends (4 + length v) (put_bytes v)
unfolding put_bytes
Appends-bytes v h =
    rw (le→ltb_false max_int32 (length v) h)
      (Appends-seq 4 (length v) (Appends-int32 (pos (length v))) (Appends-payload v))
