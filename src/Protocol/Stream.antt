-- ===== src/Protocol/Stream.antt =====
-- Go's readers and writers over bytes in memory: a step on the bytes that are left, and on those
-- written so far, that succeeds, fails or panics.
use mini_kafka.Prelude.{ℕ, List, [], ◌∷◌, ◌++◌, leb, length, take, drop, if◌then◌else◌}

-- An error value of Go, by what makes it; `panic` is Go's run-time panic.
pub data Error : Type 0 where
  eof unexpected_eof string_too_long bytes_too_long array_too_long array_over_limit : Error
  frame_too_large frame_size_mismatch corrupt_record record_too_large panic : Error

pub data Result {ℓ} (A : Type ℓ) : Type ℓ where
  ok : A → Result A
  err : Error → Result A

abbrev pub Bytes : Type 0
Bytes = List ℕ

-- The bytes left in the reader before, and the result with the bytes left after.
abbrev pub Reader : Type 0 → Type 0
Reader A = Bytes → Result A × Bytes

-- The bytes written before, and the outcome with the bytes written after.
abbrev pub Writer : Type 0
Writer = Bytes → Result (Unit {0}) × Bytes

module _ {A : Type 0} where
  unfoldable pub pure : A → Reader A
  pure a s = (ok a, s)

  unfoldable pub fail : Error → Reader A
  fail e s = (err e, s)

module _ {A B : Type 0} where
  abbrev continue : Result A → (A → Reader B) → Reader B
  continue (ok a) f s = f a s
  continue (err e) f s = (err e, s)

  infixl 5 ◌>>=◌
  unfoldable pub ◌>>=◌ : Reader A → (A → Reader B) → Reader B
  ◌>>=◌ m f s = let (r, s') = m s in continue r f s'

abbrev then_write : Result (Unit {0}) → Writer → Writer
then_write (ok u) q w = q w
then_write (err e) q w = (err e, w)

infixl 5 ◌>>◌
unfoldable pub ◌>>◌ : Writer → Writer → Writer
◌>>◌ p q w = let (r, w') = p w in then_write r q w'

unfoldable pub write : Bytes → Writer
write bs w = (ok tt, w ++ bs)

unfoldable pub write_fails : Error → Writer
write_fails e w = (err e, w)

-- A write of nothing: the code returns nil at once.
unfoldable pub skip : Writer
skip w = (ok tt, w)

-- io.ReadFull for `n` bytes: a short stream is used up, and is EOF if nothing was there.
abbrev short : Bytes → Error
short [] = eof
short (b ∷ bs) = unexpected_eof

unfoldable pub read_full : ℕ → Reader Bytes
read_full n s = if leb n (length s) then (ok (take n s), drop n s) else (err (short s), [])
