-- ===== src/Prelude/Int.antt =====
-- Signed integers over the native numbers, and Go's int8 to int64 with their bit patterns.
use mini_kafka.Prelude.Tests.{ltb, leb, ◌==◌, if◌then◌else◌}
use Prim.Native.Nat.{ℕ, suc, ◌+◌, ◌-◌, ◌*◌, ◌%◌, ◌^◌, ◌≤◌, ◌<◌}
use mathlib.Core.Path.{◌≡◌}
use mathlib.Core.Bool.{Bool, true}
use mathlib.Core.Logic.{◌↔◌}
use native.Mathlib.Omega.{arith}
use native.Mathlib.Nat.{mod-eq_of_lt}

-- `negsuc n` is -(n + 1).
pub data ℤ : Type 0 where
  pos : ℕ → ℤ
  negsuc : ℕ → ℤ

abbrev pub pos_part : ℤ → ℕ
pos_part (pos n) = n
pos_part (negsuc n) = 0

abbrev pub neg_part : ℤ → ℕ
neg_part (pos n) = 0
neg_part (negsuc n) = suc n

-- a - b, as an integer.
abbrev pub sub_ℕ : ℕ → ℕ → ℤ
sub_ℕ a b = if leb b a then pos (a - b) else negsuc (b - a - 1)

infixl 65 ◌+ℤ◌ ◌-ℤ◌
infix 50 ◌≤ℤ◌ ◌<ℤ◌
unfoldable pub ◌+ℤ◌ : ℤ → ℤ → ℤ
a +ℤ b = sub_ℕ (pos_part a + pos_part b) (neg_part a + neg_part b)

unfoldable pub ◌-ℤ◌ : ℤ → ℤ → ℤ
a -ℤ b = sub_ℕ (pos_part a + neg_part b) (neg_part a + pos_part b)

abbrev pub ◌≤ℤ◌ : ℤ → ℤ → Type 0
a ≤ℤ b = pos_part a + neg_part b ≤ pos_part b + neg_part a

abbrev pub ◌<ℤ◌ : ℤ → ℤ → Type 0
a <ℤ b = pos_part a + neg_part b < pos_part b + neg_part a

abbrev pub ltb_ℤ : ℤ → ℤ → Bool
ltb_ℤ a b = ltb (pos_part a + neg_part b) (pos_part b + neg_part a)

abbrev pub leb_ℤ : ℤ → ℤ → Bool
leb_ℤ a b = leb (pos_part a + neg_part b) (pos_part b + neg_part a)

-- The values of a signed integer whose width has the modulus `2 * half`.
abbrev pub InRange : ℕ → ℤ → Type 0
InRange half z = (pos_part z < half) × (neg_part z ≤ half)

abbrev pub IsInt8 : ℤ → Type 0
IsInt8 = InRange (2 ^ 7)

abbrev pub IsInt16 : ℤ → Type 0
IsInt16 = InRange (2 ^ 15)

abbrev pub IsInt32 : ℤ → Type 0
IsInt32 = InRange (2 ^ 31)

abbrev pub IsInt64 : ℤ → Type 0
IsInt64 = InRange (2 ^ 63)

-- Two's complement: uintN(z) and intN(u), for the modulus `2 * half`.
unfoldable pub unsigned : ℕ → ℤ → ℕ
unsigned half (pos n) = n
unsigned half (negsuc n) = 2 * half - suc n

unfoldable pub signed : ℕ → ℕ → ℤ
signed half u = if ltb u half then pos u else negsuc (2 * half - u - 1)

pub signed-unsigned : (half : ℕ) (z : ℤ) → InRange half z → signed half (unsigned half z) ≡ z
unfolding unsigned signed
signed-unsigned half (pos n) h = ground arith
signed-unsigned half (negsuc n) h = ground arith

pub unsigned-lt : (half : ℕ) (z : ℤ) → InRange half z → unsigned half z < 2 * half
unfolding unsigned
unsigned-lt half (pos n) h = omega arith
unsigned-lt half (negsuc n) h = omega arith

pub signed-InRange : (half u : ℕ) → u < 2 * half → InRange half (signed half u)
unfolding signed
signed-InRange half u h = ground arith

pub signed-small : (half n : ℕ) → n < half → signed half n ≡ pos n
unfolding signed
signed-small half n h = ground arith

infix 50 ◌==ℤ◌
abbrev pub ◌==ℤ◌ : ℤ → ℤ → Bool
a ==ℤ b = (pos_part a + neg_part b) == (pos_part b + neg_part a)

pub ==ℤ_iff : (a b : ℤ) → ((a ==ℤ b) ≡ true) ↔ (a ≡ b)
==ℤ_iff a b = ground arith

-- The value that a signed integer of the modulus `2 * half` keeps of an integer.
unfoldable pub wrap : ℕ → ℤ → ℤ
wrap half (pos n) = signed half (n % (2 * half))
wrap half (negsuc n) = signed half ((2 * half - suc n % (2 * half)) % (2 * half))

-- The sum of a signed integer and a number, as the machine computes it.
unfoldable pub add_wrapped : ℕ → ℤ → ℕ → ℤ
add_wrapped half z n = wrap half (z +ℤ pos n)

pub add_wrapped-pos : (half m n : ℕ) → m + n < half → add_wrapped half (pos m) n ≡ pos (m + n)
unfolding add_wrapped wrap signed ◌+ℤ◌
add_wrapped-pos half m n h =
    let e : (m + n) % (2 * half) ≡ m + n = mod-eq_of_lt (omega arith) in ground (arith, e)
