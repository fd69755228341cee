-- ===== src/Storage/Crc32c.antt =====
-- hash/crc32 with the Castagnoli table: the bitwise CRC-32C that storage/record.go calls.
use Prim.Native.Nat.{bit_xor}
use mini_kafka.Prelude.{
  ℕ, zero, suc, ◌/◌, ◌%◌, ◌^◌, ◌<◌, ◌≡◌, refl, [], ◌∷◌, ◌==◌, if◌then◌else◌, arith,
}
use mathlib.Core.List.{foldl}
use mini_kafka.Protocol.Stream.{Bytes}

-- The polynomial in reversed bit order.
abbrev castagnoli : ℕ
castagnoli = 0x82F6_3B78

shift_bit : ℕ → ℕ
shift_bit c = if c % 2 == 1 then bit_xor (c / 2) castagnoli else c / 2

shift_bits : ℕ → ℕ → ℕ
shift_bits zero c = c
shift_bits (suc n) c = shift_bits n (shift_bit c)

-- crc32.Checksum(bs, crcTable), a uint32.
pub crc32c : Bytes → ℕ
unfolding shift_bit shift_bits
crc32c bs = bit_xor (foldl (λ c b. shift_bits 8 (bit_xor c b)) 0xFFFF_FFFF bs) 0xFFFF_FFFF % 2 ^ 32

pub crc32c-lt : (bs : Bytes) → crc32c bs < 2 ^ 32
unfolding crc32c
crc32c-lt bs = omega arith

-- The check value that catalogues of CRCs give for the digits 1 to 9.
pub crc32c_check :
    crc32c (b'1' ∷ b'2' ∷ b'3' ∷ b'4' ∷ b'5' ∷ b'6' ∷ b'7' ∷ b'8' ∷ b'9' ∷ []) ≡ 0xE306_9283
unfolding crc32c
crc32c_check = refl
