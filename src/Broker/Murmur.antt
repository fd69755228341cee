-- ===== src/Broker/Murmur.antt =====
-- internal/broker/topic.go: Murmur2, the hash of a key, on 32-bit words. The
-- elements of a key are bytes, so that the four of a word are disjoint.
use Prim.Native.Nat.{bit_xor}
use mini_kafka.Prelude.{ℕ, ◌+◌, ◌*◌, ◌/◌, ◌%◌, ◌^◌, ◌<◌, [], ◌∷◌, length, arith}
use native.Mathlib.Nat.{mod-lt}
use mini_kafka.Protocol.Stream.{Bytes}

abbrev seed : ℕ
seed = 2537225041

abbrev m : ℕ
m = 1540483477

abbrev times_m : ℕ → ℕ
times_m h = h * m % 2 ^ 32

-- h ^= h >> r
abbrev fold_right : ℕ → ℕ → ℕ
fold_right r h = bit_xor h (h / 2 ^ r)

-- One round of the loop, on the word of four bytes.
mix_word : ℕ → ℕ → ℕ
mix_word h word = bit_xor (times_m h) (times_m (fold_right 24 (times_m word)))

-- The words, and the switch on the bytes that are left.
mix : ℕ → Bytes → ℕ
unfolding mix_word
mix h [] = h
mix h (a ∷ []) = times_m (bit_xor h a)
mix h (a ∷ b ∷ []) = times_m (bit_xor (bit_xor h (b * 2 ^ 8)) a)
mix h (a ∷ b ∷ c ∷ []) = times_m (bit_xor (bit_xor (bit_xor h (c * 2 ^ 16)) (b * 2 ^ 8)) a)
mix h (a ∷ b ∷ c ∷ d ∷ rest) = mix (mix_word h (a + b * 2 ^ 8 + c * 2 ^ 16 + d * 2 ^ 24)) rest

finish : ℕ → ℕ
finish h = fold_right 15 (times_m (fold_right 13 h)) % 2 ^ 31

-- Murmur2
unfoldable pub murmur2 : Bytes → ℕ
unfolding mix finish
murmur2 data_bytes = finish (mix (bit_xor seed (length data_bytes % 2 ^ 32)) data_bytes)

pub murmur2-lt : (key : Bytes) → murmur2 key < 2 ^ 31
unfolding murmur2 finish
murmur2-lt key = mod-lt _ (omega arith)
