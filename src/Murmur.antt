-- ===== src/Murmur.antt =====
-- src/datatype/murmur.h: the 32-bit hash functions, with the wrap-around of their products written
-- out. A word is read with its lowest byte first.
pub mod Words
use ssr.Base.{ℕ, zero, suc, ◌+◌, ◌*◌, ◌/◌, ◌%◌, ◌^◌, List, [], ◌∷◌, ltb, if◌then◌else◌, u32}
use Prim.Native.Nat.{bit_xor}

-- The mixing constant `m`.
abbrev mixer : ℕ
mixer = 1540483477

-- `k *= m; k ^= k >> r; k *= m`
unfoldable pub mix_key : ℕ → ℕ
mix_key k = let a = u32 (k * mixer) in u32 (bit_xor a (a / 2 ^ 24) * mixer)

-- `h *= m; h ^= k`, with `k` mixed.
unfoldable pub mix_word : (h k : ℕ) → ℕ
unfolding mix_key
mix_word h k = bit_xor (u32 (h * mixer)) (mix_key k)

-- `h ^= h >> 13; h *= m; h ^= h >> 15`
unfoldable pub final_mix : ℕ → ℕ
final_mix h = let a = u32 (bit_xor h (h / 2 ^ 13) * mixer) in bit_xor a (a / 2 ^ 15)

unfoldable pub murmur32_8b : ℕ → ℕ
unfolding mix_word final_mix
murmur32_8b key = final_mix (mix_word (mix_word 8 (u32 (key / 2 ^ 32))) (u32 key))

pub murmur32_4b : ℕ → ℕ
unfolding mix_word final_mix
murmur32_4b key = final_mix (mix_word 4 key)

-- The `switch` on the bytes that are left, with its falls through.
pub mix_tail : ℕ → List ℕ → ℕ
mix_tail h [] = h
mix_tail h (a ∷ []) = u32 (bit_xor h a * mixer)
mix_tail h (a ∷ b ∷ []) = u32 (bit_xor (bit_xor h (b * 2 ^ 8)) a * mixer)
mix_tail h (a ∷ b ∷ c ∷ rest) =
    u32 (bit_xor (bit_xor (bit_xor h (c * 2 ^ 16)) (b * 2 ^ 8)) a * mixer)

-- The loop over four bytes at a time.
pub mix_bytes : ℕ → List ℕ → ℕ
unfolding mix_word mix_tail
mix_bytes h (a ∷ b ∷ c ∷ d ∷ rest) =
    mix_bytes (mix_word h (a + b * 2 ^ 8 + c * 2 ^ 16 + d * 2 ^ 24)) rest
mix_bytes h rest = mix_tail h rest

-- Of the `len` bytes `key`. `len` is an `int`, a pattern of 32 bits: where it is negative, neither
-- the loop nor the switch reads a byte.
pub murmur32 : (key : List ℕ) (len : ℕ) → ℕ
unfolding mix_bytes final_mix
murmur32 key len = final_mix (if ltb len (2 ^ 31) then mix_bytes len key else len)
