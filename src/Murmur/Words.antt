-- ===== src/Murmur/Words.antt =====
-- src/datatype/murmur.h: the hash functions of words against that of byte strings.
use ssr.Base.{ℕ, ◌+◌, ◌*◌, ◌/◌, ◌^◌, ◌<◌, ◌≡◌, refl, ap₂, sym, [], ◌∷◌, u32, arith}
use ssr.Murmur.{murmur32, murmur32_8b, murmur32_4b, mix_bytes, mix_word, mix_tail, final_mix}

-- Four bytes read as a word, the lowest one first.
abbrev pub word : (a b c d : ℕ) → ℕ
word a b c d = a + b * 2 ^ 8 + c * 2 ^ 16 + d * 2 ^ 24

pub murmur32-word : (a b c d : ℕ) → murmur32 (a ∷ b ∷ c ∷ d ∷ []) 4 ≡ murmur32_4b (word a b c d)
unfolding murmur32 murmur32_4b mix_bytes mix_tail
murmur32-word a b c d = refl

word-bound : (a b c d : ℕ) → a < 256 → b < 256 → c < 256 → d < 256 → word a b c d < 2 ^ 32
word-bound a b c d la lb lc ld = omega arith

-- murmur32_8b of a word of 64 bits is murmur32 of eight bytes, those of the higher half of the word
-- first and the lowest byte of each half first.
pub murmur32-two_words :
    (a b c d e f g h : ℕ)
    → a < 256
    → b < 256
    → c < 256
    → d < 256
    → e < 256
    → f < 256
    → g < 256
    → h < 256
    → murmur32 (a ∷ b ∷ c ∷ d ∷ e ∷ f ∷ g ∷ h ∷ []) 8
      ≡ murmur32_8b (word a b c d * 2 ^ 32 + word e f g h)
unfolding murmur32 murmur32_8b mix_bytes mix_tail
murmur32-two_words a b c d e f g h la lb lc ld le lf lg lh = sym (
    ap₂ (λ x y. final_mix (mix_word (mix_word 8 x) y))
      (high (word a b c d) (word e f g h) (word-bound a b c d la lb lc ld)
        (word-bound e f g h le lf lg lh))
      (low (word a b c d) (word e f g h) (word-bound e f g h le lf lg lh)))
  where
    high : (x y : ℕ) → x < 2 ^ 32 → y < 2 ^ 32 → u32 ((x * 2 ^ 32 + y) / 2 ^ 32) ≡ x
    high x y lx ly = omega arith

    low : (x y : ℕ) → y < 2 ^ 32 → u32 (x * 2 ^ 32 + y) ≡ y
    low x y ly = omega arith
