-- ===== src/Base/Arith.antt =====
-- Words of 64 and 32 bits, and remainders.
use Prim.Native.Nat.{ℕ, ◌+◌, ◌%◌, ◌^◌, ◌<◌}
use mathlib.Core.Logic.{◌≢◌}
use native.Mathlib.Nat.{div-add-mod}
use native.Mathlib.Omega.{arith}

-- `uint64_t` and `size_t`
abbrev pub u64 : ℕ → ℕ
u64 n = n % 2 ^ 64

-- `uint32_t`
abbrev pub u32 : ℕ → ℕ
u32 n = n % 2 ^ 32

-- Two numbers less than `n` apart leave different remainders.
pub mod-ne : (a b n : ℕ) → a < b → b < a + n → a % n ≢ b % n
mod-ne a b n lt near e = grind (arith, div-add-mod)
