-- ===== src/Carray.antt =====
-- src/common/carray.h: an array that carries its number of cells.
use ssr.Base.{ℕ, ◌+◌, ◌*◌, u64}

-- `ARRAY_VAR`. The index of a cell is any number; a program must keep it below `bound`.
pub record Array {ℓ} (A : Type ℓ) : Type ℓ where
  pub bound : ℕ
  pub cells : ℕ → A

-- `ARRAY_SIZE`: the bytes of the array, with cells of `cell` bytes.
abbrev pub array_size : (cell bound : ℕ) → ℕ
array_size cell bound = u64 (8 + u64 (bound * cell))
