-- ===== src/Datatype.antt =====
-- src/datatype/datatype.h: what a map is told about keys that are pointers.
use ssr.Base.{ℕ}

-- `datatype_t`. An `int` is its pattern of 32 bits.
pub record Datatype : Type 0 where
  pub cmp : ℕ → ℕ → ℕ
  pub hash : ℕ → ℕ
  pub clone : ℕ → ℕ
