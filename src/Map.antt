-- ===== src/Map.antt =====
-- src/map/map.h: what the maps of src/map share.
pub mod Spec
pub mod Interface
pub mod Laws
use ssr.Base.{ℕ, ◌-◌, ◌^◌}

-- DOES_NOT_EXIST of src/runtime/common.h, the value of a key that is not there.
abbrev pub does_not_exist : ℕ
does_not_exist = 0

-- The special expectations of a compare-and-set; -1 and -2 stand for the two largest words.
abbrev pub expect_does_not_exist : ℕ
expect_does_not_exist = 0

abbrev pub expect_exists : ℕ
expect_exists = 2 ^ 64 - 1

abbrev pub expect_whatever : ℕ
expect_whatever = 2 ^ 64 - 2
