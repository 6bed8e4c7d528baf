-- ===== src/Nstring.antt =====
-- src/datatype/nstring.c: strings with a length.
pub mod Laws
pub mod Examples
use ssr.Base.{ℕ, zero, suc, ◌+◌, ◌-◌, ◌^◌, List, [], ◌∷◌, ◌==◌, ltb, if◌then◌else◌, u32}
use ssr.Datatype.{Datatype}
use ssr.Murmur.{murmur32}

-- `nstring_t`: its length, and the memory from `data` on, which does not end with the string.
pub record Nstring : Type 0 where
  pub len : ℕ
  pub contents : ℕ → ℕ

-- `memory` is what the allocated block holds.
pub ns_alloc : (memory : ℕ → ℕ) (len : ℕ) → Nstring
ns_alloc memory len = record { len = len; contents = memory }

-- `a - b` as an `int`, a pattern of 32 bits.
abbrev pub int_diff : (a b : ℕ) → ℕ
int_diff a b = u32 (a + 2 ^ 32 - b)

-- `memcmp` of `n` bytes from `i` on: the difference of the first bytes that differ.
pub memcmp : (n : ℕ) (a b : ℕ → ℕ) (i : ℕ) → ℕ
memcmp zero a b i = 0
memcmp (suc n) a b i =
    let rest = memcmp n a b (i + 1) in if a i == b i then rest else int_diff (a i) (b i)

-- It compares as many bytes as the first string has.
pub ns_cmp : Nstring → Nstring → ℕ
unfolding memcmp
ns_cmp ns1 ns2 =
    let d = memcmp (if ltb ns1.len ns2.len then ns1.len else ns1.len) ns1.contents ns2.contents 0 in
    if d == 0 then int_diff ns1.len ns2.len else d

-- The first `n` bytes from `i` on.
pub bytes : (n : ℕ) → (ℕ → ℕ) → (i : ℕ) → List ℕ
bytes zero contents i = []
bytes (suc n) contents i = contents i ∷ bytes n contents (i + 1)

-- The length becomes an `int`, which is negative from 2 ^ 31 on.
pub ns_hash : Nstring → ℕ
unfolding bytes
ns_hash ns = murmur32 (bytes ns.len ns.contents 0) ns.len

pub ns_dup : (memory : ℕ → ℕ) → Nstring → Nstring
unfolding ns_alloc
ns_dup memory ns1 =
    let ns2 = ns_alloc memory ns1.len in
    record ns2 { contents = λ i. if ltb i ns1.len then ns1.contents i else ns2.contents i }

-- DATATYPE_NSTRING: `load` is the string at an address, and `dup` the address of a duplicate.
pub datatype_nstring : (load : ℕ → Nstring) (dup : ℕ → ℕ) → Datatype
datatype_nstring load dup = record {
  cmp = λ a b. ns_cmp (load a) (load b);
  hash = λ a. ns_hash (load a);
  clone = dup;
}
