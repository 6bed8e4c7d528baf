-- ===== src/Nstring/Laws.antt =====
-- Comparison, hash and duplicates of src/datatype/nstring.c.
use ssr.Base.{
  ℕ, zero, suc, ◌+◌, ◌^◌, ◌≤◌, ◌<◌, ◌≡◌, refl, sym, ap, ap₂, ◌∙◌, ◌↔◌, inl, inr, ◌∷◌, true, ◌==◌,
  ltb, if◌then◌else◌, Bool-cases, arith,
}
use native.Mathlib.Decide.{ℕ_discrete}
use ssr.Murmur.{murmur32}
use ssr.Nstring.{Nstring, memcmp, ns_cmp, ns_hash, ns_dup, ns_alloc, bytes, int_diff}

int_diff-zero : (a b : ℕ) → a < 2 ^ 32 → b < 2 ^ 32 → int_diff a b ≡ 0 → a ≡ b
int_diff-zero a b la lb e = omega (arith, e)

-- `memcmp` finds no difference just where there is none.
memcmp-zero :
    (n : ℕ) (a b : ℕ → ℕ) (i : ℕ)
    → ((j : ℕ) → a j < 256)
    → ((j : ℕ) → b j < 256)
    → memcmp n a b i ≡ 0
    → (j : ℕ) → i ≤ j
    → j < i + n
    → a j ≡ b j
unfolding memcmp
memcmp-zero zero a b i la lb e j le lt = absurd (omega arith)
memcmp-zero (suc n) a b i la lb e j le lt = elim (Bool-cases (a i == b i)) [
  | inr apart ↦
      let here : a i ≡ b i =
        int_diff-zero (a i) (b i) (omega (arith, la i)) (omega (arith, lb i))
          (ground (arith, e, apart)) in
      absurd (ground (arith, apart, here))
  | inl same ↦ elim (ℕ_discrete i j) [
    | yes it ↦ ap a (sym it) ∙ ground (arith, same) ∙ ap b it
    | no later ↦
        memcmp-zero n a b (i + 1) la lb (ground (arith, e, same)) j (omega arith) (omega arith)
  ]
]

memcmp-same :
    (n : ℕ) (a b : ℕ → ℕ) (i : ℕ) → ((j : ℕ) → i ≤ j → j < i + n → a j ≡ b j) → memcmp n a b i ≡ 0
unfolding memcmp
memcmp-same zero a b i same = refl
memcmp-same (suc n) a b i same =
    let here : (a i == b i) ≡ true = ground (arith, same i (omega arith) (omega arith)) in
    rw here (memcmp-same n a b (i + 1) (λ j le lt. same j (omega arith) (omega arith)))

-- ns_cmp of two strings shorter than 2^32 returns 0 just if they have the same length and the same
-- bytes, whatever the memory behind them holds.
pub ns_cmp-zero :
    (ns1 ns2 : Nstring)
    → ns1.len < 2 ^ 32
    → ns2.len < 2 ^ 32
    → ((j : ℕ) → ns1.contents j < 256)
    → ((j : ℕ) → ns2.contents j < 256)
    → (ns_cmp ns1 ns2 ≡ 0)
      ↔ ((ns1.len ≡ ns2.len) × ((j : ℕ) → j < ns1.len → ns1.contents j ≡ ns2.contents j))
unfolding ns_cmp
ns_cmp-zero ns1 ns2 l1 l2 d1 d2 =
    let shortest : (if ltb ns1.len ns2.len then ns1.len else ns1.len) ≡ ns1.len =
      elim (Bool-cases (ltb ns1.len ns2.len)) [ inl e ↦ rw e refl | inr e ↦ rw e refl ] in
    let d = memcmp ns1.len ns1.contents ns2.contents 0 in
    rw shortest (
      (λ e. elim (Bool-cases (d == 0)) [
        | inl same ↦
            let lens : int_diff ns1.len ns2.len ≡ 0 = ground (arith, e, same) in
            (
              int_diff-zero ns1.len ns2.len l1 l2 lens,
              λ j lt.
                  memcmp-zero ns1.len ns1.contents ns2.contents 0 d1 d2 (ground (arith, same)) j
                    (omega arith) (omega arith),
            )
        | inr apart ↦ absurd (ground (arith, e, apart))
      ]),
      (λ (lens, same).
          let equal : d ≡ 0 =
            memcmp-same ns1.len ns1.contents ns2.contents 0 (λ j le lt. same j (omega arith)) in
          rw equal (no_diff ns1.len ns2.len l2 lens)),
    )
  where
    no_diff : (a b : ℕ) → b < 2 ^ 32 → a ≡ b → int_diff a b ≡ 0
    no_diff a b lb e = omega arith

bytes-same :
    (n : ℕ) (a b : ℕ → ℕ) (i : ℕ)
    → ((j : ℕ) → i ≤ j → j < i + n → a j ≡ b j)
    → bytes n a i ≡ bytes n b i
unfolding bytes
bytes-same zero a b i same = refl
bytes-same (suc n) a b i same =
    ap₂ (λ x xs. x ∷ xs) (same i (omega arith) (omega arith))
      (bytes-same n a b (i + 1) (λ j le lt. same j (omega arith) (omega arith)))

-- A duplicate made by ns_dup of a string shorter than 2^32 compares as equal to the string and has
-- the same hash.
pub ns_dup-same :
    (memory : ℕ → ℕ) (ns : Nstring)
    → ns.len < 2 ^ 32
    → (ns_cmp ns (ns_dup memory ns) ≡ 0) × (ns_hash (ns_dup memory ns) ≡ ns_hash ns)
unfolding ns_dup ns_alloc ns_cmp ns_hash
ns_dup-same memory ns l =
    let copied : (j : ℕ)
        → j < ns.len
        → (if ltb j ns.len then ns.contents j else memory j) ≡ ns.contents j =
      λ j lt. let e : ltb j ns.len ≡ true = ground arith in rw e refl in
    let shortest : (if ltb ns.len ns.len then ns.len else ns.len) ≡ ns.len =
      elim (Bool-cases (ltb ns.len ns.len)) [ inl e ↦ rw e refl | inr e ↦ rw e refl ] in
    let equal : memcmp ns.len ns.contents (λ i. if ltb i ns.len then ns.contents i else memory i) 0
        ≡ 0 =
      memcmp-same ns.len ns.contents (λ i. if ltb i ns.len then ns.contents i else memory i) 0
        (λ j le lt. sym (copied j (omega arith))) in
    (
      (rw shortest (rw equal (no_diff ns.len l))),
      ap (λ l. murmur32 l ns.len)
          (bytes-same ns.len (λ i. if ltb i ns.len then ns.contents i else memory i) ns.contents 0
            (λ j le lt. copied j (omega arith))),
    )
  where
    no_diff : (a : ℕ) → a < 2 ^ 32 → int_diff a a ≡ 0
    no_diff a la = omega arith
