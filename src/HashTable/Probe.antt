-- ===== src/HashTable/Probe.antt =====
-- `hti_lookup` of src/map/hashtable.c on integer keys: it takes the first fit along a path of entries
-- that depends on the hash alone.
use ssr.Base.{
  ℕ, zero, suc, ◌+◌, ◌-◌, ◌%◌, ◌^◌, ◌≡◌, refl, sym, ap, ◌∙◌, ◌≢◌, inl, inr, Bool, true, false,
  Option, none, some, List, [], ◌∷◌, ◌++◌, ◌==◌, if◌then◌else◌, update, Bool-cases, arith,
}
use ssr.HashTable.{
  Hti, hti_lookup, bucket_loop, probe_loop, get_next_ndx, key_matches, entries_per_bucket,
}

abbrev pub first_fit : (ℕ → ℕ) → (ℕ → Bool) → List ℕ → Option (ℕ × Bool)
first_fit key matches [] = none
first_fit key matches (x ∷ xs) =
    if key x == 0
    then some (x, true)
    else if matches (key x)
    then some (x, false)
    else first_fit key matches xs

abbrev pub bucket_path : (left ndx j : ℕ) → List ℕ
bucket_path zero ndx j = []
bucket_path (suc left) ndx j =
    ((ndx - ndx % entries_per_bucket) + (ndx + j) % entries_per_bucket)
    ∷ bucket_path left ndx (j + 1)

abbrev pub probe_path : (left scale hash ndx : ℕ) → List ℕ
probe_path zero scale hash ndx = []
probe_path (suc left) scale hash ndx =
    bucket_path entries_per_bucket ndx 0 ++ probe_path left scale hash (get_next_ndx ndx hash scale)

first_fit-append :
    (key : ℕ → ℕ) (matches : ℕ → Bool) (xs ys : List ℕ)
    → first_fit key matches (xs ++ ys)
      ≡ (elim (first_fit key matches xs) [ none ↦ first_fit key matches ys | some r ↦ some r ])
first_fit-append key matches [] ys = refl
first_fit-append key matches (x ∷ xs) ys = elim (Bool-cases (key x == 0)) [
  | inl e ↦ rw e refl
  | inr ne ↦ rw ne (elim (Bool-cases (matches (key x))) [
    | inl m ↦ rw m refl
    | inr f ↦ rw f (first_fit-append key matches xs ys)
  ])
]

bucket_loop-path :
    (left : ℕ) (hti : Hti) (matches : ℕ → Bool) (ndx j : ℕ)
    → bucket_loop left hti matches ndx j ≡ first_fit hti.key matches (bucket_path left ndx j)
unfolding bucket_loop
bucket_loop-path zero hti matches ndx j = refl
bucket_loop-path (suc left) hti matches ndx j =
    rw (bucket_loop-path left hti matches ndx (j + 1)) refl

probe_loop-path :
    (left : ℕ) (hti : Hti) (matches : ℕ → Bool) (hash ndx : ℕ)
    → probe_loop left hti matches hash ndx
      ≡ first_fit hti.key matches (probe_path left hti.scale hash ndx)
unfolding probe_loop
probe_loop-path zero hti matches hash ndx = refl
probe_loop-path (suc left) hti matches hash ndx =
    let next = get_next_ndx ndx hash hti.scale in
    let here = bucket_path entries_per_bucket ndx 0 in
    rw (probe_loop, bucket_loop-path 4 hti matches ndx 0)
      (ap (λ r. elim (first_fit hti.key matches here) [ none ↦ r | some x ↦ some x ])
          (probe_loop-path left hti matches hash next)
        ∙ sym (first_fit-append hti.key matches here (probe_path left hti.scale hash next)))

-- The path of a key in a table.
abbrev pub path : Hti → (key hash : ℕ) → List ℕ
path hti key hash = probe_path hti.probe hti.scale hash (hash % 2 ^ hti.scale)

abbrev pub same_as : ℕ → ℕ → Bool
same_as key k = k == key

pub hti_lookup-path :
    (hti : Hti) (key hash : ℕ)
    → hti_lookup none hti key hash ≡ first_fit hti.key (same_as key) (path hti key hash)
unfolding hti_lookup
hti_lookup-path hti key hash =
    probe_loop-path hti.probe hti (key_matches none key hash) hash (hash % 2 ^ hti.scale)

module _ (key : ℕ → ℕ) (q : ℕ) where
  pub first_fit-empty :
      (xs : List ℕ) {i : ℕ} → first_fit key (same_as q) xs ≡ some (i, true) → key i ≡ 0
  first_fit-empty [] e = absurd (ground arith)
  first_fit-empty (x ∷ xs) e = elim (Bool-cases (key x == 0)) [
    | inl z ↦ ground (arith, e)
    | inr n ↦ elim (Bool-cases (key x == q)) [
      | inl m ↦ absurd (ground (arith, e))
      | inr f ↦ first_fit-empty xs (ground (arith, e))
    ]
  ]

  pub first_fit-found :
      (xs : List ℕ) {i : ℕ} → first_fit key (same_as q) xs ≡ some (i, false) → key i ≡ q
  first_fit-found [] e = absurd (ground arith)
  first_fit-found (x ∷ xs) e = elim (Bool-cases (key x == 0)) [
    | inl z ↦ absurd (ground (arith, e))
    | inr n ↦ elim (Bool-cases (key x == q)) [
      | inl m ↦ ground (arith, e)
      | inr f ↦ first_fit-found xs (ground (arith, e))
    ]
  ]

  -- A key goes into the entry where another one would go, or into one that is not on the path.
  pub first_fit-other_found :
      (xs : List ℕ) (j k : ℕ) {i : ℕ}
      → key j ≡ 0
      → first_fit key (same_as q) xs ≡ some (i, false)
      → first_fit (update key j k) (same_as q) xs ≡ some (i, false)
  first_fit-other_found [] j k z e = absurd (ground arith)
  first_fit-other_found (x ∷ xs) j k {i} z e = elim (Bool-cases (key x == 0)) [
    | inl zx ↦ absurd (ground (arith, e))
    | inr n ↦
        let apart : (j == x) ≡ false = ground arith in
        rw apart (elim (Bool-cases (key x == q)) [
          | inl m ↦ rw n (rw m (ground (arith, e)))
          | inr f ↦ rw n (rw f (first_fit-other_found xs j k z (ground (arith, e))))
        ])
  ]

  pub first_fit-other_none :
      (xs : List ℕ) (j k : ℕ)
      → key j ≡ 0
      → first_fit key (same_as q) xs ≡ none
      → first_fit (update key j k) (same_as q) xs ≡ none
  first_fit-other_none [] j k z e = refl
  first_fit-other_none (x ∷ xs) j k z e = elim (Bool-cases (key x == 0)) [
    | inl zx ↦ absurd (ground (arith, e))
    | inr n ↦
        let apart : (j == x) ≡ false = ground arith in
        rw apart (elim (Bool-cases (key x == q)) [
          | inl m ↦ absurd (ground (arith, e))
          | inr f ↦ rw n (rw f (first_fit-other_none xs j k z (ground (arith, e))))
        ])
  ]

  pub first_fit-installed :
      (xs : List ℕ) {j : ℕ}
      → q ≢ 0
      → first_fit key (same_as q) xs ≡ some (j, true)
      → first_fit (update key j q) (same_as q) xs ≡ some (j, false)
  first_fit-installed [] ne e = absurd (ground arith)
  first_fit-installed (x ∷ xs) {j} ne e = elim (Bool-cases (key x == 0)) [
    | inl z ↦ ground (arith, e)
    | inr n ↦ elim (Bool-cases (key x == q)) [
      | inl m ↦ absurd (ground (arith, e))
      | inr f ↦
          let rest : first_fit key (same_as q) xs ≡ some (j, true) = ground (arith, e) in
          let z = first_fit-empty xs rest in
          let apart : (j == x) ≡ false = ground arith in
          rw apart (rw n (rw f (first_fit-installed xs ne rest)))
    ]
  ]
