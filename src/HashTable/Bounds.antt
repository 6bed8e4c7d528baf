-- ===== src/HashTable/Bounds.antt =====
-- A lookup of src/map/hashtable.c stays inside the table.
use ssr.Base.{
  ℕ, zero, suc, ◌+◌, ◌-◌, ◌*◌, ◌%◌, ◌^◌, ◌≤◌, ◌<◌, ◌≡◌, refl, ◌∙◌, inl, inr, Bool, Option, none,
  some, ◌==◌, Bool-cases, arith,
}
use native.Mathlib.Nat.{mod-lt, one-le-pow}
use ssr.Datatype.{Datatype}
use ssr.HashTable.{
  Hti, hti_lookup, bucket_loop, probe_loop, get_next_ndx, key_matches, entries_per_bucket, size_of,
}

-- An index in the bucket of an index below a multiple of the bucket's size.
bucket_bound :
    (ndx j m : ℕ)
    → ndx < 4 * m
    → (ndx - ndx % entries_per_bucket) + (ndx + j) % entries_per_bucket < 4 * m
bucket_bound ndx j m lt = omega arith

bucket_loop-bound :
    (left : ℕ) (hti : Hti) (matches : ℕ → Bool) (ndx j m : ℕ)
    → ndx < 4 * m
    → (i : ℕ) (is_empty : Bool) → bucket_loop left hti matches ndx j ≡ some (i, is_empty)
    → i < 4 * m
unfolding bucket_loop
bucket_loop-bound zero hti matches ndx j m lt i is_empty e = absurd (ground (arith, e))
bucket_loop-bound (suc left) hti matches ndx j m lt i is_empty e =
    let ent = (ndx - ndx % entries_per_bucket) + (ndx + j) % entries_per_bucket in
    let near = bucket_bound ndx j m lt in
    elim (Bool-cases (hti.key ent == 0)) [
      | inl z ↦ ground (arith, e, z, near)
      | inr n ↦ elim (Bool-cases (matches (hti.key ent))) [
        | inl y ↦ ground (arith, e, n, y, near)
        | inr f ↦
            bucket_loop-bound left hti matches ndx (j + 1) m lt i is_empty (ground (arith, e, n, f))
      ]
    ]

probe_loop-bound :
    (left : ℕ) (hti : Hti) (matches : ℕ → Bool) (hash ndx m : ℕ)
    → 2 ^ hti.scale ≡ 4 * m
    → 0 < m
    → ndx < 4 * m
    → (i : ℕ) (is_empty : Bool) → probe_loop left hti matches hash ndx ≡ some (i, is_empty)
    → i < 4 * m
unfolding probe_loop get_next_ndx
probe_loop-bound zero hti matches hash ndx m size pos lt i is_empty e = absurd (ground (arith, e))
probe_loop-bound (suc left) hti matches hash ndx m size pos lt i is_empty e =
    by_bucket
      (probe_loop-bound left hti matches hash (get_next_ndx ndx hash hti.scale) m size pos next_lt i
        is_empty)
      (bucket_loop entries_per_bucket hti matches ndx 0) refl e
  where
    next : ℕ
    next = get_next_ndx ndx hash hti.scale

    next_lt : next < 4 * m
    next_lt = rw (get_next_ndx, size) (mod-lt _ (omega arith))

    by_bucket :
        (probe_loop left hti matches hash next ≡ some (i, is_empty) → i < 4 * m)
        → (o : Option (ℕ × Bool)) → bucket_loop entries_per_bucket hti matches ndx 0 ≡ o
        → (elim o [ none ↦ probe_loop left hti matches hash next | some r ↦ some r ])
          ≡ some (i, is_empty)
        → i < 4 * m
    by_bucket later none here rest = later rest
    by_bucket later (some r) here done =
        bucket_loop-bound entries_per_bucket hti matches ndx 0 m lt i is_empty (here ∙ done)

-- On keys of any type, the entry that hti_lookup returns is inside the table, if the table has at
-- least four entries.
pub hti_lookup-bound :
    (key_type : Option Datatype) (hti : Hti) (key hash i : ℕ) (is_empty : Bool)
    → 2 ≤ hti.scale
    → hti_lookup key_type hti key hash ≡ some (i, is_empty)
    → i < size_of hti
unfolding hti_lookup
hti_lookup-bound key_type hti key hash i is_empty le e =
    let (m, size, pos) = quarter hti.scale le in
    let start : hash % 2 ^ hti.scale < 4 * m = rw size (mod-lt hash (omega arith)) in
    rw size (
      probe_loop-bound hti.probe hti (key_matches key_type key hash) hash (hash % 2 ^ hti.scale) m
        size pos start i is_empty e)
  where
    quarter : (scale : ℕ) → 2 ≤ scale → (m : ℕ) × (2 ^ scale ≡ 4 * m) × (0 < m)
    quarter zero le = absurd (omega arith)
    quarter (suc zero) le = absurd (omega arith)
    quarter (suc (suc n)) le = (2 ^ n, omega arith, one-le-pow n 2 (omega arith))
