-- ===== src/HashTable/Refine.antt =====
-- `ht_alloc`, `ht_remove` and the loop of `ht_cas` of src/map/hashtable.c against a map from keys to values.
use ssr.Base.{ℕ, ◌+◌, ◌-◌, ◌≤◌, ◌≡◌, refl, sym, ap, subst, ◌∙◌, ◌≢◌, inl, false, none, some, arith}
use ssr.Murmur.{murmur32_8b}
use ssr.Map.{does_not_exist, expect_whatever}
use ssr.HashTable.{Ht, tombstone, ht_alloc, hti_alloc, min_scale, key_hash}
use ssr.HashTable.Ops.{cas_tables, ht_remove, ht_get}
use ssr.HashTable.View.{is_found, value_from-nowhere}
use ssr.HashTable.Chain.{view, view-Looks, empty_look}
use ssr.HashTable.Kept.{Kept-refl, Every}
use ssr.HashTable.Store.{value}
use ssr.HashTable.Moved.{Stable}
use ssr.HashTable.Get.{ht_get-value}
use ssr.HashTable.Outcome.{IsNew}
use ssr.HashTable.Loop.{CasDone, cas_tables-Done}

-- A new table has no keys.
empty_lost : (t q : ℕ) → is_found ((view (ht_alloc none)).look t q) ≡ false
unfolding ht_alloc
empty_lost t q = let (j, e) = empty_look q min_scale in rw e refl

pub ht_alloc-Stable : Stable (ht_alloc none) 0
unfolding ht_alloc hti_alloc
ht_alloc-Stable = record {
  integer_keys = refl;
  inv = record {
    some_table = omega arith;
    looks = view-Looks (ht_alloc none);
    reached = λ t q i lt ne e. absurd (ne (sym e));
    ordered = λ t u q le lt lt_n ne e. absurd (ground (arith, e, empty_lost u q));
    last = λ t i e. refl;
    unkeyed = λ t i lt z live. refl;
  };
  scales = λ w lt. omega arith;
  settled = λ w k lt e. absurd (ground (arith, e));
}

pub ht_alloc-value : (q : ℕ) → value (ht_alloc none) 0 q ≡ 0
ht_alloc-value q =
    value_from-nowhere (view (ht_alloc none)) ((ht_alloc none).installed - 0) 0 q
      (λ u le lt. empty_lost u q)

module _ (fuel : ℕ) (ht : Ht) (q : ℕ) (stable : Stable ht ht.first) (ne : q ≢ 0)
    (enough : ht.installed + 2 ≤ fuel + ht.first) where
  same_hash : key_hash ht.key_type q ≡ murmur32_8b q
  unfolding key_hash
  same_hash = rw stable.integer_keys refl

  -- The loop over the tables from the first one on is a compare-and-set of the value of the key.
  pub cas_tables-refines :
      (expected new : ℕ)
      → expected ≢ tombstone
      → IsNew new
      → (s : Ht) × (cas_tables fuel ht ht.first q (key_hash ht.key_type q) expected new
          ≡ some (value ht ht.first q, s))
        × CasDone ht s ht.first q expected new
  cas_tables-refines expected new not_removed is_new = rw same_hash (
      cas_tables-Done fuel ht ht.first stable (omega arith) stable.inv.some_table ne
        (λ w le lt. absurd (omega arith)) not_removed is_new (λ p ne_p. refl) refl
        (Kept-refl ht Every) (inl refl) enough)

  pub ht_remove-refines :
      (s : Ht) × (ht_remove fuel ht q ≡ some (value ht ht.first q, s))
      × CasDone ht s ht.first q expect_whatever does_not_exist
  unfolding ht_remove
  ht_remove-refines =
      cas_tables-refines expect_whatever does_not_exist (λ e. ground (arith, e)) (inl refl)

  read_after :
      {expected new : ℕ} (s : Ht)
      → CasDone ht s ht.first q expected new
      → (p : ℕ) → ht_get fuel s p ≡ some (value s ht.first p, s)
  read_after s done p =
      let e = done.same_first in
      ht_get-value fuel s p (subst (λ b. Stable s b) (sym e) done.stable)
        (omega (arith, done.growth, e))
      ∙ ap (λ b. some (value s b p, s)) e

  -- On integer keys, whether a copy is under way or not: ht_remove returns what ht_get read before,
  -- afterwards ht_get finds no value, and what it reads of the other keys is the same as before.
  pub get_after_remove :
      (old : ℕ) × (s : Ht) × (ht_remove fuel ht q ≡ some (old, s))
      × (ht_get fuel ht q ≡ some (old, ht))
      × (ht_get fuel s q ≡ some (does_not_exist, s))
      × ((p : ℕ)
          → p ≢ 0
          → p ≢ q
          → (v : ℕ) × (ht_get fuel ht p ≡ some (v, ht)) × (ht_get fuel s p ≡ some (v, s)))
  get_after_remove =
      let (s, e, done) = ht_remove-refines in
      let read : (p : ℕ) → ht_get fuel s p ≡ some (value s ht.first p, s) =
        λ p. read_after s done p in
      (
        value ht ht.first q,
        s,
        e,
        ht_get-value fuel ht q stable (omega arith),
        read q ∙ ap (λ x. some (x, s)) done.now,
        λ p ne_p apart. (
          value ht ht.first p,
          ht_get-value fuel ht p stable (omega arith),
          read p ∙ ap (λ x. some (x, s)) (done.others p ne_p apart),
        ),
      )
