-- ===== src/HashTable/Implements.antt =====
-- MAP_IMPL_HT of src/map/hashtable.h: the hash table of src/map/hashtable.c with integer keys as an
-- implementation of the maps of src/map/map.c.
use ssr.Base.{
  ℕ, ◌+◌, ◌<◌, ◌≡◌, sym, ap, ◌∙◌, ◌≢◌, Bool, true, Option, none, some, ◌==◌, ◌&&◌, if◌then◌else◌,
  update, arith,
}
use native.Mathlib.Decide.{ℕ_discrete}
use ssr.Map.{does_not_exist}
use ssr.Map.Spec.{is_exact}
use ssr.Map.Interface.{MapImpl, MapLaws, writes, set_if}
use ssr.HashTable.{Ht, tombstone, size_of, ht_count}
use ssr.HashTable.Ops.{ht_cas, ht_get, ht_remove}
use ssr.HashTable.Store.{value, IsValue}
use ssr.HashTable.Moved.{Stable}
use ssr.HashTable.Get.{ht_get-value}
use ssr.HashTable.Outcome.{set_value}
use ssr.HashTable.HelpCopy.{Accounts}
use ssr.HashTable.Refine.{ht_remove-refines}
use ssr.HashTable.HtCas.{ht_cas-SetDone}

-- Fuel for every call on the tables: one round for each table, two more, and the help with the copy.
abbrev pub fuel_for : Ht → ℕ
fuel_for ht = ht.installed + size_of (ht.tables ht.first) + 2

-- A read of integer keys changes nothing.
abbrev read : Option (ℕ × Ht) → Option ℕ
read call = elim call [ none ↦ none | some (v, s) ↦ some v ]

abbrev pub map_impl_ht : MapImpl Ht
map_impl_ht = record {
  cas = λ ht key expected_val new_val. ht_cas (fuel_for ht) ht key expected_val new_val;
  get = λ ht key. read (ht_get (fuel_for ht) ht key);
  remove = λ ht key. ht_remove (fuel_for ht) ht key;
  count = λ ht. some (ht_count ht);
}

-- The tables hold a finite map, whether a copy is under way or not.
pub record IsMap (ht : Ht) (m : ℕ → ℕ) : Type 0 where
  pub stable : Stable ht ht.first
  pub values : (p : ℕ) → p ≢ 0 → value ht ht.first p ≡ m p
  pub small : (p : ℕ) → m p < tombstone

pub record HasRoom (ht : Ht) (m : ℕ → ℕ) : Type 0 where
  pub is_map : IsMap ht m
  pub accounts : Accounts ht ht.first

-- An expectation that is special or the value of the key means the same to both.
set_value-writes :
    (old e new : ℕ)
    → old < tombstone
    → is_exact old e ≡ true
    → set_value old e new ≡ (if writes old e then new else old)
set_value-writes old e new small exact = ground (arith, exact)

set_value-small :
    (old e new : ℕ) → old < tombstone → new < tombstone → set_value old e new < tombstone
set_value-small old e new small small' = ground (arith, small, small')

set_if_self :
    (m : ℕ → ℕ) (key e new : ℕ) → set_if m key e new key ≡ (if writes (m key) e then new else m key)
set_if_self m key e new = keyed (writes (m key) e) key
  where
    keyed : (b : Bool) (k : ℕ) → (if b && k == k then new else m key) ≡ (if b then new else m key)
    keyed b k = ground arith

set_if-other : (m : ℕ → ℕ) (key e new p : ℕ) → p ≢ key → set_if m key e new p ≡ m p
set_if-other m key e new p apart = other (writes (m key) e)
  where
    other : (b : Bool) → (if b && key == p then new else m p) ≡ m p
    other b = ground arith

exact-live : (old e : ℕ) → old < tombstone → is_exact old e ≡ true → e ≢ tombstone
exact-live old e small exact = ground (arith, exact)

-- A state in which one key has another value holds the map that is changed at the key.
changed-IsMap :
    (ht s : Ht) (m m' : ℕ → ℕ) (key new : ℕ)
    → IsMap ht m
    → Stable s s.first
    → value s s.first key ≡ new
    → ((p : ℕ) → p ≢ 0 → p ≢ key → value s s.first p ≡ value ht ht.first p)
    → m' key ≡ new
    → ((p : ℕ) → p ≢ key → m' p ≡ m p)
    → new < tombstone
    → IsMap s m'
changed-IsMap ht s m m' key new x stable now others here there small = record {
  stable = stable;
  values = λ p ne. elim (ℕ_discrete p key) [
    | yes it ↦ ap (λ k. value s s.first k) it ∙ now ∙ sym (ap m' it ∙ here)
    | no apart ↦ others p ne apart ∙ x.values p ne ∙ sym (there p apart)
  ];
  small = λ p. elim (ℕ_discrete p key) [
    | yes it ↦ rw (ap m' it ∙ here) small
    | no apart ↦ rw (there p apart) (x.small p)
  ];
}

ht_get-IsMap :
    (ht : Ht) (m : ℕ → ℕ) (key : ℕ) → IsMap ht m → key ≢ 0 → map_impl_ht.get ht key ≡ some (m key)
ht_get-IsMap ht m key x ne =
    ap read (ht_get-value (fuel_for ht) ht key x.stable (omega arith)) ∙ ap some (x.values key ne)

ht_remove-IsMap :
    (ht : Ht) (m : ℕ → ℕ) (key : ℕ)
    → IsMap ht m
    → key ≢ 0
    → (s : Ht) × (ht_remove (fuel_for ht) ht key ≡ some (m key, s))
      × IsMap s (update m key does_not_exist)
ht_remove-IsMap ht m key x ne =
    let (s, e, done) = ht_remove-refines (fuel_for ht) ht key x.stable ne (omega arith) in
    let first = done.same_first in
    (
      s,
      e ∙ ap (λ v. some (v, s)) (x.values key ne),
      changed-IsMap ht s m (update m key 0) key 0 x (rw first done.stable) (rw first done.now)
          (λ p ne_p apart. rw first (done.others p ne_p apart)) (ground arith)
          (λ p apart. ground arith) (omega arith),
    )

ht_cas-IsMap :
    (ht : Ht) (m : ℕ → ℕ) (key e new : ℕ)
    → HasRoom ht m
    → key ≢ 0
    → IsValue new
    → is_exact (m key) e ≡ true
    → (s : Ht) × (ht_cas (fuel_for ht) ht key e new ≡ some (m key, s))
      × IsMap s (set_if m key e new)
ht_cas-IsMap ht m key e new r ne is_new exact =
    let x = r.is_map in
    let (s, call, done) =
      ht_cas-SetDone (fuel_for ht) ht key x.stable r.accounts ne (omega arith) e new
        (exact-live (m key) e (x.small key) exact) is_new in
    let after : set_value (value ht ht.first key) e new ≡ set_value (m key) e new =
      ap (λ v. set_value v e new) (x.values key ne) in
    let here : set_if m key e new key ≡ set_value (m key) e new =
      set_if_self m key e new ∙ sym (set_value-writes (m key) e new (x.small key) exact) in
    (
      s,
      call ∙ ap (λ v. some (v, s)) (x.values key ne),
      changed-IsMap ht s m (set_if m key e new) key (set_value (m key) e new) x done.stable
          (done.now ∙ after) done.others here (λ p apart. set_if-other m key e new p apart)
          (set_value-small (m key) e new (x.small key) is_new.small),
    )

-- The hash table implements the maps of map.c on integer keys other than 0 and values from 1 to
-- 2^63 - 2: on tables that hold a finite map and in which no entry is being copied, whether a copy
-- is under way or not, get, remove, and compare-and-set with an expectation that is special or the
-- value of the key, return the value of the key, and leave tables that hold the map with the key
-- removed, or set where the expectation is met. For a compare-and-set the first table has correct
-- counters.
pub map_impl_ht_laws : MapLaws map_impl_ht (λ key. key ≢ 0) IsValue IsMap HasRoom
map_impl_ht_laws = record {
  room_holds = λ s m r. r.is_map;
  get_law = ht_get-IsMap;
  remove_law = ht_remove-IsMap;
  cas_law = ht_cas-IsMap;
}
