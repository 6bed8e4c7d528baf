-- ===== src/HashTable/Outcome.antt =====
-- What `hti_cas` of src/map/hashtable.c does on one table, and its value count.
use ssr.Base.{
  ℕ, ◌+◌, ◌≤◌, ◌<◌, ◌≡◌, refl, ◌≢◌, ◌⊎◌, Bool, true, false, not, ◌&&◌, ◌||◌, Option, none, some,
  ◌==◌, if◌then◌else◌, arith, u64,
}
use native.Mathlib.Decide.{ℕ_discrete}
use ssr.Map.{does_not_exist, expect_does_not_exist, expect_exists, expect_whatever}
use ssr.HashTable.{Ht, tombstone, copied_value, add_count, minus_one}
use ssr.HashTable.Ops.{is_met, existed, adjust_count}
use ssr.HashTable.View.{plain, passes}
use ssr.HashTable.Chain.{view}
use ssr.HashTable.Kept.{Kept, Kept-refl, Kept-set, Every}
use ssr.HashTable.Store.{value, IsValue}
use ssr.HashTable.Moved.{Stable}
use ssr.HashTable.Writes.{set_table-Stable, set_table-value}

-- Whether a compare-and-set whose key has the value `old` meets its expectation.
abbrev pub meets : (old expected : ℕ) → Bool
meets old expected =
    expected == expect_whatever
    || expected == old
    || expected == (if old == does_not_exist then expect_does_not_exist else expect_exists)

-- The value of the key afterwards.
abbrev pub set_value : (old expected new : ℕ) → ℕ
set_value old expected new = if meets old expected then new else old

-- A table sent the key on to the next one.
pub record Onward (ht s : Ht) (b t q : ℕ) : Type 0 where
  pub stable : Stable s b
  pub pass : (w : ℕ) → b ≤ w → w < t + 1 → passes (view s) w q ≡ true
  pub same_values : (p : ℕ) → p ≢ 0 → value s b p ≡ value ht b p
  pub next : t + 1 < s.installed
  pub kept : Kept ht s Every
  pub same_first : s.first ≡ ht.first
  pub room :
      (s.installed ≡ ht.installed)
      ⊎ (((view ht).look t q ≡ none)
          × (s.installed ≡ ht.installed + 1)
          × (t + 1 + 1 ≡ s.installed)
          × ((j : ℕ) × ((view s).look (t + 1) q ≡ some (j, true))))

-- The compare-and-set is done; `old` is the old contents of the entry.
pub record Answered (ht s : Ht) (b q expected new old : ℕ) : Type 0 where
  pub stable : Stable s b
  pub returned : plain old ≡ value ht b q
  pub not_moved : (old == copied_value) ≡ false
  pub now : value s b q ≡ set_value (value ht b q) expected new
  pub others : (p : ℕ) → p ≢ 0 → p ≢ q → value s b p ≡ value ht b p
  pub same_number : s.installed ≡ ht.installed
  pub kept : Kept ht s Every
  pub same_first : s.first ≡ ht.first

abbrev pub Outcome : Ht → (b t q expected new : ℕ) → Option (ℕ × Ht) → Type 0
Outcome ht b t q expected new r =
    ((s : Ht) × (r ≡ some (copied_value, s)) × Onward ht s b t q)
    ⊎ ((old : ℕ) × (s : Ht) × (r ≡ some (old, s)) × Answered ht s b q expected new old)

-- What a compare-and-set may set: a value, or DOES_NOT_EXIST, which removes the key.
abbrev pub IsNew : ℕ → Type 0
IsNew new = (new ≡ 0) ⊎ IsValue new

pub is_met-plain :
    (v expected : ℕ) → expected ≢ tombstone → is_met v expected ≡ meets (plain v) expected
is_met-plain v expected ne = elim (ℕ_discrete v tombstone) [
  | yes removed ↦ rw removed (by_removed expected ne)
  | no other ↦ elim (ℕ_discrete v 0) [
    | yes empty ↦ rw empty refl
    | no full ↦
        let e : (v == tombstone) ≡ false = ground arith in
        let e' : (v == 0) ≡ false = ground arith in rw e (rw e' refl)
  ]
]
  where
    by_removed :
        (expected : ℕ) → expected ≢ tombstone → is_met tombstone expected ≡ meets 0 expected
    by_removed expected ne = ground arith

pub adjust_count-Stable :
    {ht : Ht} {b : ℕ} (t v new : ℕ)
    → Stable ht b
    → t < ht.installed
    → Stable (adjust_count ht t v new) b
adjust_count-Stable {ht} {b} t v new stable lt =
    by_cases (existed v && new == does_not_exist) (not (existed v) && not (new == does_not_exist))
  where
    counted : (n : ℕ) → Stable (add_count ht t n) b
    counted n =
        set_table-Stable t (record (ht.tables t) { count = u64 ((ht.tables t).count + n) }) stable
          refl lt

    by_cases :
        (less more : Bool)
        → Stable
            (if less then add_count ht t minus_one else if more then add_count ht t 1 else ht)
            b
    by_cases true more = counted minus_one
    by_cases false true = counted 1
    by_cases false false = stable

pub adjust_count-value :
    (ht : Ht) (t v new b p : ℕ) → value (adjust_count ht t v new) b p ≡ value ht b p
adjust_count-value ht t v new b p =
    by_cases (existed v && new == does_not_exist) (not (existed v) && not (new == does_not_exist))
  where
    counted : (n : ℕ) → value (add_count ht t n) b p ≡ value ht b p
    counted n =
        set_table-value ht t (record (ht.tables t) { count = u64 ((ht.tables t).count + n) }) b p
          refl

    by_cases :
        (less more : Bool)
        → value
            (if less then add_count ht t minus_one else if more then add_count ht t 1 else ht)
            b
            p
          ≡ value ht b p
    by_cases true more = counted minus_one
    by_cases false true = counted 1
    by_cases false false = refl

pub adjust_count-number :
    (ht : Ht) (t v new : ℕ) → (adjust_count ht t v new).installed ≡ ht.installed
adjust_count-number ht t v new = ground arith

pub adjust_count-Kept : (ht : Ht) (t v new : ℕ) → Kept ht (adjust_count ht t v new) Every
adjust_count-Kept ht t v new =
    by_cases (existed v && new == does_not_exist) (not (existed v) && not (new == does_not_exist))
  where
    counted : (n : ℕ) → Kept ht (add_count ht t n) Every
    counted n =
        Kept-set (Kept-refl ht Every) t
          (record (ht.tables t) { count = u64 ((ht.tables t).count + n) }) refl (λ k e. refl)

    by_cases :
        (less more : Bool)
        → Kept ht
            (if less then add_count ht t minus_one else if more then add_count ht t 1 else ht)
            Every
    by_cases true more = counted minus_one
    by_cases false true = counted 1
    by_cases false false = Kept-refl ht Every

pub adjust_count-first : (ht : Ht) (t v new : ℕ) → (adjust_count ht t v new).first ≡ ht.first
adjust_count-first ht t v new = ground arith
