-- ===== src/HashTable/Release.antt =====
-- The release of a table of src/map/hashtable.c by its parent.
use ssr.Base.{ℕ, ◌-◌, ◌<◌, ◌≡◌, refl, ap, inl, inr, true, false, ◌==◌, Bool-cases, arith}
use native.Mathlib.Decide.{ℕ_discrete}
use ssr.HashTable.{Hti, Ht, set_table}
use ssr.HashTable.Copy.{hti_release, hti_defer_free}
use ssr.HashTable.Store.{value}
use ssr.HashTable.Moved.{Stable}
use ssr.HashTable.Writes.{set_table-Stable, set_table-value}

-- The parent gives the table up.
module _ {ht : Ht} {b t : ℕ} (stable : Stable ht b) (lt : t < ht.installed) where
  abbrev given_up : Ht
  given_up = set_table ht t (record (ht.tables t) { ref_count = (ht.tables t).ref_count - 1 })

  given_up-Stable : Stable given_up b
  given_up-Stable =
      set_table-Stable t (record (ht.tables t) { ref_count = (ht.tables t).ref_count - 1 }) stable
        refl lt

  pub hti_release-Stable : Stable (hti_release ht t) b
  unfolding hti_release hti_defer_free
  hti_release-Stable = elim (Bool-cases ((given_up.tables t).ref_count == 0)) [
    | inl last ↦ rw last (record {
      integer_keys = given_up-Stable.integer_keys;
      inv = given_up-Stable.inv;
      scales = given_up-Stable.scales;
      settled = given_up-Stable.settled;
    })
    | inr shared ↦ rw shared given_up-Stable
  ]

pub hti_release-value : (ht : Ht) (t b p : ℕ) → value (hti_release ht t) b p ≡ value ht b p
unfolding hti_release hti_defer_free
hti_release-value ht t b p =
    let x = record (ht.tables t) { ref_count = (ht.tables t).ref_count - 1 } in
    let same = set_table-value ht t x b p refl in
    elim (Bool-cases (((set_table ht t x).tables t).ref_count == 0)) [
      | inl last ↦ rw last same
      | inr shared ↦ rw shared same
    ]

pub hti_release-table :
    (ht : Ht) (t w : ℕ)
    → (((hti_release ht t).tables w).val ≡ (ht.tables w).val)
      × (((hti_release ht t).tables w).scale ≡ (ht.tables w).scale)
      × ((hti_release ht t).installed ≡ ht.installed)
unfolding hti_release hti_defer_free
hti_release-table ht t w = elim (Bool-cases (((set_table ht t x).tables t).ref_count == 0)) [
  | inl last ↦ rw last (at_table, of_scale, refl)
  | inr shared ↦ rw shared (at_table, of_scale, refl)
]
  where
    x : Hti
    x = record (ht.tables t) { ref_count = (ht.tables t).ref_count - 1 }

    at_table : ((set_table ht t x).tables w).val ≡ (ht.tables w).val
    at_table = elim (ℕ_discrete t w) [
      | yes here ↦ let e : (t == w) ≡ true = ground arith in rw e (ap (λ a. (ht.tables a).val) here)
      | no there ↦ let e : (t == w) ≡ false = ground arith in rw e refl
    ]

    of_scale : ((set_table ht t x).tables w).scale ≡ (ht.tables w).scale
    of_scale = elim (ℕ_discrete t w) [
      | yes here ↦
          let e : (t == w) ≡ true = ground arith in rw e (ap (λ a. (ht.tables a).scale) here)
      | no there ↦ let e : (t == w) ≡ false = ground arith in rw e refl
    ]

pub hti_release-first : (ht : Ht) (t : ℕ) → (hti_release ht t).first ≡ ht.first
unfolding hti_release hti_defer_free
hti_release-first ht t =
    let x = record (ht.tables t) { ref_count = (ht.tables t).ref_count - 1 } in
    elim (Bool-cases (((set_table ht t x).tables t).ref_count == 0)) [
      | inl last ↦ rw last refl
      | inr shared ↦ rw shared refl
    ]
