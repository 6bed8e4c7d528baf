-- ===== src/HashTable/Ops.antt =====
-- The operations of src/map/hashtable.c.
use ssr.Base.{
  ℕ, zero, suc, ◌+◌, ◌*◌, ◌/◌, ◌^◌, Bool, true, false, not, ◌&&◌, ◌||◌, Option, none, some, ◌==◌,
  if◌then◌else◌,
}
use ssr.Datatype.{Datatype}
use ssr.Map.{does_not_exist, expect_does_not_exist, expect_exists, expect_whatever}
use ssr.HashTable.{
  Ht, is_tagged1, copied_value, tombstone, has_next, cas_entry_val, cas_entry_key, add_count,
  minus_one, add_key_count, add_copied, key_hash, hti_lookup, hti_start_copy,
}
use ssr.HashTable.Copy.{is_copied, hti_copy_entry, hti_help_copy, hti_release}

-- The key that `hti_cas` installs: a clone, with the highest bits of the hash.
abbrev pub new_key_of : Option Datatype → (key hash : ℕ) → ℕ
new_key_of key_type key hash = elim key_type [
  | none ↦ key
  | some t ↦ hash / 2 ^ 16 * 2 ^ 48 + t.clone key
]

-- Before `hti_cas` and `hti_get` leave an entry whose value is tagged, its copy is completed.
abbrev pub complete_copy : ℕ → Ht → (t ent hash : ℕ) → Option Ht
complete_copy fuel ht t ent hash =
    if is_copied ((ht.tables t).val ent)
    then some ht
    else elim (hti_copy_entry fuel ht t ent hash (t + 1)) [
      | none ↦ none
      | some (did_copy, ht') ↦ some (if did_copy then add_copied ht' t 1 else ht')
    ]

abbrev pub existed : (ent_val : ℕ) → Bool
existed ent_val = not (ent_val == tombstone) && not (ent_val == does_not_exist)

-- Whether the old value is consistent with the caller's expectation.
abbrev pub is_met : (ent_val expected : ℕ) → Bool
is_met ent_val expected =
    expected == expect_whatever
    || expected == ent_val
    || expected == (if existed ent_val then expect_exists else expect_does_not_exist)

-- Whether there is no need to update.
abbrev pub is_same : (ent_val new : ℕ) → Bool
is_same ent_val new = (new == does_not_exist && not (existed ent_val)) || ent_val == new

-- The value count after a value was set.
abbrev pub adjust_count : Ht → (t ent_val new : ℕ) → Ht
adjust_count ht t ent_val new =
    if existed ent_val && new == does_not_exist
    then add_count ht t minus_one
    else if not (existed ent_val) && not (new == does_not_exist)
    then add_count ht t 1
    else ht

-- After the CAS of the value.
abbrev pub after_cas :
    (retry : Ht → Option (ℕ × Ht)) → (cas : ℕ × Ht) → (t ent_val new : ℕ) → Option (ℕ × Ht)
after_cas retry (v, ht) t ent_val new =
    if v == ent_val then some (ent_val, adjust_count ht t ent_val new) else retry ht

-- What is stored for `new`.
abbrev pub stored_for : (new : ℕ) → ℕ
stored_for new = if new == does_not_exist then tombstone else new

-- The rest of `hti_cas`, at the entry of the key; `retry` is the recursive call.
abbrev pub cas_entry :
    (retry : Ht → Option (ℕ × Ht)) → ℕ → Ht → (t ent hash expected new : ℕ) → Option (ℕ × Ht)
cas_entry retry fuel ht t ent hash expected new =
    let ent_val = (ht.tables t).val ent in
    elim (is_tagged1 ent_val) [
      | true ↦ elim (complete_copy fuel ht t ent hash) [
        | none ↦ none
        | some done ↦ some (copied_value, done)
      ]
      | false ↦
          if not (is_met ent_val expected)
          then some (ent_val, ht)
          else if is_same ent_val new
          then some (ent_val, ht)
          else after_cas retry (cas_entry_val ht t ent ent_val (stored_for new)) t ent_val new
    ]

-- After the CAS of the key.
abbrev pub after_key :
    (retry : Ht → Option (ℕ × Ht))
    → ℕ
    → (cas : ℕ × Ht) → (t ent hash expected new : ℕ) → Option (ℕ × Ht)
after_key retry fuel (old_key, keyed) t ent hash expected new =
    if old_key == does_not_exist
    then cas_entry retry fuel (add_key_count keyed t) t ent hash expected new
    else retry keyed

unfoldable pub hti_cas : ℕ → Ht → (t key hash expected new : ℕ) → Option (ℕ × Ht)
hti_cas zero ht t key hash expected new = none
hti_cas (suc fuel) ht t key hash expected new =
    let retry = λ (s : Ht). hti_cas fuel s t key hash expected new in
    elim (hti_lookup ht.key_type (ht.tables t) key hash) [
      | none ↦ some (copied_value, if has_next ht t then ht else hti_start_copy ht t)
      | some (ent, true) ↦
          if not (expected == expect_whatever) && not (expected == expect_does_not_exist)
          then some (does_not_exist, ht)
          else if new == does_not_exist
          then some (does_not_exist, ht)
          else after_key retry fuel
              (cas_entry_key ht t ent does_not_exist (new_key_of ht.key_type key hash)) t ent hash
              expected new
      | some (ent, false) ↦ cas_entry retry fuel ht t ent hash expected new
    ]

-- The result, and the state: a read may have to complete a copy.
unfoldable pub hti_get : ℕ → Ht → (t key hash : ℕ) → Option (ℕ × Ht)
hti_get zero ht t key hash = none
hti_get (suc fuel) ht t key hash = elim (hti_lookup ht.key_type (ht.tables t) key hash) [
  | none ↦
      let further = hti_get fuel ht (t + 1) key hash in
      if has_next ht t then further else some (does_not_exist, ht)
  | some (ent, true) ↦ some (does_not_exist, ht)
  | some (ent, false) ↦
      let ent_val = (ht.tables t).val ent in
      elim (is_tagged1 ent_val) [
        | true ↦ elim (complete_copy fuel ht t ent hash) [
          | none ↦ none
          | some done ↦ hti_get fuel done (t + 1) key hash
        ]
        | false ↦ some (if ent_val == tombstone then does_not_exist else ent_val, ht)
      ]
]

unfoldable pub ht_get : ℕ → Ht → (key : ℕ) → Option (ℕ × Ht)
unfolding hti_get
ht_get fuel ht key = hti_get fuel ht ht.first key (key_hash ht.key_type key)

-- The loops of `ht_cas` and `ht_remove` over the tables.
unfoldable pub cas_tables : ℕ → Ht → (t key hash expected new : ℕ) → Option (ℕ × Ht)
unfolding hti_cas
cas_tables zero ht t key hash expected new = none
cas_tables (suc fuel) ht t key hash expected new = elim (hti_cas fuel ht t key hash expected new) [
  | none ↦ none
  | some (old, ht') ↦ elim (old == copied_value) [
    | true ↦ cas_tables fuel ht' (t + 1) key hash expected new
    | false ↦ some (if old == tombstone then does_not_exist else old, ht')
  ]
]

-- A copy that goes on is helped first, and the first table is left when all of it is copied;
-- one thread does not lose the race to set `ht->hti`.
unfoldable pub help_first : ℕ → Ht → Option Ht
help_first fuel ht = elim (has_next ht ht.first) [
  | false ↦ some ht
  | true ↦ elim (hti_help_copy fuel ht ht.first) [
    | none ↦ none
    | some (false, ht') ↦ some ht'
    | some (true, ht') ↦ some (hti_release (record ht' { first = ht'.first + 1 }) ht'.first)
  ]
]

-- `ht_cas` goes on with the table that was the first one when it began.
unfoldable pub ht_cas : ℕ → Ht → (key expected_val new_val : ℕ) → Option (ℕ × Ht)
unfolding cas_tables help_first
ht_cas fuel ht key expected_val new_val = elim (help_first fuel ht) [
  | none ↦ none
  | some ht' ↦ cas_tables fuel ht' ht.first key (key_hash ht.key_type key) expected_val new_val
]

unfoldable pub ht_remove : ℕ → Ht → (key : ℕ) → Option (ℕ × Ht)
unfolding cas_tables
ht_remove fuel ht key =
    cas_tables fuel ht ht.first key (key_hash ht.key_type key) expect_whatever does_not_exist
