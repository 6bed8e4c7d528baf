-- ===== src/HashTable/Iter.antt =====
-- The iterator of src/map/hashtable.c, and `ht_free`.
use ssr.Base.{ℕ, zero, suc, ◌+◌, ◌-◌, true, false, ◌||◌, Option, none, some, ◌==◌, if◌then◌else◌}
use ssr.Map.{does_not_exist}
use ssr.HashTable.{Ht, copied_value, tombstone, size_of, has_next, set_table, key_hash}
use ssr.HashTable.Copy.{real_key, hti_help_copy, hti_release}
use ssr.HashTable.Ops.{hti_get}

-- `struct ht_iter`; `next_idx` is one more than `idx`, which starts at -1.
pub record HtIter : Type 0 where
  pub hti : ℕ
  pub next_idx : ℕ

-- The copying of a table is helped until it is done.
pub help_until_done : (rounds fuel : ℕ) → Ht → (t : ℕ) → Option Ht
help_until_done zero fuel ht t = none
help_until_done (suc rounds) fuel ht t = elim (hti_help_copy fuel ht t) [
  | none ↦ none
  | some (true, ht') ↦ some ht'
  | some (false, ht') ↦ help_until_done rounds fuel ht' t
]

-- The last table is looked for from table `t` on, with the copies on the way completed.
pub find_last : (rounds fuel : ℕ) → Ht → (t : ℕ) → Option (ℕ × Ht)
unfolding help_until_done
find_last zero fuel ht t = none
find_last (suc rounds) fuel ht t = elim (has_next ht t) [
  | false ↦ some (t, ht)
  | true ↦ elim (help_until_done rounds fuel ht t) [
    | none ↦ none
    | some ht' ↦ find_last rounds fuel ht' (t + 1)
  ]
]

-- Another thread does not come between the reading of `ref_count` and its CAS.
pub ht_iter_begin : (rounds fuel : ℕ) → Ht → Option (HtIter × Ht)
unfolding find_last
ht_iter_begin zero fuel ht = none
ht_iter_begin (suc rounds) fuel ht = elim (find_last rounds fuel ht ht.first) [
  | none ↦ none
  | some (t, ht') ↦
      let hti = ht'.tables t in
      let held = set_table ht' t (record hti { ref_count = hti.ref_count + 1 }) in
      elim (hti.ref_count == 0) [
        | true ↦ ht_iter_begin rounds fuel ht'
        | false ↦ some (record { hti = t; next_idx = 0 }, held)
      ]
]

-- The loop of `ht_iter_next` over `left` indices: the first entry from `i` on with a key and a value.
pub next_entry : (left : ℕ) → Ht → (t i : ℕ) → Option ℕ
next_entry zero ht t i = none
next_entry (suc left) ht t i =
    let hti = ht.tables t in
    let key = real_key ht.key_type (hti.key i) in
    let val = hti.val i in
    let rest = next_entry left ht t (i + 1) in
    if key == does_not_exist || val == does_not_exist || val == tombstone then rest else some i

-- What `ht_iter_next` leaves behind: the value, the key where there is one, the iterator and the state.
pub record Visit : Type 0 where
  pub val : ℕ
  pub key : Option ℕ
  pub iter : HtIter
  pub ht : Ht

-- On fuel, for the calls of `hti_get` and for the recursive calls. It is not called again after the
-- end, where the code goes past the table.
pub ht_iter_next : (rounds fuel : ℕ) → HtIter → Ht → Option Visit
unfolding next_entry
ht_iter_next zero fuel iter ht = none
ht_iter_next (suc rounds) fuel iter ht =
    let t = iter.hti in
    let table_size = size_of (ht.tables t) in
    elim (next_entry (table_size - iter.next_idx) ht t iter.next_idx) [
      | none ↦ some (record {
        val = does_not_exist;
        key = none;
        iter = record { hti = t; next_idx = table_size + 1 };
        ht = ht;
      })
      | some i ↦
          let ent_key = (ht.tables t).key i in
          let key = real_key ht.key_type ent_key in
          let val = (ht.tables t).val i in
          let iter' : HtIter = record { hti = t; next_idx = i + 1 } in
          elim (val == copied_value) [
            | false ↦ some (record { val = val; key = some key; iter = iter'; ht = ht })
            | true ↦ elim (hti_get fuel ht (t + 1) ent_key (key_hash ht.key_type key)) [
              | none ↦ none
              | some (found, ht') ↦ elim (found == does_not_exist) [
                | true ↦ ht_iter_next rounds fuel iter' ht'
                | false ↦ some (record { val = found; key = some key; iter = iter'; ht = ht' })
              ]
            ]
          ]
    ]

pub ht_iter_free : HtIter → Ht → Ht
ht_iter_free iter ht = hti_release ht iter.hti

-- The loop of `ht_free` over `n` tables; the memory of the parent is freed after it.
pub release_tables : (n : ℕ) → Ht → (t : ℕ) → Ht
release_tables zero ht t = ht
release_tables (suc n) ht t = release_tables n (hti_release ht t) (t + 1)

pub ht_free : Ht → Ht
unfolding release_tables
ht_free ht = release_tables (ht.installed - ht.first) ht ht.first
