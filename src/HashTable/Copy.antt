-- ===== src/HashTable/Copy.antt =====
-- The copying of src/map/hashtable.c.
use ssr.Base.{
  ℕ, zero, suc, ◌+◌, ◌-◌, ◌%◌, ◌^◌, Bool, true, false, ◌&&◌, ◌||◌, Option, none, some, List, ◌∷◌,
  ◌==◌, ltb, if◌then◌else◌, u64,
}
use ssr.Datatype.{Datatype}
use ssr.Map.{does_not_exist}
use ssr.HashTable.{
  Ht, Deferred, key_ptr, entries, header, tag1, strip_tag1, copied_value, tombstone,
  entries_per_copy_chunk, get_ptr, size_of, has_next, set_table, set_entry_val, cas_entry_val,
  cas_entry_key, add_count, minus_one, add_key_count, add_copied, key_hash, hti_lookup,
  hti_start_copy,
}

-- `ent_val == COPIED_VALUE || ent_val == TAG_VALUE(TOMBSTONE, TAG1)`
abbrev pub is_copied : ℕ → Bool
is_copied v = v == copied_value || v == tag1 tombstone

abbrev pub real_key : Option Datatype → (ent_key : ℕ) → ℕ
real_key key_type ent_key = elim key_type [ none ↦ ent_key | some _ ↦ get_ptr ent_key ]

-- A value `v` goes into an entry of table `u`, and the entry that it was copied from is marked.
-- The state is `none` where the entry turns out to be copied itself.
abbrev pub copy_val : Ht → (t i u j v : ℕ) → Option (Bool × Ht)
copy_val ht t i u j v =
    let (old, ht') = cas_entry_val ht u j does_not_exist (strip_tag1 v) in
    let dead = set_entry_val ht' t i copied_value in
    if old == copied_value
    then none
    else some (
        if old == does_not_exist
        then (true, add_count (add_count dead t minus_one) u 1)
        else (false, dead))

-- The value is copied, or where that fails the entry is copied to a later table.
abbrev pub copied_or : (copied retried : Option (Bool × Ht)) → Option (Bool × Ht)
copied_or none retried = retried
copied_or (some r) retried = some r

-- After the CAS of the key, which found `old_key`.
abbrev pub copy_keyed :
    (retry : Ht → (u : ℕ) → Option (Bool × Ht))
    → (cas : ℕ × Ht) → (t i ent_val u j : ℕ) → Option (Bool × Ht)
copy_keyed retry (old_key, keyed) t i ent_val u j =
    let counted = add_key_count keyed u in
    if old_key == does_not_exist
    then copied_or (copy_val counted t i u j ent_val) (retry counted (u + 1))
    else retry keyed u

-- The end of `hti_copy_entry`, from the lookup in the new table on, where the old entry is tagged;
-- `retry` is the recursive call.
abbrev pub copy_to :
    (retry : Ht → (u : ℕ) → Option (Bool × Ht))
    → Ht
    → (t i key ent_key ent_val hash u : ℕ) → Option (Bool × Ht)
copy_to retry ht t i key ent_key ent_val hash u =
    elim (hti_lookup ht.key_type (ht.tables u) key hash) [
      | none ↦ retry (if has_next ht u then ht else hti_start_copy ht u) (u + 1)
      | some (j, true) ↦
          copy_keyed retry (cas_entry_key ht u j does_not_exist ent_key) t i ent_val u j
      | some (j, false) ↦ copied_or (copy_val ht t i u j ent_val) (retry ht (u + 1))
    ]

-- `hti_copy_entry` from the tagging of the old entry on.
abbrev pub copy_tagged :
    (retry : Ht → (hash u : ℕ) → Option (Bool × Ht)) → Ht → (t i hash u : ℕ) → Option (Bool × Ht)
copy_tagged retry ht t i hash u =
    let ent_val = (ht.tables t).val i in
    let ent_key = (ht.tables t).key i in
    let tagged = set_entry_val ht t i (tag1 ent_val) in
    let key = real_key ht.key_type ent_key in
    let hash = if hash == 0 then key_hash ht.key_type key else hash in
    if is_copied ent_val
    then some (false, tagged)
    else if ent_val == tombstone
    then some (true, tagged)
    else copy_to (λ s. retry s hash) tagged t i key ent_key ent_val hash u

-- `hti_copy_entry` of entry `i` of table `t` to table `u`, on fuel. It says whether the entry was
-- not copied before.
unfoldable pub hti_copy_entry : ℕ → Ht → (t i hash u : ℕ) → Option (Bool × Ht)
hti_copy_entry zero ht t i hash u = none
hti_copy_entry (suc fuel) ht t i hash u =
    let val = (ht.tables t).val i in
    let (killed, after_kill) = cas_entry_val ht t i does_not_exist copied_value in
    let retry = λ (s : Ht) (hash u : ℕ). hti_copy_entry fuel s t i hash u in
    if is_copied val
    then some (false, ht)
    else if val == does_not_exist && killed == does_not_exist
    then some (true, after_kill)
    else copy_tagged retry (if val == does_not_exist then after_kill else ht) t i hash u

-- The loop of `hti_help_copy` over `left` entries from `i` on, and the number newly copied.
unfoldable pub copy_entries : (left fuel : ℕ) → Ht → (t i : ℕ) → Option (ℕ × Ht)
unfolding hti_copy_entry
copy_entries zero fuel ht t i = some (0, ht)
copy_entries (suc left) fuel ht t i = elim (hti_copy_entry fuel ht t i 0 (t + 1)) [
  | none ↦ none
  | some (newly, ht') ↦ elim (copy_entries left fuel ht' t (i + 1)) [
    | none ↦ none
    | some (n, ht'') ↦ some (if newly then (n + 1, ht'') else (n, ht''))
  ]
]

-- The end of `hti_help_copy`, where `n` entries of table `t` were newly copied.
abbrev pub tally : (size total_copied t : ℕ) → ℕ × Ht → Bool × Ht
tally size total_copied t (n, ht) =
    let ht' = add_copied ht t n in
    if n == 0 then (total_copied == size, ht) else ((ht'.tables t).num_entries_copied == size, ht')

abbrev pub tally_of : (size total_copied t : ℕ) → Option (ℕ × Ht) → Option (Bool × Ht)
tally_of size total_copied t none = none
tally_of size total_copied t (some copied) = some (tally size total_copied t copied)

-- Whether the copy is done.
unfoldable pub hti_help_copy : ℕ → Ht → (t : ℕ) → Option (Bool × Ht)
unfolding copy_entries
hti_help_copy fuel ht t =
    let hti = ht.tables t in
    let size = size_of hti in
    let x = hti.copy_scan in
    let panic = if ltb x (2 ^ (hti.scale + 1)) then false else true in
    let reserved = set_table ht t (record hti { copy_scan = u64 (x + entries_per_copy_chunk) }) in
    if hti.num_entries_copied == size
    then some (true, ht)
    else tally_of size hti.num_entries_copied t (
        if panic
        then copy_entries size fuel ht t 0
        else copy_entries entries_per_copy_chunk fuel reserved t (x % size))

-- The loop of `hti_defer_free`, of the first `n` entries. Its assertion is left out.
pub defer_keys : (n : ℕ) → Ht → (t : ℕ) → List Deferred
defer_keys zero ht t = ht.deferred
defer_keys (suc n) ht t =
    let hti = ht.tables t in
    let rest = defer_keys n ht t in
    if hti.val n == copied_value then rest else elim ht.key_type [
      | none ↦ rest
      | some _ ↦ if hti.key n == does_not_exist then rest else key_ptr (get_ptr (hti.key n)) ∷ rest
    ]

unfoldable pub hti_defer_free : Ht → (t : ℕ) → Ht
unfolding defer_keys
hti_defer_free ht t = record ht {
  deferred = header t ∷ entries t ∷ defer_keys (size_of (ht.tables t)) ht t;
}

unfoldable pub hti_release : Ht → (t : ℕ) → Ht
unfolding hti_defer_free
hti_release ht t =
    let hti = ht.tables t in
    let ht' = set_table ht t (record hti { ref_count = hti.ref_count - 1 }) in
    if (ht'.tables t).ref_count == 0 then hti_defer_free ht' t else ht'
