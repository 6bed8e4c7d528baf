-- ===== src/HashTable.antt =====
-- src/map/hashtable.c, the hash table after Cliff Click, in the build for 64 bits and with the memory
-- allocator of src/runtime: the tables, the probing, and what starts and ends a copy. One thread runs
-- it. Each CAS is there with its branch for a lost race.
pub mod Copy
pub mod Ops
pub mod Iter
pub mod Probe
pub mod Buckets
pub mod View
pub mod Install
pub mod Change
pub mod Grow
pub mod Chain
pub mod Kept
pub mod Frame
pub mod Store
pub mod Pending
pub mod Copying
pub mod Entry
pub mod Moved
pub mod CopyEntry
pub mod Help
pub mod HelpCopy
pub mod Release
pub mod Advance
pub mod Get
pub mod Writes
pub mod Outcome
pub mod CasEntry
pub mod Cas
pub mod Loop
pub mod Refine
pub mod HtCas
pub mod Implements
pub mod Bounds
pub mod Examples
use ssr.Base.{
  ℕ, zero, suc, ◌+◌, ◌-◌, ◌*◌, ◌/◌, ◌%◌, ◌^◌, Bool, true, false, not, ◌&&◌, ◌||◌, Option, none,
  some, List, [], ◌∷◌, ◌==◌, ltb, if◌then◌else◌, update, u64,
}
use ssr.Datatype.{Datatype}
use ssr.Map.{does_not_exist}
use ssr.Murmur.{murmur32_8b}

-- `hti_t`: the entries by index, and the counters.
pub record Hti : Type 0 where
  pub key : ℕ → ℕ
  pub val : ℕ → ℕ
  pub count : ℕ
  pub key_count : ℕ
  pub copy_scan : ℕ
  pub num_entries_copied : ℕ
  pub probe : ℕ
  pub ref_count : ℕ
  pub scale : ℕ

-- What is handed to `rcu_defer_free`: a key that is a pointer, the entries of a table, a table.
pub data Deferred : Type 0 where
  key_ptr entries header : (x : ℕ) → Deferred

-- `struct ht`. Its tables are numbered in the order in which they were installed, so the `next` of
-- a table is the one with the next number, if that is installed; `first` is `ht->hti`.
pub record Ht : Type 0 where
  pub tables : ℕ → Hti
  pub installed : ℕ
  pub first : ℕ
  pub key_type : Option Datatype
  pub hti_copies : ℕ
  pub deferred : List Deferred

-- TAG_VALUE, IS_TAGGED and STRIP_TAG with TAG1, the highest bit.
abbrev pub tag1 : ℕ → ℕ
tag1 v = v % 2 ^ 63 + 2 ^ 63

abbrev pub is_tagged1 : ℕ → Bool
is_tagged1 v = if ltb v (2 ^ 63) then false else true

abbrev pub strip_tag1 : ℕ → ℕ
strip_tag1 v = v % 2 ^ 63

abbrev pub copied_value : ℕ
copied_value = 2 ^ 63

abbrev pub tombstone : ℕ
tombstone = 2 ^ 63 - 1

abbrev pub entries_per_bucket : ℕ
entries_per_bucket = 4

abbrev pub entries_per_copy_chunk : ℕ
entries_per_copy_chunk = 8

abbrev pub min_scale : ℕ
min_scale = 4

-- GET_PTR: the 48 lowest bits.
abbrev pub get_ptr : ℕ → ℕ
get_ptr x = x % 2 ^ 48

abbrev pub size_of : Hti → ℕ
size_of hti = 2 ^ hti.scale

abbrev pub has_next : Ht → ℕ → Bool
has_next ht t = ltb (t + 1) ht.installed

abbrev pub set_table : Ht → ℕ → Hti → Ht
set_table ht t hti = record ht { tables = update ht.tables t hti }

abbrev pub set_entry_val : Ht → (t i v : ℕ) → Ht
set_entry_val ht t i v =
    let hti = ht.tables t in set_table ht t (record hti { val = update hti.val i v })

abbrev pub set_entry_key : Ht → (t i k : ℕ) → Ht
set_entry_key ht t i k =
    let hti = ht.tables t in set_table ht t (record hti { key = update hti.key i k })

-- `SYNC_CAS` of a value and of a key: the old contents, and the state after it.
abbrev pub cas_entry_val : Ht → (t i old new : ℕ) → ℕ × Ht
cas_entry_val ht t i old new =
    let v = (ht.tables t).val i in (v, if v == old then set_entry_val ht t i new else ht)

abbrev pub cas_entry_key : Ht → (t i old new : ℕ) → ℕ × Ht
cas_entry_key ht t i old new =
    let k = (ht.tables t).key i in (k, if k == old then set_entry_key ht t i new else ht)

-- `SYNC_ADD` of a counter, with 1 and with -1.
abbrev pub add_count : Ht → (t n : ℕ) → Ht
add_count ht t n =
    let hti = ht.tables t in set_table ht t (record hti { count = u64 (hti.count + n) })

abbrev pub minus_one : ℕ
minus_one = 2 ^ 64 - 1

abbrev pub add_key_count : Ht → ℕ → Ht
add_key_count ht t =
    let hti = ht.tables t in set_table ht t (record hti { key_count = u64 (hti.key_count + 1) })

abbrev pub add_copied : Ht → (t n : ℕ) → Ht
add_copied ht t n =
    let hti = ht.tables t in
    set_table ht t (record hti { num_entries_copied = u64 (hti.num_entries_copied + n) })

pub key_hash : Option Datatype → (key : ℕ) → ℕ
key_hash key_type key = elim key_type [ none ↦ murmur32_8b key | some t ↦ t.hash key ]

-- The highest `ht_scale` bits of the hash choose the next bucket; scales above 32 are left out.
pub get_next_ndx : (old_ndx key_hash ht_scale : ℕ) → ℕ
get_next_ndx old_ndx key_hash ht_scale =
    let incr = key_hash / 2 ^ (32 - ht_scale) in
    (old_ndx + (if ltb incr entries_per_bucket then incr + entries_per_bucket else incr))
    % 2 ^ ht_scale

-- Whether the key of an entry is the one that is looked up.
abbrev pub key_matches : Option Datatype → (key hash ent_key : ℕ) → Bool
key_matches key_type key hash ent_key = elim key_type [
  | none ↦ ent_key == key
  | some t ↦ hash / 2 ^ 16 == ent_key / 2 ^ 48 && t.cmp (get_ptr ent_key) key == 0
]

-- The inner loop of `hti_lookup`, with `left` entries of the bucket to go. A result is an entry and
-- whether it is empty.
pub bucket_loop : (left : ℕ) → Hti → (ℕ → Bool) → (ndx j : ℕ) → Option (ℕ × Bool)
bucket_loop zero hti matches ndx j = none
bucket_loop (suc left) hti matches ndx j =
    let ent = (ndx - ndx % entries_per_bucket) + (ndx + j) % entries_per_bucket in
    let rest = bucket_loop left hti matches ndx (j + 1) in
    if hti.key ent == does_not_exist
    then some (ent, true)
    else if matches (hti.key ent)
    then some (ent, false)
    else rest

-- The outer loop, with `left` buckets to go.
pub probe_loop : (left : ℕ) → Hti → (ℕ → Bool) → (hash ndx : ℕ) → Option (ℕ × Bool)
probe_loop zero hti matches hash ndx = none
probe_loop (suc left) hti matches hash ndx =
    let rest = probe_loop left hti matches hash (get_next_ndx ndx hash hti.scale) in
    elim (bucket_loop entries_per_bucket hti matches ndx 0) [ none ↦ rest | some r ↦ some r ]

pub hti_lookup : Option Datatype → Hti → (key hash : ℕ) → Option (ℕ × Bool)
unfolding bucket_loop probe_loop
hti_lookup key_type hti key hash =
    probe_loop hti.probe hti (key_matches key_type key hash) hash (hash % 2 ^ hti.scale)

pub probe_limit : (scale : ℕ) → ℕ
probe_limit scale =
    let probe = scale * 3 / 2 + 2 in
    let quarter = 2 ^ (scale - 2) / entries_per_bucket in
    if ltb quarter probe && ltb 4 quarter then quarter else probe

pub hti_alloc : (scale : ℕ) → Hti
hti_alloc scale = record {
  key = λ _. 0;
  val = λ _. 0;
  count = 0;
  key_count = 0;
  copy_scan = 0;
  num_entries_copied = 0;
  probe = probe_limit scale;
  ref_count = 1;
  scale = scale;
}

-- The sum of the counts of `n` tables.
pub count_from : (n : ℕ) → Ht → (t : ℕ) → ℕ
count_from zero ht t = 0
count_from (suc n) ht t = u64 ((ht.tables t).count + count_from n ht (t + 1))

pub ht_count : Ht → ℕ
unfolding count_from
ht_count ht = count_from (ht.installed - ht.first) ht ht.first

-- `hti_start_copy` of the last table, whose `next` is NULL: one thread does not lose the race to set
-- it. The statistics `density` and `probe` are left out.
pub hti_start_copy : Ht → (t : ℕ) → Ht
unfolding ht_count hti_alloc
hti_start_copy ht t =
    let hti = ht.tables t in
    let many = ltb (2 ^ (hti.scale - 1)) (ht_count ht) in
    let full = ltb (2 ^ (hti.scale - 2) + 2 ^ (hti.scale - 3)) hti.key_count in
    let new_scale = if many || full then hti.scale + 1 else hti.scale in
    record ht {
      tables = update ht.tables ht.installed (hti_alloc new_scale);
      installed = ht.installed + 1;
      hti_copies = ht.hti_copies + 1;
    }

pub ht_alloc : Option Datatype → Ht
unfolding hti_alloc
ht_alloc key_type = record {
  tables = λ _. hti_alloc min_scale;
  installed = 1;
  first = 0;
  key_type = key_type;
  hti_copies = 0;
  deferred = [];
}
