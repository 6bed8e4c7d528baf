-- ===== src/HashTable/Examples.antt =====
-- Runs of the hash table of src/map/hashtable.c.
use ssr.Base.{
  sum_below, ℕ, ◌+◌, ◌*◌, ◌^◌, ◌≤◌, ◌<◌, ◌≡◌, refl, ◌∙◌, ◌≢◌, Bool, true, none, some, [], ◌∷◌,
  arith,
}
use ssr.Murmur.{murmur32, murmur32_8b, mix_word, mix_key, final_mix}
use ssr.Murmur.Words.{murmur32-two_words}
use ssr.Map.{does_not_exist, expect_whatever}
use ssr.HashTable.{
  Ht, ht_alloc, hti_alloc, hti_lookup, probe_loop, bucket_loop, hti_start_copy, key_hash,
  probe_limit, set_entry_key, set_entry_val, size_of, tombstone,
}
use ssr.HashTable.Copy.{hti_copy_entry, hti_help_copy}
use ssr.HashTable.Ops.{ht_cas, ht_get, hti_get, ht_remove}
use ssr.HashTable.Bounds.{hti_lookup-bound}
use ssr.HashTable.Probe.{first_fit, same_as}
use ssr.HashTable.Buckets.{lines_from, hti_lookup-lines}
use ssr.HashTable.Implements.{map_impl_ht, IsMap, HasRoom, map_impl_ht_laws}
use ssr.Map.Interface.{map_set, set_if}
use ssr.HashTable.Store.{value, IsValue}
use ssr.HashTable.Moved.{Stable, Moved}
use ssr.HashTable.CopyEntry.{hti_copy_entry-Moved}
use ssr.HashTable.Get.{ht_get-value}
use ssr.HashTable.Writes.{grown-Stable, keyed-Stable, keyed-look, written-Stable}
use ssr.HashTable.Chain.{view, hti_lookup-look}
use ssr.HashTable.HelpCopy.{Accounts, Helped, hti_help_copy-Helped}
use ssr.HashTable.HtCas.{SetDone, ht_cas-SetDone, get_after_set}
use ssr.HashTable.Refine.{ht_alloc-Stable, ht_alloc-value, get_after_remove}

abbrev fresh : Ht
fresh = ht_alloc none

-- Entry 5 is the first one on the path of key 5.
abbrev keyed : Ht
keyed = set_entry_key fresh 0 5 5

abbrev filled : Ht
filled = set_entry_val keyed 0 5 50

fifty-IsValue : IsValue 50
fifty-IsValue = record { nonzero = omega arith; small = omega arith }

fresh_look : (view fresh).look 0 5 ≡ some (5, true)
unfolding ht_alloc hti_alloc probe_limit murmur32_8b mix_word mix_key final_mix
fresh_look = refl

filled-Stable : Stable filled 0
unfolding ht_alloc hti_alloc
filled-Stable =
    let pass = λ (w : ℕ) (le : 0 ≤ w) (lt : w < 0). absurd (omega arith) in
    let keyed_stable =
      keyed-Stable ht_alloc-Stable (omega arith) (omega arith) (omega arith) fresh_look pass in
    written-Stable 50 keyed_stable (omega arith) (omega arith) (omega arith)
      (keyed-look ht_alloc-Stable (omega arith) (omega arith) (omega arith) fresh_look pass) refl
      refl

-- The same while a copy is under way.
abbrev growing : Ht
growing = hti_start_copy filled 0

growing-Stable : Stable growing 0
unfolding ht_alloc
growing-Stable = grown-Stable 0 filled-Stable (omega arith)

growing-Accounts : Accounts growing 0
unfolding ht_alloc hti_alloc hti_start_copy sum_below
growing-Accounts = record {
  counted = refl;
  aligned = refl;
  min_size = omega arith;
  max_size = omega arith;
}

get_after_set_example :
    (old : ℕ) × (s : Ht) × (ht_cas 20 growing 7 expect_whatever 50 ≡ some (old, s))
    × (ht_get 20 growing 7 ≡ some (old, growing))
    × (ht_get 20 s 7 ≡ some (50, s))
    × ((p : ℕ)
        → p ≢ 0
        → p ≢ 7
        → (v : ℕ) × (ht_get 20 growing p ≡ some (v, growing)) × (ht_get 20 s p ≡ some (v, s)))
unfolding ht_alloc hti_alloc hti_start_copy
get_after_set_example =
    get_after_set 20 growing 7 growing-Stable growing-Accounts (omega arith) (omega arith) 50
      fifty-IsValue (omega arith)

ht_cas-SetDone_example :
    (s : Ht) × (ht_cas 20 growing 5 50 60 ≡ some (value growing 0 5, s)) × SetDone growing s 5 50 60
unfolding ht_alloc hti_alloc hti_start_copy
ht_cas-SetDone_example =
    ht_cas-SetDone 20 growing 5 growing-Stable growing-Accounts (omega arith) (omega arith) 50 60
      (omega arith) (record { nonzero = omega arith; small = omega arith })

hti_help_copy-Helped_example :
    (f : Bool) × (r : Ht) × (hti_help_copy 20 growing 0 ≡ some (f, r)) × Helped growing r 0 0 f
unfolding ht_alloc hti_alloc hti_start_copy
hti_help_copy-Helped_example =
    hti_help_copy-Helped 20 growing-Stable (omega arith) (omega arith) growing-Accounts
      (omega arith)

get_after_remove_example :
    (old : ℕ) × (s : Ht) × (ht_remove 9 growing 5 ≡ some (old, s))
    × (ht_get 9 growing 5 ≡ some (old, growing))
    × (ht_get 9 s 5 ≡ some (does_not_exist, s))
    × ((p : ℕ)
        → p ≢ 0
        → p ≢ 5
        → (v : ℕ) × (ht_get 9 growing p ≡ some (v, growing)) × (ht_get 9 s p ≡ some (v, s)))
unfolding ht_alloc hti_start_copy
get_after_remove_example = get_after_remove 9 growing 5 growing-Stable (omega arith) (omega arith)

ht_get-value_example : ht_get 9 growing 5 ≡ some (value growing 0 5, growing)
unfolding ht_alloc hti_start_copy
ht_get-value_example = ht_get-value 9 growing 5 growing-Stable (omega arith)

-- Entry 5 is copied to the new table.
hti_copy_entry-Moved_example :
    (newly : Bool) × (s : Ht) × (hti_copy_entry 10 growing 0 5 0 1 ≡ some (newly, s))
    × Moved growing s 0 0 5 newly
unfolding ht_alloc hti_start_copy key_hash
hti_copy_entry-Moved_example =
    hti_copy_entry-Moved 0 5 growing-Stable (omega arith) (omega arith) 9 0 refl (omega arith)

hti_lookup-bound_example : 5 < size_of (hti_alloc 4)
unfolding hti_alloc probe_limit ht_alloc
hti_lookup-bound_example =
    hti_lookup-bound none (hti_alloc 4) 5 (murmur32_8b 5) 5 true (omega arith)
      (hti_lookup-look (hti_alloc 4) 5 ∙ fresh_look)

hti_lookup-lines_example :
    hti_lookup none (filled.tables 0) 5 (murmur32_8b 5)
    ≡ first_fit
        (filled.tables 0).key
        (same_as 5)
        (lines_from (filled.tables 0).probe 0 (filled.tables 0).scale (murmur32_8b 5))
hti_lookup-lines_example = hti_lookup-lines (filled.tables 0) 5 (murmur32_8b 5)

murmur32-two_words_example :
    murmur32 (1 ∷ 2 ∷ 3 ∷ 4 ∷ 5 ∷ 6 ∷ 7 ∷ 8 ∷ []) 8 ≡ murmur32_8b (67305985 * 2 ^ 32 + 134678021)
murmur32-two_words_example =
    murmur32-two_words 1 2 3 4 5 6 7 8 (omega arith) (omega arith) (omega arith) (omega arith)
      (omega arith) (omega arith) (omega arith) (omega arith)

-- A read of key 5 during the copy.
growing_read : ht_get 9 growing 5 ≡ some (50, growing)
unfolding ht_get hti_get hti_lookup probe_loop bucket_loop key_hash ht_alloc hti_alloc probe_limit
    hti_start_copy murmur32_8b mix_word mix_key final_mix
growing_read = refl

-- A new table is an empty map with room.
fresh-HasRoom : HasRoom fresh (λ _. 0)
unfolding ht_alloc hti_alloc sum_below
fresh-HasRoom = record {
  is_map = record {
    stable = ht_alloc-Stable;
    values = λ p ne. ht_alloc-value p;
    small = λ p. omega arith;
  };
  accounts = record {
    counted = refl;
    aligned = refl;
    min_size = omega arith;
    max_size = omega arith;
  };
}

fresh_set :
    (s : Ht) × (map_set map_impl_ht fresh 7 50 ≡ some (0, s))
    × IsMap s (set_if (λ _. 0) 7 expect_whatever 50)
fresh_set =
    map_impl_ht_laws.cas_law fresh (λ _. 0) 7 expect_whatever 50 fresh-HasRoom (omega arith)
      fifty-IsValue refl

-- The expectation TOMBSTONE is met by a key that was removed.
removed_is_expected :
    (s : Ht) × (ht_remove 9 filled 5 ≡ some (50, s))
    × (s' : Ht) × (ht_cas 9 s 5 tombstone 77 ≡ some (does_not_exist, s'))
    × (ht_get 9 s' 5 ≡ some (77, s'))
unfolding ht_alloc hti_alloc probe_limit murmur32_8b mix_word mix_key final_mix ht_remove ht_cas
    hti_lookup key_hash ht_get
removed_is_expected = (_, refl, _, refl, refl)
