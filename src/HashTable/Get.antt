-- ===== src/HashTable/Get.antt =====
-- `ht_get` of src/map/hashtable.c: it reads the value of the key.
use ssr.Base.{
  ℕ, zero, suc, ◌+◌, ◌-◌, ◌≤◌, ◌<◌, ◌≡◌, refl, ap, ◌∙◌, inl, inr, true, false, none, some, ◌==◌,
  if◌then◌else◌, Bool-cases, arith,
}
use native.Mathlib.Decide.{dec_lt}
use ssr.Murmur.{murmur32_8b}
use ssr.HashTable.{Ht, is_tagged1, tombstone, has_next, hti_lookup, key_hash}
use ssr.HashTable.Copy.{is_copied}
use ssr.HashTable.Ops.{hti_get, ht_get}
use ssr.HashTable.View.{Look-cases, plain, value_from}
use ssr.HashTable.Chain.{view, hti_lookup-look}
use ssr.HashTable.Frame.{settled_copied}
use ssr.HashTable.Store.{value}
use ssr.HashTable.Moved.{Stable}

pub lookup_in :
    (ht : Ht) (t q : ℕ)
    → ht.key_type ≡ none
    → hti_lookup ht.key_type (ht.tables t) q (murmur32_8b q) ≡ (view ht).look t q
lookup_in ht t q kt =
    ap (λ k. hti_lookup k (ht.tables t) q (murmur32_8b q)) kt ∙ hti_lookup-look (ht.tables t) q

-- From table `t` on.
hti_get-value :
    {b : ℕ} (fuel : ℕ) (ht : Ht) (t q : ℕ)
    → Stable ht b
    → t < ht.installed
    → ht.installed ≤ fuel + t
    → hti_get fuel ht t q (murmur32_8b q) ≡ some (value_from (view ht) (ht.installed - t) t q, ht)
unfolding hti_get
hti_get-value zero ht t q stable lt enough = absurd (omega arith)
hti_get-value (suc fuel) ht t q stable lt enough =
    let left : ht.installed - t ≡ suc (ht.installed - (t + 1)) = omega arith in
    rw left (elim (Look-cases ((view ht).look t q)) [
      | inl lost ↦
          rw (hti_get, lookup_in ht t q stable.integer_keys ∙ lost, lost)
            (elim (dec_lt (t + 1) ht.installed) [
              | yes next ↦
                  let has : has_next ht t ≡ true = ground arith in
                  rw has (hti_get-value fuel ht (t + 1) q stable next (omega arith))
              | no last ↦
                  let lacks : has_next ht t ≡ false = ground arith in
                  let over : ht.installed - (t + 1) ≡ 0 = omega arith in rw (lacks, over) refl
            ])
      | inr (inl (i, vacant)) ↦
          rw (hti_get, lookup_in ht t q stable.integer_keys ∙ vacant, vacant) refl
      | inr (inr (i, found)) ↦
          rw (hti_get, lookup_in ht t q stable.integer_keys ∙ found, found)
            (elim (Bool-cases (is_tagged1 ((ht.tables t).val i))) [
              | inr live ↦ rw live (ap (λ x. some (x, ht)) (live_read _ ((ht.tables t).val i) live))
              | inl tagged ↦
                  let copied = settled_copied (stable.settled t i lt) tagged in
                  let next : t + 1 < ht.installed = elim (dec_lt (t + 1) ht.installed) [
                    | yes more ↦ more
                    | no over ↦ absurd (ground (arith, tagged, stable.inv.last t i (omega arith)))
                  ] in
                  rw (tagged, copied) (hti_get-value fuel ht (t + 1) q stable next (omega arith))
            ])
    ])
  where
    live_read :
        (rest v : ℕ)
        → is_tagged1 v ≡ false
        → (if v == tombstone then 0 else v) ≡ (if is_copied v then rest else plain v)
    live_read rest v e = ground (arith, e)

-- On tables with integer keys in which no entry is being copied, ht_get returns within the fuel the
-- value that the key has in the chain of tables and changes nothing.
pub ht_get-value :
    (fuel : ℕ) (ht : Ht) (q : ℕ)
    → Stable ht ht.first
    → ht.installed ≤ fuel + ht.first
    → ht_get fuel ht q ≡ some (value ht ht.first q, ht)
unfolding ht_get key_hash
ht_get-value fuel ht q stable enough =
    let same_hash : key_hash ht.key_type q ≡ murmur32_8b q = rw stable.integer_keys refl in
    rw same_hash (hti_get-value fuel ht ht.first q stable stable.inv.some_table enough)
