-- ===== src/Txn/Collected.antt =====
-- The collection in txn_map_get of src/txn/txn.c can free an update that another transaction reads.
use ssr.Base.{ℕ, suc, ◌≤◌, ◌<◌, ◌≡◌, ◌≢◌, ◌∙◌, refl, ap, true, false, some, ◌∷◌, ltb, leb, arith}
use ssr.Txn.{running, number, plain, rec, Store, update_block, word}
use ssr.Txn.Ops.{sl_min_key}
use ssr.Txn.Get.{found, find_visible, free_chain, skip_aborted, collect, cut_next, txn_map_get}
use ssr.Txn.Collect.{collect-old}

-- The second update of a key is the last one, lies above a value other than DOES_NOT_EXIST and is older
-- than every active transaction, and the first one is newer than the read version of `w`, which still
-- reads the second one.
pub record IsNeeded (m : Store) (t w key u n c d v : ℕ) : Type 0 where
  pub t_runs : (m.txns t).state ≡ running
  pub w_runs : (m.txns w).state ≡ running
  pub head : m.map key ≡ rec u
  pub head_version : (m.updates u).version ≡ number c
  pub head_next : (m.updates u).next ≡ rec n
  pub second_version : (m.updates n).version ≡ number d
  pub second_next : (m.updates n).next ≡ plain v
  pub value_set : v ≢ 0
  pub distinct : n ≢ u
  pub t_sees : c ≤ (m.txns t).rv
  pub w_misses : (m.txns w).rv < c
  pub w_sees : d ≤ (m.txns w).rv
  pub old : d < sl_min_key m.active

module _ (m : Store) (t w key u n c d v : ℕ) (needed : IsNeeded m t w key u n c d v) where
  abbrev pub collected : Store
  collected = record (cut_next m n) { freed = update_block n ∷ m.freed }

  reader-head : (fuel : ℕ) → find_visible (suc fuel) m t (m.map key) ≡ some (found u, m)
  unfolding find_visible
  reader-head fuel =
      let seen : leb c (m.txns t).rv ≡ true = ground (arith, needed.t_sees) in
      rw needed.head (rw (find_visible, needed.head_version) (rw seen refl))

  free_chain-second : (fuel : ℕ) → free_chain (suc fuel) m n ≡ some collected
  unfolding free_chain
  free_chain-second fuel =
      let ne = needed.value_set in rw (free_chain, needed.second_next) (ground (arith, ne))

  goes_on : (fuel : ℕ) → skip_aborted (suc fuel) m n (sl_min_key m.active) ≡ some true
  unfolding skip_aborted
  goes_on fuel = rw (skip_aborted, needed.second_version) refl

  frees-second : (fuel : ℕ) → collect (suc fuel) m key u ≡ some collected
  frees-second fuel =
      let old : ltb (word (m.updates n).version) (sl_min_key m.active) ≡ true =
        rw needed.second_version (ground (arith, needed.old)) in
      collect-old (suc fuel) m key u n (some true) needed.head_next old (goes_on fuel)
      ∙ free_chain-second fuel

  -- In a store with the same versions, the same transactions and the same links down to the second
  -- update.
  needs-second :
      (fuel : ℕ) (m' : Store)
      → (m'.txns w).rv ≡ (m.txns w).rv
      → m'.map key ≡ rec u
      → (m'.updates u).version ≡ number c
      → (m'.updates u).next ≡ rec n
      → (m'.updates n).version ≡ number d
      → find_visible (suc (suc fuel)) m' w (m'.map key) ≡ some (found n, m')
  unfolding find_visible
  needs-second fuel m' same_rv head first next second =
      let missed : leb c (m'.txns w).rv ≡ false = rw same_rv (ground (arith, needed.w_misses)) in
      let seen : leb d (m'.txns w).rv ≡ true = rw same_rv (ground (arith, needed.w_sees)) in
      rw head
        (rw (find_visible, first) (rw (missed, next) (rw (find_visible, second) (rw seen refl))))

-- In every store in which the second update of a key is the last one, lies above a value other than
-- DOES_NOT_EXIST and is older than every active transaction, while a running transaction `w` began
-- before the first one was committed: the update that `w` finds is the second one, txn_map_get by a
-- transaction that sees the first one returns its value and frees the second one, and the search of
-- `w` still leads to the update that was freed.
pub collects_needed_update :
    (m : Store) (t w key u n c d v fuel : ℕ)
    → IsNeeded m t w key u n c d v
    → (find_visible (suc (suc fuel)) m w (m.map key) ≡ some (found n, m))
      × (m' : Store) × (txn_map_get (suc fuel) m t key ≡ some ((m.updates u).value, m'))
      × (m'.freed ≡ update_block n ∷ m.freed)
      × (find_visible (suc (suc fuel)) m' w (m'.map key) ≡ some (found n, m'))
unfolding txn_map_get
collects_needed_update m t w key u n c d v fuel needed =
    let m' = collected m t w key u n c d v needed in
    let same : m'.updates u ≡ m.updates u = ground (arith, needed.distinct) in
    let second : (m'.updates n).version ≡ number d = ground (arith, needed.second_version) in
    (
      needs-second m t w key u n c d v needed fuel m refl needed.head needed.head_version
          needed.head_next needed.second_version,
      m',
      rw (txn_map_get, needed.t_runs)
          (rw (reader-head m t w key u n c d v needed fuel)
            (rw (frees-second m t w key u n c d v needed fuel) refl)),
      refl,
      needs-second m t w key u n c d v needed fuel m' refl needed.head
          (ap (λ x. x.version) same ∙ needed.head_version)
          (ap (λ x. x.next) same ∙ needed.head_next) second,
    )
