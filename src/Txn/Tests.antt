-- ===== src/Txn/Tests.antt =====
-- Runs of src/txn/txn.c, among them test1 of test/txn_test.c.
use ssr.Base.{ℕ, ◌≡◌, refl, Option, none, some, ◌==◌, if◌then◌else◌}
use ssr.Map.Spec.{loose_cas_spec, remove_spec}
use ssr.Txn.{
  set_state, validating, TxnState, running, validated, aborted, Store, txn_validate,
  validate_writes, validate_key, validate_from,
}
use ssr.Txn.Ops.{txn_begin, txn_commit, txn_map_set, raise_count, lower_count, detach}
use ssr.Txn.Get.{find_visible, txn_map_get, collect, free_chain, skip_aborted}
use ssr.Txn.System.{init}
use ssr.Txn.Snapshot.{result_of}

abbrev pub prices : ℕ → ℕ
prices k = if k == 5 then 7 else 0

-- The store that a call leaves.
abbrev pub store_of : Option Store → Store
store_of none = (init prices).mem
store_of (some m) = m

abbrev pub store_after : Option (TxnState × Store) → Store
store_after none = (init prices).mem
store_after (some (state, m)) = m

abbrev state_after : Option (TxnState × Store) → TxnState
state_after none = running
state_after (some (state, m)) = state

abbrev store_read : Option (ℕ × Store) → Store
store_read none = (init prices).mem
store_read (some (v, m)) = m

abbrev pub begin : Store → ℕ → Store
begin m t = store_of (txn_begin 9 m t)

abbrev pub commit : Store → ℕ → Store
commit m t = store_after (txn_commit 9 m t)

-- test1: two transactions write one key, and the first one to commit wins.
abbrev both_written : Store
both_written =
    let m = begin (begin (init (λ k. 0)).mem 1) 2 in
    txn_map_set (txn_map_set (txn_map_set m 1 11 1 2) 1 12 1 3) 2 13 1 4

test_reads :
    (result_of (txn_map_get 9 both_written 1 1) ≡ some 3)
    × (result_of (txn_map_get 9 both_written 2 1) ≡ some 4)
unfolding txn_begin raise_count loose_cas_spec txn_map_set txn_map_get find_visible collect
    free_chain skip_aborted
test_reads = (refl, refl)

test_commits :
    (state_after (txn_commit 9 both_written 2) ≡ validated)
    × (state_after (txn_commit 9 (commit both_written 2) 1) ≡ aborted)
unfolding txn_begin raise_count loose_cas_spec remove_spec txn_map_set txn_commit txn_validate
    validate_writes validate_key validate_from lower_count detach
test_commits = (refl, refl)

-- A transaction that reads helps one that is in the middle of its commit: that one gets version 2,
-- which the reader does not see.
abbrev half_committed : Store
half_committed =
    set_state (txn_map_set (begin (begin (init prices).mem 1) 2) 1 11 5 20) 1 validating

test_helps :
    (result_of (txn_map_get 9 half_committed 2 5) ≡ some 7)
    × (((store_read (txn_map_get 9 half_committed 2 5)).txns 1).state ≡ validated)
    × ((store_read (txn_map_get 9 half_committed 2 5)).version ≡ 2)
unfolding txn_begin raise_count loose_cas_spec txn_map_set txn_map_get find_visible collect
    free_chain skip_aborted txn_validate validate_writes validate_key validate_from
test_helps = (refl, refl, refl)
