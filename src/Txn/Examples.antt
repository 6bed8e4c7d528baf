-- ===== src/Txn/Examples.antt =====
-- Runs of src/txn/txn.c that the theorems apply to.
use ssr.Base.{
  ℕ, ◌<◌, ◌≡◌, ◌≢◌, refl, inl, inr, Bool, true, false, some, [], ◌∷◌, ◌==◌, if◌then◌else◌, update,
  arith, length,
}
use ssr.Map.Spec.{loose_cas_spec, remove_spec}
use ssr.Txn.{
  validated, aborted, aborted_version, writer, Store, update_block, txn_validate, validate_writes,
  validate_key, validate_from,
}
use ssr.Txn.Ops.{txn_begin, txn_commit, txn_map_set, raise_count, lower_count, detach}
use ssr.Txn.Get.{found, find_visible, txn_map_get}
use ssr.Txn.System.{
  System, Step, Reach, In, init, begin_step, set_step, commit_step, start, later, here, other,
}
use ssr.Txn.Invariant.{Wrote, versions}
use ssr.Txn.Tests.{prices, begin, commit}
use ssr.Txn.Snapshot.{result_of}
use ssr.Txn.Isolation.{reads_snapshot, reads_own_write}
use ssr.Txn.Conflict.{first_committer_wins, ended_is_refused, Refuses}
use ssr.Txn.Collected.{IsNeeded, collects_needed_update}

-- Transaction 1 begins; transaction 2 begins, sets key 5 and commits.
abbrev first_begun : System
first_begun = let s = init prices in record s { mem = begin s.mem 1; live = update s.live 1 true }

abbrev both_begun : System
both_begun = record first_begun {
  mem = begin first_begun.mem 2;
  live = update first_begun.live 2 true;
}

abbrev second_set : System
second_set = record both_begun {
  mem = txn_map_set both_begun.mem 2 10 5 20;
  chain = update both_begun.chain 5 (10 ∷ both_begun.chain 5);
}

abbrev second_committed : System
second_committed = record second_set {
  mem = commit second_set.mem 2;
  live = update second_set.live 2 false;
}

begins_first : txn_begin 9 (init prices).mem 1 ≡ some first_begun.mem
unfolding txn_begin raise_count loose_cas_spec
begins_first = refl

begins_second : txn_begin 9 first_begun.mem 2 ≡ some both_begun.mem
unfolding txn_begin raise_count loose_cas_spec
begins_second = refl

commits_second : txn_commit 9 second_set.mem 2 ≡ some (validated, second_committed.mem)
unfolding txn_begin raise_count loose_cas_spec remove_spec txn_map_set txn_commit txn_validate
    validate_writes validate_key validate_from lower_count detach
commits_second = refl

short_chains : (k : ℕ) → length (second_set.chain k) < 8
short_chains k = ground arith

second_begin : Step first_begun 2 both_begun
second_begin = begin_step 9 refl begins_second

second_sets : Step both_begun 2 second_set
second_sets = set_step 10 5 20 refl (λ k h. h)

second_commits : Step second_set 2 second_committed
second_commits = commit_step 8 refl short_chains commits_second

first-Reach : Reach prices first_begun
first-Reach = later start (begin_step 9 refl begins_first)

reads_snapshot_example : result_of (txn_map_get 9 second_committed.mem 1 5) ≡ some 7
reads_snapshot_example =
    reads_snapshot {map = prices} {s = init prices} {s' = second_committed} {mem = first_begun.mem}
      start 1 9 refl begins_first
      (other (other (other here (omega arith) second_begin) (omega arith) second_sets) (omega arith)
        second_commits)
      5 9 (omega arith)

-- Transaction 2 set key 5, and reads it again.
reads_own_write_example :
    result_of (txn_map_get 9 second_set.mem 2 5)
    ≡ (if 5 == 5 then some 20 else result_of (txn_map_get 9 both_begun.mem 2 5))
reads_own_write_example =
    reads_own_write {map = prices} {s = both_begun} {s' = second_set}
      (later first-Reach second_begin) 2 10 5 20 refl (λ k h. h) here 5 9 9 (omega arith)
      (omega arith)

-- Transaction 1 sets key 5 after transaction 2 has committed.
abbrev first_set : System
first_set = record second_committed {
  mem = txn_map_set second_committed.mem 1 11 5 30;
  chain = update second_committed.chain 5 (11 ∷ second_committed.chain 5);
}

new_update : (k : ℕ) → ¬ In 11 (second_committed.chain k)
new_update k h = absent (5 == k) h
  where
    absent : (b : Bool) → In 11 (if b then 10 ∷ [] else []) → ⊥
    absent true (inl e) = absurd (omega arith)
    absent true (inr h) = h
    absent false h = h

first_sets : Step second_committed 1 first_set
first_sets = set_step 11 5 30 refl new_update

first_set-Reach : Reach prices first_set
first_set-Reach =
    later (later (later (later first-Reach second_begin) second_sets) second_commits) first_sets

first_chains : (k : ℕ) → length (first_set.chain k) < 8
first_chains k = ground arith

first_committer_wins_example :
    (m : Store) × (txn_commit 9 first_set.mem 1 ≡ some (aborted, m))
    × ((k u : ℕ) → Wrote k u (first_set.mem.txns 1).writes → versions m u ≡ aborted_version)
    × ((k u : ℕ)
        → In u (first_set.chain k)
        → versions first_set.mem u ≢ writer 1
        → versions m u ≡ versions first_set.mem u)
unfolding txn_begin raise_count loose_cas_spec remove_spec txn_map_set txn_commit txn_validate
    validate_writes validate_key validate_from lower_count detach
first_committer_wins_example =
    first_committer_wins {map = prices} {s = first_set} first_set-Reach 1 7 refl first_chains

ended_is_refused_example : Refuses second_committed.mem validated 2 9 12 5 40
ended_is_refused_example =
    ended_is_refused {map = prices} {s = second_set} {state = validated} {m = second_committed.mem}
      (later (later first-Reach second_begin) second_sets) 2 7 refl short_chains commits_second 9 12
      5 40

-- Transaction 1 commits the value 20 of key 5; 2 begins after another commit; 3 commits 30; 4 begins.
abbrev needed_store : Store
needed_store =
    let first = commit (txn_map_set (begin (init prices).mem 1) 1 11 5 20) 1 in
    let reader = begin (commit (begin first 9) 9) 2 in
    begin (commit (txn_map_set (begin reader 3) 3 12 5 30) 3) 4

needed_store-IsNeeded : IsNeeded needed_store 4 2 5 12 11 4 2 7
unfolding txn_begin raise_count loose_cas_spec remove_spec txn_map_set txn_commit txn_validate
    validate_writes validate_key validate_from lower_count detach
needed_store-IsNeeded = record {
  t_runs = refl;
  w_runs = refl;
  head = refl;
  head_version = refl;
  head_next = refl;
  second_version = refl;
  second_next = refl;
  value_set = omega arith;
  distinct = omega arith;
  t_sees = omega arith;
  w_misses = omega arith;
  w_sees = omega arith;
  old = omega arith;
}

collects_needed_update_example :
    (find_visible 9 needed_store 2 (needed_store.map 5) ≡ some (found 11, needed_store))
    × (m' : Store) × (txn_map_get 8 needed_store 4 5 ≡ some ((needed_store.updates 12).value, m'))
    × (m'.freed ≡ update_block 11 ∷ needed_store.freed)
    × (find_visible 9 m' 2 (m'.map 5) ≡ some (found 11, m'))
collects_needed_update_example =
    collects_needed_update needed_store 4 2 5 12 11 4 2 7 7 needed_store-IsNeeded
