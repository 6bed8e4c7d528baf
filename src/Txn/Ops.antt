-- ===== src/Txn/Ops.antt =====
-- The operations of src/txn/txn.c.
use ssr.Base.{
  ℕ, zero, suc, ◌+◌, ◌-◌, ◌*◌, ◌^◌, not, ◌&&◌, Option, none, some, List, [], ◌∷◌, ◌++◌, ◌==◌,
  if◌then◌else◌, update, length, u32,
}
use ssr.Map.{does_not_exist}
use ssr.Map.Laws.{before, equals}
use ssr.Map.Spec.{loose_cas_spec, remove_spec}
use ssr.Txn.{
  TxnState, running, validating, validated, aborted, Version, number, aborted_version, writer, rec,
  Update, Txn, writes_block, txn_block, Store, undetermined_version, initial_writes_size, set_state,
  txn_validate,
}

-- `sl_cas`, `sl_remove` and `sl_min_key` of src/map/skiplist.c as one thread sees them: an
-- expectation other than the special ones is met by every value. Keys are compared as numbers, while
-- the C code keeps their difference in an `int`: the model is about keys below 2 ^ 31.
abbrev pub sl_cas : List (ℕ × ℕ) → (key expectation new_val : ℕ) → ℕ × List (ℕ × ℕ)
sl_cas active key expectation new_val =
    loose_cas_spec (before key) (equals key) expectation (key, new_val) active

abbrev pub sl_remove : List (ℕ × ℕ) → (key : ℕ) → ℕ × List (ℕ × ℕ)
sl_remove active key = remove_spec (before key) (equals key) active

abbrev pub sl_min_key : List (ℕ × ℕ) → ℕ
sl_min_key [] = does_not_exist
sl_min_key ((key, count) ∷ active) = key

-- The loop of `txn_begin` that raises the count of the read version, on fuel.
unfoldable pub raise_count : ℕ → List (ℕ × ℕ) → (rv old_count : ℕ) → Option (List (ℕ × ℕ))
unfolding loose_cas_spec
raise_count zero active rv old_count = none
raise_count (suc fuel) active rv old_count =
    let (temp, active') = sl_cas active rv old_count (u32 (old_count + 1)) in
    let rest = raise_count fuel active' rv temp in if temp == old_count then some active' else rest

-- `t` is the memory that was allocated. No other thread changes `version_` in between, so the read
-- version is acquired in the first round.
unfoldable pub txn_begin : ℕ → Store → (t : ℕ) → Option Store
unfolding raise_count
txn_begin fuel s t = elim (raise_count fuel s.active s.version 0) [
  | none ↦ none
  | some active ↦ some (record s {
    active = active;
    txns = update s.txns t (record {
      rv = s.version;
      wv = undetermined_version;
      writes = [];
      writes_size = initial_writes_size;
      state = running;
    });
  })
]

-- The loops of `txn_abort` and `txn_commit` over the updates.
unfoldable pub detach : (ℕ → Update) → Version → List (ℕ × ℕ) → ℕ → Update
detach updates v [] = updates
detach updates v ((key, u) ∷ writes) =
    detach (update updates u (record (updates u) { version = v })) v writes

abbrev pub defer_txn : Store → (t : ℕ) → Store
defer_txn s t = record s { deferred = txn_block t ∷ writes_block t ∷ s.deferred }

unfoldable pub txn_abort : Store → (t : ℕ) → Store
unfolding detach
txn_abort s t = elim (s.txns t).state [
  | running ↦
      defer_txn (record s { updates = detach s.updates aborted_version (s.txns t).writes }) t
  | validating ↦ s
  | validated ↦ s
  | aborted ↦ s
]

-- The loop of `txn_commit` that lowers the count of the read version, on fuel.
unfoldable pub lower_count : ℕ → List (ℕ × ℕ) → (version rv old_count : ℕ) → Option (List (ℕ × ℕ))
unfolding loose_cas_spec remove_spec
lower_count zero active version rv old_count = none
lower_count (suc fuel) active version rv old_count =
    let (temp, active') = sl_cas active rv old_count (u32 (old_count + 2 ^ 32 - 1)) in
    let (removed, active'') = sl_remove active' rv in
    let rest = lower_count fuel active' version rv temp in
    if temp == 1 && not (rv == version)
    then some active''
    else if old_count == temp
    then some active'
    else rest

abbrev pub final_version : Txn → Version
final_version x = elim x.state [
  | aborted ↦ aborted_version
  | running ↦ number x.wv
  | validating ↦ number x.wv
  | validated ↦ number x.wv
]

unfoldable pub txn_commit : ℕ → Store → (t : ℕ) → Option (TxnState × Store)
unfolding txn_validate detach lower_count
txn_commit fuel s t = elim (s.txns t).state [
  | running ↦ elim (txn_validate fuel (set_state s t validating) t) [
    | none ↦ none
    | some (state, s') ↦
        let x = s'.txns t in
        let updates = detach s'.updates (final_version x) x.writes in
        elim (lower_count fuel s'.active s'.version x.rv 2) [
          | none ↦ none
          | some active ↦
              some (state, defer_txn (record s' { active = active; updates = updates }) t)
        ]
  ]
  | validating ↦ some (validating, s)
  | validated ↦ some (validated, s)
  | aborted ↦ some (aborted, s)
]

-- `u` is the memory that was allocated for the update. No other thread changes the map in between, so
-- the compare-and-set of the value that was read takes effect.
abbrev pub push_update : Store → (t u key value : ℕ) → Store
push_update s t u key value = record s {
  updates = update s.updates u (record { version = writer t; value = value; next = s.map key });
  map = update s.map key (rec u);
}

-- The write set doubles when it is full, and the old array is freed.
abbrev pub add_write : Store → (t u key : ℕ) → Store
add_write s t u key =
    let x = s.txns t in
    let full = length x.writes == x.writes_size in
    record s {
      txns = update s.txns t (record x {
        writes = x.writes ++ (key, u) ∷ [];
        writes_size = if full then x.writes_size * 2 else x.writes_size;
      });
      freed = if full then writes_block t ∷ s.freed else s.freed;
    }

unfoldable pub txn_map_set : Store → (t u key value : ℕ) → Store
txn_map_set s t u key value = elim (s.txns t).state [
  | running ↦ add_write (push_update s t u key value) t u key
  | validating ↦ s
  | validated ↦ s
  | aborted ↦ s
]
