-- ===== src/Txn.antt =====
-- src/txn/txn.c, transactions over a map that keeps for each key a list of updates.
pub mod Ops
pub mod Get
pub mod System
pub mod Invariant
pub mod Steps
pub mod Pushed
pub mod Collect
pub mod Reading
pub mod Validate
pub mod Numbered
pub mod Commit
pub mod Ended
pub mod Ending
pub mod Safety
pub mod Snapshot
pub mod Counts
pub mod Isolation
pub mod Conflict
pub mod Collected
pub mod Tests
pub mod Examples
use ssr.Base.{
  ℕ, zero, suc, ◌+◌, ◌-◌, ◌^◌, Bool, true, false, Option, none, some, List, [], ◌∷◌, ◌==◌, ltb, leb,
  if◌then◌else◌, update,
}

-- `txn_state_e`
pub data TxnState : Type 0 where
  running validating validated aborted : TxnState

-- A version word: a number, ABORTED_VERSION, or the tagged pointer to a transaction.
pub data Version : Type 0 where
  number : ℕ → Version
  aborted_version : Version
  writer : ℕ → Version

-- A value word of the map: a plain value, 0 for DOES_NOT_EXIST, or the tagged pointer to an update.
pub data Val : Type 0 where
  plain : ℕ → Val
  rec : ℕ → Val

-- `update_t`
pub record Update : Type 0 where
  pub version : Version
  pub value : ℕ
  pub next : Val

-- `txn_t`; `writes` are the first `writes_count` pairs of a key and an update.
pub record Txn : Type 0 where
  pub rv : ℕ
  pub wv : ℕ
  pub writes : List (ℕ × ℕ)
  pub writes_size : ℕ
  pub state : TxnState

-- What is handed to `rcu_defer_free` and to `nbd_free`.
pub data Block : Type 0 where
  writes_block txn_block update_block : ℕ → Block

-- `version_`, the keys and values of the skip list `active_` in order, one map, the transactions and
-- the updates by their address as PTR_TO_VAL gives it, and what has been freed, last first.
pub record Store : Type 0 where
  pub version : ℕ
  pub active : List (ℕ × ℕ)
  pub map : ℕ → Val
  pub txns : ℕ → Txn
  pub updates : ℕ → Update
  pub deferred : List Block
  pub freed : List Block

abbrev pub undetermined_version : ℕ
undetermined_version = 0

abbrev pub initial_writes_size : ℕ
initial_writes_size = 4

-- A version as a word: TAG1 is the highest bit.
abbrev pub word : Version → ℕ
word (number n) = n
word aborted_version = 2 ^ 63
word (writer t) = 2 ^ 63 + t

abbrev pub set_txn : Store → ℕ → Txn → Store
set_txn s t x = record s { txns = update s.txns t x }

abbrev pub set_state : Store → ℕ → TxnState → Store
set_state s t state = set_txn s t (record (s.txns t) { state = state })

-- Once the transaction of an update is known not to run: skip the update if it was aborted, else
-- compare its version.
abbrev pub judge :
    (skip : Option (TxnState × Store)) (s : Store) (t w : ℕ) → TxnState → Option (TxnState × Store)
judge skip s t w state = elim state [
  | aborted ↦ skip
  | running ↦ some (if leb (s.txns w).wv (s.txns t).rv then validated else aborted, s)
  | validating ↦ some (if leb (s.txns w).wv (s.txns t).rv then validated else aborted, s)
  | validated ↦ some (if leb (s.txns w).wv (s.txns t).rv then validated else aborted, s)
]

-- The loop of `validate_key`, on fuel; `help` is `txn_validate` for another transaction.
unfoldable pub validate_from :
    (help : Store → ℕ → Option (TxnState × Store))
    → ℕ
    → Store
    → (t : ℕ) → Val
    → Option (TxnState × Store)
validate_from help zero s t val = none
validate_from help (suc fuel) s t (plain v) = some (validated, s)
validate_from help (suc fuel) s t (rec u) =
    let skip = λ (s' : Store). validate_from help fuel s' t (s'.updates u).next in
    elim (s.updates u).version [
      | number n ↦ some (if leb n (s.txns t).rv then validated else aborted, s)
      | aborted_version ↦ skip s
      | writer w ↦ elim (w == t) [
        | true ↦ skip s
        | false ↦ elim (s.txns w).state [
          | running ↦ skip s
          | validating ↦ elim (ltb (s.txns t).wv (s.txns w).wv) [
            | true ↦ skip s
            | false ↦ elim (help s w) [
              | none ↦ none
              | some (state, s') ↦ judge (skip s') s' t w state
            ]
          ]
          | validated ↦ judge (skip s) s t w validated
          | aborted ↦ skip s
        ]
      ]
    ]

unfoldable pub validate_key :
    (help : Store → ℕ → Option (TxnState × Store))
    → ℕ
    → Store
    → (t key : ℕ) → Option (TxnState × Store)
unfolding validate_from
validate_key help fuel s t key = validate_from help fuel s t (s.map key)

-- The loop of `txn_validate` over the keys that were written.
unfoldable pub validate_writes :
    (help : Store → ℕ → Option (TxnState × Store))
    → ℕ
    → Store
    → (t : ℕ) → List (ℕ × ℕ)
    → Option Store
unfolding validate_key
validate_writes help fuel s t [] = some s
validate_writes help fuel s t ((key, u) ∷ writes) = elim (validate_key help fuel s t key) [
  | none ↦ none
  | some (aborted, s') ↦ some (set_state s' t aborted)
  | some (running, s') ↦ validate_writes help fuel s' t writes
  | some (validating, s') ↦ validate_writes help fuel s' t writes
  | some (validated, s') ↦ validate_writes help fuel s' t writes
]

-- A transaction that has no version of its own takes the next one.
abbrev pub acquire_wv : Store → (t : ℕ) → Store
acquire_wv s t =
    if (s.txns t).wv == undetermined_version
    then record s {
      version = s.version + 1;
      txns = update s.txns t (record (s.txns t) { wv = s.version + 1 });
    }
    else s

-- `txn->state` after the loop.
abbrev pub settle_state : Store → (t : ℕ) → TxnState → Store
settle_state s t validating = set_state s t validated
settle_state s t running = s
settle_state s t validated = s
settle_state s t aborted = s

unfoldable pub txn_validate : ℕ → Store → (t : ℕ) → Option (TxnState × Store)
unfolding validate_writes
txn_validate zero s t = none
txn_validate (suc fuel) s t = elim (s.txns t).state [
  | validating ↦
      elim (validate_writes (txn_validate fuel) fuel (acquire_wv s t) t (s.txns t).writes) [
        | none ↦ none
        | some s' ↦
            let done = settle_state s' t (s'.txns t).state in some ((done.txns t).state, done)
      ]
  | running ↦ some (running, s)
  | validated ↦ some (validated, s)
  | aborted ↦ some (aborted, s)
]
