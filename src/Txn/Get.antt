-- ===== src/Txn/Get.antt =====
-- `txn_map_get` of src/txn/txn.c: the update that a transaction sees, and the collection of old ones.
use ssr.Base.{
  ℕ, zero, suc, ◌-◌, ◌^◌, Bool, true, false, Option, none, some, ◌∷◌, ◌==◌, ltb, leb, if◌then◌else◌,
  update,
}
use ssr.Txn.{
  TxnState, running, validating, validated, aborted, number, aborted_version, writer, Val, plain,
  rec, update_block, Store, word, txn_validate,
}
use ssr.Txn.Ops.{sl_min_key}

-- ERROR_TXN_NOT_RUNNING, -4
abbrev pub error_txn_not_running : ℕ
error_txn_not_running = 2 ^ 64 - 4

-- How the loop ends: at a plain value (0 where there is none), or at an update.
pub data Seen : Type 0 where
  value : ℕ → Seen
  found : ℕ → Seen

-- Once the transaction of an update is known not to run: whether its version is visible.
abbrev pub judge_seen :
    (skip : Option (Seen × Store)) (s : Store) (t u w : ℕ) → TxnState → Option (Seen × Store)
judge_seen skip s t u w state = elim state [
  | aborted ↦ skip
  | running ↦ (if ltb (s.txns t).rv (s.txns w).wv then skip else some (found u, s))
  | validating ↦ (if ltb (s.txns t).rv (s.txns w).wv then skip else some (found u, s))
  | validated ↦ (if ltb (s.txns t).rv (s.txns w).wv then skip else some (found u, s))
]

-- The loop over the updates of a key, on fuel.
unfoldable pub find_visible : ℕ → Store → (t : ℕ) → Val → Option (Seen × Store)
unfolding txn_validate
find_visible zero s t val = none
find_visible (suc fuel) s t (plain v) = some (value v, s)
find_visible (suc fuel) s t (rec u) =
    let skip = λ (s' : Store). find_visible fuel s' t (s'.updates u).next in
    elim (s.updates u).version [
      | number n ↦ elim (leb n (s.txns t).rv) [ true ↦ some (found u, s) | false ↦ skip s ]
      | aborted_version ↦ skip s
      | writer w ↦ elim (w == t) [
        | true ↦ some (found u, s)
        | false ↦ elim (s.txns w).state [
          | running ↦ skip s
          | validating ↦ elim (ltb (s.txns t).rv (s.txns w).wv) [
            | true ↦ skip s
            | false ↦ elim (txn_validate fuel s w) [
              | none ↦ none
              | some (state, s') ↦ judge_seen (skip s') s' t u w state
            ]
          ]
          | validated ↦ judge_seen (skip s) s t u w validated
          | aborted ↦ skip s
        ]
      ]
    ]

abbrev pub cut_next : Store → (u : ℕ) → Store
cut_next s u = record s { updates = update s.updates u (record (s.updates u) { next = plain 0 }) }

-- Frees the update and all that follow it, but the last one if nothing follows that.
unfoldable pub free_chain : ℕ → Store → (u : ℕ) → Option Store
free_chain zero s u = none
free_chain (suc fuel) s u =
    let cut = cut_next s u in
    let freed = record cut { freed = update_block u ∷ cut.freed } in
    elim (s.updates u).next [
      | plain v ↦ some (if v == 0 then cut else freed)
      | rec n ↦ free_chain fuel freed n
    ]

-- The loop over aborted updates that comes first: whether the collection goes on.
unfoldable pub skip_aborted : ℕ → Store → (temp min_active : ℕ) → Option Bool
skip_aborted zero s temp min_active = none
skip_aborted (suc fuel) s temp min_active = elim (s.updates temp).version [
  | number n ↦ some true
  | writer w ↦ some true
  | aborted_version ↦ elim (s.updates temp).next [
    | plain v ↦ some true
    | rec n ↦ elim (leb min_active (word (s.updates n).version)) [
      | true ↦ some false
      | false ↦ skip_aborted fuel s n min_active
    ]
  ]
]

-- The update is the only one of its key, and every active transaction sees it: it becomes a plain
-- value.
abbrev pub merge : Store → (key u : ℕ) → Store
merge s key u = elim (s.map key) [
  | plain v ↦ s
  | rec head ↦
      if head == u
      then (if leb (word (s.updates u).version) (sl_min_key s.active)
          then record s {
            map = update s.map key (plain (s.updates u).value);
            deferred = update_block u ∷ s.deferred;
          }
          else s)
      else s
]

-- What happens after the update `u` was found: the updates that follow it are freed if the next one
-- is older than every active transaction.
unfoldable pub collect : ℕ → Store → (key u : ℕ) → Option Store
unfolding free_chain skip_aborted
collect fuel s key u = elim (s.updates u).next [
  | plain v ↦ some (merge s key u)
  | rec next_update ↦
      let min_active = sl_min_key s.active in
      elim (ltb (word (s.updates next_update).version) min_active) [
        | true ↦ elim (skip_aborted fuel s next_update min_active) [
          | none ↦ none
          | some false ↦ some s
          | some true ↦ free_chain fuel s next_update
        ]
        | false ↦ some s
      ]
]

unfoldable pub txn_map_get : ℕ → Store → (t key : ℕ) → Option (ℕ × Store)
unfolding find_visible collect
txn_map_get fuel s t key = elim (s.txns t).state [
  | running ↦ elim (find_visible fuel s t (s.map key)) [
    | none ↦ none
    | some (value v, s') ↦ some (v, s')
    | some (found u, s') ↦ elim (collect fuel s' key u) [
      | none ↦ none
      | some s'' ↦ some ((s'.updates u).value, s'')
    ]
  ]
  | validating ↦ some (error_txn_not_running, s)
  | validated ↦ some (error_txn_not_running, s)
  | aborted ↦ some (error_txn_not_running, s)
]
