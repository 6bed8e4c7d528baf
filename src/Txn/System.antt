-- ===== src/Txn/System.antt =====
-- Transactions of src/txn/txn.c that call its operations one after another, in any order.
use ssr.Base.{ℕ, suc, ◌<◌, ◌≡◌, ◌≢◌, ◌⊎◌, Bool, true, false, some, List, [], ◌∷◌, update, length}
use ssr.Txn.{TxnState, validated, plain, number, Store}
use ssr.Txn.Get.{txn_map_get}
use ssr.Txn.Ops.{txn_begin, txn_abort, txn_commit, txn_map_set}

abbrev pub In : ℕ → List ℕ → Type 0
In i [] = ⊥
In i (x ∷ l) = (i ≡ x) ⊎ In i l

-- `chain`, `rest` and `live` are no part of the program: the updates of each key, newest first, the
-- plain value after them, and which transactions have begun and not ended.
pub record System : Type 0 where
  pub mem : Store
  pub chain : ℕ → List ℕ
  pub rest : ℕ → ℕ
  pub live : ℕ → Bool

-- One call by the transaction `t`. `nbd_malloc` returns no memory that is still in use.
pub data Step (s : System) (t : ℕ) : System → Type 0 where
  begin_step :
      (fuel : ℕ) {mem : Store}
      → s.live t ≡ false
      → txn_begin fuel s.mem t ≡ some mem
      → Step s t (record s { mem = mem; live = update s.live t true })
  set_step :
      (u key value : ℕ)
      → s.live t ≡ true
      → ((k : ℕ) → ¬ In u (s.chain k))
      → Step s t (record s {
        mem = txn_map_set s.mem t u key value;
        chain = update s.chain key (u ∷ s.chain key);
      })
  -- A call that collects nothing.
  get_step :
      (fuel key value : ℕ)
      → s.live t ≡ true
      → txn_map_get fuel s.mem t key ≡ some (value, s.mem)
      → Step s t s
  abort_step :
      s.live t ≡ true
      → Step s t (record s { mem = txn_abort s.mem t; live = update s.live t false })
  commit_step :
      (fuel : ℕ) {mem : Store} {state : TxnState}
      → s.live t ≡ true
      → ((k : ℕ) → length (s.chain k) < fuel)
      → txn_commit (suc fuel) s.mem t ≡ some (state, mem)
      → Step s t (record s { mem = mem; live = update s.live t false })

-- Nothing has begun; every key has the plain value that `map` gives it.
abbrev pub init : (map : ℕ → ℕ) → System
init map = record {
  mem = record {
    version = 1;
    active = [];
    map = λ k. plain (map k);
    txns = λ _. record { rv = 0; wv = 0; writes = []; writes_size = 0; state = validated };
    updates = λ _. record { version = number 0; value = 0; next = plain 0 };
    deferred = [];
    freed = [];
  };
  chain = λ _. [];
  rest = map;
  live = λ _. false;
}

pub data Reach (map : ℕ → ℕ) : System → Type 0 where
  start : Reach map (init map)
  later : {s u : System} {t : ℕ} → Reach map s → Step s t u → Reach map u

-- Calls of transactions other than `t`.
pub data Others (t : ℕ) (s : System) : System → Type 0 where
  here : Others t s s
  other : {u v : System} {w : ℕ} → Others t s u → w ≢ t → Step u w v → Others t s v
