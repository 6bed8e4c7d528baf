-- ===== src/Lifo/Invariant/Cell.antt =====
-- Steps of src/lifo/clifo.c that write a cell or its lock, or read it, keep the invariant.
use native.Mathlib.Decide.{ℕ_discrete}
use ssr.Base.{
  ℕ, ◌+◌, ◌<◌, ◌≡◌, some, [], ◌∷◌, ◌++◌, length, update, arith, weight-update, length-snoc,
  get_or-snoc_self, take-snoc, take-suc, ◌==◌, if◌then◌else◌,
}
use ssr.Lifo.{
  NodeState, empty, busy, full, lock_at, value_at, set_lock, set_value, Pc, push_store, push_unlock,
  pop_read, pop_unlock,
}
use ssr.Lifo.System.{System}
use ssr.Lifo.Invariant.{holds, pusher, pop_waiter, full_count, Drained, Loaded, Local, Inv}
use ssr.Lifo.Invariant.Change.{Local-set_lock, Local-wrote, Local-read}

-- Thread `i` gets the lock of cell `k`, or gives it back, and goes on at `p`.
abbrev pub turned : System → ℕ → ℕ → NodeState → Pc → System
turned s i k st p = record s { mem = set_lock s.mem k st; pc = update s.pc i p }

-- What makes such a step harmless.
pub record IsTurn (s : System) (i k : ℕ) (st : NodeState) (p : Pc) : Type 0 where
  pub inside : k < s.mem.bound
  pub alone : (j : ℕ) → holds (s.pc j) ≡ some k → i ≡ j
  pub before : (j : ℕ) → holds (s.pc i) ≡ some j → j ≡ k
  pub behind : (j : ℕ) → holds p ≡ some j → j ≡ k
  pub if_empty : st ≡ empty → Drained s k
  pub if_full : st ≡ full → Loaded s k
  pub if_busy : st ≡ busy → holds p ≡ some k
  pub here : Local (turned s i k st p) p
  pub weigh :
      (j : ℕ)
      → pusher j p + (if k == j then full_count st else 0) + pop_waiter j (s.pc i)
        ≡ pusher j (s.pc i) + (if k == j then full_count (lock_at s.mem k) else 0) + pop_waiter j p

module _ {n : ℕ} {s : System} (inv : Inv n s) (i : ℕ) (lt : i < n) where
  open inv use {room, small, drained, loaded, in_order, locals, unique, held, balance}

  pub Inv-turn : {k : ℕ} {st : NodeState} {p : Pc} → IsTurn s i k st p → Inv n (turned s i k st p)
  Inv-turn {k} {st} {p} turn = record {
    room = room;
    small = small;
    drained = λ j le. ground (arith, drained j le, turn.if_empty);
    loaded = λ j le. ground (arith, loaded j le, turn.if_full);
    in_order = in_order;
    locals = λ j. ground (
      arith,
      turn.here,
      turn.alone j,
      Local-set_lock s k st (update s.pc i p) (s.pc j),
      locals j,
    );
    unique = λ a b j. ground (arith, unique a b j, turn.alone a, turn.alone b, turn.behind j);
    held = λ j le e. elim (ℕ_discrete k j) [
      | yes same ↦ (i, lt, ground (arith, turn.if_busy))
      | no other ↦
          let (x, xn, own) = held j le (ground arith) in (x, xn, ground (arith, turn.before j))
    ];
    balance = λ j le. ground (
      arith,
      turn.weigh j,
      balance j le,
      weight-update (pusher j) n s.pc i p lt,
      weight-update (pop_waiter j) n s.pc i p lt,
    );
  }

  -- `clifo_push` writes the cell that it has locked.
  pub Inv-wrote :
      (v k : ℕ)
      → s.pc i ≡ push_store v k
      → Inv n (record s {
        mem = set_value s.mem k v;
        pc = update s.pc i (push_unlock k);
        given = update s.given k (s.given k ++ v ∷ []);
      })
  Inv-wrote v k at = record {
    room = room;
    small = small;
    drained = λ j le. ground (arith, own, drained j le);
    loaded = λ j le. ground (arith, own, loaded j le);
    in_order = λ j. ground (arith, in_order j, own, take-snoc (s.given k) v (length (s.taken k)));
    locals = λ j. ground (
      arith,
      own,
      unique i j k,
      Local-wrote s k v (update s.pc i (push_unlock k)) (s.pc j),
      locals j,
      length-snoc (s.given k) v,
      get_or-snoc_self (s.given k) v 0,
    );
    unique = λ a b j. ground (arith, unique a b j);
    held = λ j le e. let (x, xn, has) = held j le (ground arith) in (x, xn, ground arith);
    balance = λ j le. ground (
      arith,
      balance j le,
      weight-update (pusher j) n s.pc i (push_unlock k) lt,
      weight-update (pop_waiter j) n s.pc i (push_unlock k) lt,
    );
  }
    where
      own : (k + 1 < s.mem.bound) × (lock_at s.mem k ≡ busy) × Drained s k
      own = ground (arith, locals i)

  -- `clifo_pop` reads the cell that it has locked.
  pub Inv-read :
      (k : ℕ)
      → s.pc i ≡ pop_read k
      → Inv n (record s {
        pc = update s.pc i (pop_unlock k (value_at s.mem k));
        taken = update s.taken k (s.taken k ++ value_at s.mem k ∷ []);
      })
  Inv-read k at = record {
    room = room;
    small = small;
    drained = λ j le. ground (arith, own, drained j le);
    loaded = λ j le. ground (arith, own, loaded j le);
    in_order = λ j. ground (
      arith,
      in_order j,
      own,
      length-snoc (s.taken k) (value_at s.mem k),
      take-suc (s.given k) (length (s.taken k)) 0,
    );
    locals = λ j. ground (
      arith,
      own,
      unique i j k,
      Local-read s k (value_at s.mem k) (update s.pc i (pop_unlock k (value_at s.mem k))) (s.pc j),
      locals j,
      length-snoc (s.taken k) (value_at s.mem k),
    );
    unique = λ a b j. ground (arith, unique a b j);
    held = λ j le e. let (x, xn, has) = held j le (ground arith) in (x, xn, ground arith);
    balance = λ j le. ground (
      arith,
      balance j le,
      weight-update (pusher j) n s.pc i (pop_unlock k (value_at s.mem k)) lt,
      weight-update (pop_waiter j) n s.pc i (pop_unlock k (value_at s.mem k)) lt,
    );
  }
    where
      own : (k + 1 < s.mem.bound) × (lock_at s.mem k ≡ busy) × Loaded s k
      own = ground (arith, locals i)
