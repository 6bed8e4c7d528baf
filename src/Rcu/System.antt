-- ===== src/Rcu/System.antt =====
-- Threads that call `rcu_update` and `rcu_defer_free` of src/runtime/rcu.c. The rounds of the loops
-- of `rcu_update` are steps of their own, and those of all threads mix in any order.
use ssr.Base.{ℕ, ◌+◌, ◌^◌, ◌<◌, ◌≡◌, some, List, [], ◌∷◌, ◌++◌, update}
use ssr.Rcu.{Rcu, update_round, free_round, rcu_defer_free, update_at}

-- `seen t i` is no part of the program: the `head` of thread `i` when thread `t` was last in the
-- round of its `rcu_update` that is for `i`, and so held no block. Nor is `deferred i`, the blocks that
-- thread `i` has deferred, in this order.
pub record System : Type 0 where
  pub mem : Rcu
  pub seen : ℕ → ℕ → ℕ
  pub deferred : ℕ → List ℕ

pub data Step (s : System) : System → Type 0 where
  update_step :
      (t i : ℕ)
      → t < s.mem.num_threads
      → i < s.mem.num_threads
      → Step s
          (record s { mem = update_round s.mem t i; seen = update_at s.seen t i (s.mem.head i) })
  free_step : (t : ℕ) → t < s.mem.num_threads → Step s (record s { mem = free_round s.mem t })
  defer_step :
      (t x : ℕ) {m : Rcu}
      → t < s.mem.num_threads
      → s.mem.head t + 1 < 2 ^ 32
      → rcu_defer_free s.mem t x ≡ some m
      → Step s (record s { mem = m; deferred = update s.deferred t (s.deferred t ++ x ∷ []) })

-- `n` threads are registered and nothing has been deferred.
abbrev pub init : ℕ → System
init n = record {
  mem = record {
    num_threads = n;
    rcu = λ _ _. 0;
    last_posted = λ _ _. 0;
    head = λ _. 0;
    tail = λ _. 0;
    slots = λ _ _. 0;
    freed = λ _. [];
  };
  seen = λ _ _. 0;
  deferred = λ _. [];
}

pub data Reach (n : ℕ) : System → Type 0 where
  start : Reach n (init n)
  later : {s t : System} → Reach n s → Step s t → Reach n t
