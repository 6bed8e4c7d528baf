-- ===== src/Rcu/Ring.antt =====
-- One trip round the ring of threads of src/runtime/rcu.c frees the blocks that were posted.
use ssr.Base.{ℕ, zero, suc, Option, none, some}
use ssr.Rcu.{Rcu, next_thread, rcu_update}
use ssr.Rcu.System.{System}

-- `k` threads, the one after the other in the ring from `t` on, call `rcu_update`.
pub ring_pass : (k fuel : ℕ) → Rcu → (t : ℕ) → Option Rcu
ring_pass zero fuel s t = some s
ring_pass (suc k) fuel s t = elim (rcu_update fuel s t) [
  | none ↦ none
  | some s' ↦ ring_pass k fuel s' (next_thread s'.num_threads t)
]
