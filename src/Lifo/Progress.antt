-- ===== src/Lifo/Progress.antt =====
-- A thread of src/lifo/clifo.c that waits for a cell waits for a thread that can go on.
use ssr.Base.{ℕ, ◌<◌, ◌≡◌, ◌≢◌, refl, ◌⊎◌, Option, none, some, arith, weight, weight_pos, weight_ge}
use ssr.Lifo.{
  NodeState, empty, busy, full, Lifo, lock_at, Pc, push_lock, push_store, push_unlock, pop_lock,
  pop_read, pop_unlock, exec,
}
use ssr.Lifo.System.{System, advance, Reach}
use ssr.Lifo.Invariant.{holds, pusher, pop_waiter, Inv}
use ssr.Lifo.Safety.{IsFresh, Reach-Inv}

-- The cell that a thread has taken and not finished with.
abbrev pub cell_of : Pc → Option ℕ
cell_of (push_lock _ k) = some k
cell_of (push_store _ k) = some k
cell_of (push_unlock k) = some k
cell_of (pop_lock k) = some k
cell_of (pop_read k) = some k
cell_of (pop_unlock k _) = some k
cell_of _ = none

-- At one of the two spins of cell `k`.
abbrev pub Waits : ℕ → Pc → Type 0
Waits k p = ((v : ℕ) × (p ≡ push_lock v k)) ⊎ (p ≡ pop_lock k)

-- Thread `j` is at cell `k`, and its next access takes it further.
abbrev pub GoesOn : System → ℕ → ℕ → Type 0
GoesOn s k j = (cell_of (s.pc j) ≡ some k) × ((advance s j).pc j ≢ s.pc j)

module _ {n : ℕ} {s : System} (inv : Inv n s) (k : ℕ) where
  holder-GoesOn : (j : ℕ) (p : Pc) → s.pc j ≡ p → holds p ≡ some k → GoesOn s k j
  unfolding advance exec
  holder-GoesOn j (push_store v c) at e = (ground arith, ground arith)
  holder-GoesOn j p at e = (ground arith, ground arith)

  pusher-GoesOn :
      (j : ℕ) (p : Pc) → s.pc j ≡ p → lock_at s.mem k ≡ empty → 0 < pusher k p → GoesOn s k j
  unfolding advance exec
  pusher-GoesOn j (push_lock v c) at free w = (ground arith, ground arith)
  pusher-GoesOn j p at free w = ground (arith, inv.locals j)

  popper-GoesOn :
      (j : ℕ) (p : Pc) → s.pc j ≡ p → lock_at s.mem k ≡ full → 0 < pop_waiter k p → GoesOn s k j
  unfolding advance exec
  popper-GoesOn j (pop_lock c) at ready w = (ground arith, ground arith)
  popper-GoesOn j p at ready w = absurd (ground arith)

  by_lock :
      (i : ℕ)
      → i < n
      → k < s.mem.bound
      → Waits k (s.pc i)
      → (st : NodeState) → lock_at s.mem k ≡ st
      → (j : ℕ) × (j < n) × GoesOn s k j
  by_lock i lt inside w busy e =
      let (j, jn, own) = inv.held k inside e in (j, jn, holder-GoesOn j (s.pc j) refl own)
  by_lock i lt inside w empty e =
      let (j, jn, pos) = weight_pos (pusher k) n s.pc pushers in
      (j, jn, pusher-GoesOn j (s.pc j) refl e pos)
    where
      pushers : 0 < weight (pusher k) n s.pc
      pushers = ground (
        arith,
        inv.balance k inside,
        weight_ge (pusher k) n s.pc i lt,
        weight_ge (pop_waiter k) n s.pc i lt,
      )
  by_lock i lt inside w full e =
      let (j, jn, pos) = weight_pos (pop_waiter k) n s.pc waiters in
      (j, jn, popper-GoesOn j (s.pc j) refl e pos)
    where
      waiters : 0 < weight (pop_waiter k) n s.pc
      waiters = ground (
        arith,
        inv.balance k inside,
        weight_ge (pusher k) n s.pc i lt,
        weight_ge (pop_waiter k) n s.pc i lt,
      )

-- While a thread spins on the lock of a cell, some thread at that cell goes on with its next
-- access: no set of calls ends up with all of them spinning.
pub no_deadlock :
    {n : ℕ} {m : Lifo} {s : System}
    → IsFresh m
    → Reach n m s
    → (i k : ℕ) → i < n
    → Waits k (s.pc i)
    → (j : ℕ) × (j < n) × GoesOn s k j
no_deadlock {s} fresh r i k lt w =
    let inv = Reach-Inv fresh r in
    by_lock inv k i lt (ground (arith, inv.locals i)) w (lock_at s.mem k) refl
