-- ===== src/Lifo/Invariant.antt =====
-- What the locals of each thread say about the stack of src/lifo/clifo.c, and the invariant of the
-- whole system of `n` threads.
pub mod Change
pub mod Claim
pub mod Cell
pub mod Turns
pub mod Steps
use ssr.Base.{
  ℕ, ◌+◌, ◌^◌, ◌<◌, ◌≡◌, ◌≢◌, Option, none, some, List, length, get_or, take, weight, ltb, ◌==◌,
  if◌then◌else◌,
}
use ssr.Lifo.{
  NodeState, empty, busy, full, Lifo, lock_at, value_at, Pc, push_cas, push_lock, push_store,
  push_unlock, pop_cas, pop_lock, pop_read, pop_unlock,
}
use ssr.Lifo.System.{System}

-- The cell whose lock a thread holds.
abbrev pub holds : Pc → Option ℕ
holds (push_store _ k) = some k
holds (push_unlock k) = some k
holds (pop_read k) = some k
holds (pop_unlock k _) = some k
holds _ = none

-- 1 for a thread that has taken cell `k` for a push and has not finished.
abbrev pub pusher : ℕ → Pc → ℕ
pusher k (push_lock _ j) = if j == k then 1 else 0
pusher k (push_store _ j) = if j == k then 1 else 0
pusher k (push_unlock j) = if j == k then 1 else 0
pusher k _ = 0

-- 1 for a thread that has taken cell `k` for a pop and waits for its lock.
abbrev pub pop_waiter : ℕ → Pc → ℕ
pop_waiter k (pop_lock j) = if j == k then 1 else 0
pop_waiter k _ = 0

abbrev pub full_count : NodeState → ℕ
full_count full = 1
full_count _ = 0

-- A cell with nothing to read, and a cell with one value to read.
abbrev pub Drained : System → ℕ → Type 0
Drained s k = length (s.given k) ≡ length (s.taken k)

abbrev pub Loaded : System → ℕ → Type 0
Loaded s k =
    (length (s.given k) ≡ length (s.taken k) + 1)
    × (value_at s.mem k ≡ get_or (s.given k) (length (s.taken k)) 0)

abbrev pub Local : System → Pc → Type 0
Local s (push_cas v h) = h + 1 ≢ s.mem.bound
Local s (push_lock v k) = k + 1 < s.mem.bound
Local s (push_store v k) = (k + 1 < s.mem.bound) × (lock_at s.mem k ≡ busy) × Drained s k
Local s (push_unlock k) = (k + 1 < s.mem.bound) × (lock_at s.mem k ≡ busy) × Loaded s k
Local s (pop_cas h) = h ≢ 0
Local s (pop_lock k) = k + 1 < s.mem.bound
Local s (pop_read k) = (k + 1 < s.mem.bound) × (lock_at s.mem k ≡ busy) × Loaded s k
Local s (pop_unlock k v) = (k + 1 < s.mem.bound) × (lock_at s.mem k ≡ busy) × Drained s k
Local s _ = Unit

pub record Inv (n : ℕ) (s : System) : Type 0 where
  pub room : s.mem.head < s.mem.bound
  pub small : s.mem.bound < 2 ^ 64
  pub drained : (k : ℕ) → k < s.mem.bound → lock_at s.mem k ≡ empty → Drained s k
  pub loaded : (k : ℕ) → k < s.mem.bound → lock_at s.mem k ≡ full → Loaded s k
  pub in_order : (k : ℕ) → s.taken k ≡ take (length (s.taken k)) (s.given k)
  pub locals : (i : ℕ) → Local s (s.pc i)
  pub unique : (i j k : ℕ) → holds (s.pc i) ≡ some k → holds (s.pc j) ≡ some k → i ≡ j
  pub held :
      (k : ℕ)
      → k < s.mem.bound
      → lock_at s.mem k ≡ busy
      → (i : ℕ) × (i < n) × (holds (s.pc i) ≡ some k)
  pub balance :
      (k : ℕ)
      → k < s.mem.bound
      → weight (pusher k) n s.pc + full_count (lock_at s.mem k)
        ≡ weight (pop_waiter k) n s.pc + (if ltb k s.mem.head then 1 else 0)
