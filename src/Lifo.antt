-- ===== src/Lifo.antt =====
-- src/lifo/clifo.c, the lock-free stack, over the counted arrays of src/common/carray.h.
-- A call is cut into its accesses of shared memory, each one atomic step of one thread. A call
-- first moves `head` by a CAS, which gives it a cell, and then waits for the lock of that cell.
pub mod System
pub mod Invariant
pub mod Safety
pub mod Progress
pub mod Solo
pub mod Schedule
mod Examples
use ssr.Carray.{Array, array_size}
use ssr.Base.{
  ℕ, zero, suc, ◌+◌, ◌-◌, ◌^◌, Bool, true, false, Option, none, some, ◌==◌, if◌then◌else◌, update,
  u64,
}

-- The node states NST_EMPTY, NST_BUSY and NST_FULL.
pub data NodeState : Type 0 where
  empty busy full : NodeState

-- `clifo_node_s`
pub record Node : Type 0 where
  pub value : ℕ
  pub lock : NodeState

-- `clifo_s`
pub record Lifo : Type 0 where
  pub head : ℕ
  pub buffer : Array Node
  pub open buffer use {bound, cells}

abbrev pub lock_at : Lifo → ℕ → NodeState
lock_at m k = (m.cells k).lock

abbrev pub value_at : Lifo → ℕ → ℕ
value_at m k = (m.cells k).value

abbrev pub set_lock : Lifo → ℕ → NodeState → Lifo
set_lock m k st = record m {
  buffer = record m.buffer { cells = update m.cells k (record (m.cells k) { lock = st }) };
}

abbrev pub set_value : Lifo → ℕ → ℕ → Lifo
set_value m k v = record m {
  buffer = record m.buffer { cells = update m.cells k (record (m.cells k) { value = v }) };
}

-- The loop of `clifo_alloc` over the first `n` cells.
init_locks : ℕ → (ℕ → Node) → ℕ → Node
init_locks zero cells = cells
init_locks (suc n) cells =
    let rest = init_locks n cells in update rest n (record (rest n) { lock = empty })

-- `malloc` takes a number of bytes and returns NULL, or cells with whatever they held before.
pub alloc : (malloc : ℕ → Option (ℕ → Node)) → ℕ → Option Lifo
unfolding init_locks
alloc malloc size = elim (malloc (u64 (16 + array_size 16 size))) [
  | none ↦ none
  | some cells ↦
      some (record { head = 0; buffer = record { bound = size; cells = init_locks size cells } })
]

-- `clifo_size`
pub size : Lifo → ℕ
size m = m.head

-- Where a thread stands in `clifo_push` or `clifo_pop`.
pub data Pc : Type 0 where
  idle : Pc
  push_begin : (value : ℕ) → Pc  -- before the load of `head`
  push_test : (value head : ℕ) → Pc  -- at the test for a full stack
  push_cas : (value head : ℕ) → Pc  -- before the CAS of `head`
  push_lock : (value cell : ℕ) → Pc  -- at the spin on the lock of the cell
  push_store : (value cell : ℕ) → Pc  -- before the write of the cell
  push_unlock : (cell : ℕ) → Pc  -- before the release of the lock
  pushed : (done : Bool) → Pc  -- returned 0 (true) or -1 (false)
  pop_begin : Pc  -- before the load of `head`
  pop_test : (head : ℕ) → Pc  -- at the test for an empty stack
  pop_cas : (head : ℕ) → Pc  -- before the CAS of `head`
  pop_lock : (cell : ℕ) → Pc  -- at the spin on the lock of the cell
  pop_read : (cell : ℕ) → Pc  -- before the read of the cell
  pop_unlock : (cell value : ℕ) → Pc  -- before the release of the lock
  popped : (value : ℕ) → Pc  -- returned

-- The write of a cell, and the read of one.
pub data Event : Type 0 where
  silent : Event
  wrote : (cell value : ℕ) → Event
  read : (cell value : ℕ) → Event

-- `NST_PP_LOCK`: one try to go from `old` to BUSY.
abbrev pub try_lock : NodeState → NodeState → Bool
try_lock empty empty = true
try_lock full full = true
try_lock busy busy = true
try_lock _ _ = false

pub exec : Lifo → Pc → Lifo × Pc × Event
exec m idle = (m, idle, silent)
exec m (push_begin v) = (m, push_test v m.head, silent)
exec m (push_test v h) =
    if h == u64 (m.bound + (2 ^ 64 - 1))
    then (m, pushed false, silent)
    else (m, push_cas v h, silent)
exec m (push_cas v h) =
    if m.head == h
    then (record m { head = u64 (h + 1) }, push_lock v h, silent)
    else (m, push_begin v, silent)
exec m (push_lock v k) =
    if try_lock empty (lock_at m k)
    then (set_lock m k busy, push_store v k, silent)
    else (m, push_lock v k, silent)
exec m (push_store v k) = (set_value m k v, push_unlock k, wrote k v)
exec m (push_unlock k) = (set_lock m k full, pushed true, silent)
exec m (pushed d) = (m, pushed d, silent)
exec m pop_begin = (m, pop_test m.head, silent)
exec m (pop_test h) = if h == 0 then (m, popped 0, silent) else (m, pop_cas h, silent)
exec m (pop_cas h) =
    if m.head == h
    then (record m { head = h - 1 }, pop_lock (h - 1), silent)
    else (m, pop_begin, silent)
exec m (pop_lock k) =
    if try_lock full (lock_at m k)
    then (set_lock m k busy, pop_read k, silent)
    else (m, pop_lock k, silent)
exec m (pop_read k) = (m, pop_unlock k (value_at m k), read k (value_at m k))
exec m (pop_unlock k v) = (set_lock m k empty, popped v, silent)
exec m (popped v) = (m, popped v, silent)
