-- ===== src/Fifo.antt =====
-- src/fifo/cfifo.c, the lock-free ring queue, over the counted arrays of src/common/carray.h.
-- A call is cut into its accesses of shared memory, each one atomic step of one thread: `Pc` says
-- where a thread stands and holds its live locals, and `exec` makes the thread's next access.
-- `Fifo/System` runs any number of threads, one step at a time, in any order.
pub mod System
pub mod Invariant
pub mod Order
pub mod Progress
pub mod Solo
pub mod Schedule
pub mod Races
mod Examples
use ssr.Carray.{Array, array_size}
use ssr.Base.{
  ℕ, ◌+◌, ◌-◌, ◌*◌, ◌%◌, ◌^◌, ◌<◌, ◌≡◌, Bool, true, false, Option, none, some, ◌==◌, if◌then◌else◌,
  update, u64,
}

-- `cfifo_s`
pub record Fifo : Type 0 where
  pub head : ℕ
  pub tail : ℕ
  pub sentinel : ℕ
  pub used : ℕ
  pub buffer : Array ℕ  -- a `cfifo_node_s` is a pointer, and NULL is 0
  pub open buffer use {bound, cells}

-- `malloc` takes a number of bytes and returns NULL, or cells with whatever they held before.
pub alloc : (malloc : ℕ → Option (ℕ → ℕ)) → ℕ → Option Fifo
alloc malloc size =
    let bound = u64 (size + 1) in
    elim (malloc (u64 (40 + array_size 8 bound))) [
      | none ↦ none
      | some cells ↦ some (record {
        head = 0;
        tail = 0;
        sentinel = 0;
        used = 0;
        buffer = record { bound = bound; cells = cells };
      })
    ]

-- `cfifo_size`
pub size : Fifo → ℕ
size m = m.used

-- A queue that nobody has used yet.
pub record IsFresh (m : Fifo) : Type 0 where
  pub head_zero : m.head ≡ 0
  pub tail_zero : m.tail ≡ 0
  pub sentinel_zero : m.sentinel ≡ 0
  pub used_zero : m.used ≡ 0
  pub has_room : 0 < m.bound

-- Where a thread stands in `cfifo_push` or `cfifo_pop`.
pub data Pc : Type 0 where
  idle : Pc
  push_begin : (value : ℕ) → Pc  -- before the load of `tail`
  push_head : (value tail : ℕ) → Pc  -- before the load of `head`
  push_test : (value tail head : ℕ) → Pc  -- at the test for a full queue
  push_cas : (value tail : ℕ) → Pc  -- before the CAS of `tail`
  push_store : (value tail : ℕ) → Pc  -- before the write of the cell
  push_commit : (tail : ℕ) → Pc  -- at the spin on `sentinel`
  push_count : Pc  -- before the increment of `used`
  pushed : (done : Bool) → Pc  -- returned 0 (true) or -1 (false)
  pop_begin : Pc  -- before the load of `sentinel`
  pop_head : (sentinel : ℕ) → Pc  -- before the load of `head`
  pop_test : (sentinel head : ℕ) → Pc  -- at the test for an empty queue
  pop_read : (head : ℕ) → Pc  -- before the read of the cell
  pop_cas : (head value : ℕ) → Pc  -- before the CAS of `head`
  pop_count : (value : ℕ) → Pc  -- before the decrement of `used`
  popped : (value : ℕ) → Pc  -- returned

-- What a step does to the order of the queue: a CAS of `tail` or of `head` that succeeds.
pub data Event : Type 0 where
  silent : Event
  enqueue : ℕ → Event
  dequeue : ℕ → Event

pub exec : Fifo → Pc → Fifo × Pc × Event
exec m idle = (m, idle, silent)
exec m (push_begin v) = (m, push_head v m.tail, silent)
exec m (push_head v t) = (m, push_test v t m.head, silent)
exec m (push_test v t h) =
    if u64 (t + 1) % m.bound == h % m.bound
    then (m, pushed false, silent)
    else (m, push_cas v t, silent)
exec m (push_cas v t) =
    if m.tail == t
    then (record m { tail = u64 (t + 1) }, push_store v t, enqueue v)
    else (m, push_begin v, silent)
exec m (push_store v t) = (
  record m { buffer = record m.buffer { cells = update m.cells (t % m.bound) v } },
  push_commit t,
  silent,
)
exec m (push_commit t) =
    if m.sentinel == t
    then (record m { sentinel = u64 (t + 1) }, push_count, silent)
    else (m, push_commit t, silent)
exec m push_count = (record m { used = u64 (m.used + 1) }, pushed true, silent)
exec m (pushed d) = (m, pushed d, silent)
exec m pop_begin = (m, pop_head m.sentinel, silent)
exec m (pop_head s) = (m, pop_test s m.head, silent)
exec m (pop_test s h) =
    if h % m.bound == s % m.bound then (m, popped 0, silent) else (m, pop_read h, silent)
exec m (pop_read h) = (m, pop_cas h (m.cells (h % m.bound)), silent)
exec m (pop_cas h v) =
    if m.head == h
    then (record m { head = u64 (h + 1) }, pop_count v, dequeue v)
    else (m, pop_begin, silent)
exec m (pop_count v) = (record m { used = u64 (m.used + (2 ^ 64 - 1)) }, popped v, silent)
exec m (popped v) = (m, popped v, silent)
