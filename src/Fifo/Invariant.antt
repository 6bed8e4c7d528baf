-- ===== src/Fifo/Invariant.antt =====
-- What the locals of each thread say about the queue of src/fifo/cfifo.c, and the invariant of a
-- queue with one consumer.
pub mod Change
pub mod Keep
pub mod Steps
use ssr.Base.{
  ℕ, ◌+◌, ◌%◌, ◌≤◌, ◌<◌, ◌≡◌, Bool, true, false, Option, none, some, List, get_or, length, take,
}
use ssr.Fifo.{
  Fifo, Pc, push_head, push_test, push_cas, push_store, push_commit, pop_begin, pop_head, pop_test,
  pop_read, pop_cas,
}
use ssr.Fifo.System.{System}

-- The place in the queue that a thread has taken and not yet published.
abbrev pub ticket : Pc → Option ℕ
ticket (push_store _ t) = some t
ticket (push_commit t) = some t
ticket _ = none

-- In `cfifo_pop`, before it has won its place.
abbrev pub popping : Pc → Bool
popping pop_begin = true
popping (pop_head _) = true
popping (pop_test _ _) = true
popping (pop_read _) = true
popping (pop_cas _ _) = true
popping _ = false

-- A load of `tail` that is out of date makes the CAS fail, so it says nothing of `head`.
abbrev pub Local : Fifo → List ℕ → Pc → Type 0
Local m l (push_head v t) = t ≤ m.tail
Local m l (push_test v t h) =
    (t ≤ m.tail) × (h ≤ m.head) × (m.tail ≡ t → (h ≤ t) × (t < h + m.bound))
Local m l (push_cas v t) = (t ≤ m.tail) × (m.tail ≡ t → t + 1 < m.head + m.bound)
Local m l (push_store v t) = (m.sentinel ≤ t) × (t < m.tail) × (get_or l t 0 ≡ v)
Local m l (push_commit t) = (m.sentinel ≤ t) × (t < m.tail) × (m.cells (t % m.bound) ≡ get_or l t 0)
Local m l (pop_head s) = (m.head ≤ s) × (s ≤ m.sentinel)
Local m l (pop_test s h) = (h ≡ m.head) × (m.head ≤ s) × (s ≤ m.sentinel)
Local m l (pop_read h) = (h ≡ m.head) × (m.head < m.sentinel)
Local m l (pop_cas h v) = (h ≡ m.head) × (m.head < m.sentinel) × (get_or l h 0 ≡ v)
Local m l _ = Unit

pub record Inv (consumer : ℕ → Bool) (s : System) : Type 0 where
  pub head_le : s.mem.head ≤ s.mem.sentinel
  pub sentinel_le : s.mem.sentinel ≤ s.mem.tail
  pub fits : s.mem.tail < s.mem.head + s.mem.bound
  pub tail_counts : s.mem.tail ≡ length s.enqueued
  pub head_counts : s.mem.head ≡ length s.dequeued
  pub in_order : s.dequeued ≡ take s.mem.head s.enqueued
  pub stored :
      (k : ℕ)
      → s.mem.head ≤ k
      → k < s.mem.sentinel
      → s.mem.cells (k % s.mem.bound) ≡ get_or s.enqueued k 0
  pub locals : (i : ℕ) → Local s.mem s.enqueued (s.pc i)
  pub unique : (i j t : ℕ) → ticket (s.pc i) ≡ some t → ticket (s.pc j) ≡ some t → i ≡ j
  pub covered : (t : ℕ) → s.mem.sentinel ≤ t → t < s.mem.tail → (i : ℕ) × (ticket (s.pc i) ≡ some t)
  pub consumers : (i : ℕ) → popping (s.pc i) ≡ true → consumer i ≡ true
