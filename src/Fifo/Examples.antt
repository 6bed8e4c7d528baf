-- ===== src/Fifo/Examples.antt =====
-- Runs of src/fifo/cfifo.c, and its theorems at them.
use ssr.Base.{
  ℕ, zero, suc, ◌+◌, ◌-◌, ◌^◌, ◌≤◌, ◌≡◌, refl, ◌⊎◌, Bool, true, false, some, List, [], ◌∷◌, ◌++◌,
  ◌==◌, take, length, arith,
}
use ssr.Fifo.{Fifo, IsFresh, push_begin, pushed, pop_begin, popped, alloc, size, exec}
use ssr.Fifo.System.{System, advance, Reach}
use ssr.Fifo.Invariant.Steps.{Single}
use ssr.Fifo.Order.{pops_follow_pushes}
use ssr.Fifo.Progress.{spin_ends}
use ssr.Fifo.Solo.{solo, contents, Quiet, push_spec, pop_spec, fifo_push_refines, fifo_pop_refines}
use ssr.Fifo.Schedule.{Act, push, pop, go, Play, play}
use ssr.Fifo.Races.{popper, unused, two_consumers_overtake}

abbrev blank : ℕ → ℕ
blank k = 0

abbrev gos : ℕ → ℕ → List Act
gos zero i = []
gos (suc n) i = go i ∷ gos n i

-- Thread 1 is the consumer.
abbrev one : ℕ → Bool
one i = i == 1

one-Single : Single one
one-Single a b p q = ground arith

-- Threads 0 and 2 push 7 and 8 at once, and thread 1 pops one value.
abbrev busy_run : Play one (unused 3 blank)
busy_run = play one (unused 3 blank) (
    push 0 7 ∷ push 2 8 ∷ gos 3 0
    ++ gos 4 2
    ++ gos 6 0
    ++ gos 4 2
    ++ gos 4 2
    ++ gos 5 0
    ++ pop 1 ∷ gos 6 1)

busy_run_orders : (busy_run.last.enqueued ≡ 8 ∷ 7 ∷ []) × (busy_run.last.dequeued ≡ 8 ∷ [])
unfolding play
busy_run_orders = (refl, refl)

pops_follow_pushes_example :
    (busy_run.last.dequeued ≡ take (length busy_run.last.dequeued) busy_run.last.enqueued)
    × (length busy_run.last.dequeued ≤ length busy_run.last.enqueued)
    × (length busy_run.last.enqueued ≤ length busy_run.last.dequeued + 2)
unfolding play alloc
pops_follow_pushes_example =
    pops_follow_pushes (λ n. some blank) 2 {m = unused 3 blank} (omega arith) refl one-Single
      busy_run.reach (omega arith)

unused-IsFresh : IsFresh (unused 3 blank)
unused-IsFresh = omega arith

-- Thread 0 has taken its place and not written yet.
abbrev half_way : Play one (unused 3 blank)
half_way = play one (unused 3 blank) (push 0 7 ∷ gos 4 0)

spin_ends_example :
    (j : ℕ) × (((advance half_way.last j).mem.sentinel ≡ half_way.last.mem.sentinel + 1)
      ⊎ ((advance (advance half_way.last j) j).mem.sentinel ≡ half_way.last.mem.sentinel + 1))
unfolding play
spin_ends_example = spin_ends one-Single unused-IsFresh half_way.reach (omega arith) (omega arith)

-- The values 8 and 9, round the end of the cells.
abbrev wrapped : Fifo
wrapped = record {
  head = 5;
  tail = 7;
  sentinel = 7;
  used = 2;
  buffer = record { bound = 4; cells = λ k. k + 7 };
}

wrapped-Quiet : Quiet wrapped
wrapped-Quiet = omega arith

fifo_push_refines_example :
    let (m', p) = solo 7 wrapped (push_begin 6) in
    let (done, q) = push_spec 3 (contents wrapped) 6 in
    (p ≡ pushed done) × (contents m' ≡ q) × Quiet m'
fifo_push_refines_example = fifo_push_refines wrapped 6 wrapped-Quiet (omega arith)

fifo_pop_refines_example :
    let (m', p) = solo 6 wrapped pop_begin in
    let (v, q) = pop_spec (contents wrapped) in (p ≡ popped v) × (contents m' ≡ q) × Quiet m'
fifo_pop_refines_example = fifo_pop_refines wrapped wrapped-Quiet

fifo_push_runs : (solo 7 wrapped (push_begin 6)).1 ≡ pushed true
unfolding solo exec
fifo_push_runs = refl

two_consumers_overtake_example :
    (s : System) × Reach popper (unused 16 (λ k. k + 100)) s
    × (s.enqueued ≡ 5 ∷ [])
    × (s.dequeued ≡ 5 ∷ 101 ∷ [])
    × (s.mem.tail ≡ 1)
    × (s.mem.head ≡ 2)
two_consumers_overtake_example = two_consumers_overtake 16 5 (λ k. k + 100) (omega arith)

-- A value is popped before its push has counted it: `used` goes below zero.
used_wraps :
    let r = play one (unused 3 blank) (push 0 7 ∷ gos 6 0 ++ pop 1 ∷ gos 6 1) in
    size r.last.mem ≡ 2 ^ 64 - 1
unfolding play size
used_wraps = refl

-- A push is refused although the queue is empty when it tests: `tail` was loaded too early.
spurious_full :
    let r =
      play one
        (unused 3 blank)
        (push 2 8 ∷ go 2 ∷ push 0 7 ∷ gos 7 0 ++ pop 1 ∷ gos 6 1 ++ gos 2 2) in
    (r.last.pc 2 ≡ pushed false) × (r.last.mem.tail ≡ r.last.mem.head)
unfolding play
spurious_full = (refl, refl)
