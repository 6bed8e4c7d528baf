-- ===== src/Lifo/Examples.antt =====
-- Runs of src/lifo/clifo.c, and its theorems at them.
use ssr.Base.{
  ℕ, zero, suc, ◌+◌, ◌≤◌, ◌<◌, ◌≡◌, refl, inr, true, some, List, [], ◌∷◌, ◌++◌, take, length, arith,
}
use ssr.Lifo.{
  empty, busy, full, Node, Lifo, lock_at, push_begin, pushed, pop_begin, popped, alloc, init_locks,
  size, exec,
}
use ssr.Lifo.System.{ready}
use ssr.Lifo.Invariant.{Loaded}
use ssr.Lifo.Safety.{IsFresh, alloc-IsFresh, cell_hands_over, cell_exclusion, quiet_shape}
use ssr.Lifo.Progress.{GoesOn, no_deadlock}
use ssr.Lifo.Solo.{solo, contents, Quiet, push_spec, pop_spec, lifo_push_refines, lifo_pop_refines}
use ssr.Lifo.Schedule.{Act, push, pop, go, Play, play}

abbrev blank : ℕ → Node
blank k = record { value = 0; lock = busy }

abbrev unused : Lifo
unused = record { head = 0; buffer = record { bound = 3; cells = init_locks 3 blank } }

abbrev gos : ℕ → ℕ → List Act
gos zero i = []
gos (suc n) i = go i ∷ gos n i

-- Thread 0 pushes 7 and 8; thread 1 takes the cell of 8 for a pop before it is written.
abbrev handed : Play 2 unused
handed =
    play 2 unused
      (push 0 7 ∷ gos 6 0 ++ push 0 8 ∷ gos 3 0 ++ pop 1 ∷ gos 4 1 ++ gos 3 0 ++ gos 3 1)

handed_over : (handed.last.taken 1 ≡ 8 ∷ []) × (handed.last.pc 1 ≡ popped 8)
unfolding play init_locks
handed_over = (refl, refl)

cell_hands_over_example :
    (handed.last.taken 1 ≡ take (length (handed.last.taken 1)) (handed.last.given 1))
    × (length (handed.last.taken 1) ≤ length (handed.last.given 1))
    × (length (handed.last.given 1) ≤ length (handed.last.taken 1) + 1)
unfolding play init_locks alloc
cell_hands_over_example =
    cell_hands_over (λ n. some blank) 3 {m = unused} (omega arith) (omega arith) refl handed.reach 1
      (omega arith)

unused-IsFresh : IsFresh unused
unfolding alloc
unused-IsFresh = (alloc-IsFresh (λ n. some blank) 3 (omega arith) (omega arith) refl).0

-- Thread 1 waits for the cell that thread 0 has taken.
abbrev waiting : Play 2 unused
waiting = play 2 unused (push 0 7 ∷ gos 4 0 ++ pop 1 ∷ gos 4 1)

cell_exclusion_example : ◌≡◌ {A = ℕ} 0 0
unfolding play init_locks
cell_exclusion_example = cell_exclusion unused-IsFresh waiting.reach 0 0 0 refl refl

no_deadlock_example : (j : ℕ) × (j < 2) × GoesOn waiting.last 0 j
unfolding play init_locks
no_deadlock_example = no_deadlock unused-IsFresh waiting.reach 1 0 (omega arith) (inr refl)

all_ready : (i : ℕ) → ready (handed.last.pc i) ≡ true
unfolding play init_locks
all_ready zero = refl
all_ready (suc zero) = refl
all_ready (suc (suc i)) = ground arith

quiet_shape_example :
    (size handed.last.mem < handed.last.mem.bound)
    × ((k : ℕ)
        → k < size handed.last.mem
        → (lock_at handed.last.mem k ≡ full) × Loaded handed.last k)
    × ((k : ℕ)
        → size handed.last.mem ≤ k
        → k < handed.last.mem.bound
        → lock_at handed.last.mem k ≡ empty)
quiet_shape_example = quiet_shape unused-IsFresh handed.reach all_ready

-- The value 5 in the first of three cells.
abbrev single : Lifo
single = record {
  head = 1;
  buffer = record {
    bound = 3;
    cells = λ k. elim k [
      | zero ↦ record { value = 5; lock = full }
      | suc _ ↦ record { value = 0; lock = empty }
    ];
  };
}

single-Quiet : Quiet single
single-Quiet = record {
  room = omega arith;
  small = omega arith;
  below = λ k lt. below k lt;
  above = λ k ge lt. above k ge;
}
  where
    below : (k : ℕ) → k < 1 → lock_at single k ≡ full
    below zero lt = refl
    below (suc k) lt = absurd (omega arith)

    above : (k : ℕ) → 1 ≤ k → lock_at single k ≡ empty
    above zero ge = absurd (omega arith)
    above (suc k) ge = refl

lifo_push_refines_example :
    let (m', p) = solo 6 single (push_begin 6) in
    let (done, q) = push_spec 2 (contents single) 6 in
    (p ≡ pushed done) × (contents m' ≡ q) × Quiet m'
lifo_push_refines_example = lifo_push_refines single 6 single-Quiet

lifo_pop_refines_example :
    let (m', p) = solo 6 single pop_begin in
    let (v, q) = pop_spec (contents single) in (p ≡ popped v) × (contents m' ≡ q) × Quiet m'
lifo_pop_refines_example = lifo_pop_refines single single-Quiet

lifo_pop_runs : (solo 6 single pop_begin).1 ≡ popped 5
unfolding solo exec
lifo_pop_runs = refl
