-- ===== src/Fifo/Schedule.antt =====
-- Reachable states of src/fifo/cfifo.c by evaluation of a schedule.
use ssr.Base.{ℕ, inl, inr, Bool, List, Bool-cases}
use mathlib.Core.List.{foldl}
use ssr.Fifo.{Fifo, exec}
use ssr.Fifo.System.{System, ready, call_push, call_pop, run, advance, init, Reach, start, later}

pub data Act : Type 0 where
  push : (thread value : ℕ) → Act
  pop : (thread : ℕ) → Act
  go : (thread : ℕ) → Act

pub record Play (consumer : ℕ → Bool) (m : Fifo) : Type 0 where
  pub last : System
  pub reach : Reach consumer m last

module _ {consumer : ℕ → Bool} {m : Fifo} where
  -- A call by a thread that is in a call, or may not pop, is left out.
  act : Play consumer m → Act → Play consumer m
  unfolding Bool-cases
  act r (push i v) = elim (Bool-cases (ready (r.last.pc i))) [
    | inl free ↦ record { last = _; reach = later r.reach (call_push i v free) }
    | inr busy ↦ r
  ]
  act r (pop i) = elim (Bool-cases (ready (r.last.pc i))) [
    | inl free ↦ elim (Bool-cases (consumer i)) [
      | inl may ↦ record { last = _; reach = later r.reach (call_pop i may free) }
      | inr not ↦ r
    ]
    | inr busy ↦ r
  ]
  act r (go i) = record { last = _; reach = later r.reach (run i) }

unfoldable pub play : (consumer : ℕ → Bool) (m : Fifo) → List Act → Play consumer m
unfolding act advance exec
play consumer m = foldl act (record { last = init m; reach = start })
