-- ===== src/Lifo/Schedule.antt =====
-- Reachable states of src/lifo/clifo.c by evaluation of a schedule.
use ssr.Base.{ℕ, ◌<◌, inl, inr, List, Bool-cases}
use mathlib.Core.List.{foldl}
use native.Mathlib.Decide.{dec_lt}
use ssr.Lifo.{Lifo, exec}
use ssr.Lifo.System.{System, ready, call_push, call_pop, run, advance, init, Reach, start, later}

pub data Act : Type 0 where
  push : (thread value : ℕ) → Act
  pop : (thread : ℕ) → Act
  go : (thread : ℕ) → Act

pub record Play (n : ℕ) (m : Lifo) : Type 0 where
  pub last : System
  pub reach : Reach n m last

abbrev thread_of : Act → ℕ
thread_of (push i _) = i
thread_of (pop i) = i
thread_of (go i) = i

module _ {n : ℕ} {m : Lifo} where
  -- An act of a thread that is not there, and a call by one that is in a call, are left out.
  act : Play n m → (i : ℕ) → i < n → Act → Play n m
  unfolding Bool-cases
  act r i lt (push _ v) = elim (Bool-cases (ready (r.last.pc i))) [
    | inl free ↦ record { last = _; reach = later r.reach (call_push i v lt free) }
    | inr busy ↦ r
  ]
  act r i lt (pop _) = elim (Bool-cases (ready (r.last.pc i))) [
    | inl free ↦ record { last = _; reach = later r.reach (call_pop i lt free) }
    | inr busy ↦ r
  ]
  act r i lt (go _) = record { last = _; reach = later r.reach (run i lt) }

  turn : Play n m → Act → Play n m
  unfolding act dec_lt
  turn r a = elim (dec_lt (thread_of a) n) [ yes lt ↦ act r (thread_of a) lt a | no _ ↦ r ]

unfoldable pub play : (n : ℕ) (m : Lifo) → List Act → Play n m
unfolding turn advance exec
play n m = foldl turn (record { last = init m; reach = start })
