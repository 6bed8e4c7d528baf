-- ===== src/Fifo/System.antt =====
-- Threads that call `cfifo_push` and `cfifo_pop` on one queue, interleaved in any order.
use ssr.Base.{ℕ, ◌≡◌, Bool, true, false, List, [], ◌∷◌, ◌++◌, update}
use ssr.Fifo.{Fifo, Pc, idle, push_begin, pushed, pop_begin, popped, Event, enqueue, dequeue, exec}

-- The last two fields are no part of the program: the values whose CAS of `tail`, and of `head`,
-- has succeeded, oldest first.
pub record System : Type 0 where
  pub mem : Fifo
  pub pc : ℕ → Pc
  pub enqueued : List ℕ
  pub dequeued : List ℕ

abbrev pub log_enqueue : List ℕ → Event → List ℕ
log_enqueue l (enqueue v) = l ++ v ∷ []
log_enqueue l _ = l

abbrev pub log_dequeue : List ℕ → Event → List ℕ
log_dequeue l (dequeue v) = l ++ v ∷ []
log_dequeue l _ = l

abbrev pub after : System → ℕ → Fifo × Pc × Event → System
after s i (m, p, e) = record {
  mem = m;
  pc = update s.pc i p;
  enqueued = log_enqueue s.enqueued e;
  dequeued = log_dequeue s.dequeued e;
}

-- Thread `i` makes its next access.
unfoldable pub advance : System → ℕ → System
advance s i = after s i (exec s.mem (s.pc i))

-- A thread that is in no call.
abbrev pub ready : Pc → Bool
ready idle = true
ready (pushed _) = true
ready (popped _) = true
ready _ = false

abbrev pub call : System → ℕ → Pc → System
call s i p = record s { pc = update s.pc i p }

-- Any thread may push; those that `consumer` names may pop.
pub data Step (consumer : ℕ → Bool) (s : System) : System → Type 0 where
  call_push : (i v : ℕ) → ready (s.pc i) ≡ true → Step consumer s (call s i (push_begin v))
  call_pop :
      (i : ℕ) → consumer i ≡ true → ready (s.pc i) ≡ true → Step consumer s (call s i pop_begin)
  run : (i : ℕ) → Step consumer s (advance s i)

abbrev pub init : Fifo → System
init m = record { mem = m; pc = λ _. idle; enqueued = []; dequeued = [] }

pub data Reach (consumer : ℕ → Bool) (m : Fifo) : System → Type 0 where
  start : Reach consumer m (init m)
  later : {s t : System} → Reach consumer m s → Step consumer s t → Reach consumer m t
