-- ===== src/Lifo/System.antt =====
-- `n` threads that call `clifo_push` and `clifo_pop` on one stack, interleaved in any order.
use ssr.Base.{ℕ, ◌<◌, ◌≡◌, Bool, true, false, List, [], ◌∷◌, ◌++◌, update}
use ssr.Lifo.{Lifo, Pc, idle, push_begin, pushed, pop_begin, popped, Event, wrote, read, exec}

-- The last two fields are no part of the program: for each cell, the values written to it and the
-- values read from it, oldest first.
pub record System : Type 0 where
  pub mem : Lifo
  pub pc : ℕ → Pc
  pub given : ℕ → List ℕ
  pub taken : ℕ → List ℕ

abbrev pub log_wrote : (ℕ → List ℕ) → Event → ℕ → List ℕ
log_wrote l (wrote k v) = update l k (l k ++ v ∷ [])
log_wrote l _ = l

abbrev pub log_read : (ℕ → List ℕ) → Event → ℕ → List ℕ
log_read l (read k v) = update l k (l k ++ v ∷ [])
log_read l _ = l

abbrev pub after : System → ℕ → Lifo × Pc × Event → System
after s i (m, p, e) = record {
  mem = m;
  pc = update s.pc i p;
  given = log_wrote s.given e;
  taken = log_read s.taken e;
}

-- Thread `i` makes its next access.
unfoldable pub advance : System → ℕ → System
advance s i = after s i (exec s.mem (s.pc i))

-- A thread that is in no call.
abbrev pub ready : Pc → Bool
ready idle = true
ready (pushed _) = true
ready (popped _) = true
ready _ = false

abbrev pub call : System → ℕ → Pc → System
call s i p = record s { pc = update s.pc i p }

pub data Step (n : ℕ) (s : System) : System → Type 0 where
  call_push : (i v : ℕ) → i < n → ready (s.pc i) ≡ true → Step n s (call s i (push_begin v))
  call_pop : (i : ℕ) → i < n → ready (s.pc i) ≡ true → Step n s (call s i pop_begin)
  run : (i : ℕ) → i < n → Step n s (advance s i)

abbrev pub init : Lifo → System
init m = record { mem = m; pc = λ _. idle; given = λ _. []; taken = λ _. [] }

pub data Reach (n : ℕ) (m : Lifo) : System → Type 0 where
  start : Reach n m (init m)
  later : {s t : System} → Reach n m s → Step n s t → Reach n m t
