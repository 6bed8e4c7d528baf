-- ===== src/Fifo/Races.antt =====
-- What goes wrong in src/fifo/cfifo.c with more than one consumer.
use ssr.Base.{
  ℕ, ◌%◌, ◌≤◌, ◌≡◌, refl, subst, Bool, true, if◌then◌else◌, List, [], ◌∷◌, ◌==◌, update, arith,
}
use native.Mathlib.Nat.{mod-eq_of_lt}
use ssr.Fifo.{
  Fifo, Pc, idle, push_begin, push_cas, pushed, pop_begin, pop_head, pop_read, pop_cas, pop_count,
  popped, Event, silent, exec,
}
use mathlib.Core.Path.{fun_ext}
use ssr.Fifo.System.{
  System, log_enqueue, log_dequeue, after, advance, call_push, call_pop, run, Reach, start, later,
}

abbrev pub unused : ℕ → (ℕ → ℕ) → Fifo
unused bound cells = record {
  head = 0;
  tail = 0;
  sentinel = 0;
  used = 0;
  buffer = record { bound = bound; cells = cells };
}

-- Three threads in a call, and no other.
abbrev three : Pc → Pc → Pc → ℕ → Pc
three p q r j = if j == 0 then p else if j == 1 then q else if j == 2 then r else idle

abbrev trio : Pc → Pc → Pc → Fifo → List ℕ → List ℕ → System
trio p q r m enq deq = record { mem = m; pc = three p q r; enqueued = enq; dequeued = deq }

recast :
    {consumer : ℕ → Bool} {m₀ m : Fifo} {f g : ℕ → Pc} {enq deq : List ℕ}
    → Reach consumer m₀ (record { mem = m; pc = f; enqueued = enq; dequeued = deq })
    → ((j : ℕ) → f j ≡ g j)
    → Reach consumer m₀ (record { mem = m; pc = g; enqueued = enq; dequeued = deq })
recast {consumer} {m₀} {m} {enq} {deq} r same =
    subst (λ pc. Reach consumer m₀ (record { mem = m; pc = pc; enqueued = enq; dequeued = deq }))
      (fun_ext same) r

abbrev pub popper : ℕ → Bool
popper i = true

record At (m₀ : Fifo) (p q r : Pc) (m : Fifo) (enq deq : List ℕ) : Type 0 where
  reach : Reach popper m₀ (trio p q r m enq deq)

-- Each of the three makes an access of which the outcome is known.
module _ {m₀ : Fifo} {p q r : Pc} {m : Fifo} {enq deq : List ℕ} (now : At m₀ p q r m enq deq)
    {p' : Pc} {m' : Fifo} {e : Event} where
  go_0 : exec m p ≡ (m', p', e) → At m₀ p' q r m' (log_enqueue enq e) (log_dequeue deq e)
  unfolding advance
  go_0 eq = record {
    reach =
        recast
          (subst (λ x. Reach popper m₀ (after (trio p q r m enq deq) 0 x)) eq
            (later now.reach (run 0)))
          (λ j. ground arith);
  }

  go_1 : exec m q ≡ (m', p', e) → At m₀ p p' r m' (log_enqueue enq e) (log_dequeue deq e)
  unfolding advance
  go_1 eq = record {
    reach =
        recast
          (subst (λ x. Reach popper m₀ (after (trio p q r m enq deq) 1 x)) eq
            (later now.reach (run 1)))
          (λ j. ground arith);
  }

  go_2 : exec m r ≡ (m', p', e) → At m₀ p q p' m' (log_enqueue enq e) (log_dequeue deq e)
  unfolding advance
  go_2 eq = record {
    reach =
        recast
          (subst (λ x. Reach popper m₀ (after (trio p q r m enq deq) 2 x)) eq
            (later now.reach (run 2)))
          (λ j. ground arith);
  }

module _ (bound v : ℕ) (cells : ℕ → ℕ) (two : 2 ≤ bound) where
  zero_mod : 0 % bound ≡ 0
  zero_mod = mod-eq_of_lt (omega arith)

  one_mod : 1 % bound ≡ 1
  one_mod = mod-eq_of_lt (omega arith)

  -- Three calls begin at the empty queue.
  called : At (unused bound cells) (push_begin v) pop_begin pop_begin (unused bound cells) [] []
  called = record {
    reach =
        recast
          (later (later (later start (call_pop 1 refl refl)) (call_pop 2 refl refl))
            (call_push 0 v refl))
          (λ j. ground arith);
  }

  -- Thread 1 has loaded `sentinel`, and thread 0 has pushed.
  abbrev full_queue : Fifo
  full_queue = record {
    head = 0;
    tail = 1;
    sentinel = 1;
    used = 1;
    buffer = record { bound = bound; cells = update cells (0 % bound) v };
  }

  stored : At (unused bound cells) (pushed true) (pop_head 0) pop_begin full_queue (v ∷ []) []
  unfolding exec
  stored =
      let loaded = go_0 (go_0 (go_1 called refl) refl) refl in
      let passed =
        go_0 loaded {p' = push_cas v 0} {m' = unused bound cells} {e = silent}
          (ground (arith, zero_mod, one_mod)) in
      go_0 (go_0 (go_0 (go_0 passed refl) refl) refl) refl

  -- Thread 2 has popped the value.
  abbrev drained_queue : Fifo
  drained_queue = record full_queue { head = 1; used = 0 }

  drained :
      At (unused bound cells) (pushed true) (pop_head 0) (popped v) drained_queue (v ∷ []) (v ∷ [])
  unfolding exec
  drained =
      let looked = go_2 (go_2 stored refl) refl in
      let found =
        go_2 looked {p' = pop_read 0} {m' = full_queue} {e = silent}
          (ground (arith, zero_mod, one_mod)) in
      let held =
        go_2 found {p' = pop_cas 0 v} {m' = full_queue} {e = silent} (ground (arith, zero_mod)) in
      go_2 (go_2 held refl) refl

  fooled :
      At
        (unused bound cells)
        (pushed true)
        (pop_count (cells 1))
        (popped v)
        (record drained_queue { head = 2 })
        (v ∷ [])
        (v ∷ cells 1 ∷ [])
  unfolding exec
  fooled =
      let late = go_1 drained refl in
      let passed =
        go_1 late {p' = pop_read 1} {m' = drained_queue} {e = silent}
          (ground (arith, zero_mod, one_mod)) in
      let held =
        go_1 passed {p' = pop_cas 1 (cells 1)} {m' = drained_queue} {e = silent}
          (ground (arith, zero_mod, one_mod)) in
      go_1 held refl

-- In a queue of any size, if every thread may pop: one of them may return a cell that nobody has
-- written, and leave `head` ahead of `tail`. It loads `sentinel` from the empty queue, and `head`
-- only after one value has come and gone.
pub two_consumers_overtake :
    (bound v : ℕ) (cells : ℕ → ℕ)
    → 2 ≤ bound
    → (s : System) × Reach popper (unused bound cells) s
      × (s.enqueued ≡ v ∷ [])
      × (s.dequeued ≡ v ∷ cells 1 ∷ [])
      × (s.mem.tail ≡ 1)
      × (s.mem.head ≡ 2)
two_consumers_overtake bound v cells two =
    (_, (fooled bound v cells two).reach, refl, refl, refl, refl)
