-- ===== src/Fifo/Invariant/Steps.antt =====
-- Each access of src/fifo/cfifo.c, and each call, keeps the invariant if one thread pops.
use native.Mathlib.Nat.{add-mod_right}
use ssr.Base.{
  ℕ, ◌+◌, ◌-◌, ◌%◌, ◌^◌, ◌≤◌, ◌<◌, ◌≡◌, refl, ap, sym, ◌∙◌, inl, inr, Bool, true, false, none, List,
  length, u64, ◌==◌, Bool-cases, arith, length-snoc,
}
use ssr.Fifo.{
  Fifo, Pc, idle, push_begin, push_head, push_test, push_cas, push_store, push_commit, push_count,
  pushed, pop_begin, pop_head, pop_test, pop_read, pop_cas, pop_count, popped, Event, enqueue, exec,
}
use ssr.Fifo.System.{System, ready, log_enqueue, after, advance, Step, call_push, call_pop, run}
use ssr.Fifo.Invariant.{ticket, Inv}
use ssr.Fifo.Invariant.Keep.{Inv-move, Inv-claim, Inv-store, Inv-commit, Inv-take}

length_le-log_enqueue : (l : List ℕ) (e : Event) → length l ≤ length (log_enqueue l e)
length_le-log_enqueue l (enqueue v) = omega (arith, length-snoc l v)
length_le-log_enqueue l e = omega arith

pub length_le-Step :
    {consumer : ℕ → Bool} {s t : System} → Step consumer s t → length s.enqueued ≤ length t.enqueued
unfolding advance
length_le-Step (call_push i v free) = omega arith
length_le-Step (call_pop i may free) = omega arith
length_le-Step {s} (run i) = length_le-log_enqueue s.enqueued (exec s.mem (s.pc i)).2

bound-exec : (m : Fifo) (p : Pc) → (exec m p).0.bound ≡ m.bound
unfolding exec
bound-exec m idle = refl
bound-exec m p = ground arith

pub bound-Step :
    {consumer : ℕ → Bool} {s t : System} → Step consumer s t → t.mem.bound ≡ s.mem.bound
unfolding advance
bound-Step (call_push i v free) = refl
bound-Step (call_pop i may free) = refl
bound-Step {s} (run i) = bound-exec s.mem (s.pc i)

ticket-ready : (p : Pc) → ready p ≡ true → none ≡ ticket p
ticket-ready idle h = refl
ticket-ready p h = ground arith

-- One thread at most pops.
abbrev pub Single : (ℕ → Bool) → Type 0
Single consumer = (a b : ℕ) → consumer a ≡ true → consumer b ≡ true → a ≡ b

module _ {consumer : ℕ → Bool} (single : Single consumer) where
  exec-Inv :
      (s : System) (i : ℕ) (p : Pc)
      → s.pc i ≡ p
      → Inv consumer s
      → length s.enqueued + 1 < 2 ^ 64
      → Inv consumer (after s i (exec s.mem p))
  unfolding exec
  exec-Inv s i idle at inv small = Inv-move inv i idle _ tt (rw at) (λ q. cc)
  exec-Inv s i (push_begin v) at inv small =
      Inv-move inv i (push_head v s.mem.tail) _ (omega arith) (rw at) (λ q. cc)
  exec-Inv s i (push_head v t) at inv small =
      Inv-move inv i (push_test v t s.mem.head) _ (ground (arith, inv.locals i)) (rw at) (λ q. cc)
  exec-Inv s i (push_test v t h) at inv small =
      elim (Bool-cases (u64 (t + 1) % s.mem.bound == h % s.mem.bound)) [
        | inl e ↦ rw e (Inv-move inv i (pushed false) _ tt (rw at) (λ q. cc))
        | inr e ↦ rw e (
            Inv-move inv i (push_cas v t) _
              (ground (arith, inv.locals i, add-mod_right h s.mem.bound, inv.tail_counts)) (rw at)
              (λ q. cc))
      ]
  exec-Inv s i (push_cas v t) at inv small = elim (Bool-cases (s.mem.tail == t)) [
    | inl e ↦ rw e (
        let eq : s.mem.tail ≡ t = ground arith in
        let next : u64 (s.mem.tail + 1) ≡ s.mem.tail + 1 = omega (arith, inv.tail_counts) in
        rw (← eq, next) (Inv-claim inv i v (at ∙ ap (push_cas v) (sym eq))))
    | inr e ↦ rw e (Inv-move inv i (push_begin v) _ tt (rw at) (λ q. cc))
  ]
  exec-Inv s i (push_store v t) at inv small = Inv-store inv i v t at
  exec-Inv s i (push_commit t) at inv small = elim (Bool-cases (s.mem.sentinel == t)) [
    | inl e ↦ rw e (
        let eq : s.mem.sentinel ≡ t = ground arith in
        let next : u64 (s.mem.sentinel + 1) ≡ s.mem.sentinel + 1 =
          omega (arith, inv.tail_counts, inv.sentinel_le) in
        rw (← eq, next) (Inv-commit inv i (at ∙ ap push_commit (sym eq))))
    | inr e ↦
        rw e (Inv-move inv i (push_commit t) _ (ground (arith, inv.locals i)) (rw at) (λ q. cc))
  ]
  exec-Inv s i push_count at inv small =
      Inv-move inv i (pushed true) (u64 (s.mem.used + 1)) tt (rw at) (λ q. cc)
  exec-Inv s i (pushed d) at inv small = Inv-move inv i (pushed d) _ tt (rw at) (λ q. cc)
  exec-Inv s i pop_begin at inv small =
      Inv-move inv i (pop_head s.mem.sentinel) _ (inv.head_le, omega arith) (rw at)
        (λ q. inv.consumers i (rw at))
  exec-Inv s i (pop_head k) at inv small =
      Inv-move inv i (pop_test k s.mem.head) _ (ground (arith, inv.locals i)) (rw at)
        (λ q. inv.consumers i (rw at))
  exec-Inv s i (pop_test k h) at inv small =
      elim (Bool-cases (h % s.mem.bound == k % s.mem.bound)) [
        | inl e ↦ rw e (Inv-move inv i (popped 0) _ tt (rw at) (λ q. cc))
        | inr e ↦ rw e (
            Inv-move inv i (pop_read h) _ (ground (arith, inv.locals i)) (rw at)
              (λ q. inv.consumers i (rw at)))
      ]
  exec-Inv s i (pop_read h) at inv small =
      Inv-move inv i (pop_cas h (s.mem.cells (h % s.mem.bound))) _
        (ground (arith, inv.locals i, inv.stored h)) (rw at) (λ q. inv.consumers i (rw at))
  exec-Inv s i (pop_cas h v) at inv small = elim (Bool-cases (s.mem.head == h)) [
    | inl e ↦ rw e (
        let eq : s.mem.head ≡ h = ground arith in
        let next : u64 (s.mem.head + 1) ≡ s.mem.head + 1 =
          omega (arith, inv.tail_counts, inv.sentinel_le, inv.head_le) in
        rw (← eq, next) (Inv-take inv i v single (at ∙ ap (λ k. pop_cas k v) (sym eq))))
    | inr e ↦ rw e (Inv-move inv i pop_begin _ tt (rw at) (λ q. inv.consumers i (rw at)))
  ]
  exec-Inv s i (pop_count v) at inv small =
      Inv-move inv i (popped v) (u64 (s.mem.used + (2 ^ 64 - 1))) tt (rw at) (λ q. cc)
  exec-Inv s i (popped v) at inv small = Inv-move inv i (popped v) _ tt (rw at) (λ q. cc)

  pub Step-Inv :
      {s t : System}
      → Step consumer s t
      → length t.enqueued + 1 < 2 ^ 64
      → Inv consumer s
      → Inv consumer t
  unfolding advance
  Step-Inv {s} (call_push i v free) small inv =
      Inv-move inv i (push_begin v) _ tt (ticket-ready (s.pc i) free) (λ q. cc)
  Step-Inv {s} (call_pop i may free) small inv =
      Inv-move inv i pop_begin _ tt (ticket-ready (s.pc i) free) (λ q. may)
  Step-Inv {s} (run i) small inv =
      exec-Inv s i (s.pc i) refl inv
        (omega (arith, length_le-log_enqueue s.enqueued (exec s.mem (s.pc i)).2))
