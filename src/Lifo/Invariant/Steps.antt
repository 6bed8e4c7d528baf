-- ===== src/Lifo/Invariant/Steps.antt =====
-- Each access of src/lifo/clifo.c, and each call, keeps the invariant.
use ssr.Base.{
  ℕ, ◌+◌, ◌-◌, ◌^◌, ◌<◌, ◌≡◌, refl, ap, sym, ◌∙◌, inl, inr, true, false, none, u64, ◌==◌,
  Bool-cases, arith,
}
use ssr.Lifo.{
  NodeState, empty, full, lock_at, try_lock, Pc, idle, push_begin, push_test, push_cas, push_lock,
  push_store, push_unlock, pushed, pop_begin, pop_test, pop_cas, pop_lock, pop_read, pop_unlock,
  popped, exec,
}
use ssr.Lifo.System.{System, ready, after, advance, Step, call_push, call_pop, run}
use ssr.Lifo.Invariant.{holds, pusher, pop_waiter, Inv}
use ssr.Lifo.Invariant.Claim.{Inv-move, Inv-push_claim, Inv-pop_claim}
use ssr.Lifo.Invariant.Cell.{Inv-turn, Inv-wrote, Inv-read}
use ssr.Lifo.Invariant.Turns.{
  push_lock-IsTurn, pop_lock-IsTurn, push_unlock-IsTurn, pop_unlock-IsTurn,
}

try_lock_iff : (a b : NodeState) → try_lock a b ≡ true → b ≡ a
try_lock_iff empty b e = ground arith
try_lock_iff a b e = ground arith

exec-Inv :
    {n : ℕ} (s : System) (i : ℕ) (p : Pc)
    → i < n
    → s.pc i ≡ p
    → Inv n s
    → Inv n (after s i (exec s.mem p))
unfolding exec
exec-Inv s i idle lt at inv = Inv-move inv i lt idle tt (rw at) (λ k. ground arith)
exec-Inv s i (push_begin v) lt at inv =
    Inv-move inv i lt (push_test v s.mem.head) tt (rw at) (λ k. ground arith)
exec-Inv s i (push_test v h) lt at inv = elim (Bool-cases (h == u64 (s.mem.bound + (2 ^ 64 - 1)))) [
  | inl e ↦ rw e (Inv-move inv i lt (pushed false) tt (rw at) (λ k. ground arith))
  | inr e ↦ rw e (
      Inv-move inv i lt (push_cas v h) (ground (arith, inv.small, inv.room)) (rw at)
        (λ k. ground arith))
]
exec-Inv s i (push_cas v h) lt at inv = elim (Bool-cases (s.mem.head == h)) [
  | inl e ↦ rw e (
      let eq : s.mem.head ≡ h = ground arith in
      let next : u64 (s.mem.head + 1) ≡ s.mem.head + 1 = omega (arith, inv.small, inv.room) in
      rw (← eq, next) (Inv-push_claim inv i lt v (at ∙ ap (push_cas v) (sym eq))))
  | inr e ↦ rw e (Inv-move inv i lt (push_begin v) tt (rw at) (λ k. ground arith))
]
exec-Inv s i (push_lock v k) lt at inv = elim (Bool-cases (try_lock empty (lock_at s.mem k))) [
  | inl e ↦ rw e (Inv-turn inv i lt (push_lock-IsTurn inv i v k at (try_lock_iff empty _ e)))
  | inr e ↦
      rw e (
        Inv-move inv i lt (push_lock v k) (ground (arith, inv.locals i)) (rw at)
          (λ j. ground arith))
]
exec-Inv s i (push_store v k) lt at inv = Inv-wrote inv i lt v k at
exec-Inv s i (push_unlock k) lt at inv = Inv-turn inv i lt (push_unlock-IsTurn inv i k at)
exec-Inv s i (pushed d) lt at inv = Inv-move inv i lt (pushed d) tt (rw at) (λ k. ground arith)
exec-Inv s i pop_begin lt at inv =
    Inv-move inv i lt (pop_test s.mem.head) tt (rw at) (λ k. ground arith)
exec-Inv s i (pop_test h) lt at inv = elim (Bool-cases (h == 0)) [
  | inl e ↦ rw e (Inv-move inv i lt (popped 0) tt (rw at) (λ k. ground arith))
  | inr e ↦ rw e (Inv-move inv i lt (pop_cas h) (ground arith) (rw at) (λ k. ground arith))
]
exec-Inv s i (pop_cas h) lt at inv = elim (Bool-cases (s.mem.head == h)) [
  | inl e ↦ rw e (
      let eq : s.mem.head ≡ h = ground arith in
      rw (← eq) (Inv-pop_claim inv i lt (at ∙ ap pop_cas (sym eq))))
  | inr e ↦ rw e (Inv-move inv i lt pop_begin tt (rw at) (λ k. ground arith))
]
exec-Inv s i (pop_lock k) lt at inv = elim (Bool-cases (try_lock full (lock_at s.mem k))) [
  | inl e ↦ rw e (Inv-turn inv i lt (pop_lock-IsTurn inv i k at (try_lock_iff full _ e)))
  | inr e ↦
      rw e
        (Inv-move inv i lt (pop_lock k) (ground (arith, inv.locals i)) (rw at) (λ j. ground arith))
]
exec-Inv s i (pop_read k) lt at inv = Inv-read inv i lt k at
exec-Inv s i (pop_unlock k v) lt at inv = Inv-turn inv i lt (pop_unlock-IsTurn inv i k v at)
exec-Inv s i (popped v) lt at inv = Inv-move inv i lt (popped v) tt (rw at) (λ k. ground arith)

holds-ready : (p : Pc) → ready p ≡ true → none ≡ holds p
holds-ready idle h = refl
holds-ready p h = ground arith

weigh-ready :
    (p q : Pc) (k : ℕ)
    → ready p ≡ true
    → pusher k q ≡ 0
    → pop_waiter k q ≡ 0
    → (pusher k q ≡ pusher k p) × (pop_waiter k q ≡ pop_waiter k p)
weigh-ready idle q k h a b = (a, b)
weigh-ready p q k h a b = ground arith

pub Step-Inv : {n : ℕ} {s t : System} → Step n s t → Inv n s → Inv n t
unfolding advance
Step-Inv {s} (call_push i v lt free) inv =
    Inv-move inv i lt (push_begin v) tt (holds-ready (s.pc i) free)
      (λ k. weigh-ready (s.pc i) (push_begin v) k free refl refl)
Step-Inv {s} (call_pop i lt free) inv =
    Inv-move inv i lt pop_begin tt (holds-ready (s.pc i) free)
      (λ k. weigh-ready (s.pc i) pop_begin k free refl refl)
Step-Inv {s} (run i lt) inv = exec-Inv s i (s.pc i) lt refl inv
