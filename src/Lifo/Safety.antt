-- ===== src/Lifo/Safety.antt =====
-- What holds of the stack of src/lifo/clifo.c in every reachable state.

use ssr.Base.{
  ℕ, zero, suc, ◌+◌, ◌^◌, ◌≤◌, ◌<◌, ◌≡◌, ◌≢◌, refl, ◌⊎◌, inl, inr, true, Option, none, some, ltb,
  length, take, if◌then◌else◌, arith, weight-zero, u64, Option-cases,
}
use ssr.Carray.{array_size}
use ssr.Lifo.{
  NodeState, empty, busy, full, Node, Lifo, lock_at, init_locks, alloc, size, Pc, push_store,
  pop_unlock, idle,
}
use ssr.Lifo.System.{System, ready, init, Reach, start, later}
use ssr.Lifo.Invariant.{holds, pusher, pop_waiter, full_count, Drained, Loaded, Local, Inv}
use ssr.Lifo.Invariant.Steps.{Step-Inv}

-- A stack that nobody has used yet.
pub record IsFresh (m : Lifo) : Type 0 where
  pub head_zero : m.head ≡ 0
  pub has_room : 0 < m.bound
  pub small : m.bound < 2 ^ 64
  pub unlocked : (k : ℕ) → k < m.bound → lock_at m k ≡ empty

init_locks-empty : (n : ℕ) (cells : ℕ → Node) (k : ℕ) → k < n → (init_locks n cells k).lock ≡ empty
unfolding init_locks
init_locks-empty zero cells k lt = absurd (omega arith)
init_locks-empty (suc n) cells k lt = ground (arith, init_locks-empty n cells k)

-- What `clifo_alloc` returns is an unused stack of the cells that were asked for.
pub alloc-IsFresh :
    (malloc : ℕ → Option (ℕ → Node)) (size : ℕ) {m : Lifo}
    → 0 < size
    → size < 2 ^ 64
    → alloc malloc size ≡ some m
    → IsFresh m × (m.bound ≡ size)
unfolding alloc
alloc-IsFresh malloc size {m} pos small e = (
  record {
    head_zero = ground arith;
    has_room = ground arith;
    small = ground arith;
    unlocked = λ k lt. elim (Option-cases (malloc (u64 (16 + array_size 16 size)))) [
      | inl failed ↦ ground arith
      | inr (cells, got) ↦ ground (arith, init_locks-empty size cells k)
    ];
  },
  ground arith,
)

Inv-init : (n : ℕ) {m : Lifo} → IsFresh m → Inv n (init m)
Inv-init n {m} fresh = record {
  room = omega arith;
  small = fresh.small;
  drained = λ k lt e. refl;
  loaded = λ k lt e. ground (arith, fresh.unlocked k);
  in_order = λ k. refl;
  locals = λ i. tt;
  unique = λ i j k a b. cc;
  held = λ k lt e. ground (arith, fresh.unlocked k);
  balance = λ k lt. ground (
    arith,
    fresh.unlocked k,
    weight-zero (pusher k) n (λ _. idle) (λ i. refl),
    weight-zero (pop_waiter k) n (λ _. idle) (λ i. refl),
  );
}

pub Reach-Inv : {n : ℕ} {m : Lifo} {s : System} → IsFresh m → Reach n m s → Inv n s
Reach-Inv {n} fresh start = Inv-init n fresh
Reach-Inv fresh (later r st) = Step-Inv st (Reach-Inv fresh r)

given-taken : {n : ℕ} {s : System} → Inv n s → (k : ℕ) → k < s.mem.bound → Drained s k ⊎ Loaded s k
given-taken {s} inv k lt = by_lock (lock_at s.mem k) refl
  where
    by_holder : (p : Pc) → Local s p → holds p ≡ some k → Drained s k ⊎ Loaded s k
    by_holder (push_store v j) h e = inl (ground arith)
    by_holder (pop_unlock j v) h e = inl (ground arith)
    by_holder p h e = inr (ground arith)

    by_lock : (st : NodeState) → lock_at s.mem k ≡ st → Drained s k ⊎ Loaded s k
    by_lock empty e = inl (inv.drained k lt e)
    by_lock full e = inr (inv.loaded k lt e)
    by_lock busy e = let (i, _, own) = inv.held k lt e in by_holder (s.pc i) (inv.locals i) own

-- In each cell of a stack from `clifo_alloc`, writes by pushes and reads by pops take turns: the
-- values read so far are the first ones written, each once and in order, and at most one is waiting.
pub cell_hands_over :
    {n : ℕ} (malloc : ℕ → Option (ℕ → Node)) (size : ℕ) {m : Lifo} {s : System}
    → 0 < size
    → size < 2 ^ 64
    → alloc malloc size ≡ some m
    → Reach n m s
    → (k : ℕ) → k < s.mem.bound
    → (s.taken k ≡ take (length (s.taken k)) (s.given k))
      × (length (s.taken k) ≤ length (s.given k))
      × (length (s.given k) ≤ length (s.taken k) + 1)
cell_hands_over malloc size pos small got r k lt =
    let inv = Reach-Inv (alloc-IsFresh malloc size pos small got).0 r in
    (inv.in_order k, ground (arith, given-taken inv k lt), ground (arith, given-taken inv k lt))

-- Never do two threads hold the lock of one cell.
pub cell_exclusion :
    {n : ℕ} {m : Lifo} {s : System}
    → IsFresh m
    → Reach n m s
    → (i j k : ℕ) → holds (s.pc i) ≡ some k
    → holds (s.pc j) ≡ some k
    → i ≡ j
cell_exclusion fresh r = (Reach-Inv fresh r).unique

weight-idle :
    (p : Pc) (k : ℕ) → ready p ≡ true → (pusher k p ≡ 0) × (pop_waiter k p ≡ 0) × (holds p ≡ none)
weight-idle idle k h = (refl, refl, refl)
weight-idle p k h = ground arith

-- While no call is under way, the cells below `head`, and no others, are full; each holds the last
-- value written to it; and one cell is never used.
pub quiet_shape :
    {n : ℕ} {m : Lifo} {s : System}
    → IsFresh m
    → Reach n m s
    → ((i : ℕ) → ready (s.pc i) ≡ true)
    → (size s.mem < s.mem.bound)
      × ((k : ℕ) → k < size s.mem → (lock_at s.mem k ≡ full) × Loaded s k)
      × ((k : ℕ) → size s.mem ≤ k → k < s.mem.bound → lock_at s.mem k ≡ empty)
unfolding size
quiet_shape {n} {s} fresh r quiet = (
  inv.room,
  λ k lt. (below k lt, inv.loaded k (omega (arith, inv.room)) (below k lt)),
  λ k ge lt. ground (arith, balance k lt, not_busy k lt),
)
  where
    inv : Inv n s
    inv = Reach-Inv fresh r

    balance :
        (k : ℕ)
        → k < s.mem.bound
        → full_count (lock_at s.mem k) ≡ (if ltb k s.mem.head then 1 else 0)
    balance k lt = omega (
      arith,
      inv.balance k lt,
      weight-zero (pusher k) n s.pc (λ i. (weight-idle (s.pc i) k (quiet i)).0),
      weight-zero (pop_waiter k) n s.pc (λ i. (weight-idle (s.pc i) k (quiet i)).1),
    )

    not_busy : (k : ℕ) → k < s.mem.bound → lock_at s.mem k ≢ busy
    not_busy k lt e =
        let (i, _, own) = inv.held k lt e in ground (arith, weight-idle (s.pc i) k (quiet i))

    below : (k : ℕ) → k < s.mem.head → lock_at s.mem k ≡ full
    below k lt = ground (arith, balance k, inv.room, not_busy k)
