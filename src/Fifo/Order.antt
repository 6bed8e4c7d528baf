-- ===== src/Fifo/Order.antt =====
-- What src/fifo/cfifo.c promises when one thread pops and any number push.
use ssr.Base.{ℕ, ◌+◌, ◌^◌, ◌≤◌, ◌<◌, ◌≡◌, refl, ◌∙◌, ap, Bool, Option, some, length, take, arith}
use ssr.Fifo.{Fifo, IsFresh, alloc}
use ssr.Fifo.System.{System, init, Reach, start, later}
use ssr.Fifo.Invariant.{Inv}
use ssr.Fifo.Invariant.Steps.{Single, Step-Inv, length_le-Step, bound-Step}

Inv-init : (consumer : ℕ → Bool) {m : Fifo} → IsFresh m → Inv consumer (init m)
Inv-init consumer fresh = record {
  head_le = omega arith;
  sentinel_le = omega arith;
  fits = omega arith;
  tail_counts = omega arith;
  head_counts = omega arith;
  in_order = rw fresh.head_zero;
  stored = λ k a b. absurd (omega arith);
  locals = λ i. tt;
  unique = λ i j t a b. cc;
  covered = λ t a b. absurd (omega arith);
  consumers = λ i e. cc;
}

pub Reach-Inv :
    {consumer : ℕ → Bool} {m : Fifo} {s : System}
    → Single consumer
    → IsFresh m
    → Reach consumer m s
    → length s.enqueued + 1 < 2 ^ 64
    → Inv consumer s
Reach-Inv {consumer} single fresh start small = Inv-init consumer fresh
Reach-Inv single fresh (later r st) small =
    Step-Inv single st small (Reach-Inv single fresh r (omega (arith, length_le-Step st)))

-- What `cfifo_alloc` returns is an unused queue with one cell more than was asked for.
pub alloc-IsFresh :
    (malloc : ℕ → Option (ℕ → ℕ)) (size : ℕ) {m : Fifo}
    → size + 1 < 2 ^ 64
    → alloc malloc size ≡ some m
    → IsFresh m × (m.bound ≡ size + 1)
unfolding alloc
alloc-IsFresh malloc size small e = ground arith

bound-Reach :
    {consumer : ℕ → Bool} {m : Fifo} {s : System} → Reach consumer m s → s.mem.bound ≡ m.bound
bound-Reach start = refl
bound-Reach (later r st) = bound-Step st ∙ bound-Reach r

-- With one consumer, as long as fewer than 2 ^ 64 - 1 values have been pushed: the values popped so
-- far are the first ones pushed, in the same order, each once; and never more values than `size`
-- are waiting.
pub pops_follow_pushes :
    (malloc : ℕ → Option (ℕ → ℕ)) (size : ℕ) {consumer : ℕ → Bool} {m : Fifo} {s : System}
    → size + 1 < 2 ^ 64
    → alloc malloc size ≡ some m
    → Single consumer
    → Reach consumer m s
    → length s.enqueued + 1 < 2 ^ 64
    → (s.dequeued ≡ take (length s.dequeued) s.enqueued)
      × (length s.dequeued ≤ length s.enqueued)
      × (length s.enqueued ≤ length s.dequeued + size)
pops_follow_pushes malloc size {m} {s} fit got single r small =
    let (fresh, bound) = alloc-IsFresh malloc size fit got in
    let inv = Reach-Inv single fresh r small in
    (
      inv.in_order ∙ ap (λ n. take n s.enqueued) inv.head_counts,
      omega (arith, inv.head_le, inv.sentinel_le, inv.tail_counts, inv.head_counts),
      omega (arith, inv.fits, inv.tail_counts, inv.head_counts, bound, bound-Reach r),
    )
