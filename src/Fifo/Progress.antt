-- ===== src/Fifo/Progress.antt =====
-- A push that spins on `sentinel` in src/fifo/cfifo.c waits for a thread that can go on.
use ssr.Base.{ℕ, Bool, ◌+◌, ◌^◌, ◌<◌, ◌≡◌, refl, ◌⊎◌, inl, inr, some, length, arith}
use ssr.Fifo.{Fifo, IsFresh, Pc, push_store, push_commit, exec}
use ssr.Fifo.System.{System, advance, Reach}
use ssr.Fifo.Invariant.{ticket}
use ssr.Fifo.Invariant.Steps.{Single}
use ssr.Fifo.Order.{Reach-Inv}

sentinel-exec_commit :
    (m : Fifo)
    → m.sentinel + 1 < 2 ^ 64
    → (exec m (push_commit m.sentinel)).0.sentinel ≡ m.sentinel + 1
unfolding exec
sentinel-exec_commit m small = ground arith

-- The holder of the next place publishes it in its next access or in the one after.
ticket-advance :
    (s : System) (j : ℕ) (p : Pc)
    → s.pc j ≡ p
    → ticket p ≡ some s.mem.sentinel
    → s.mem.sentinel + 1 < 2 ^ 64
    → ((advance s j).mem.sentinel ≡ s.mem.sentinel + 1)
      ⊎ ((advance (advance s j) j).mem.sentinel ≡ s.mem.sentinel + 1)
unfolding advance exec
ticket-advance s j (push_store v t) at held small = inr (ground arith)
ticket-advance s j (push_commit t) at held small = inl (ground arith)
ticket-advance s j p at held small = ground arith

-- With one consumer, while a place is taken and not published, some thread holds the next one, and
-- that thread publishes it by itself within two accesses: the spin of every other pusher ends.
pub spin_ends :
    {consumer : ℕ → Bool} {m : Fifo} {s : System}
    → Single consumer
    → IsFresh m
    → Reach consumer m s
    → length s.enqueued + 1 < 2 ^ 64
    → s.mem.sentinel < s.mem.tail
    → (j : ℕ) × (((advance s j).mem.sentinel ≡ s.mem.sentinel + 1)
        ⊎ ((advance (advance s j) j).mem.sentinel ≡ s.mem.sentinel + 1))
spin_ends {s} single fresh r small behind =
    let inv = Reach-Inv single fresh r small in
    let (j, held) = inv.covered s.mem.sentinel (omega arith) behind in
    (j, ticket-advance s j (s.pc j) refl held (omega (arith, inv.tail_counts)))
