-- ===== src/Fifo/Invariant/Change.antt =====
-- The locals of one thread survive the writes of another (src/fifo/cfifo.c).
use Prim.Native.Nat.{ℕ}
use ssr.Base.{
  ◌+◌, ◌%◌, ◌≤◌, ◌<◌, ◌≡◌, ◌≢◌, false, some, List, [], ◌∷◌, ◌++◌, length, update, arith, mod-ne,
  get_or-snoc_lt,
}
use ssr.Fifo.{Fifo, Pc, push_store, push_commit, pop_cas}
use ssr.Fifo.Invariant.{ticket, popping, Local}

-- A CAS of `tail` by another thread.
pub Local-claim :
    (m : Fifo) (l : List ℕ) (v : ℕ) (p : Pc)
    → m.tail ≡ length l
    → m.sentinel ≤ m.tail
    → Local m l p
    → Local (record m { tail = m.tail + 1 }) (l ++ v ∷ []) p
Local-claim m l v (push_store w t) e le h = ground (arith, get_or-snoc_lt l v t 0)
Local-claim m l v (push_commit t) e le h = ground (arith, get_or-snoc_lt l v t 0)
Local-claim m l v (pop_cas k w) e le h = ground (arith, get_or-snoc_lt l v k 0)
Local-claim m l v p e le h = ground arith

-- A write of the cell at `t` by the thread that holds `t`.
pub Local-store :
    (m : Fifo) (l : List ℕ) (t v : ℕ) (p : Pc)
    → m.sentinel ≤ t
    → t < m.tail
    → m.tail < m.sentinel + m.bound
    → ticket p ≢ some t
    → Local m l p
    → Local (record m { buffer = record m.buffer { cells = update m.cells (t % m.bound) v } }) l p
Local-store m l t v (push_commit u) a b c ne h =
    ground (arith, mod-ne t u m.bound, mod-ne u t m.bound)
Local-store m l t v p a b c ne h = ground arith

-- A CAS of `sentinel` by the thread that holds it.
pub Local-commit :
    (m : Fifo) (l : List ℕ) (p : Pc)
    → ticket p ≢ some m.sentinel
    → Local m l p
    → Local (record m { sentinel = m.sentinel + 1 }) l p
Local-commit m l (push_store w t) ne h = ground arith
Local-commit m l p ne h = ground arith

-- A CAS of `head` by the one consumer: `p` belongs to another thread.
pub Local-take :
    (m : Fifo) (l : List ℕ) (p : Pc)
    → popping p ≡ false
    → Local m l p
    → Local (record m { head = m.head + 1 }) l p
Local-take m l (push_store w t) ne h = ground arith
Local-take m l p ne h = ground arith
