-- ===== src/Fifo/Solo.antt =====
-- One call of src/fifo/cfifo.c that no other thread disturbs, against a bounded queue.
use native.Mathlib.Nat.{add-mod_right, add-zero}
use ssr.Base.{
  ℕ, zero, suc, ◌+◌, ◌-◌, ◌%◌, ◌^◌, ◌≤◌, ◌<◌, ◌≡◌, refl, ap, inl, inr, Bool, true, false, List, [],
  ◌∷◌, ◌++◌, length, update, ◌==◌, if◌then◌else◌, Bool-cases, arith, mod-ne, ◌∙◌,
}
use ssr.Carray.{Array}
use ssr.Fifo.{Fifo, Pc, push_begin, pushed, pop_begin, popped, exec}

-- The next `n` accesses of a thread at `p`.
unfoldable pub solo : ℕ → Fifo → Pc → Fifo × Pc
solo zero m p = (m, p)
solo (suc n) m p = let (m', p', e) = exec m p in solo n m' p'

-- `n` cells from place `h` on.
abbrev pub values : Array ℕ → ℕ → ℕ → List ℕ
values b h zero = []
values b h (suc n) = b.cells (h % b.bound) ∷ values b (h + 1) n

abbrev pub contents : Fifo → List ℕ
contents m = values m.buffer m.head (m.tail - m.head)

-- No call is under way, and no counter is about to wrap.
pub record Quiet (m : Fifo) : Type 0 where
  pub published : m.sentinel ≡ m.tail
  pub head_le : m.head ≤ m.tail
  pub fits : m.tail < m.head + m.bound
  pub counted : m.used ≡ m.tail - m.head
  pub no_wrap : m.tail + 1 < 2 ^ 64

-- The specification: at most `capacity` values, oldest first.
pub push_spec : (capacity : ℕ) → List ℕ → ℕ → Bool × List ℕ
push_spec capacity q v = if length q == capacity then (false, q) else (true, q ++ v ∷ [])

pub pop_spec : List ℕ → ℕ × List ℕ
pop_spec [] = (0, [])
pop_spec (v ∷ q) = (v, q)

abbrev stored : Fifo → ℕ → Fifo
stored m v = record m {
  tail = m.tail + 1;
  sentinel = m.tail + 1;
  used = m.used + 1;
  buffer = record m.buffer { cells = update m.cells (m.tail % m.bound) v };
}

abbrev taken : Fifo → Fifo
taken m = record m { head = m.head + 1; used = m.used - 1 }

solo-push :
    (m : Fifo) (v : ℕ)
    → Quiet m
    → solo 7 m (push_begin v) ≡ (
        if (m.tail + 1) == (m.head + m.bound) then (m, pushed false) else (stored m v, pushed true))
unfolding solo exec
solo-push m v q = ground (arith, add-mod_right m.head m.bound, mod-ne m.head (m.tail + 1) m.bound)

solo-pop :
    (m : Fifo)
    → Quiet m
    → solo 6 m pop_begin
      ≡ (if m.head == m.tail then (m, popped 0) else (taken m, popped (m.cells (m.head % m.bound))))
unfolding solo exec
solo-pop m q = ground (arith, mod-ne m.head m.tail m.bound)

length-values : (b : Array ℕ) (h n : ℕ) → length (values b h n) ≡ n
length-values b h zero = refl
length-values b h (suc n) = ap suc (length-values b (h + 1) n)

-- A new value does not touch the ones that wait, and follows them.
values-stored :
    (m : Fifo) (v h n : ℕ)
    → h + n ≡ m.tail
    → m.tail < h + m.bound
    → values (stored m v).buffer h (suc n) ≡ values m.buffer h n ++ v ∷ []
values-stored m v h zero e near = ground (arith, add-zero h)
values-stored m v h (suc n) e near =
    ground (arith, mod-ne h m.tail m.bound, values-stored m v (h + 1) n (omega arith) (omega arith))

values_of_lt :
    (b : Array ℕ) (h n : ℕ)
    → 0 < n
    → values b h n ≡ b.cells (h % b.bound) ∷ values b (h + 1) (n - 1)
values_of_lt b h zero lt = absurd (omega arith)
values_of_lt b h (suc n) lt = ap (λ k. values b h (suc k)) (omega arith)

pub stored-Quiet :
    (m : Fifo) (v : ℕ)
    → Quiet m
    → m.tail + 1 < m.head + m.bound
    → m.tail + 2 < 2 ^ 64
    → Quiet (stored m v)
stored-Quiet m v q room wrap = omega (arith, q.head_le, q.counted)

contents-stored : (m : Fifo) (v : ℕ) → Quiet m → contents (stored m v) ≡ contents m ++ v ∷ []
contents-stored m v q =
    ap (values (stored m v).buffer m.head) {y = suc (m.tail - m.head)} (omega (arith, q.head_le))
    ∙ values-stored m v m.head (m.tail - m.head) (omega (arith, q.head_le)) q.fits

-- While `tail` is below 2^64 - 2, an undisturbed cfifo_push returns within seven accesses what a
-- bounded queue returns, on both branches, and leaves the cells and counters representing that
-- queue.
pub fifo_push_refines :
    (m : Fifo) (v : ℕ)
    → Quiet m
    → m.tail + 2 < 2 ^ 64
    → let (m', p) = solo 7 m (push_begin v) in
      let (done, q) = push_spec (m.bound - 1) (contents m) v in
      (p ≡ pushed done) × (contents m' ≡ q) × Quiet m'
unfolding push_spec
fifo_push_refines m v q wrap =
    rw (solo-push m v q) (elim (Bool-cases ((m.tail + 1) == (m.head + m.bound))) [
      | inl full ↦ rw full (ground (arith, length-values m.buffer m.head (m.tail - m.head)))
      | inr room ↦ rw room (
          ground (
            arith,
            length-values m.buffer m.head (m.tail - m.head),
            contents-stored m v q,
            stored-Quiet m v q,
          ))
    ])

-- An undisturbed cfifo_pop returns within six accesses the oldest value, or NULL from an empty
-- queue, and leaves the rest.
pub fifo_pop_refines :
    (m : Fifo)
    → Quiet m
    → let (m', p) = solo 6 m pop_begin in
      let (v, q) = pop_spec (contents m) in (p ≡ popped v) × (contents m' ≡ q) × Quiet m'
unfolding pop_spec
fifo_pop_refines m q = rw (solo-pop m q) (elim (Bool-cases (m.head == m.tail)) [
  | inl none_left ↦ rw none_left (ground arith)
  | inr some_left ↦ rw some_left (ground (arith, values_of_lt m.buffer m.head (m.tail - m.head)))
])
