-- ===== src/Lifo/Solo.antt =====
-- One call of src/lifo/clifo.c that no other thread disturbs, against a bounded stack.
use ssr.Base.{
  ℕ, zero, suc, ◌+◌, ◌-◌, ◌^◌, ◌≤◌, ◌<◌, ◌≡◌, refl, ap, ◌≢◌, inl, inr, Bool, true, false, List, [],
  ◌∷◌, length, ◌==◌, if◌then◌else◌, Bool-cases, arith,
}
use mathlib.Core.Path.{ap₂}
use ssr.Lifo.{
  empty, busy, full, Node, Lifo, lock_at, value_at, set_lock, set_value, Pc, push_begin, pushed,
  pop_begin, popped, exec,
}

-- The next `n` accesses of a thread at `p`.
unfoldable pub solo : ℕ → Lifo → Pc → Lifo × Pc
solo zero m p = (m, p)
solo (suc n) m p = let (m', p', e) = exec m p in solo n m' p'

-- The values of the first `n` cells, the last one first.
abbrev pub values : (ℕ → Node) → ℕ → List ℕ
values cells zero = []
values cells (suc n) = (cells n).value ∷ values cells n

abbrev pub contents : Lifo → List ℕ
contents m = values m.cells m.head

-- No call is under way.
pub record Quiet (m : Lifo) : Type 0 where
  pub room : m.head < m.bound
  pub small : m.bound < 2 ^ 64
  pub below : (k : ℕ) → k < m.head → lock_at m k ≡ full
  pub above : (k : ℕ) → m.head ≤ k → k < m.bound → lock_at m k ≡ empty

-- The specification: at most `capacity` values, the last one first.
pub push_spec : (capacity : ℕ) → List ℕ → ℕ → Bool × List ℕ
push_spec capacity q v = if length q == capacity then (false, q) else (true, v ∷ q)

pub pop_spec : List ℕ → ℕ × List ℕ
pop_spec [] = (0, [])
pop_spec (v ∷ q) = (v, q)

abbrev stored : Lifo → ℕ → Lifo
stored m v =
    set_lock (set_value (set_lock (record m { head = m.head + 1 }) m.head busy) m.head v) m.head
      full

abbrev taken : Lifo → Lifo
taken m = set_lock (set_lock (record m { head = m.head - 1 }) (m.head - 1) busy) (m.head - 1) empty

solo-push :
    (m : Lifo) (v : ℕ)
    → Quiet m
    → solo 6 m (push_begin v)
      ≡ (if (m.head + 1) == m.bound then (m, pushed false) else (stored m v, pushed true))
unfolding solo exec
solo-push m v q = ground (arith, q.above m.head)

solo-pop :
    (m : Lifo)
    → Quiet m
    → solo 6 m pop_begin
      ≡ (if m.head == 0 then (m, popped 0) else (taken m, popped (value_at m (m.head - 1))))
unfolding solo exec
solo-pop m q = ground (arith, q.below (m.head - 1))

length-values : (cells : ℕ → Node) (n : ℕ) → length (values cells n) ≡ n
length-values cells zero = refl
length-values cells (suc n) = ap suc (length-values cells n)

values_congr :
    (c d : ℕ → Node) (n : ℕ)
    → ((k : ℕ) → k < n → (c k).value ≡ (d k).value)
    → values c n ≡ values d n
values_congr c d zero same = refl
values_congr c d (suc n) same =
    ap₂ ◌∷◌ (same n (omega arith)) (values_congr c d n (λ k lt. same k (omega arith)))

values_of_pos : (c : ℕ → Node) (n : ℕ) → n ≢ 0 → values c n ≡ (c (n - 1)).value ∷ values c (n - 1)
values_of_pos c zero lt = absurd (omega arith)
values_of_pos c (suc n) lt = ap (λ k. (c k).value ∷ values c k) (omega arith)

contents-stored : (m : Lifo) (v : ℕ) → contents (stored m v) ≡ v ∷ contents m
contents-stored m v = ground (
  arith,
  values_of_pos (stored m v).cells (m.head + 1),
  values_congr (stored m v).cells m.cells m.head (λ k lt. ground arith),
)

contents-taken : (m : Lifo) → m.head ≢ 0 → contents m ≡ value_at m (m.head - 1) ∷ contents (taken m)
contents-taken m ne = ground (
  arith,
  values_of_pos m.cells m.head,
  values_congr (taken m).cells m.cells (m.head - 1) (λ k lt. ground arith),
)

stored-Quiet : (m : Lifo) (v : ℕ) → Quiet m → m.head + 1 ≢ m.bound → Quiet (stored m v)
stored-Quiet m v q room = record {
  room = omega (arith, q.room);
  small = q.small;
  below = λ k lt. ground (arith, q.below k);
  above = λ k ge lt. ground (arith, q.above k);
}

taken-Quiet : (m : Lifo) → Quiet m → m.head ≢ 0 → Quiet (taken m)
taken-Quiet m q ne = record {
  room = omega (arith, q.room);
  small = q.small;
  below = λ k lt. ground (arith, q.below k);
  above = λ k ge lt. ground (arith, q.above k);
}

-- An undisturbed `clifo_push` returns within six accesses what the bounded stack of `bound - 1`
-- values returns, leaves the cells holding that stack, and leaves it ready for the next call.
pub lifo_push_refines :
    (m : Lifo) (v : ℕ)
    → Quiet m
    → let (m', p) = solo 6 m (push_begin v) in
      let (done, q) = push_spec (m.bound - 1) (contents m) v in
      (p ≡ pushed done) × (contents m' ≡ q) × Quiet m'
unfolding push_spec
lifo_push_refines m v q = rw (solo-push m v q) (elim (Bool-cases ((m.head + 1) == m.bound)) [
  | inl no_room ↦ rw no_room (ground (arith, length-values m.cells m.head))
  | inr room ↦ rw room (
      ground (arith, q.room, length-values m.cells m.head, contents-stored m v, stored-Quiet m v q))
])

-- An undisturbed `clifo_pop` returns within six accesses the last value of that stack, or NULL from
-- an empty one, leaves the cells holding the rest, and leaves it ready for the next call.
pub lifo_pop_refines :
    (m : Lifo)
    → Quiet m
    → let (m', p) = solo 6 m pop_begin in
      let (v, q) = pop_spec (contents m) in (p ≡ popped v) × (contents m' ≡ q) × Quiet m'
unfolding pop_spec
lifo_pop_refines m q = rw (solo-pop m q) (elim (Bool-cases (m.head == 0)) [
  | inl none_left ↦ rw none_left (ground arith)
  | inr some_left ↦ rw some_left (ground (arith, contents-taken m, taken-Quiet m q))
])
