-- ===== src/Base/Sums.antt =====
-- Sums of a weight over the threads of a system.
use Prim.Native.Nat.{ℕ, zero, suc, ◌+◌, ◌≤◌, ◌<◌}
use mathlib.Core.Path.{◌≡◌, refl}
use mathlib.Core.Logic.{◌≢◌}
use native.Mathlib.Decide.{dec_lt, ℕ_discrete}
use native.Mathlib.Omega.{arith}
use ssr.Base.Lists.{update}

unfoldable pub sum_below : (ℕ → ℕ) → ℕ → ℕ
sum_below g zero = 0
sum_below g (suc n) = g n + sum_below g n

-- Two weights that agree below `n`, but perhaps at one index.
pub sum_below_congr :
    (g h : ℕ → ℕ) (n : ℕ) → ((j : ℕ) → j < n → g j ≡ h j) → sum_below g n ≡ sum_below h n
unfolding sum_below
sum_below_congr g h zero same = refl
sum_below_congr g h (suc n) same =
    omega (arith, same n, sum_below_congr g h n (λ j lt. same j (omega arith)))

pub sum_below_change :
    (g h : ℕ → ℕ) (i n : ℕ)
    → ((j : ℕ) → i ≢ j → g j ≡ h j)
    → i < n
    → sum_below h n + g i ≡ sum_below g n + h i
unfolding sum_below
sum_below_change g h i zero same lt = absurd (omega arith)
sum_below_change g h i (suc n) same lt = elim (ℕ_discrete i n) [
  | yes last ↦ ground (arith, sum_below_congr g h n (λ j below. same j (omega arith)))
  | no earlier ↦ omega (arith, same n earlier, sum_below_change g h i n same (omega arith))
]

module _ {ℓ} {A : Type ℓ} (w : A → ℕ) where
  -- The weight of the first `n` threads.
  abbrev pub weight : ℕ → (ℕ → A) → ℕ
  weight n f = sum_below (λ j. w (f j)) n

  -- Thread `i` goes from one point to another.
  pub weight-update :
      (n : ℕ) (pc : ℕ → A) (i : ℕ) (p : A)
      → i < n
      → w p + weight n pc ≡ w (pc i) + weight n (update pc i p)
  weight-update n pc i p lt = ground (
    arith,
    sum_below_change (λ j. w (pc j)) (λ j. w (update pc i p j)) i n (λ j ne. ground arith) lt,
  )

  pub weight-zero : (n : ℕ) (pc : ℕ → A) → ((i : ℕ) → w (pc i) ≡ 0) → weight n pc ≡ 0
  unfolding sum_below
  weight-zero zero pc none = refl
  weight-zero (suc n) pc none = omega (arith, none n, weight-zero n pc none)

  -- A sum that is not 0 has a member that is not 0.
  pub weight_pos : (n : ℕ) (f : ℕ → A) → 0 < weight n f → (i : ℕ) × (i < n) × (0 < w (f i))
  unfolding sum_below
  weight_pos zero f h = absurd (omega arith)
  weight_pos (suc n) f h = elim (dec_lt 0 (w (f n))) [
    | yes here ↦ (n, omega arith, here)
    | no not_here ↦ let (i, lt, pos) = weight_pos n f (omega arith) in (i, omega arith, pos)
  ]

  pub weight_ge : (n : ℕ) (f : ℕ → A) (i : ℕ) → i < n → w (f i) ≤ weight n f
  unfolding sum_below
  weight_ge zero f i h = absurd (omega arith)
  weight_ge (suc n) f i h = elim (dec_lt i n) [
    | yes below ↦ omega (arith, weight_ge n f i below)
    | no last ↦ ground arith
  ]
