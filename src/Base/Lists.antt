-- ===== src/Base/Lists.antt =====
-- Lists measured and indexed by native numbers, and families over them.
use Prim.Native.Nat.{ℕ, zero, suc, ◌+◌, ◌≤◌, ◌<◌}
use mathlib.Core.Path.{◌≡◌, refl, ap}
use mathlib.Core.List.{List, [], ◌∷◌, ◌++◌}
use native.Mathlib.Omega.{arith}
use native.Mathlib.Numerals.{add-one}
use ssr.Base.Tests.{◌==◌, if◌then◌else◌}

-- An array as a function of the index; a write changes one cell.
abbrev pub update {ℓ} : {A : Type ℓ} → (ℕ → A) → ℕ → A → ℕ → A
update f i a j = if i == j then a else f j

module _ {ℓ} {A : Type ℓ} where
  abbrev pub length : List A → ℕ
  length [] = 0
  length (x ∷ xs) = suc (length xs)

  abbrev pub get_or : List A → ℕ → A → A
  get_or [] i d = d
  get_or (x ∷ xs) zero d = x
  get_or (x ∷ xs) (suc i) d = get_or xs i d

  abbrev pub take : ℕ → List A → List A
  take zero xs = []
  take (suc n) [] = []
  take (suc n) (x ∷ xs) = x ∷ take n xs

  pub length-append : (xs ys : List A) → length (xs ++ ys) ≡ length xs + length ys
  length-append [] ys = omega arith
  length-append (x ∷ xs) ys = omega (arith, length-append xs ys)

  pub length-snoc : (xs : List A) (y : A) → length (xs ++ y ∷ []) ≡ suc (length xs)
  length-snoc xs y = omega (arith, length-append xs (y ∷ []))

  pub get_or-snoc_lt :
      (xs : List A) (y : A) (i : ℕ) (d : A)
      → i < length xs
      → get_or (xs ++ y ∷ []) i d ≡ get_or xs i d
  get_or-snoc_lt [] y i d h = absurd (omega arith)
  get_or-snoc_lt (x ∷ xs) y zero d h = refl
  get_or-snoc_lt (x ∷ xs) y (suc i) d h = get_or-snoc_lt xs y i d (omega arith)

  pub get_or-snoc_self : (xs : List A) (y d : A) → get_or (xs ++ y ∷ []) (length xs) d ≡ y
  get_or-snoc_self [] y d = refl
  get_or-snoc_self (x ∷ xs) y d = get_or-snoc_self xs y d

  pub take-snoc : (xs : List A) (y : A) (n : ℕ) → n ≤ length xs → take n (xs ++ y ∷ []) ≡ take n xs
  take-snoc xs y zero h = refl
  take-snoc [] y (suc n) h = absurd (omega arith)
  take-snoc (x ∷ xs) y (suc n) h = ap (λ l. x ∷ l) (take-snoc xs y n (omega arith))

  pub take-suc :
      (xs : List A) (n : ℕ) (d : A)
      → n < length xs
      → take (suc n) xs ≡ take n xs ++ get_or xs n d ∷ []
  take-suc [] n d h = absurd (omega arith)
  take-suc (x ∷ xs) zero d h = refl
  take-suc (x ∷ xs) (suc n) d h = ap (λ l. x ∷ l) (take-suc xs n d (omega arith))

  pub take-add_one :
      (xs : List A) (n : ℕ) (d : A)
      → n < length xs
      → take (n + 1) xs ≡ take n xs ++ get_or xs n d ∷ []
  take-add_one xs n d h = rw add-one (take-suc xs n d h)
