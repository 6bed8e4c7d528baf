-- ===== src/Base/Updates.antt =====
-- A function that is changed at one index.
use Prim.Native.Nat.{ℕ}
use mathlib.Core.Path.{◌≡◌, sym, subst, fun_ext}
use mathlib.Core.Logic.{◌≢◌}
use native.Mathlib.Decide.{ℕ_discrete}
use native.Mathlib.Omega.{arith}
use ssr.Base.Lists.{update}

module _ {ℓ} {A : Type ℓ} (f : ℕ → A) (i : ℕ) (x : A) where
  pub update-other : (j : ℕ) → i ≢ j → update f i x j ≡ f j
  update-other j ne = ground arith

  pub update_self : update f i x i ≡ x
  update_self = ground arith

  pub update_twice : (y : A) → update (update f i x) i y ≡ update f i y
  update_twice y = fun_ext (λ j. ground arith)

  -- What holds of the new value, and of the old ones elsewhere, holds of all values.
  pub update_ind {κ} :
      (P : ℕ → A → Type κ) → P i x → ((j : ℕ) → i ≢ j → P j (f j)) → (j : ℕ) → P j (update f i x j)
  update_ind P here there j = elim (ℕ_discrete i j) [
    | yes e ↦ subst (λ k. P k (update f i x k)) e (subst (P i) (sym update_self) here)
    | no ne ↦ subst (P j) (sym (update-other j ne)) (there j ne)
  ]
