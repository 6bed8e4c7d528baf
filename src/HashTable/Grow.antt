-- ===== src/HashTable/Grow.antt =====
-- A table is added at the end of the chain of src/map/hashtable.c, or left at its beginning.
use ssr.Base.{
  ℕ, zero, suc, ◌+◌, ◌<◌, ◌≡◌, refl, sym, ap, subst, ◌∙◌, ◌≢◌, inl, inr, Bool, true, false, Option,
  none, some, arith,
}
use native.Mathlib.Decide.{ℕ_discrete}
use ssr.HashTable.Copy.{is_copied}
use ssr.HashTable.View.{
  View, Looks, Look-cases, read, value_from, is_found, sends_on, passes, Inv, value_from-stopped,
  read-lost,
}

-- An empty table is added.
pub record Grown (s s' : View) : Type 0 where
  pub one_more : s'.installed ≡ s.installed + 1
  pub same_looks : (w p : ℕ) → w < s.installed → s'.look w p ≡ s.look w p
  pub same_keys : (w k : ℕ) → w < s.installed → s'.key w k ≡ s.key w k
  pub same_vals : (w k : ℕ) → w < s.installed → s'.val w k ≡ s.val w k
  pub new_lost : (p : ℕ) → is_found (s'.look s.installed p) ≡ false
  pub new_keys : (k : ℕ) → s'.key s.installed k ≡ 0
  pub new_vals : (k : ℕ) → s'.val s.installed k ≡ 0

module _ {s s' : View} (grown : Grown s s') where
  pub Grown-passes : (w p : ℕ) → w < s.installed → passes s w p ≡ true → passes s' w p ≡ true
  Grown-passes w p lt e = rw (grown.same_looks w p lt) (by_look (s.look w p) e)
    where
      by_look : (o : Option (ℕ × Bool)) → sends_on o (s.val w) ≡ true → sends_on o (s'.val w) ≡ true
      by_look none h = refl
      by_look (some (k, true)) h = absurd (ground (arith, h))
      by_look (some (k, false)) h = rw (grown.same_vals w k lt) h

  pub Grown-Inv : {b : ℕ} → Looks s' → Inv s b → Inv s' b
  Grown-Inv looks inv = record {
    some_table = omega (arith, inv.some_table, grown.one_more);
    looks = looks;
    reached = λ w p k lt ne e. elim (ℕ_discrete w s.installed) [
      | yes new ↦ absurd (ne (sym e ∙ ap (λ a. s'.key a k) new ∙ grown.new_keys k))
      | no old ↦
          let lt' : w < s.installed = omega (arith, grown.one_more) in
          grown.same_looks w p lt' ∙ inv.reached w p k lt' ne (sym (grown.same_keys w k lt') ∙ e)
    ];
    ordered = λ w u p le lt lt_n ne e. elim (ℕ_discrete u s.installed) [
      | yes new ↦
          absurd
            (ground (arith, subst (λ a. is_found (s'.look a p) ≡ true) new e, grown.new_lost p))
      | no old ↦
          let lt' : u < s.installed = omega (arith, grown.one_more) in
          Grown-passes w p (omega arith) (
            inv.ordered w u p le lt lt' ne
              (subst (λ o. is_found o ≡ true) (grown.same_looks u p lt') e))
    ];
    last = λ w k e.
        let new : w ≡ s.installed = omega (arith, grown.one_more) in
        rw new (rw (grown.new_vals k) refl);
    unkeyed = λ w k lt z live. elim (ℕ_discrete w s.installed) [
      | yes new ↦ ap (λ a. s'.val a k) new ∙ grown.new_vals k
      | no old ↦
          let lt' : w < s.installed = omega (arith, grown.one_more) in
          grown.same_vals w k lt'
          ∙ inv.unkeyed w k lt' (sym (grown.same_keys w k lt') ∙ z)
              (subst (λ v. is_copied v ≡ false) (grown.same_vals w k lt') live)
    ];
  }

  -- No value changes.
  pub Grown-value :
      (n w p : ℕ) → w + n ≡ s.installed → value_from s' (suc n) w p ≡ value_from s n w p
  Grown-value zero w p e =
      let new : w ≡ s.installed = omega arith in
      let lost : is_found (s'.look w p) ≡ false = rw new (grown.new_lost p) in
      read-lost (s'.look w p) (s'.val w) (value_from s' zero (w + 1) p) lost refl
  Grown-value (suc n) w p e =
      let lt : w < s.installed = omega arith in
      rw (Grown-value n (w + 1) p (omega arith), grown.same_looks w p lt)
        (same_read lt (s.look w p))
    where
      same_read :
          w < s.installed
          → (o : Option (ℕ × Bool))
          → read o (s'.val w) (value_from s n (w + 1) p)
            ≡ read o (s.val w) (value_from s n (w + 1) p)
      same_read lt none = refl
      same_read lt (some (k, true)) = refl
      same_read lt (some (k, false)) = rw (grown.same_vals w k lt) refl

-- The first table is left when all the entries that a lookup finds in it are copied.
module _ {s : View} {b : ℕ} (inv : Inv s b) (another : b + 1 < s.installed) where
  pub left-Inv : Inv s (b + 1)
  left-Inv = record {
    some_table = another;
    looks = inv.looks;
    reached = inv.reached;
    ordered = λ w u p le. inv.ordered w u p (omega arith);
    last = inv.last;
    unkeyed = inv.unkeyed;
  }

  pub left-value :
      (n p : ℕ)
      → b + suc n ≡ s.installed
      → p ≢ 0
      → ((k : ℕ) → s.look b p ≡ some (k, false) → is_copied (s.val b k) ≡ true)
      → value_from s n (b + 1) p ≡ value_from s (suc n) b p
  left-value n p e ne moved = elim (Look-cases (s.look b p)) [
    | inl lost ↦ rw lost refl
    | inr (inl (k, vacant)) ↦
        value_from-stopped b p n inv (omega arith) ne (omega arith) (rw vacant refl)
        ∙ rw vacant refl
    | inr (inr (k, found)) ↦ rw found (rw (moved k found) refl)
  ]
