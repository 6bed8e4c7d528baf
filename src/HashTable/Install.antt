-- ===== src/HashTable/Install.antt =====
-- A key is installed in an empty entry of a table of src/map/hashtable.c.
use ssr.Base.{
  ℕ, zero, suc, ◌+◌, ◌≤◌, ◌<◌, ◌≡◌, refl, sym, ap, subst, ◌∙◌, ◌≢◌, inl, inr, Bool, true, false,
  Option, none, some, ◌==◌, if◌then◌else◌, Bool-cases, arith,
}
use native.Mathlib.Decide.{ℕ_discrete}
use ssr.HashTable.Copy.{is_copied}
use ssr.HashTable.View.{
  View, Looks, Look-cases, read, value_from, is_found, sends_on, passes, Inv, value_from-stopped,
  read-lost,
}

-- The key `q` goes into entry `j` of table `u`, where a lookup of it ended.
pub record Installed (s s' : View) (u j q : ℕ) : Type 0 where
  pub empty : s.look u q ≡ some (j, true)
  pub same_number : s'.installed ≡ s.installed
  pub same_vals : (t i : ℕ) → s'.val t i ≡ s.val t i
  pub keys :
      (t i : ℕ)
      → t < s.installed
      → s'.key t i ≡ (if t == u then (if j == i then q else s.key t i) else s.key t i)
  pub elsewhere : (t p : ℕ) → u ≢ t → s'.look t p ≡ s.look t p
  pub now : s'.look u q ≡ some (j, false)
  pub other_found : (p i : ℕ) → s.look u p ≡ some (i, false) → s'.look u p ≡ some (i, false)
  pub other_none : (p : ℕ) → s.look u p ≡ none → s'.look u p ≡ none
  pub other_empty :
      (p i : ℕ) → s.look u p ≡ some (i, true) → p ≢ 0 → p ≢ q → is_found (s'.look u p) ≡ false

module _ {s s' : View} {b u j q : ℕ} (inst : Installed s s' u j q) (looks : Looks s')
    (inv : Inv s b) (ne : q ≢ 0) (low : b ≤ u) (in_range : u < s.installed) where
  pub Installed-passes : (t p : ℕ) → passes s t p ≡ true → passes s' t p ≡ true
  Installed-passes t p e = elim (ℕ_discrete u t) [
    | no other ↦ rw (inst.elsewhere t p other) (kept (s.look t p) e)
    | yes here ↦
        subst (λ w. passes s' w p ≡ true) here
          (elim (Look-cases (s.look u p)) [
            | inl lost ↦ rw (inst.other_none p lost) refl
            | inr (inl (i, vacant)) ↦ absurd (ground (arith, e, vacant))
            | inr (inr (i, found)) ↦
                rw (inst.other_found p i found) (rw (inst.same_vals u i) (ground (arith, e, found)))
          ])
  ]
    where
      kept : (o : Option (ℕ × Bool)) → sends_on o (s.val t) ≡ true → sends_on o (s'.val t) ≡ true
      kept none h = refl
      kept (some (i, true)) h = absurd (ground (arith, h))
      kept (some (i, false)) h = rw (inst.same_vals t i) h

  was_found : (p : ℕ) → p ≢ 0 → p ≢ q → is_found (s'.look u p) ≡ true → is_found (s.look u p) ≡ true
  was_found p ne_p ne_q found = elim (Look-cases (s.look u p)) [
    | inl lost ↦ absurd (ground (arith, inst.other_none p lost, found))
    | inr (inl (i, vacant)) ↦ absurd (ground (arith, inst.other_empty p i vacant ne_p ne_q, found))
    | inr (inr (i, here)) ↦ rw here refl
  ]

  -- The tables before `u` must send the key on.
  pub Installed-Inv : ((t : ℕ) → b ≤ t → t < u → passes s t q ≡ true) → Inv s' b
  Installed-Inv pass = record {
    some_table = omega (arith, inv.some_table, inst.same_number);
    looks = looks;
    reached = λ t p i lt ne_p e. elim (ℕ_discrete u t) [
      | no other ↦ rw (inst.elsewhere t p other) (
          inv.reached t p i (omega (arith, inst.same_number)) ne_p
            (ground (arith, e, inst.keys t i)))
      | yes here ↦
          subst (λ w. s'.look w p ≡ some (i, false)) here
            (elim (ℕ_discrete j i) [
              | yes same ↦
                  let p_q : q ≡ p = ground (arith, e, inst.keys t i) in
                  subst (λ x. s'.look u x ≡ some (i, false)) p_q
                    (subst (λ x. s'.look u q ≡ some (x, false)) same inst.now)
              | no apart ↦ inst.other_found p i (
                  inv.reached u p i in_range ne_p
                    (ground (arith, e, here, ap (λ w. s.key w i) here, inst.keys t i)))
            ])
    ];
    ordered = λ t w p le lt lt_n ne_p found. elim (ℕ_discrete u w) [
      | no other ↦ Installed-passes t p (
          inv.ordered t w p le lt (omega (arith, inst.same_number)) ne_p
            (subst (λ o. is_found o ≡ true) (inst.elsewhere w p other) found))
      | yes here ↦
          let found_u : is_found (s'.look u p) ≡ true =
            subst (λ x. is_found (s'.look x p) ≡ true) (sym here) found in
          elim (ℕ_discrete p q) [
            | yes same ↦
                Installed-passes t p
                  (subst (λ x. passes s t x ≡ true) (sym same) (pass t le (omega arith)))
            | no apart ↦
                Installed-passes t p (
                  inv.ordered t u p le (omega arith) in_range ne_p (was_found p ne_p apart found_u))
          ]
    ];
    last = λ t i e. rw (inst.same_vals t i) (inv.last t i (e ∙ inst.same_number));
    unkeyed = λ t i lt z live. rw (inst.same_vals t i) (
        inv.unkeyed t i (omega (arith, inst.same_number)) (ground (arith, z, inst.keys t i))
          (subst (λ v. is_copied v ≡ false) (inst.same_vals t i) live));
  }

  by_empty :
      (p n : ℕ)
      → p ≢ 0
      → u + 1 + n ≡ s.installed
      → (i : ℕ) → s.look u p ≡ some (i, true)
      → value_from s n (u + 1) p ≡ 0
  by_empty p n ne_p e i vacant = value_from-stopped u p n inv low ne_p e (rw vacant refl)

  -- No value changes.
  pub Installed-value :
      (n t p : ℕ) → b ≤ t → t + n ≡ s.installed → p ≢ 0 → value_from s' n t p ≡ value_from s n t p
  Installed-value zero t p le e ne_p = refl
  Installed-value (suc n) t p le e ne_p =
      let rest = Installed-value n (t + 1) p (omega arith) (omega arith) ne_p in
      elim (ℕ_discrete u t) [
        | no other ↦ rw (inst.elsewhere t p other) (rw rest (same_read (s.look t p)))
        | yes here ↦
            subst (λ w. value_from s' (suc n) w p ≡ value_from s (suc n) w p) here
              (at_u n (Installed-value n (u + 1) p (omega arith) (omega arith) ne_p) (omega arith))
      ]
    where
      same_read :
          (o : Option (ℕ × Bool))
          → read o (s'.val t) (value_from s n (t + 1) p)
            ≡ read o (s.val t) (value_from s n (t + 1) p)
      same_read none = refl
      same_read (some (i, true)) = refl
      same_read (some (i, false)) = rw (inst.same_vals t i) refl

      at_u :
          (n : ℕ)
          → value_from s' n (u + 1) p ≡ value_from s n (u + 1) p
          → u + 1 + n ≡ s.installed
          → value_from s' (suc n) u p ≡ value_from s (suc n) u p
      at_u n rest e = elim (Look-cases (s.look u p)) [
        | inl lost ↦ rw (inst.other_none p lost) (rw lost rest)
        | inr (inl (i, vacant)) ↦
            let gone = rest ∙ by_empty p n ne_p e i vacant in
            rw vacant (elim (ℕ_discrete p q) [
              | yes same ↦
                  let here : s'.look u p ≡ some (j, false) =
                    subst (λ x. s'.look u x ≡ some (j, false)) (sym same) inst.now in
                  rw here (elim (Bool-cases (is_copied (s.val u j))) [
                    | inl moved ↦ rw (inst.same_vals u j) (rw moved gone)
                    | inr live ↦
                        let zero_val =
                          inv.unkeyed u j in_range (inv.looks.empty_key u q j inst.empty) live in
                        rw (inst.same_vals u j) (rw live (rw zero_val refl))
                  ])
              | no apart ↦
                  read-lost (s'.look u p) (s'.val u) (value_from s' n (u + 1) p)
                    (inst.other_empty p i vacant ne_p apart) gone
            ])
        | inr (inr (i, found)) ↦
            rw (inst.other_found p i found) (rw found (rw (inst.same_vals u i) (rw rest refl)))
      ]
