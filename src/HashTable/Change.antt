-- ===== src/HashTable/Change.antt =====
-- The value of one entry of a table of src/map/hashtable.c changes.
use ssr.Base.{
  ℕ, zero, suc, ◌+◌, ◌-◌, ◌≤◌, ◌<◌, ◌≡◌, refl, sym, ap, subst, ◌∙◌, ◌≢◌, ◌⊎◌, inl, inr, Bool, true,
  false, Option, none, some, ◌==◌, if◌then◌else◌, Bool-cases, arith,
}
use native.Mathlib.Decide.{ℕ_discrete}
use ssr.HashTable.Copy.{is_copied}
use ssr.HashTable.View.{
  View, Looks, read, value_from, is_found, sends_on, passes, Inv, value_from-nowhere,
  value_from-skip,
}

-- Entry `i` of table `t` gets the value `x`.
pub record Changed (s s' : View) (t i x : ℕ) : Type 0 where
  pub same_number : s'.installed ≡ s.installed
  pub same_looks : (w p : ℕ) → s'.look w p ≡ s.look w p
  pub same_keys : (w k : ℕ) → s'.key w k ≡ s.key w k
  pub vals :
      (w k : ℕ) → s'.val w k ≡ (if t == w then (if i == k then x else s.val w k) else s.val w k)

module _ {s s' : View} {t i x : ℕ} (ch : Changed s s' t i x) where
  -- The other keys keep their values.
  pub Changed-other :
      (n w p : ℕ) → Looks s → p ≢ s.key t i → value_from s' n w p ≡ value_from s n w p
  Changed-other zero w p looks ne = refl
  Changed-other (suc n) w p looks ne =
      rw (ch.same_looks w p, Changed-other n (w + 1) p looks ne) (same_read (s.look w p) refl)
    where
      same_read :
          (o : Option (ℕ × Bool))
          → s.look w p ≡ o
          → read o (s'.val w) (value_from s n (w + 1) p)
            ≡ read o (s.val w) (value_from s n (w + 1) p)
      same_read none e = refl
      same_read (some (k, true)) e = refl
      same_read (some (k, false)) e =
          let own = looks.found_key w p k e in
          let same : s'.val w k ≡ s.val w k = elim (ℕ_discrete t w) [
            | no other ↦ ground (arith, ch.vals w k)
            | yes here ↦ elim (ℕ_discrete i k) [
              | no other ↦ ground (arith, ch.vals w k)
              | yes it ↦
                  absurd (ne (sym own ∙ sym (ap (λ a. s.key a k) here) ∙ sym (ap (s.key t) it)))
            ]
          ] in
          rw same refl

  module _ (kept : is_copied (s.val t i) ≡ true → is_copied x ≡ true) where
    still_copied : (w k : ℕ) → is_copied (s.val w k) ≡ true → is_copied (s'.val w k) ≡ true
    still_copied w k e = elim (ℕ_discrete t w) [
      | no other ↦ ground (arith, ch.vals w k)
      | yes here ↦ elim (ℕ_discrete i k) [
        | no other ↦ ground (arith, ch.vals w k)
        | yes it ↦
            let e' : is_copied (s.val t i) ≡ true = rw here (rw it e) in
            let now : s'.val w k ≡ x = ground (arith, ch.vals w k) in rw now (kept e')
      ]
    ]

    pub Changed-passes : (w p : ℕ) → passes s w p ≡ true → passes s' w p ≡ true
    Changed-passes w p e = rw (ch.same_looks w p) (by_look (s.look w p) e)
      where
        by_look :
            (o : Option (ℕ × Bool)) → sends_on o (s.val w) ≡ true → sends_on o (s'.val w) ≡ true
        by_look none h = refl
        by_look (some (k, true)) h = absurd (ground (arith, h))
        by_look (some (k, false)) h = still_copied w k h

    pub Changed-Inv :
        {b : ℕ}
        → Inv s b
        → (t + 1 < s.installed) ⊎ (is_copied x ≡ false)
        → (is_copied x ≡ true) ⊎ (s.key t i ≢ 0)
        → Inv s' b
    Changed-Inv inv early keyed = record {
      some_table = omega (arith, inv.some_table, ch.same_number);
      looks = record {
        found_key =
            λ w p k e. ch.same_keys w k ∙ inv.looks.found_key w p k (sym (ch.same_looks w p) ∙ e);
        empty_key =
            λ w p k e. ch.same_keys w k ∙ inv.looks.empty_key w p k (sym (ch.same_looks w p) ∙ e);
      };
      reached = λ w p k lt ne e.
          ch.same_looks w p
          ∙ inv.reached w p k (omega (arith, ch.same_number)) ne (sym (ch.same_keys w k) ∙ e);
      ordered = λ w u p le lt lt_n ne e. Changed-passes w p (
          inv.ordered w u p le lt (omega (arith, ch.same_number)) ne
            (subst (λ o. is_found o ≡ true) (ch.same_looks u p) e));
      last = λ w k e. elim (ℕ_discrete t w) [
        | no other ↦ ground (arith, ch.vals w k, inv.last w k (e ∙ ch.same_number))
        | yes here ↦ elim (ℕ_discrete i k) [
          | no other ↦ ground (arith, ch.vals w k, inv.last w k (e ∙ ch.same_number))
          | yes it ↦ elim early [
            | inl before ↦ absurd (omega (arith, ch.same_number))
            | inr live ↦ let now : s'.val w k ≡ x = ground (arith, ch.vals w k) in rw now live
          ]
        ]
      ];
      unkeyed = λ w k lt z live. elim (ℕ_discrete t w) [
        | no other ↦ plainly w k lt z live (ground (arith, ch.vals w k))
        | yes here ↦ elim (ℕ_discrete i k) [
          | no other ↦ plainly w k lt z live (ground (arith, ch.vals w k))
          | yes it ↦
              let now : s'.val w k ≡ x = ground (arith, ch.vals w k) in
              elim keyed [
                | inl moved ↦
                    absurd (ground (arith, moved, subst (λ v. is_copied v ≡ false) now live))
                | inr key ↦
                    absurd (
                      key (ap (λ a. s.key a i) here ∙ ap (s.key w) it ∙ sym (ch.same_keys w k) ∙ z))
              ]
        ]
      ];
    }
      where
        plainly :
            (w k : ℕ)
            → w < s'.installed
            → s'.key w k ≡ 0
            → is_copied (s'.val w k) ≡ false
            → s'.val w k ≡ s.val w k
            → s'.val w k ≡ 0
        plainly w k lt z live same =
            same
            ∙ inv.unkeyed w k (omega (arith, ch.same_number)) (sym (ch.same_keys w k) ∙ z)
                (subst (λ v. is_copied v ≡ false) same live)

  -- The key of an entry that is marked as copied has no value, unless it is put elsewhere.
  pub Changed-dead :
      {b : ℕ} (n q : ℕ)
      → Inv s b
      → b ≤ t
      → b + n ≡ s.installed
      → t < s.installed
      → q ≢ 0
      → s.key t i ≡ q
      → is_copied (s.val t i) ≡ false
      → is_copied x ≡ true
      → value_from s' n b q ≡ 0
  Changed-dead {b} n q inv le e lt ne own live moved =
      let found = inv.reached t q i lt ne own in
      let lost : (u : ℕ)
          → t + 1 ≤ u
          → u < t + 1 + (s.installed - t - 1)
          → is_found (s'.look u q) ≡ false =
        λ u le' lt'. rw (ch.same_looks u q) (elim (Bool-cases (is_found (s.look u q))) [
          | inr no_entry ↦ no_entry
          | inl entry ↦
              let sent = inv.ordered t u q le (omega arith) (omega arith) ne entry in
              absurd (ground (arith, live, subst (λ o. sends_on o (s.val t) ≡ true) found sent))
        ]) in
      let now : s'.val t i ≡ x = ground (arith, ch.vals t i) in
      value_from-skip s' n b (s.installed - t - 1) (t + 1) q (omega arith) (omega arith)
        (λ w le' lt'. elim (ℕ_discrete t w) [
          | yes here ↦
              subst (λ a. passes s' a q ≡ true) here
                (rw (ch.same_looks t q) (rw found (rw now moved)))
          | no before ↦
              Changed-passes (λ _. moved) w q
                (inv.ordered w t q le' (omega arith) lt ne (rw found refl))
        ])
      ∙ value_from-nowhere s' (s.installed - t - 1) (t + 1) q lost
