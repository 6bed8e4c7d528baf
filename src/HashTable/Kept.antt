-- ===== src/HashTable/Kept.antt =====
-- What the steps of src/map/hashtable.c leave of the accounts of the copying.
use ssr.Base.{
  ℕ, ◌≤◌, ◌<◌, ◌≡◌, refl, sym, ap, subst, ◌∙◌, inl, inr, true, false, ◌==◌, Bool-cases, arith,
}
use native.Mathlib.Decide.{ℕ_discrete, dec_lt}
use ssr.HashTable.{Hti, Ht, set_table, hti_start_copy, hti_alloc}
use ssr.HashTable.Copy.{is_copied}

-- The fields of a table that only the copying of its own entries changes.
pub record Account : Type 0 where
  pub scale : ℕ
  pub num_entries_copied : ℕ
  pub copy_scan : ℕ

abbrev pub account : Hti → Account
account hti = record {
  scale = hti.scale;
  num_entries_copied = hti.num_entries_copied;
  copy_scan = hti.copy_scan;
}

-- Between `o` and `s` no entry but those that `Other` leaves out was copied, and new tables have no
-- copied entries.
pub record Kept (o s : Ht) (Other : ℕ → ℕ → Type 0) : Type 0 where
  pub no_fewer : o.installed ≤ s.installed
  pub accounts : (w : ℕ) → w < o.installed → account (s.tables w) ≡ account (o.tables w)
  pub copies :
      (w k : ℕ)
      → w < o.installed
      → Other w k
      → is_copied ((s.tables w).val k) ≡ is_copied ((o.tables w).val k)
  pub fresh_vals :
      (w k : ℕ) → o.installed ≤ w → w < s.installed → is_copied ((s.tables w).val k) ≡ false
  pub fresh_accounts :
      (w : ℕ)
      → o.installed ≤ w
      → w < s.installed
      → (0 ≡ (s.tables w).num_entries_copied) × (0 ≡ (s.tables w).copy_scan)

-- All entries.
abbrev pub Every : (w k : ℕ) → Type 0
Every w k = k ≡ k

pub Kept-refl : (o : Ht) (Other : ℕ → ℕ → Type 0) → Kept o o Other
Kept-refl o Other = record {
  no_fewer = omega arith;
  accounts = λ w lt. refl;
  copies = λ w k lt other. refl;
  fresh_vals = λ w k le lt. absurd (omega arith);
  fresh_accounts = λ w le lt. absurd (omega arith);
}

module _ {o s : Ht} {Other : ℕ → ℕ → Type 0} (kept : Kept o s Other) where
  -- A table is written.
  pub Kept-set :
      (u : ℕ) (x : Hti)
      → account x ≡ account (s.tables u)
      → ((k : ℕ)
          → (u < o.installed → Other u k)
          → is_copied (x.val k) ≡ is_copied ((s.tables u).val k))
      → Kept o (set_table s u x) Other
  Kept-set u x same vals = record {
    no_fewer = kept.no_fewer;
    accounts = λ w lt. elim (ℕ_discrete u w) [
      | yes here ↦
          let e : (u == w) ≡ true = ground arith in
          rw e (same ∙ ap (λ a. account (s.tables a)) here ∙ kept.accounts w lt)
      | no there ↦ let e : (u == w) ≡ false = ground arith in rw e (kept.accounts w lt)
    ];
    copies = λ w k lt other. elim (ℕ_discrete u w) [
      | yes here ↦
          let e : (u == w) ≡ true = ground arith in
          rw e (
            vals k (λ _. subst (λ a. Other a k) (sym here) other)
            ∙ ap (λ a. is_copied ((s.tables a).val k)) here
            ∙ kept.copies w k lt other)
      | no there ↦ let e : (u == w) ≡ false = ground arith in rw e (kept.copies w k lt other)
    ];
    fresh_vals = λ w k le lt. elim (ℕ_discrete u w) [
      | yes here ↦
          let e : (u == w) ≡ true = ground arith in
          rw e (
            vals k (λ lt'. absurd (omega arith))
            ∙ ap (λ a. is_copied ((s.tables a).val k)) here
            ∙ kept.fresh_vals w k le lt)
      | no there ↦ let e : (u == w) ≡ false = ground arith in rw e (kept.fresh_vals w k le lt)
    ];
    fresh_accounts = λ w le lt. elim (ℕ_discrete u w) [
      | yes here ↦
          let e : (u == w) ≡ true = ground arith in
          let (num, scan) = kept.fresh_accounts w le lt in
          let same' = same ∙ ap (λ a. account (s.tables a)) here in
          rw e (
            num ∙ sym (ap (λ a. a.num_entries_copied) same'),
            scan ∙ sym (ap (λ a. a.copy_scan) same'),
          )
      | no there ↦ let e : (u == w) ≡ false = ground arith in rw e (kept.fresh_accounts w le lt)
    ];
  }

  -- A table is added.
  pub Kept-more : (u : ℕ) → Kept o (hti_start_copy s u) Other
  unfolding hti_start_copy hti_alloc
  Kept-more u = record {
    no_fewer = omega (arith, kept.no_fewer);
    accounts = λ w lt. elim (Bool-cases (s.installed == w)) [
      | inl here ↦ absurd (ground (arith, kept.no_fewer, here))
      | inr there ↦ rw there (kept.accounts w lt)
    ];
    copies = λ w k lt other. elim (Bool-cases (s.installed == w)) [
      | inl here ↦ absurd (ground (arith, kept.no_fewer, here))
      | inr there ↦ rw there (kept.copies w k lt other)
    ];
    fresh_vals = λ w k le lt. elim (Bool-cases (s.installed == w)) [
      | inl here ↦ rw here refl
      | inr there ↦ rw there (kept.fresh_vals w k le (ground (arith, there)))
    ];
    fresh_accounts = λ w le lt. elim (Bool-cases (s.installed == w)) [
      | inl here ↦ rw here (refl, refl)
      | inr there ↦ rw there (kept.fresh_accounts w le (ground (arith, there)))
    ];
  }

-- One stretch after another.
pub Kept-trans :
    {o s r : Ht} {Other1 Other2 Other : ℕ → ℕ → Type 0}
    → Kept o s Other1
    → Kept s r Other2
    → ((w k : ℕ) → Other w k → Other1 w k)
    → ((w k : ℕ) → Other w k → Other2 w k)
    → ((w k : ℕ) → o.installed ≤ w → Other2 w k)
    → Kept o r Other
Kept-trans {o} {s} {r} before after first second new = record {
  no_fewer = omega (arith, before.no_fewer, after.no_fewer);
  accounts = λ w lt. after.accounts w (omega (arith, before.no_fewer)) ∙ before.accounts w lt;
  copies = λ w k lt other.
      after.copies w k (omega (arith, before.no_fewer)) (second w k other)
      ∙ before.copies w k lt (first w k other);
  fresh_vals = λ w k le lt. elim (dec_lt w s.installed) [
    | yes early ↦ after.copies w k early (new w k le) ∙ before.fresh_vals w k le early
    | no late ↦ after.fresh_vals w k (omega arith) lt
  ];
  fresh_accounts = λ w le lt. elim (dec_lt w s.installed) [
    | yes early ↦
        let (num, scan) = before.fresh_accounts w le early in
        let same = after.accounts w early in
        (num ∙ sym (ap (λ a. a.num_entries_copied) same), scan ∙ sym (ap (λ a. a.copy_scan) same))
    | no late ↦ after.fresh_accounts w (omega arith) lt
  ];
}

pub Kept-join : {o s r : Ht} → Kept o s Every → Kept s r Every → Kept o r Every
Kept-join before after = Kept-trans before after (λ w k e. e) (λ w k e. e) (λ w k le. refl)
