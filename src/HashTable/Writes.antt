-- ===== src/HashTable/Writes.antt =====
-- The writes of `hti_cas` of src/map/hashtable.c leave tables that are well formed.
use ssr.Base.{
  ℕ, suc, ◌-◌, ◌≤◌, ◌<◌, ◌≡◌, refl, sym, ap, subst, ◌∙◌, ◌≢◌, inl, inr, true, false, some, ◌==◌,
  update, Bool-cases, arith,
}
use ssr.HashTable.{Ht, Hti, is_tagged1, set_table, set_entry_val, set_entry_key, hti_start_copy}
use ssr.HashTable.Copy.{is_copied}
use ssr.HashTable.View.{Inv, plain, value_from, passes, value_from-found}
use ssr.HashTable.Install.{Installed, Installed-passes, Installed-Inv, Installed-value}
use ssr.HashTable.Change.{Changed, Changed-other, Changed-Inv}
use ssr.HashTable.Grow.{Grown, Grown-Inv, Grown-value}
use ssr.HashTable.Chain.{
  view, view-Looks, core, effective, set_table-view, set_entry_val-Changed, set_entry_key-Installed,
  hti_start_copy-Grown, hti_start_copy-old,
}
use ssr.HashTable.Frame.{IsSettled, Frame-own, Frame-more}
use ssr.HashTable.Store.{value, value_of}
use ssr.HashTable.Moved.{Stable, Stable-Frame, Frame-Stable}

-- The counters.
pub set_table-Stable :
    {ht : Ht} {b : ℕ} (t : ℕ) (x : Hti)
    → Stable ht b
    → core x ≡ core (ht.tables t)
    → t < ht.installed
    → Stable (set_table ht t x) b
set_table-Stable {ht} {b} t x stable same lt = record {
  integer_keys = stable.integer_keys;
  inv = subst (λ w. Inv w b) (sym (set_table-view ht t x same)) stable.inv;
  scales = λ w w_lt. elim (Bool-cases (t == w)) [
    | inl here ↦ rw here (omega (arith, ap (λ c. c.scale) same, stable.scales t lt))
    | inr there ↦ rw there (stable.scales w w_lt)
  ];
  settled = λ w k w_lt. elim (Bool-cases (t == w)) [
    | inl here ↦
        rw here (subst (λ c. IsSettled (c.key k) (c.val k)) (sym same) (stable.settled t k lt))
    | inr there ↦ rw there (stable.settled w k w_lt)
  ];
}

pub set_table-value :
    (ht : Ht) (t : ℕ) (x : Hti) (b p : ℕ)
    → core x ≡ core (ht.tables t)
    → value (set_table ht t x) b p ≡ value ht b p
set_table-value ht t x b p same = ap (λ w. value_of w b p) (set_table-view ht t x same)

-- A value of a key is written.
module _ {ht : Ht} {b t i q : ℕ} (x : ℕ) (stable : Stable ht b) (low : b ≤ t)
    (lt : t < ht.installed) (ne : q ≢ 0) (found : (view ht).look t q ≡ some (i, false))
    (live : is_tagged1 ((ht.tables t).val i) ≡ false) (untagged : is_tagged1 x ≡ false) where
  written-Changed : Changed (view ht) (view (set_entry_val ht t i x)) t i x
  written-Changed =
      let e : effective x ≡ x = rw untagged refl in
      subst (λ y. Changed (view ht) (view (set_entry_val ht t i x)) t i y) e
        (set_entry_val-Changed ht t i x)

  not_copied : is_copied x ≡ false
  not_copied = untagged_plain x untagged
    where
      untagged_plain : (x : ℕ) → is_tagged1 x ≡ false → is_copied x ≡ false
      untagged_plain x e = ground (arith, e)

  written-Inv : Inv (view (set_entry_val ht t i x)) b
  written-Inv =
      let same : effective ((ht.tables t).val i) ≡ (ht.tables t).val i = rw live refl in
      let live' : is_copied ((view ht).val t i) ≡ false = was_live ((ht.tables t).val i) live in
      Changed-Inv written-Changed (λ e. absurd (ground (arith, e, live'))) stable.inv
        (inr not_copied) (inr (λ z. ne (sym (stable.inv.looks.found_key t q i found) ∙ z)))
    where
      was_live : (v : ℕ) → is_tagged1 v ≡ false → is_copied (effective v) ≡ false
      was_live v e = ground (arith, e)

  pub written-Stable : Stable (set_entry_val ht t i x) b
  written-Stable =
      let apart : (k : ℕ) → i ≢ k → (i == k) ≡ false = λ k other. ground arith in
      let itself : (t == t) ≡ true = ground arith in
      let entry : (i == i) ≡ true = ground arith in
      Frame-Stable
        (Frame-own (Stable-Frame t i stable lt)
          (record (ht.tables t) { val = update (ht.tables t).val i x }) refl refl
          (λ k other. rw (apart k other) refl) lt)
        written-Inv (rw itself (rw entry (λ e. absurd (ground (arith, e, untagged)))))

  pub written-value : value (set_entry_val ht t i x) b q ≡ plain x
  written-value =
      let at : (view (set_entry_val ht t i x)).val t i ≡ x =
        let itself : (t == t) ≡ true = ground arith in
        let entry : (i == i) ≡ true = ground arith in
        written-Changed.vals t i ∙ (rw itself (rw entry refl)) in
      value_from-found (ht.installed - b) q t i written-Inv (omega arith) low lt ne
        (written-Changed.same_looks t q ∙ found) (rw at not_copied)
      ∙ ap plain at

  pub written-others : (p : ℕ) → p ≢ 0 → p ≢ q → value (set_entry_val ht t i x) b p ≡ value ht b p
  written-others p ne_p apart =
      Changed-other written-Changed (ht.installed - b) b p stable.inv.looks
        (λ e. apart (e ∙ stable.inv.looks.found_key t q i found))

-- A key is installed.
module _ {ht : Ht} {b t j q : ℕ} (stable : Stable ht b) (low : b ≤ t) (lt : t < ht.installed)
    (ne : q ≢ 0) (vacant : (view ht).look t q ≡ some (j, true))
    (pass : (w : ℕ) → b ≤ w → w < t → passes (view ht) w q ≡ true) where
  installed : Installed (view ht) (view (set_entry_key ht t j q)) t j q
  installed = set_entry_key-Installed ht t j q stable.inv lt ne vacant

  pub keyed-look : (view (set_entry_key ht t j q)).look t q ≡ some (j, false)
  keyed-look = installed.now

  pub keyed-Stable : Stable (set_entry_key ht t j q) b
  keyed-Stable = record {
    integer_keys = stable.integer_keys;
    inv = Installed-Inv installed (view-Looks (set_entry_key ht t j q)) stable.inv ne low lt pass;
    scales = λ w w_lt. elim (Bool-cases (t == w)) [
      | inl here ↦ rw here (stable.scales t lt)
      | inr there ↦ rw there (stable.scales w w_lt)
    ];
    settled = λ w k w_lt. elim (Bool-cases (t == w)) [
      | inr there ↦ rw there (stable.settled w k w_lt)
      | inl here ↦ rw here (elim (Bool-cases (j == k)) [
        | inr other ↦ rw other (stable.settled t k lt)
        | inl it ↦ rw it (λ tagged. elim (stable.settled t k lt tagged) [
          | inl dead ↦ inl dead
          | inr (dead, _) ↦ inr (dead, ne)
        ])
      ])
    ];
  }

  pub keyed-pass : (w : ℕ) → b ≤ w → w < t → passes (view (set_entry_key ht t j q)) w q ≡ true
  keyed-pass w le before =
      Installed-passes installed (view-Looks (set_entry_key ht t j q)) stable.inv ne low lt w q
        (pass w le before)

  pub keyed-value : (p : ℕ) → p ≢ 0 → value (set_entry_key ht t j q) b p ≡ value ht b p
  keyed-value p ne_p =
      Installed-value installed (view-Looks (set_entry_key ht t j q)) stable.inv ne low lt
        (ht.installed - b) b p (omega arith) (omega arith) ne_p

-- A table is added.
module _ {ht : Ht} {b : ℕ} (t : ℕ) (stable : Stable ht b) (lt : t < ht.installed) where
  grown : Grown (view ht) (view (hti_start_copy ht t))
  grown = hti_start_copy-Grown ht t

  pub grown-value : (p : ℕ) → value (hti_start_copy ht t) b p ≡ value ht b p
  grown-value p =
      let some_table : b < ht.installed = stable.inv.some_table in
      let left : (hti_start_copy ht t).installed - b ≡ suc (ht.installed - b) =
        omega (arith, grown.one_more) in
      ap (λ n. value_from (view (hti_start_copy ht t)) n b p) left
      ∙ Grown-value grown (ht.installed - b) b p (omega arith)

  pub grown-Stable : Stable (hti_start_copy ht t) b
  grown-Stable =
      let frame = Frame-more (Stable-Frame t 0 stable lt) t lt lt in
      Frame-Stable frame (Grown-Inv grown (view-Looks (hti_start_copy ht t)) stable.inv) (
        subst (λ x. IsSettled (x.key 0) (x.val 0)) (sym (hti_start_copy-old ht t t lt))
          (stable.settled t 0 lt))
