-- ===== src/HashTable/CasEntry.antt =====
-- `hti_cas` of src/map/hashtable.c at the entry of its key.
use ssr.Base.{
  update, ℕ, ◌+◌, ◌-◌, ◌≤◌, ◌<◌, ◌≡◌, refl, sym, ap, subst, ◌∙◌, ◌≢◌, inl, inr, true, false, Option,
  some, ◌==◌, if◌then◌else◌, Bool-cases, arith,
}
use native.Mathlib.Decide.{ℕ_discrete, dec_lt}
use ssr.HashTable.{Ht, is_tagged1, tombstone, copied_value, set_entry_val, cas_entry_val}
use ssr.HashTable.Copy.{is_copied}
use ssr.HashTable.Ops.{cas_entry, after_cas, is_met, is_same, adjust_count, stored_for}
use ssr.HashTable.View.{plain, passes, value_from-found}
use ssr.HashTable.Chain.{view, effective}
use ssr.HashTable.Frame.{settled_copied}
use ssr.HashTable.Kept.{Kept, Kept-refl, Kept-set, Kept-join, Every}
use ssr.HashTable.Store.{value}
use ssr.HashTable.Moved.{Stable}
use ssr.HashTable.Writes.{written-Stable, written-value, written-others}
use ssr.HashTable.Outcome.{
  meets, set_value, Answered, Outcome, IsNew, is_met-plain, adjust_count-Stable, adjust_count-value,
  adjust_count-number, adjust_count-first, adjust_count-Kept,
}

module _ {ht : Ht} {b t i q expected new : ℕ} (retry : Ht → Option (ℕ × Ht)) (fuel hash : ℕ)
    (stable : Stable ht b) (low : b ≤ t) (lt : t < ht.installed) (ne : q ≢ 0)
    (found : (view ht).look t q ≡ some (i, false))
    (pass : (w : ℕ) → b ≤ w → w < t → passes (view ht) w q ≡ true)
    (not_removed : expected ≢ tombstone) (is_new : IsNew new) where
  abbrev v : ℕ
  v = (ht.tables t).val i

  -- An entry that was copied sends the key on.
  entry_onward :
      is_tagged1 v ≡ true
      → Outcome ht b t q expected new (cas_entry retry fuel ht t i hash expected new)
  entry_onward tagged =
      let copied = settled_copied (stable.settled t i lt) tagged in
      let next : t + 1 < ht.installed = elim (dec_lt (t + 1) ht.installed) [
        | yes more ↦ more
        | no over ↦ absurd (ground (arith, tagged, stable.inv.last t i (omega arith)))
      ] in
      inl (
        ht,
        rw (cas_entry, tagged) (rw copied refl),
        record {
          stable = stable;
          pass = λ w le before. elim (ℕ_discrete w t) [
            | yes here ↦
                subst (λ a. passes (view ht) a q ≡ true) (sym here) (rw found (rw tagged refl))
            | no earlier ↦ pass w le (omega arith)
          ];
          same_values = λ p ne_p. refl;
          next = next;
          kept = Kept-refl ht Every;
          same_first = refl;
          room = inl refl;
        },
      )

  module _ (live : is_tagged1 v ≡ false) where
    entry_value : value ht b q ≡ plain v
    entry_value =
        let same : effective v ≡ v = rw live refl in
        value_from-found (ht.installed - b) q t i stable.inv (omega arith) low lt ne found
          (rw same (live_plain v live))
        ∙ ap plain same
      where
        live_plain : (x : ℕ) → is_tagged1 x ≡ false → is_copied x ≡ false
        live_plain x e = ground (arith, e)

    live_moved : (v == copied_value) ≡ false
    live_moved = apart v live
      where
        apart : (x : ℕ) → is_tagged1 x ≡ false → (x == copied_value) ≡ false
        apart x e = ground (arith, e)

    -- Nothing changes.
    entry_kept :
        value ht b q ≡ set_value (value ht b q) expected new → Answered ht ht b q expected new v
    entry_kept same = record {
      stable = stable;
      returned = sym entry_value;
      not_moved = live_moved;
      now = same;
      others = λ p ne_p apart. refl;
      same_number = refl;
      kept = Kept-refl ht Every;
      same_first = refl;
    }

    written-Kept :
        (x : ℕ)
        → is_tagged1 v ≡ false
        → is_tagged1 x ≡ false
        → Kept ht (set_entry_val ht t i x) Every
    written-Kept x old_live new_live =
        Kept-set (Kept-refl ht Every) t
          (record (ht.tables t) { val = update (ht.tables t).val i x }) refl
          (λ k e. elim (ℕ_discrete i k) [
            | yes here ↦
                let it : (i == k) ≡ true = ground arith in
                rw it (
                  subst (λ a. is_copied x ≡ is_copied ((ht.tables t).val a)) here
                    (plainly x new_live ∙ sym (plainly v old_live)))
            | no there ↦ let apart : (i == k) ≡ false = ground arith in rw apart refl
          ])
      where
        plainly : (y : ℕ) → is_tagged1 y ≡ false → is_copied y ≡ false
        plainly y e = ground (arith, e)

    entry_written :
        meets (value ht b q) expected ≡ true
        → Answered ht
            (adjust_count (set_entry_val ht t i (stored_for new)) t v new)
            b
            q
            expected
            new
            v
    entry_written met =
        let x = stored_for new in
        let s = set_entry_val ht t i x in
        let untagged = stored_untagged new is_new in
        record {
          stable =
              adjust_count-Stable t v new (written-Stable x stable low lt ne found live untagged)
                lt;
          returned = sym entry_value;
          not_moved = live_moved;
          now =
              adjust_count-value s t v new b q
              ∙ written-value x stable low lt ne found live untagged
              ∙ stored_plain new is_new
              ∙ sym (ap (λ m. if m then new else value ht b q) met);
          others = λ p ne_p apart.
              adjust_count-value s t v new b p
              ∙ written-others x stable low lt ne found live untagged p ne_p apart;
          same_number = adjust_count-number s t v new;
          kept = Kept-join (written-Kept x live untagged) (adjust_count-Kept s t v new);
          same_first = adjust_count-first s t v new;
        }
      where
        stored_untagged : (n : ℕ) → IsNew n → is_tagged1 (stored_for n) ≡ false
        stored_untagged n (inl e) = rw e refl
        stored_untagged n (inr val) = ground (arith, val.nonzero, val.small)

        stored_plain : (n : ℕ) → IsNew n → plain (stored_for n) ≡ n
        stored_plain n (inl e) = rw e refl
        stored_plain n (inr val) = ground (arith, val.nonzero, val.small)

    entry_answer : Outcome ht b t q expected new (cas_entry retry fuel ht t i hash expected new)
    entry_answer =
        let met_iff : is_met v expected ≡ meets (value ht b q) expected =
          is_met-plain v expected not_removed ∙ ap (λ x. meets x expected) (sym entry_value) in
        elim (Bool-cases (is_met v expected)) [
          | inr unmet ↦
              let unmet' : meets (value ht b q) expected ≡ false = sym met_iff ∙ unmet in
              inr (
                v,
                ht,
                rw (cas_entry, live) (rw unmet refl),
                entry_kept (sym (ap (λ m. if m then new else value ht b q) unmet')),
              )
          | inl met ↦
              let met' : meets (value ht b q) expected ≡ true = sym met_iff ∙ met in
              elim (Bool-cases (is_same v new)) [
                | inl same ↦ inr (
                  v,
                  ht,
                  rw (cas_entry, live) (rw met (rw same refl)),
                  entry_kept (
                      entry_value
                      ∙ same_plain v new is_new same
                      ∙ sym (ap (λ m. if m then new else value ht b q) met')),
                )
                | inr differs ↦
                    let itself : (v == v) ≡ true = ground arith in
                    let s = set_entry_val ht t i (stored_for new) in
                    let cas : cas_entry_val ht t i v (stored_for new) ≡ (v, s) = rw itself refl in
                    inr (
                      v,
                      adjust_count s t v new,
                      (rw (cas_entry, live)
                          (rw met (
                            rw differs
                              (ap (λ c. after_cas retry c t v new) cas ∙ (rw itself refl))))),
                      entry_written met',
                    )
              ]
        ]
      where
        same_plain : (x n : ℕ) → IsNew n → is_same x n ≡ true → plain x ≡ n
        same_plain x n (inl e) same = ground (arith, same, e)
        same_plain x n (inr val) same = ground (arith, same, val.nonzero, val.small)

  pub cas_entry-Outcome :
      Outcome ht b t q expected new (cas_entry retry fuel ht t i hash expected new)
  cas_entry-Outcome = elim (Bool-cases (is_tagged1 v)) [
    | inl tagged ↦ entry_onward tagged
    | inr live ↦ entry_answer live
  ]
