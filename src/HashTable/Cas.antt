-- ===== src/HashTable/Cas.antt =====
-- `hti_cas` of src/map/hashtable.c on one table.
use ssr.Base.{
  update, ℕ, suc, ◌+◌, ◌-◌, ◌≤◌, ◌<◌, ◌≡◌, refl, sym, ap, subst, ◌∙◌, ◌≢◌, inl, inr, true, false,
  not, ◌&&◌, Option, none, some, ◌==◌, if◌then◌else◌, Bool-cases, arith, u64,
}
use native.Mathlib.Decide.{ℕ_discrete, dec_lt}
use ssr.Murmur.{murmur32_8b}
use ssr.Map.{does_not_exist, expect_does_not_exist, expect_whatever}
use ssr.HashTable.{
  Ht, tombstone, has_next, set_entry_key, cas_entry_key, add_key_count, hti_start_copy,
}
use ssr.HashTable.Ops.{hti_cas, after_key, new_key_of}
use ssr.HashTable.View.{Look-cases, passes, value_from-skip}
use ssr.HashTable.Grow.{Grown-passes}
use ssr.HashTable.Chain.{
  view, set_table-view, hti_start_copy-Grown, hti_start_copy-look, hti_start_copy-first,
}
use ssr.HashTable.Kept.{Kept, Kept-refl, Kept-set, Kept-more, Kept-join, Every}
use ssr.HashTable.Store.{value}
use ssr.HashTable.Moved.{Stable}
use ssr.HashTable.Get.{lookup_in}
use ssr.HashTable.Writes.{
  set_table-Stable, set_table-value, keyed-look, keyed-Stable, keyed-pass, keyed-value, grown-value,
  grown-Stable,
}
use ssr.HashTable.Outcome.{meets, set_value, Onward, Answered, Outcome, IsNew}
use ssr.HashTable.CasEntry.{cas_entry-Outcome}

-- A state with the same values and as many tables.
Outcome-same :
    {ht s : Ht} {b t q expected new : ℕ} {r : Option (ℕ × Ht)}
    → q ≢ 0
    → ((p : ℕ) → p ≢ 0 → value s b p ≡ value ht b p)
    → s.installed ≡ ht.installed
    → s.first ≡ ht.first
    → Kept ht s Every
    → ((view s).look t q ≡ none → (view ht).look t q ≡ none)
    → Outcome s b t q expected new r
    → Outcome ht b t q expected new r
Outcome-same ne same number first kept lost (inl (s', e, onward)) = inl (
  s',
  e,
  record {
    stable = onward.stable;
    pass = onward.pass;
    same_values = λ p ne_p. onward.same_values p ne_p ∙ same p ne_p;
    next = onward.next;
    kept = Kept-join kept onward.kept;
    same_first = onward.same_first ∙ first;
    room = elim onward.room [
      | inl kept ↦ inl (kept ∙ number)
      | inr (none_left, more, end, vacant) ↦
          inr (lost none_left, more ∙ ap (λ n. n + 1) number, end, vacant)
    ];
  },
)
Outcome-same {ht} {s} {b} {t} {q} {expected} {new} ne same number first kept lost
      (inr (old, s', e, answered)) =
    inr (
      old,
      s',
      e,
      record {
        stable = answered.stable;
        returned = answered.returned ∙ same q ne;
        not_moved = answered.not_moved;
        now = answered.now ∙ ap (λ x. set_value x expected new) (same q ne);
        others = λ p ne_p apart. answered.others p ne_p apart ∙ same p ne_p;
        same_number = answered.same_number ∙ number;
        kept = Kept-join kept answered.kept;
        same_first = answered.same_first ∙ first;
      },
    )

module _ {ht : Ht} {b t q expected new : ℕ} (fuel : ℕ) (stable : Stable ht b) (low : b ≤ t)
    (lt : t < ht.installed) (ne : q ≢ 0)
    (pass : (w : ℕ) → b ≤ w → w < t → passes (view ht) w q ≡ true)
    (not_removed : expected ≢ tombstone) (is_new : IsNew new) where
  -- No room for the key.
  no_room :
      (view ht).look t q ≡ none
      → Onward ht (if has_next ht t then ht else hti_start_copy ht t) b t q
  no_room lost = elim (dec_lt (t + 1) ht.installed) [
    | yes more ↦
        let has : has_next ht t ≡ true = ground arith in
        rw has (record {
          stable = stable;
          pass = here_too ht pass lost;
          same_values = λ p ne_p. refl;
          next = more;
          kept = Kept-refl ht Every;
          same_first = refl;
          room = inl refl;
        })
    | no over ↦
        let lacks : has_next ht t ≡ false = ground arith in
        let end : t + 1 ≡ ht.installed = omega arith in
        let grown = hti_start_copy-Grown ht t in
        let (j, vacant) = hti_start_copy-look ht t q in
        let s = hti_start_copy ht t in
        rw lacks (record {
          stable = grown-Stable t stable lt;
          pass = λ w le before.
              Grown-passes grown w q (omega arith) (here_too ht pass lost w le before);
          same_values = λ p ne_p. grown-value t stable lt p;
          next = omega (arith, grown.one_more);
          kept = Kept-more (Kept-refl ht Every) t;
          same_first = hti_start_copy-first ht t;
          room = inr (
            lost,
            grown.one_more,
            omega (arith, grown.one_more),
            (j, subst (λ w. (view s).look w q ≡ some (j, true)) (sym end) vacant),
          );
        })
  ]
    where
      here_too :
          (s : Ht)
          → ((w : ℕ) → b ≤ w → w < t → passes (view s) w q ≡ true)
          → (view s).look t q ≡ none
          → (w : ℕ) → b ≤ w
          → w < t + 1
          → passes (view s) w q ≡ true
      here_too s pass lost w le before = elim (ℕ_discrete w t) [
        | yes here ↦ subst (λ a. passes (view s) a q ≡ true) (sym here) (rw lost refl)
        | no earlier ↦ pass w le (omega arith)
      ]

  module _ (j : ℕ) (vacant : (view ht).look t q ≡ some (j, true)) where
    -- A key whose lookup ends at an empty entry has no value.
    vacant_value : value ht b q ≡ 0
    vacant_value =
        value_from-skip (view ht) (ht.installed - b) b (suc (ht.installed - t - 1)) t q low
          (omega arith) pass
        ∙ (rw vacant refl)

    vacant_kept : 0 ≡ set_value 0 expected new → Answered ht ht b q expected new 0
    vacant_kept same = record {
      stable = stable;
      returned = sym vacant_value;
      not_moved = refl;
      now = vacant_value ∙ same ∙ sym (ap (λ x. set_value x expected new) vacant_value);
      others = λ p ne_p apart. refl;
      same_number = refl;
      kept = Kept-refl ht Every;
      same_first = refl;
    }

    abbrev keyed : Ht
    keyed = set_entry_key ht t j q

    abbrev counted : Ht
    counted = add_key_count keyed t

    counted-Kept : Kept ht counted Every
    counted-Kept =
        Kept-set
          (Kept-set (Kept-refl ht Every) t
            (record (ht.tables t) { key = update (ht.tables t).key j q }) refl (λ k e. refl))
          t (record (keyed.tables t) { key_count = u64 ((keyed.tables t).key_count + 1) }) refl
          (λ k e. refl)

    key_installed :
        (retry : Ht → Option (ℕ × Ht))
        → Outcome ht b t q expected new
            (after_key retry fuel (0, keyed) t j (murmur32_8b q) expected new)
    key_installed retry =
        let x = record (keyed.tables t) { key_count = u64 ((keyed.tables t).key_count + 1) } in
        let same = set_table-view keyed t x refl in
        let look = ap (λ w. w.look t q) same ∙ keyed-look stable low lt ne vacant pass in
        Outcome-same ne
          (λ p ne_p.
            set_table-value keyed t x b p refl ∙ keyed-value stable low lt ne vacant pass p ne_p)
          refl refl counted-Kept (λ e. absurd (ground (arith, sym look ∙ e)))
          (cas_entry-Outcome retry fuel (murmur32_8b q)
            (set_table-Stable t x (keyed-Stable stable low lt ne vacant pass) refl lt) low lt ne
            look
            (λ w le before.
              subst (λ y. passes y w q ≡ true) (sym same)
                (keyed-pass stable low lt ne vacant pass w le before))
            not_removed is_new)

  pub hti_cas-Outcome :
      Outcome ht b t q expected new (hti_cas (suc fuel) ht t q (murmur32_8b q) expected new)
  unfolding hti_cas
  hti_cas-Outcome =
      let looked = lookup_in ht t q stable.integer_keys in
      elim (Look-cases ((view ht).look t q)) [
        | inl lost ↦ inl (_, (rw (hti_cas, looked ∙ lost) refl), no_room lost)
        | inr (inr (i, found)) ↦
            rw (hti_cas, looked ∙ found)
              (cas_entry-Outcome (λ s. hti_cas fuel s t q (murmur32_8b q) expected new) fuel
                (murmur32_8b q) stable low lt ne found pass not_removed is_new)
        | inr (inl (j, vacant)) ↦
            let retry = λ (s : Ht). hti_cas fuel s t q (murmur32_8b q) expected new in
            let z : (ht.tables t).key j ≡ 0 = stable.inv.looks.empty_key t q j vacant in
            let cas : cas_entry_key ht t j does_not_exist (new_key_of ht.key_type q (murmur32_8b q))
                ≡ (0, keyed j vacant) =
              ap (λ k. cas_entry_key ht t j does_not_exist (new_key_of k q (murmur32_8b q)))
                stable.integer_keys
              ∙ (rw z refl) in
            rw (hti_cas, looked ∙ vacant)
              (elim (Bool-cases
                (not (expected == expect_whatever) && not (expected == expect_does_not_exist))) [
                  | inl unmet ↦
                      rw unmet (inr (0, ht, refl, vacant_kept j vacant (unmet_zero expected unmet)))
                  | inr met ↦ rw met (elim (Bool-cases (new == does_not_exist)) [
                    | inl none_new ↦
                        rw none_new (inr (0, ht, refl, vacant_kept j vacant (removed new none_new)))
                    | inr some_new ↦ rw some_new (
                        subst
                          (λ c.
                            Outcome ht b t q expected new
                              (after_key retry fuel c t j (murmur32_8b q) expected new))
                          (sym cas) (key_installed j vacant retry))
                  ])
                ])
      ]
    where
      unmet_zero :
          (e : ℕ)
          → (not (e == expect_whatever) && not (e == expect_does_not_exist)) ≡ true
          → 0 ≡ set_value 0 e new
      unmet_zero e unmet = ground (arith, unmet)

      removed : (n : ℕ) → (n == does_not_exist) ≡ true → 0 ≡ set_value 0 expected n
      removed n e = elim (Bool-cases (meets 0 expected)) [
        | inl m ↦ rw m (ground (arith, e))
        | inr m ↦ rw m refl
      ]
