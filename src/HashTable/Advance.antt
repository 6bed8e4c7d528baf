-- ===== src/HashTable/Advance.antt =====
-- The step of `ht_cas` in src/map/hashtable.c to the next table, once all of the first one is copied.
use ssr.Base.{
  ℕ, zero, suc, ◌+◌, ◌-◌, ◌^◌, ◌≤◌, ◌<◌, ◌≡◌, refl, sym, ap, subst, ◌∙◌, ◌≢◌, ◌⊎◌, inl, inr, Bool,
  true, false, none, some, ◌==◌, Bool-cases, arith, sum_below,
}
use native.Mathlib.Decide.{ℕ_discrete, dec_lt}
use native.Mathlib.Nat.{pow-le-pow_right}
use ssr.Murmur.{murmur32_8b}
use ssr.HashTable.{Ht, size_of, has_next}
use ssr.HashTable.Copy.{is_copied, hti_help_copy, hti_release}
use ssr.HashTable.Ops.{help_first}
use ssr.HashTable.View.{value_from}
use ssr.HashTable.Grow.{left-Inv, left-value}
use ssr.HashTable.Chain.{view, effective, hti_lookup-look}
use ssr.HashTable.Bounds.{hti_lookup-bound}
use ssr.HashTable.Store.{value}
use ssr.HashTable.Moved.{Stable}
use ssr.HashTable.Help.{one_if, copied_in}
use ssr.HashTable.HelpCopy.{Accounts, Helped, hti_help_copy-Helped}
use ssr.HashTable.Release.{
  hti_release-Stable, hti_release-value, hti_release-table, hti_release-first,
}

sum_most : (f : ℕ → Bool) (n : ℕ) → sum_below (λ k. one_if (f k)) n ≤ n
unfolding sum_below
sum_most f zero = omega arith
sum_most f (suc n) = omega (arith, sum_most f n, at_most (f n))
  where
    at_most : (c : Bool) → one_if c ≤ 1
    at_most true = omega arith
    at_most false = omega arith

-- Where the sum is as large as it can be, all are counted.
sum_full :
    (f : ℕ → Bool) (n : ℕ) → sum_below (λ k. one_if (f k)) n ≡ n → (k : ℕ) → k < n → f k ≡ true
unfolding sum_below
sum_full f zero e k lt = absurd (omega arith)
sum_full f (suc n) e k lt = elim (Bool-cases (f n)) [
  | inl y ↦ elim (ℕ_discrete k n) [
    | yes here ↦ rw here y
    | no before ↦ sum_full f n (ground (arith, e, y)) k (omega arith)
  ]
  | inr no_one ↦ absurd (ground (arith, e, no_one, sum_most f n))
]

-- The accounts tell when all entries are copied.
pub all_copied :
    {ht : Ht} {t : ℕ}
    → Accounts ht t
    → ((ht.tables t).num_entries_copied == size_of (ht.tables t)) ≡ true
    → (k : ℕ) → k < size_of (ht.tables t)
    → is_copied ((ht.tables t).val k) ≡ true
all_copied {ht} {t} accounts full =
    let size = size_of (ht.tables t) in
    let f = λ (k : ℕ). is_copied ((ht.tables t).val k) in
    let bound : size ≤ 2 ^ 63 =
      pow-le-pow_right {n = 2} (omega arith) {j = 63} (omega (arith, accounts.max_size)) in
    let most : copied_in (ht.tables t) ≤ size = sum_most f size in
    let e : (ht.tables t).num_entries_copied ≡ size = ground (arith, full) in
    sum_full f size (omega (arith, accounts.counted, bound, most, e))

-- A table whose entries are all copied is left, and no value is lost.
module _ {ht : Ht} {b : ℕ} (stable : Stable ht b) (in_range : b + 1 < ht.installed)
    (copied : (k : ℕ) → k < size_of (ht.tables b) → is_copied ((ht.tables b).val k) ≡ true) where
  pub left-Stable : Stable ht (b + 1)
  left-Stable = record {
    integer_keys = stable.integer_keys;
    inv = left-Inv stable.inv in_range;
    scales = stable.scales;
    settled = stable.settled;
  }

  pub left-same : (p : ℕ) → p ≢ 0 → value ht (b + 1) p ≡ value ht b p
  left-same p ne =
      let fewer : ht.installed - b ≡ suc (ht.installed - (b + 1)) = omega arith in
      left-value stable.inv in_range (ht.installed - (b + 1)) p (omega arith) ne (λ k found.
        copied_effective ((ht.tables b).val k) (
          copied k (
            hti_lookup-bound none (ht.tables b) p (murmur32_8b p) k false
              (omega (arith, stable.scales b (omega arith)))
              (hti_lookup-look (ht.tables b) p ∙ found))))
      ∙ ap (λ n. value_from (view ht) n b p) (sym fewer)
    where
      copied_effective : (v : ℕ) → is_copied v ≡ true → is_copied (effective v) ≡ true
      copied_effective v h = ground (arith, h)

-- What the help of `ht_cas` leaves: the same values, in the tables from the first one on.
pub record Advanced (ht r : Ht) : Type 0 where
  pub stable : Stable r r.first
  pub same_values : (p : ℕ) → p ≢ 0 → value r r.first p ≡ value ht ht.first p
  pub old_stable : Stable r ht.first
  pub old_values : (p : ℕ) → p ≢ 0 → value r ht.first p ≡ value ht ht.first p
  pub first_or_next :
      (r.first ≡ ht.first)
      ⊎ ((r.first ≡ ht.first + 1)
          × (ht.first + 1 < r.installed)
          × ((k : ℕ)
              → k < size_of (r.tables ht.first)
              → is_copied ((r.tables ht.first).val k) ≡ true))
  pub growth : r.installed ≤ ht.installed + size_of (ht.tables ht.first)

pub help_first-Advanced :
    (fuel : ℕ) (ht : Ht)
    → Stable ht ht.first
    → Accounts ht ht.first
    → ht.installed + size_of (ht.tables ht.first) + 1 ≤ fuel + ht.first
    → (r : Ht) × (help_first fuel ht ≡ some r) × Advanced ht r
unfolding help_first
help_first-Advanced fuel ht stable accounts enough = elim (dec_lt (ht.first + 1) ht.installed) [
  | no last ↦
      let lone : has_next ht ht.first ≡ false = ground arith in
      (
        ht,
        (rw (help_first, lone) refl),
        record {
          stable = stable;
          same_values = λ p ne. refl;
          old_stable = stable;
          old_values = λ p ne. refl;
          first_or_next = inl refl;
          growth = omega arith;
        },
      )
  | yes more ↦
      let next : has_next ht ht.first ≡ true = ground arith in
      let (f, s, e, helped) = hti_help_copy-Helped fuel stable (omega arith) more accounts enough in
      by_result next f s e helped
]
  where
    b : ℕ
    b = ht.first

    by_result :
        has_next ht b ≡ true
        → (f : Bool) (s : Ht) → hti_help_copy fuel ht b ≡ some (f, s)
        → Helped ht s b b f
        → (r : Ht) × (help_first fuel ht ≡ some r) × Advanced ht r
    by_result next false s e helped = (
      s,
      (rw (help_first, next) (rw e refl)),
      record {
        stable = subst (λ c. Stable s c) (sym helped.same_first) helped.stable;
        same_values = λ p ne. ap (λ c. value s c p) helped.same_first ∙ helped.same_values p ne;
        old_stable = helped.stable;
        old_values = helped.same_values;
        first_or_next = inl helped.same_first;
        growth = helped.growth;
      },
    )
    by_result next true s e helped =
        let first = helped.same_first in
        let copied = all_copied helped.accounts (sym helped.finished_iff) in
        let left = left-Stable helped.stable helped.in_range copied in
        let moved : Ht = record s { first = s.first + 1 } in
        let moved-Stable : Stable moved (b + 1) = record {
          integer_keys = left.integer_keys;
          inv = left.inv;
          scales = left.scales;
          settled = left.settled;
        } in
        let moved_old : Stable moved b = record {
          integer_keys = helped.stable.integer_keys;
          inv = helped.stable.inv;
          scales = helped.stable.scales;
          settled = helped.stable.settled;
        } in
        let r = hti_release moved s.first in
        let r_first : r.first ≡ b + 1 = hti_release-first moved s.first ∙ ap (λ c. c + 1) first in
        (
          r,
          (rw (help_first, next) (rw e refl)),
          record {
            stable =
                subst (λ c. Stable r c) (sym r_first)
                  (hti_release-Stable moved-Stable (omega (arith, first, helped.in_range)));
            same_values = λ p ne.
                ap (λ c. value r c p) r_first
                ∙ hti_release-value moved s.first (b + 1) p
                ∙ left-same helped.stable helped.in_range copied p ne
                ∙ helped.same_values p ne;
            old_stable = hti_release-Stable moved_old (omega (arith, first, helped.in_range));
            old_values = λ p ne. hti_release-value moved s.first b p ∙ helped.same_values p ne;
            first_or_next =
                let (same_val, same_scale, same_number) = hti_release-table moved s.first b in
                inr (
                  r_first,
                  omega (arith, helped.in_range, same_number),
                  (λ k below.
                      ap (λ f. is_copied (f k)) same_val
                      ∙ copied k (subst (λ c. k < 2 ^ c) same_scale below)),
                );
            growth =
                let (same_val, same_scale, same_number) = hti_release-table moved s.first b in
                omega (arith, helped.growth, same_number);
          },
        )
