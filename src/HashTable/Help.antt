-- ===== src/HashTable/Help.antt =====
-- `hti_help_copy` of src/map/hashtable.c: some entries are copied, and it knows when all are.
use ssr.Base.{
  ℕ, zero, suc, ◌+◌, ◌^◌, ◌≤◌, ◌<◌, ◌≡◌, refl, sym, ap, ◌∙◌, ◌≢◌, inl, inr, Bool, true, false, not,
  Option, some, if◌then◌else◌, arith, sum_below, sum_below_change,
}
use ssr.HashTable.{Hti, Ht, size_of, key_hash}
use ssr.HashTable.Copy.{is_copied, copy_entries}
use ssr.HashTable.Store.{value}
use ssr.HashTable.Kept.{Kept, Kept-refl, Kept-trans}
use ssr.HashTable.Moved.{Stable, Moved}
use ssr.HashTable.CopyEntry.{hti_copy_entry-Moved}

abbrev pub one_if : Bool → ℕ
one_if b = if b then 1 else 0

-- How many entries of a table are copied.
abbrev pub copied_in : Hti → ℕ
copied_in hti = sum_below (λ k. one_if (is_copied (hti.val k))) (size_of hti)

-- Entry `i` was copied, and `newly` says whether it was not before.
one_more :
    {ht s : Ht} {b t i : ℕ} {newly : Bool}
    → Moved ht s b t i newly
    → t < ht.installed
    → i < size_of (ht.tables t)
    → one_if newly + copied_in (ht.tables t) ≡ copied_in (s.tables t)
one_more {ht} {s} {b} {t} {i} {newly} moved lt below =
    let g = λ (k : ℕ). one_if (is_copied ((ht.tables t).val k)) in
    let h = λ (k : ℕ). one_if (is_copied ((s.tables t).val k)) in
    let size = size_of (ht.tables t) in
    let same_size : size_of (s.tables t) ≡ size =
      ap (λ a. 2 ^ a.scale) (moved.frame.kept.accounts t lt) in
    let others : (k : ℕ) → i ≢ k → g k ≡ h k =
      λ k ne. sym (ap one_if (moved.frame.kept.copies t k lt (inr ne))) in
    let sums : sum_below h size + g i ≡ sum_below g size + h i =
      sum_below_change g h i size others below in
    let here : h i ≡ 1 = ap one_if moved.moved in
    let was : one_if newly + g i ≡ 1 =
      ap (λ x. one_if x + g i) moved.was_live ∙ split (is_copied ((ht.tables t).val i)) in
    let total : one_if newly + sum_below g size ≡ sum_below h size =
      omega (arith, sums, here, was) in
    total ∙ sym (ap (sum_below h) same_size)
  where
    split : (c : Bool) → one_if (not c) + one_if c ≡ 1
    split true = refl
    split false = refl

-- A stretch of entries of table `t` was copied, `n` of them newly.
pub record Stretch (ht s : Ht) (b t n left : ℕ) : Type 0 where
  pub stable : Stable s b
  pub same_values : (p : ℕ) → p ≢ 0 → value s b p ≡ value ht b p
  pub same_first : s.first ≡ ht.first
  pub kept : Kept ht s (λ w k. t ≢ w)
  pub counted : n + copied_in (ht.tables t) ≡ copied_in (s.tables t)
  pub growth : s.installed ≤ ht.installed + left
  pub in_range : t + 1 < s.installed

pub copy_entries-Stretch :
    {b t : ℕ} (left fuel : ℕ) (ht : Ht) (i : ℕ)
    → Stable ht b
    → b ≤ t
    → t + 1 < ht.installed
    → i + left ≤ size_of (ht.tables t)
    → ht.installed + left + 1 ≤ fuel + t
    → (n : ℕ) × (s : Ht) × (copy_entries left fuel ht t i ≡ some (n, s)) × Stretch ht s b t n left
unfolding copy_entries key_hash
copy_entries-Stretch {b} {t} zero fuel ht i stable low in_range below enough = (
  0,
  ht,
  refl,
  record {
    stable = stable;
    same_values = λ p ne. refl;
    same_first = refl;
    kept = Kept-refl ht (λ w k. t ≢ w);
    counted = omega arith;
    growth = omega arith;
    in_range = in_range;
  },
)
copy_entries-Stretch {b} {t} (suc left) zero ht i stable low in_range below enough =
    absurd (omega arith)
copy_entries-Stretch {b} {t} (suc left) (suc fuel) ht i stable low in_range below enough =
    let (newly, s, e, moved) =
      hti_copy_entry-Moved t i stable low in_range fuel 0 refl (omega arith) in
    let same_account = moved.frame.kept.accounts t (omega arith) in
    let same_size : size_of (s.tables t) ≡ size_of (ht.tables t) =
      ap (λ a. 2 ^ a.scale) same_account in
    let grown : s.installed ≤ ht.installed + 1 = moved.growth in
    let (n, r, e', rest) =
      copy_entries-Stretch {b = b} {t = t} left (suc fuel) s (i + 1) moved.stable low moved.in_range
        (omega arith) (omega arith) in
    (
      one_if newly + n,
      r,
      (rw (copy_entries, e) (rw e' (added newly n r))),
      record {
        stable = rest.stable;
        same_values = λ p ne. rest.same_values p ne ∙ moved.same_values p ne;
        same_first = rest.same_first ∙ moved.frame.same_first;
        kept =
            Kept-trans moved.frame.kept rest.kept (λ w k ne. inl ne) (λ w k ne. ne)
              (λ w k le same. absurd (omega arith));
        counted = omega (arith, one_more moved (omega arith) (omega arith), rest.counted);
        growth = omega (arith, rest.growth);
        in_range = rest.in_range;
      },
    )
  where
    added :
        (newly : Bool) (n : ℕ) (r : Ht)
        → ◌≡◌ {A = Option (ℕ × Ht)}
            (some (if newly then (n + 1, r) else (n, r)))
            (some (one_if newly + n, r))
    added true n r = let e : n + 1 ≡ 1 + n = omega arith in ap (λ x. some (x, r)) e
    added false n r = let e : n ≡ 0 + n = omega arith in ap (λ x. some (x, r)) e
