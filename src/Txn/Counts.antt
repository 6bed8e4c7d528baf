-- ===== src/Txn/Counts.antt =====
-- The loops of src/txn/txn.c that count the transactions with one read version end.
use ssr.Base.{
  ℕ, suc, ◌+◌, ◌-◌, ◌^◌, ◌≡◌, ◌∙◌, refl, sym, ap, inl, inr, false, none, some, List, [], ◌∷◌, ◌==◌,
  ltb, Bool-cases, Option-cases, arith, u32, ==_iff,
}
use ssr.Map.{expect_does_not_exist}
use ssr.Map.Laws.{before, equals}
use ssr.Map.Spec.{
  find_spec, insert_spec, replace_spec, loose_cas_spec-there, loose_cas_spec-replaced,
  loose_cas_spec-refused, loose_cas_spec-inserted,
}
use ssr.Txn.Ops.{lower_count, sl_cas, sl_remove}

find_spec-replace :
    (key v : ℕ) (l : List (ℕ × ℕ)) {old : ℕ}
    → find_spec (before key) (equals key) l ≡ some old
    → find_spec (before key) (equals key) (replace_spec (before key) v l) ≡ some v
find_spec-replace key v [] present = ground (arith, present)
find_spec-replace key v ((k, w) ∷ l) {old} present = elim (Bool-cases (ltb k key)) [
  | inl b ↦
      let rest : find_spec (before key) (equals key) l ≡ some old = ground (arith, present) in
      rw b (rw b (find_spec-replace key v l rest))
  | inr a ↦ ground (arith, present)
]

module _ (fuel : ℕ) (active : List (ℕ × ℕ)) (version rv old_count : ℕ)
    {active' : List (ℕ × ℕ)} where
  -- The last transaction of an old read version.
  lower_count-one :
      sl_cas active rv old_count (u32 (old_count + 2 ^ 32 - 1)) ≡ (1, active')
      → (rv == version) ≡ false
      → lower_count (suc fuel) active version rv old_count ≡ some (sl_remove active' rv).1
  unfolding lower_count
  lower_count-one e past = rw (lower_count, e) (rw past refl)

  lower_count-same :
      sl_cas active rv old_count (u32 (old_count + 2 ^ 32 - 1)) ≡ (old_count, active')
      → (old_count == 1) ≡ false
      → lower_count (suc fuel) active version rv old_count ≡ some active'
  unfolding lower_count
  lower_count-same e ne = rw (lower_count, e) (rw ne (ground arith))

  lower_count-again :
      {temp : ℕ}
      → sl_cas active rv old_count (u32 (old_count + 2 ^ 32 - 1)) ≡ (temp, active')
      → (temp == 1) ≡ false
      → (old_count == temp) ≡ false
      → lower_count (suc fuel) active version rv old_count
        ≡ lower_count fuel active' version rv temp
  unfolding lower_count
  lower_count-again e ne other = rw (lower_count, e) (rw (ne, other) refl)

-- A second round is the last one.
second-there :
    (fuel : ℕ) (active : List (ℕ × ℕ)) (version rv c : ℕ)
    → find_spec (before rv) (equals rv) active ≡ some 1
    → (rv == version) ≡ false
    → (a : List (ℕ × ℕ)) × (lower_count (suc fuel) active version rv c ≡ some a)
second-there fuel active version rv c present past =
    elim (Bool-cases (c == expect_does_not_exist)) [
      | inl new ↦ (
        _,
        lower_count-one fuel active version rv c
            (loose_cas_spec-there (before rv) (equals rv) active c (rv, u32 (c + 2 ^ 32 - 1))
              present new)
            past,
      )
      | inr old ↦ (
        _,
        lower_count-one fuel active version rv c
            (loose_cas_spec-replaced (before rv) (equals rv) active c (rv, u32 (c + 2 ^ 32 - 1))
              present old)
            past,
      )
    ]

-- The first round has the expectation 2, which no value fails to meet.
lower_count-there :
    (fuel : ℕ) (active : List (ℕ × ℕ)) (version rv c : ℕ)
    → find_spec (before rv) (equals rv) active ≡ some c
    → (rv == version) ≡ false
    → (a : List (ℕ × ℕ)) × (lower_count (suc (suc fuel)) active version rv 2 ≡ some a)
lower_count-there fuel active version rv c present past =
    let replaced = replace_spec (before rv) 1 active in
    let first : sl_cas active rv 2 (u32 (2 + 2 ^ 32 - 1)) ≡ (c, replaced) =
      loose_cas_spec-replaced (before rv) (equals rv) active 2 (rv, 1) present refl in
    elim (Bool-cases (c == 1)) [
      | inl one ↦
          let e : sl_cas active rv 2 (u32 (2 + 2 ^ 32 - 1)) ≡ (1, replaced) =
            first ∙ ap (λ x. (x, replaced)) ((==_iff c 1).0 one) in
          (_, lower_count-one (suc fuel) active version rv 2 e past)
      | inr many ↦ elim (Bool-cases (2 == c)) [
        | inl two ↦
            let e : sl_cas active rv 2 (u32 (2 + 2 ^ 32 - 1)) ≡ (2, replaced) =
              first ∙ ap (λ x. (x, replaced)) (sym ((==_iff 2 c).0 two)) in
            (replaced, lower_count-same (suc fuel) active version rv 2 e refl)
        | inr other ↦
            let (a, e) =
              second-there fuel replaced version rv c (find_spec-replace rv 1 active present)
                past in
            (a, lower_count-again (suc fuel) active version rv 2 first many other ∙ e)
      ]
    ]

lower_count-missing :
    (fuel : ℕ) (active : List (ℕ × ℕ)) (version rv : ℕ)
    → find_spec (before rv) (equals rv) active ≡ none
    → (a : List (ℕ × ℕ)) × (lower_count (suc (suc fuel)) active version rv 2 ≡ some a)
lower_count-missing fuel active version rv missing = (
  insert_spec (before rv) (rv, 2 ^ 32 - 1) active,
  lower_count-again (suc fuel) active version rv 2
        (loose_cas_spec-refused (before rv) (equals rv) active 2 (rv, 1) missing refl) refl refl
      ∙ lower_count-same fuel active version rv 0
          (loose_cas_spec-inserted (before rv) (equals rv) active 0 (rv, 2 ^ 32 - 1) missing refl)
          refl,
)

pub lower_count-ends :
    (fuel : ℕ) (active : List (ℕ × ℕ)) (version rv : ℕ)
    → (rv == version) ≡ false
    → (a : List (ℕ × ℕ)) × (lower_count (suc (suc fuel)) active version rv 2 ≡ some a)
lower_count-ends fuel active version rv past =
    elim (Option-cases (find_spec (before rv) (equals rv) active)) [
      | inl missing ↦ lower_count-missing fuel active version rv missing
      | inr (c, present) ↦ lower_count-there fuel active version rv c present past
    ]
