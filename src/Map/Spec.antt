-- ===== src/Map/Spec.antt =====
-- What the maps of src/map promise of their keys and values, on an association list in the order of
-- the keys. `below` tells the keys before the one that is meant, and `same` tells that one.
use ssr.Base.{
  inl, inr, Bool-cases, Option-cases, ℕ, ◌≡◌, refl, ◌≢◌, Bool, true, false, Option, none, some,
  List, [], ◌∷◌, ◌==◌, ◌||◌, ◌&&◌, not, arith, if◌then◌else◌,
}
use ssr.Map.{does_not_exist, expect_does_not_exist, expect_exists, expect_whatever}

-- The expectation is for a key that is there.
abbrev pub refuses : ℕ → Bool
refuses expectation =
    not (expectation == expect_does_not_exist) && not (expectation == expect_whatever)

-- The expectation is met by a key that is there, with the value `old`.
abbrev pub met_by : (old expectation : ℕ) → Bool
met_by old expectation =
    not (expectation == expect_does_not_exist)
    && (expectation == expect_exists || expectation == expect_whatever || expectation == old)

-- The expectation is special, or it is the value `old`.
abbrev pub is_exact : (old expectation : ℕ) → Bool
is_exact old expectation =
    expectation == expect_does_not_exist
    || expectation == expect_exists
    || expectation == expect_whatever
    || expectation == old

module _ (below : ℕ → Bool) where
  abbrev pub find_spec : (same : ℕ → Bool) → List (ℕ × ℕ) → Option ℕ
  find_spec same [] = none
  find_spec same ((k, v) ∷ l) =
      if below k then find_spec same l else if same k then some v else none

  abbrev pub insert_spec : (entry : ℕ × ℕ) → List (ℕ × ℕ) → List (ℕ × ℕ)
  insert_spec entry [] = entry ∷ []
  insert_spec entry ((k, v) ∷ l) =
      if below k then (k, v) ∷ insert_spec entry l else entry ∷ (k, v) ∷ l

  abbrev pub replace_spec : (val : ℕ) → List (ℕ × ℕ) → List (ℕ × ℕ)
  replace_spec val [] = []
  replace_spec val ((k, v) ∷ l) = if below k then (k, v) ∷ replace_spec val l else (k, val) ∷ l

  abbrev pub delete_spec : List (ℕ × ℕ) → List (ℕ × ℕ)
  delete_spec [] = []
  delete_spec ((k, v) ∷ l) = if below k then (k, v) ∷ delete_spec l else l

  -- A compare-and-set: the value that was there, and the map after it.
  pub cas_spec :
      (same : ℕ → Bool) (expectation : ℕ) (entry : ℕ × ℕ) → List (ℕ × ℕ) → ℕ × List (ℕ × ℕ)
  cas_spec same expectation entry l = elim (find_spec same l) [
    | none ↦
        if expectation == expect_does_not_exist || expectation == expect_whatever
        then (does_not_exist, insert_spec entry l)
        else (does_not_exist, l)
    | some old ↦
        let (key, val) = entry in
        if met_by old expectation then (old, replace_spec val l) else (old, l)
  ]

  -- The same, but an expectation that is not special is met by every value.
  unfoldable pub loose_cas_spec :
      (same : ℕ → Bool) (expectation : ℕ) (entry : ℕ × ℕ) → List (ℕ × ℕ) → ℕ × List (ℕ × ℕ)
  loose_cas_spec same expectation entry l = elim (find_spec same l) [
    | none ↦
        if expectation == expect_does_not_exist || expectation == expect_whatever
        then (does_not_exist, insert_spec entry l)
        else (does_not_exist, l)
    | some old ↦
        if expectation == expect_does_not_exist
        then (old, l)
        else let (key, val) = entry in (old, replace_spec val l)
  ]

  unfoldable pub remove_spec : (same : ℕ → Bool) → List (ℕ × ℕ) → ℕ × List (ℕ × ℕ)
  remove_spec same l = elim (find_spec same l) [
    | none ↦ (does_not_exist, l)
    | some old ↦ (old, delete_spec l)
  ]

  unfoldable pub lookup_spec : (same : ℕ → Bool) → List (ℕ × ℕ) → ℕ
  lookup_spec same l = elim (find_spec same l) [ none ↦ does_not_exist | some v ↦ v ]

  module _ (same : ℕ → Bool) (l : List (ℕ × ℕ)) (expectation : ℕ) (entry : ℕ × ℕ) where
    pub loose_cas_spec-refused :
        find_spec same l ≡ none
        → refuses expectation ≡ true
        → loose_cas_spec same expectation entry l ≡ (does_not_exist, l)
    unfolding loose_cas_spec
    loose_cas_spec-refused missing refusal = rw (loose_cas_spec, missing) (ground (arith, refusal))

    pub loose_cas_spec-inserted :
        find_spec same l ≡ none
        → refuses expectation ≡ false
        → loose_cas_spec same expectation entry l ≡ (does_not_exist, insert_spec entry l)
    unfolding loose_cas_spec
    loose_cas_spec-inserted missing allowed = rw (loose_cas_spec, missing) (ground (arith, allowed))

    pub loose_cas_spec-there :
        {old : ℕ}
        → find_spec same l ≡ some old
        → (expectation == expect_does_not_exist) ≡ true
        → loose_cas_spec same expectation entry l ≡ (old, l)
    unfolding loose_cas_spec
    loose_cas_spec-there present new = rw (loose_cas_spec, present) (rw new refl)

    pub loose_cas_spec-replaced :
        {old : ℕ}
        → find_spec same l ≡ some old
        → (expectation == expect_does_not_exist) ≡ false
        → loose_cas_spec same expectation entry l ≡ (old, replace_spec entry.1 l)
    unfolding loose_cas_spec
    loose_cas_spec-replaced present set = rw (loose_cas_spec, present) (rw set refl)

    pub cas_spec-unmet :
        {old : ℕ}
        → find_spec same l ≡ some old
        → met_by old expectation ≡ false
        → cas_spec same expectation entry l ≡ (old, l)
    unfolding cas_spec
    cas_spec-unmet present unmet = rw (cas_spec, present) (rw unmet refl)

    -- Where the expectation is special or the value that is there, both agree.
    pub loose_cas_spec-exact :
        ((old : ℕ) → find_spec same l ≡ some old → is_exact old expectation ≡ true)
        → loose_cas_spec same expectation entry l ≡ cas_spec same expectation entry l
    unfolding loose_cas_spec cas_spec
    loose_cas_spec-exact exact = elim (Option-cases (find_spec same l)) [
      | inl missing ↦ rw (loose_cas_spec, cas_spec, missing) refl
      | inr (old, present) ↦
          rw (loose_cas_spec, cas_spec, present)
            (elim (Bool-cases (expectation == expect_does_not_exist)) [
              | inl new ↦ rw new refl
              | inr set ↦
                  let met : met_by old expectation ≡ true =
                    ground (arith, set, exact old present) in
                  rw (met, set) refl
            ])
    ]

  module _ (same : ℕ → Bool) (l : List (ℕ × ℕ)) where
    pub remove_spec-missing : find_spec same l ≡ none → remove_spec same l ≡ (does_not_exist, l)
    unfolding remove_spec
    remove_spec-missing missing = rw (remove_spec, missing) refl

    pub remove_spec-there :
        {old : ℕ} → find_spec same l ≡ some old → remove_spec same l ≡ (old, delete_spec l)
    unfolding remove_spec
    remove_spec-there present = rw (remove_spec, present) refl

-- No value is the one that stands for a missing key.
abbrev pub AllSet : List (ℕ × ℕ) → Type 0
AllSet [] = Unit
AllSet ((k, v) ∷ l) = (v ≢ does_not_exist) × AllSet l

pub AllSet-insert :
    (below : ℕ → Bool) (entry : ℕ × ℕ) (l : List (ℕ × ℕ))
    → entry.1 ≢ 0
    → AllSet l
    → AllSet (insert_spec below entry l)
AllSet-insert below (k, v) [] ne set = (ne, tt)
AllSet-insert below entry ((k, v) ∷ l) ne (here, rest) = elim (Bool-cases (below k)) [
  | inl b ↦ rw b (here, AllSet-insert below entry l ne rest)
  | inr a ↦ rw a (ne, (here, rest))
]

pub AllSet-replace :
    (below : ℕ → Bool) (val : ℕ) (l : List (ℕ × ℕ))
    → val ≢ 0
    → AllSet l
    → AllSet (replace_spec below val l)
AllSet-replace below val [] ne set = tt
AllSet-replace below val ((k, v) ∷ l) ne (here, rest) = elim (Bool-cases (below k)) [
  | inl b ↦ rw b (here, AllSet-replace below val l ne rest)
  | inr a ↦ rw a (ne, rest)
]

pub AllSet-delete : (below : ℕ → Bool) (l : List (ℕ × ℕ)) → AllSet l → AllSet (delete_spec below l)
AllSet-delete below [] set = tt
AllSet-delete below ((k, v) ∷ l) (here, rest) = elim (Bool-cases (below k)) [
  | inl b ↦ rw b (here, AllSet-delete below l rest)
  | inr a ↦ rw a rest
]
