-- ===== src/Map/Laws.antt =====
-- The ordered association list as a finite map: what an insertion, a new value and a deletion do to
-- the value of each key.
use ssr.Base.{
  ℕ, ◌<◌, ◌≡◌, refl, inl, inr, Bool, none, some, List, [], ◌∷◌, ltb, ◌==◌, if◌then◌else◌,
  Bool-cases, arith,
}
use ssr.Map.Spec.{find_spec, insert_spec, replace_spec, delete_spec, lookup_spec}

-- The order of the keys as numbers.
abbrev pub before : ℕ → ℕ → Bool
before key k = ltb k key

abbrev pub equals : ℕ → ℕ → Bool
equals key k = k == key

abbrev pub value_in : List (ℕ × ℕ) → ℕ → ℕ
value_in [] key = 0
value_in ((k, v) ∷ l) key = if ltb k key then value_in l key else if k == key then v else 0

pub lookup_spec-value_in :
    (key : ℕ) (l : List (ℕ × ℕ)) → lookup_spec (before key) (equals key) l ≡ value_in l key
unfolding lookup_spec
lookup_spec-value_in key [] = refl
lookup_spec-value_in key ((k, v) ∷ l) = elim (Bool-cases (ltb k key)) [
  | inl b ↦ rw (lookup_spec, b) (lookup_spec-value_in key l)
  | inr a ↦
      rw (lookup_spec, a) (elim (Bool-cases (k == key)) [ inl e ↦ rw e refl | inr n ↦ rw n refl ])
]

-- Every key of the list is above `a`.
abbrev pub Above : ℕ → List (ℕ × ℕ) → Type 0
Above a [] = Unit
Above a ((k, v) ∷ l) = (a < k) × Above a l

abbrev pub Sorted : List (ℕ × ℕ) → Type 0
Sorted [] = Unit
Sorted ((k, v) ∷ l) = Above k l × Sorted l

abbrev pub Bounded : ℕ → List (ℕ × ℕ) → Type 0
Bounded n [] = Unit
Bounded n ((k, v) ∷ l) = (k < n) × Bounded n l

module _ (key : ℕ) where
  pub value_in-insert :
      (v : ℕ) (l : List (ℕ × ℕ)) (j : ℕ)
      → find_spec (before key) (equals key) l ≡ none
      → value_in (insert_spec (before key) (key, v) l) j ≡ (if key == j then v else value_in l j)
  value_in-insert v [] j missing = ground arith
  value_in-insert v ((k, w) ∷ l) j missing = elim (Bool-cases (ltb k key)) [
    | inl b ↦ ground (arith, value_in-insert v l j)
    | inr a ↦ ground (arith, missing)
  ]

  pub value_in-replace :
      (v : ℕ) (l : List (ℕ × ℕ)) (j : ℕ) {old : ℕ}
      → find_spec (before key) (equals key) l ≡ some old
      → value_in (replace_spec (before key) v l) j ≡ (if key == j then v else value_in l j)
  value_in-replace v [] j present = ground arith
  value_in-replace v ((k, w) ∷ l) j {old} present = elim (Bool-cases (ltb k key)) [
    | inl b ↦
        let rest : find_spec (before key) (equals key) l ≡ some old = ground (arith, present) in
        ground (arith, value_in-replace v l j rest)
    | inr a ↦ ground (arith, present)
  ]

  value_in-Above : (l : List (ℕ × ℕ)) (a j : ℕ) → Above a l → (a < j → ⊥) → value_in l j ≡ 0
  value_in-Above [] a j above le = refl
  value_in-Above ((k, w) ∷ l) a j (lt, above) le = ground arith

  pub value_in-delete :
      (l : List (ℕ × ℕ)) (j : ℕ) {old : ℕ}
      → Sorted l
      → find_spec (before key) (equals key) l ≡ some old
      → value_in (delete_spec (before key) l) j ≡ (if key == j then 0 else value_in l j)
  value_in-delete [] j sorted present = ground arith
  value_in-delete ((k, w) ∷ l) j {old} (above, sorted) present = elim (Bool-cases (ltb k key)) [
    | inl b ↦
        let rest : find_spec (before key) (equals key) l ≡ some old = ground (arith, present) in
        ground (arith, value_in-delete l j sorted rest)
    | inr a ↦ ground (arith, present, value_in-Above l k j above)
  ]

  Above-insert :
      (v a : ℕ) (l : List (ℕ × ℕ))
      → a < key
      → Above a l
      → Above a (insert_spec (before key) (key, v) l)
  Above-insert v a [] lt above = (lt, tt)
  Above-insert v a ((k, w) ∷ l) lt (a_k, above) = elim (Bool-cases (ltb k key)) [
    | inl b ↦ rw b (a_k, Above-insert v a l lt above)
    | inr c ↦ rw c (lt, (a_k, above))
  ]

  Above-replace : (v a : ℕ) (l : List (ℕ × ℕ)) → Above a l → Above a (replace_spec (before key) v l)
  Above-replace v a [] above = tt
  Above-replace v a ((k, w) ∷ l) (a_k, above) = elim (Bool-cases (ltb k key)) [
    | inl b ↦ rw b (a_k, Above-replace v a l above)
    | inr c ↦ rw c (a_k, above)
  ]

  Above-delete : (a : ℕ) (l : List (ℕ × ℕ)) → Above a l → Above a (delete_spec (before key) l)
  Above-delete a [] above = tt
  Above-delete a ((k, w) ∷ l) (a_k, above) = elim (Bool-cases (ltb k key)) [
    | inl b ↦ rw b (a_k, Above-delete a l above)
    | inr c ↦ rw c above
  ]

  Above-trans : (a b : ℕ) (l : List (ℕ × ℕ)) → a < b → Above b l → Above a l
  Above-trans a b [] lt above = tt
  Above-trans a b ((k, w) ∷ l) lt (b_k, above) = (omega arith, Above-trans a b l lt above)

  pub insert_spec-Sorted :
      (v : ℕ) (l : List (ℕ × ℕ))
      → find_spec (before key) (equals key) l ≡ none
      → Sorted l
      → Sorted (insert_spec (before key) (key, v) l)
  insert_spec-Sorted v [] missing sorted = (tt, tt)
  insert_spec-Sorted v ((k, w) ∷ l) missing (above, sorted) = elim (Bool-cases (ltb k key)) [
    | inl b ↦ rw b (
      Above-insert v k l (ground arith) above,
      insert_spec-Sorted v l (ground (arith, missing)) sorted,
    )
    | inr c ↦
        let lt : key < k = ground (arith, missing) in
        rw c ((lt, Above-trans key k l lt above), (above, sorted))
  ]

  pub replace_spec-Sorted :
      (v : ℕ) (l : List (ℕ × ℕ)) → Sorted l → Sorted (replace_spec (before key) v l)
  replace_spec-Sorted v [] sorted = tt
  replace_spec-Sorted v ((k, w) ∷ l) (above, sorted) = elim (Bool-cases (ltb k key)) [
    | inl b ↦ rw b (Above-replace v k l above, replace_spec-Sorted v l sorted)
    | inr c ↦ rw c (above, sorted)
  ]

  pub delete_spec-Sorted : (l : List (ℕ × ℕ)) → Sorted l → Sorted (delete_spec (before key) l)
  delete_spec-Sorted [] sorted = tt
  delete_spec-Sorted ((k, w) ∷ l) (above, sorted) = elim (Bool-cases (ltb k key)) [
    | inl b ↦ rw b (Above-delete k l above, delete_spec-Sorted l sorted)
    | inr c ↦ rw c sorted
  ]

-- A bound on the keys is kept.
module _ (below : ℕ → Bool) (n : ℕ) where
  pub Bounded-insert :
      (key v : ℕ) (l : List (ℕ × ℕ))
      → key < n
      → Bounded n l
      → Bounded n (insert_spec below (key, v) l)
  Bounded-insert key v [] lt all = (lt, tt)
  Bounded-insert key v ((k, w) ∷ l) lt (here, all) = elim (Bool-cases (below k)) [
    | inl b ↦ rw b (here, Bounded-insert key v l lt all)
    | inr c ↦ rw c (lt, (here, all))
  ]

  pub Bounded-replace :
      (v : ℕ) (l : List (ℕ × ℕ)) → Bounded n l → Bounded n (replace_spec below v l)
  Bounded-replace v [] all = tt
  Bounded-replace v ((k, w) ∷ l) (here, all) = elim (Bool-cases (below k)) [
    | inl b ↦ rw b (here, Bounded-replace v l all)
    | inr c ↦ rw c (here, all)
  ]

  pub Bounded-delete : (l : List (ℕ × ℕ)) → Bounded n l → Bounded n (delete_spec below l)
  Bounded-delete [] all = tt
  Bounded-delete ((k, w) ∷ l) (here, all) = elim (Bool-cases (below k)) [
    | inl b ↦ rw b (here, Bounded-delete l all)
    | inr c ↦ rw c all
  ]
