-- ===== src/LinkedList/Order.antt =====
-- The comparison of the list of src/map/list.c on keys below 2 ^ 31 is the order of the numbers.
use ssr.Base.{ℕ, ◌^◌, ◌<◌, ◌≡◌, refl, none, List, [], ◌∷◌, arith}
use ssr.LinkedList.{Ll}
use ssr.LinkedList.Refine.{below_key, same_key_as}
use ssr.Map.Spec.{find_spec, insert_spec, replace_spec, delete_spec}
use ssr.Map.Laws.{before, equals, Bounded}

module _ (ll : Ll) (ints : ll.key_type ≡ none) (key : ℕ) (small : key < 2 ^ 31) where
  is_below-before : (k : ℕ) → k < 2 ^ 31 → below_key ll key k ≡ before key k
  is_below-before k lt = rw ints (ground arith)

  is_same-equals : (k : ℕ) → k < 2 ^ 31 → same_key_as ll key k ≡ equals key k
  is_same-equals k lt = rw ints (ground arith)

  pub find_spec-before :
      (l : List (ℕ × ℕ))
      → Bounded (2 ^ 31) l
      → find_spec (below_key ll key) (same_key_as ll key) l ≡ find_spec (before key) (equals key) l
  find_spec-before [] all = refl
  find_spec-before ((k, v) ∷ l) (lt, all) =
      rw (is_below-before k lt) (rw (is_same-equals k lt) (rw (find_spec-before l all) refl))

  pub insert_spec-before :
      (entry : ℕ × ℕ) (l : List (ℕ × ℕ))
      → Bounded (2 ^ 31) l
      → insert_spec (below_key ll key) entry l ≡ insert_spec (before key) entry l
  insert_spec-before entry [] all = refl
  insert_spec-before entry ((k, v) ∷ l) (lt, all) =
      rw (is_below-before k lt) (rw (insert_spec-before entry l all) refl)

  pub replace_spec-before :
      (v : ℕ) (l : List (ℕ × ℕ))
      → Bounded (2 ^ 31) l
      → replace_spec (below_key ll key) v l ≡ replace_spec (before key) v l
  replace_spec-before v [] all = refl
  replace_spec-before v ((k, w) ∷ l) (lt, all) =
      rw (is_below-before k lt) (rw (replace_spec-before v l all) refl)

  pub delete_spec-before :
      (l : List (ℕ × ℕ))
      → Bounded (2 ^ 31) l
      → delete_spec (below_key ll key) l ≡ delete_spec (before key) l
  delete_spec-before [] all = refl
  delete_spec-before ((k, w) ∷ l) (lt, all) =
      rw (is_below-before k lt) (rw (delete_spec-before l all) refl)
