-- ===== src/LinkedList/Implements.antt =====
-- The operations of src/map/list.c keep the laws of the maps of src/map/map.c.
use ssr.Base.{
  not, ℕ, ◌+◌, ◌^◌, ◌<◌, ◌≡◌, sym, ap, ◌∙◌, ◌≢◌, inl, inr, true, Option, none, some, ◌==◌, length,
  subst, if◌then◌else◌, update, Bool-cases, Option-cases, arith,
}
use ssr.Map.{does_not_exist, expect_does_not_exist}
use ssr.Map.Spec.{
  find_spec, insert_spec, replace_spec, delete_spec, lookup_spec, loose_cas_spec, is_exact, refuses,
  loose_cas_spec-refused, loose_cas_spec-inserted, loose_cas_spec-there, loose_cas_spec-replaced,
  remove_spec-missing, remove_spec-there,
}
use ssr.Map.Laws.{
  before, equals, lookup_spec-value_in, value_in-insert, value_in-replace, value_in-delete,
  insert_spec-Sorted, replace_spec-Sorted, delete_spec-Sorted, Bounded-insert, Bounded-replace,
  Bounded-delete,
}
use ssr.Map.Interface.{MapLaws, set_if}
use ssr.LinkedList.{Heap, Ll}
use ssr.LinkedList.Ops.{ll_cas, ll_lookup, ll_remove}
use ssr.LinkedList.Shape.{live}
use ssr.LinkedList.Refine.{Meets, below_key, same_key_as}
use ssr.LinkedList.Refine.Cas.{ll_cas-Meets}
use ssr.LinkedList.Refine.Remove.{ll_remove_refines}
use ssr.LinkedList.Reads.{ll_lookup_refines}
use ssr.LinkedList.Order.{
  find_spec-before, insert_spec-before, replace_spec-before, delete_spec-before,
}
use ssr.LinkedList.Finite.{
  map_impl_ll, IsMap, HasRoom, Meets-IsMap, value_in-find, find_spec-AllSet, int_key,
  writes-refused, writes-allowed, writes-present, set_if_kept, set_if_written,
}

module _ (malloc : Heap → ℕ) (fuel : ℕ) (ll : Ll) (ints : ll.key_type ≡ none) where
  ll_lookup-IsMap :
      (h : Heap) (m : ℕ → ℕ) (key : ℕ)
      → IsMap fuel ll h m
      → key < 2 ^ 31
      → ll_lookup fuel ll h key ≡ some (m key)
  unfolding lookup_spec
  ll_lookup-IsMap h m key x small =
      let l = live h x.nodes in
      ll_lookup_refines fuel ll h key x.nodes x.is_list x.fits
      ∙ ap (λ o. some (elim o [ none ↦ does_not_exist | some v ↦ v ]))
          (find_spec-before ll ints key small l x.bounded)
      ∙ ap some (lookup_spec-value_in key l ∙ x.values key)

  ll_remove-IsMap :
      (h : Heap) (m : ℕ → ℕ) (key : ℕ)
      → IsMap fuel ll h m
      → key < 2 ^ 31
      → (t : Heap) × (ll_remove fuel ll h key ≡ some (m key, t))
        × IsMap fuel ll t (update m key does_not_exist)
  ll_remove-IsMap h m key x small =
      let l = live h x.nodes in
      let same = find_spec-before ll ints key small l x.bounded in
      let meets = ll_remove_refines fuel ll h key x.nodes x.is_list x.fits in
      elim (Option-cases (find_spec (before key) (equals key) l)) [
        | inl missing ↦
            let zero_key : m key ≡ 0 = sym (x.values key) ∙ value_in-find key l missing in
            rw zero_key (
              Meets-IsMap fuel 0 l (update m key 0) meets
                (remove_spec-missing _ _ _ (same ∙ missing)) x.sorted x.bounded
                (λ j. ground (arith, x.values j)) x.fits)
        | inr (old, present) ↦
            let old_key : m key ≡ old = sym (x.values key) ∙ value_in-find key l present in
            rw old_key (
              Meets-IsMap fuel old (delete_spec (before key) l) (update m key 0) meets
                (remove_spec-there _ _ _ (same ∙ present)
                  ∙ ap (λ r. (old, r)) (delete_spec-before ll ints key small l x.bounded))
                (delete_spec-Sorted key l x.sorted)
                (Bounded-delete (before key) (2 ^ 31) l x.bounded)
                (λ j.
                  value_in-delete key l j x.sorted present
                  ∙ ap (λ w. if key == j then 0 else w) (x.values j))
                x.fits)
      ]

  cas_absent-IsMap :
      (h : Heap) (m : ℕ → ℕ) (key expectation new_val : ℕ) {call : Option (ℕ × Heap)} {n : ℕ}
      → (x : IsMap fuel ll h m) → key < 2 ^ 31
      → find_spec (before key) (equals key) (live h x.nodes) ≡ none
      → Meets ll n call (
          loose_cas_spec
            (below_key ll key)
            (same_key_as ll key)
            expectation
            (key, new_val)
            (live h x.nodes))
      → n + 1 < fuel
      → (t : Heap) × (call ≡ some (m key, t)) × IsMap fuel ll t (set_if m key expectation new_val)
  cas_absent-IsMap h m key expectation new_val x small missing meets fits =
      let l = live h x.nodes in
      let same = find_spec-before ll ints key small l x.bounded in
      let zero_key : m key ≡ 0 = sym (x.values key) ∙ value_in-find key l missing in
      let m' = set_if m key expectation new_val in
      rw zero_key (elim (Bool-cases (refuses expectation)) [
        | inl refusal ↦
            Meets-IsMap fuel 0 l m' meets
              (loose_cas_spec-refused _ _ _ expectation _ (same ∙ missing) refusal) x.sorted
              x.bounded
              (λ j.
                x.values j
                ∙ set_if_kept m key expectation new_val j
                    (writes-refused _ expectation zero_key refusal))
              fits
        | inr allowed ↦
            Meets-IsMap fuel 0 (insert_spec (before key) (key, new_val) l) m' meets
              (loose_cas_spec-inserted _ _ _ expectation _ (same ∙ missing) allowed
                ∙ ap (λ r. (0, r))
                    (insert_spec-before ll ints key small (key, new_val) l x.bounded))
              (insert_spec-Sorted key new_val l missing x.sorted)
              (Bounded-insert (before key) (2 ^ 31) key new_val l small x.bounded)
              (λ j.
                value_in-insert key new_val l j missing
                ∙ (ap (λ w. if key == j then new_val else w) (x.values j)
                    ∙ set_if_written m key expectation new_val j
                        (writes-allowed _ expectation zero_key allowed)))
              fits
      ])

  cas_present-IsMap :
      (h : Heap) (m : ℕ → ℕ) (key expectation new_val : ℕ) {call : Option (ℕ × Heap)} {n old : ℕ}
      → (x : IsMap fuel ll h m) → key < 2 ^ 31
      → find_spec (before key) (equals key) (live h x.nodes) ≡ some old
      → Meets ll n call (
          loose_cas_spec
            (below_key ll key)
            (same_key_as ll key)
            expectation
            (key, new_val)
            (live h x.nodes))
      → n + 1 < fuel
      → is_exact (m key) expectation ≡ true
      → (t : Heap) × (call ≡ some (m key, t)) × IsMap fuel ll t (set_if m key expectation new_val)
  cas_present-IsMap h m key expectation new_val {old = old} x small present meets fits exact =
      let l = live h x.nodes in
      let same = find_spec-before ll ints key small l x.bounded in
      let old_key : m key ≡ old = sym (x.values key) ∙ value_in-find key l present in
      let set : old ≢ 0 = find_spec-AllSet key l x.is_list.set present in
      let m' = set_if m key expectation new_val in
      rw old_key (elim (Bool-cases (expectation == expect_does_not_exist)) [
        | inl new ↦
            Meets-IsMap fuel old l m' meets
              (loose_cas_spec-there _ _ _ expectation _ (same ∙ present) new) x.sorted x.bounded
              (λ j.
                x.values j
                ∙ set_if_kept m key expectation new_val j
                    (writes-present _ expectation (λ z. set (sym old_key ∙ z)) exact ∙ ap not new))
              fits
        | inr known ↦
            Meets-IsMap fuel old (replace_spec (before key) new_val l) m' meets
              (loose_cas_spec-replaced _ _ _ expectation (key, new_val) (same ∙ present) known
                ∙ ap (λ r. (old, r)) (replace_spec-before ll ints key small new_val l x.bounded))
              (replace_spec-Sorted key new_val l x.sorted)
              (Bounded-replace (before key) (2 ^ 31) new_val l x.bounded)
              (λ j.
                value_in-replace key new_val l j present
                ∙ (ap (λ w. if key == j then new_val else w) (x.values j)
                    ∙ set_if_written m key expectation new_val j (
                        writes-present _ expectation (λ z. set (sym old_key ∙ z)) exact
                        ∙ ap not known)))
              fits
      ])

  ll_cas-IsMap :
      (h : Heap) (m : ℕ → ℕ) (key expectation new_val : ℕ)
      → HasRoom malloc fuel ll h m
      → key < 2 ^ 31
      → new_val ≢ 0
      → is_exact (m key) expectation ≡ true
      → (t : Heap) × (ll_cas malloc fuel ll h key expectation new_val ≡ some (m key, t))
        × IsMap fuel ll t (set_if m key expectation new_val)
  ll_cas-IsMap h m key expectation new_val r small ne exact =
      let x = r.is_map in
      let meets =
        ll_cas-Meets malloc fuel ll h key expectation new_val x.nodes x.is_list r.fresh ne r.room in
      let meets' =
        subst
          (λ k. Meets ll (length x.nodes + 1) (ll_cas malloc fuel ll h key expectation new_val) (
            loose_cas_spec (below_key ll key) (same_key_as ll key) expectation (k, new_val)
              (live h x.nodes)))
          (int_key ll ints key) meets in
      let fits : (length x.nodes + 1) + 1 < fuel = omega (arith, r.room) in
      elim (Option-cases (find_spec (before key) (equals key) (live h x.nodes))) [
        | inl missing ↦ cas_absent-IsMap h m key expectation new_val x small missing meets' fits
        | inr (old, present) ↦
            cas_present-IsMap h m key expectation new_val x small present meets' fits exact
      ]

-- The list implements the maps of map.c on integer keys below 2^31: on a list that holds a finite
-- map in ascending order of the keys, lookup, remove, and compare-and-set with an expectation that
-- is special or the value of the key, return the value of the key, and leave a list that holds the
-- map with the key removed, or set where the expectation is met. For a compare-and-set there is
-- fuel for one node more, and malloc returns a block that is not in use.
pub map_impl_ll_laws :
    (malloc : Heap → ℕ) (fuel : ℕ) (ll : Ll)
    → ll.key_type ≡ none
    → MapLaws
        (map_impl_ll malloc fuel ll)
        (λ key. key < 2 ^ 31)
        (λ val. val ≢ 0)
        (IsMap fuel ll)
        (HasRoom malloc fuel ll)
map_impl_ll_laws malloc fuel ll ints = record {
  room_holds = λ s m r. r.is_map;
  get_law = ll_lookup-IsMap malloc fuel ll ints;
  remove_law = ll_remove-IsMap malloc fuel ll ints;
  cas_law = ll_cas-IsMap malloc fuel ll ints;
}
