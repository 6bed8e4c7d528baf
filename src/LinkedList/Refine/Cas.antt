-- ===== src/LinkedList/Refine/Cas.antt =====
-- `ll_cas` of src/map/list.c, one call that no other thread disturbs.
use ssr.Base.{
  ℕ, zero, suc, ◌+◌, ◌<◌, ◌≡◌, refl, sym, ap, ap₂, ◌∙◌, ◌≢◌, inl, inr, true, false, some, none,
  List, ◌==◌, length, Bool-cases, subst, arith,
}
use ssr.Map.{expect_does_not_exist}
use ssr.LinkedList.{Heap, Ll, Found, find_pred}
use ssr.LinkedList.Ops.{new_key_of, ll_cas}
use ssr.LinkedList.Ops.Branches.{
  made, ll_cas-refused, ll_cas-inserted, ll_cas-there, ll_cas-replaced,
}
use ssr.LinkedList.Shape.{live, SameBut, live-SameBut}
use ssr.LinkedList.Walk.{Walked}
use ssr.Map.Spec.{
  find_spec, insert_spec, replace_spec, refuses, loose_cas_spec-refused, loose_cas_spec-inserted,
  loose_cas_spec-there, loose_cas_spec-replaced, loose_cas_spec, loose_cas_spec-exact, cas_spec,
  cas_spec-unmet, is_exact, AllSet, AllSet-insert, AllSet-replace,
}
use ssr.LinkedList.Place.{Placed-pred, Placed-set, Placed-link, Placed-SameBut}
use ssr.LinkedList.Splice.{Placed-insert}
use ssr.LinkedList.Change.{Placed-replace}
use ssr.LinkedList.Refine.{
  IsList, IsFresh, Meets, below_key, same_key_as, find_pred_lem, Walked-find, item-ne, Edited-Meets,
  Walked-Meets,
}

made-SameBut :
    (ll : Ll) (h : Heap) (new key val item : ℕ) → SameBut h (made ll h new key val item) new
made-SameBut ll h new key val item a ne = record {
  same_next = ground arith;
  same_key = ground arith;
  same_val = ground arith;
}

made-next :
    (ll : Ll) (h : Heap) (new key val item : ℕ) → (made ll h new key val item).next new ≡ item
made-next ll h new key val item = ground arith

made-entry :
    (ll : Ll) (h : Heap) (new key val item : ℕ)
    → let h' = made ll h new key val item in
      ◌≡◌ {A = ℕ × ℕ} (h'.key new, h'.val new) (new_key_of ll key, val)
made-entry ll h new key val item = ap₂ (λ a b. (a, b)) (ground arith) (ground arith)

-- `ll_cas` on a key that is not there.
cas_absent-Meets :
    (malloc : Heap → ℕ) (fuel : ℕ) (ll : Ll) (h : Heap) (key expectation new_val : ℕ) {xs : List ℕ}
    {r : Found}
    → find_pred fuel ll key true h ≡ some r
    → Walked ll key h ll.head xs r
    → IsFresh malloc ll xs
    → new_val ≢ 0
    → AllSet (live h xs)
    → r.found ≡ false
    → Meets ll (length xs + 1) (ll_cas malloc (suc fuel) ll h key expectation new_val) (
        loose_cas_spec
          (below_key ll key)
          (same_key_as ll key)
          expectation
          (new_key_of ll key, new_val)
          (live h xs))
cas_absent-Meets malloc fuel ll h key expectation new_val {xs} {r} e w fresh ne set absent =
    let missing : find_spec (below_key ll key) (same_key_as ll key) (live h xs) ≡ none =
      Walked-find w ∙ rw absent refl in
    elim (Bool-cases (refuses expectation)) [
      | inl refusal ↦
          Walked-Meets (ll_cas-refused malloc fuel ll h key expectation new_val e absent refusal) w
            set (omega arith) (sym (loose_cas_spec-refused _ _ _ expectation _ missing refusal))
      | inr allowed ↦
          let (pos, even, (ne_head, off)) = fresh r.heap in
          let placed =
            Placed-SameBut (made-SameBut ll r.heap (malloc r.heap) key new_val r.item) ne_head
              w.placed (w.within _ off) in
          Edited-Meets
            (ll_cas-inserted malloc fuel ll h key expectation new_val e absent allowed
              (Placed-link w.placed)
              (λ z. Placed-pred w.placed (malloc r.heap) ne_head (w.within _ off) (sym z)))
            (Placed-insert (malloc r.heap) placed
              (made-next ll r.heap (malloc r.heap) key new_val r.item) pos even
              (ne_head, w.within _ off))
            (ap₂ (λ entry l. insert_spec (below_key ll key) entry l)
              (made-entry ll r.heap (malloc r.heap) key new_val r.item)
              (live-SameBut (made-SameBut ll r.heap (malloc r.heap) key new_val r.item) w.nodes
                  (w.within _ off)
                ∙ w.lived))
            (AllSet-insert (below_key ll key) (new_key_of ll key, new_val) (live h xs) ne set)
            (omega arith) (sym (loose_cas_spec-inserted _ _ _ expectation _ missing allowed))
    ]

-- `ll_cas` on a key that is there.
cas_present-Meets :
    (malloc : Heap → ℕ) (fuel : ℕ) (ll : Ll) (h : Heap) (key expectation new_val : ℕ) {xs : List ℕ}
    {r : Found}
    → find_pred fuel ll key true h ≡ some r
    → Walked ll key h ll.head xs r
    → 0 < fuel
    → new_val ≢ 0
    → AllSet (live h xs)
    → r.found ≡ true
    → Meets ll (length xs + 1) (ll_cas malloc (suc fuel) ll h key expectation new_val) (
        loose_cas_spec
          (below_key ll key)
          (same_key_as ll key)
          expectation
          (new_key_of ll key, new_val)
          (live h xs))
cas_present-Meets malloc fuel ll h key expectation new_val {xs} {r} e w pos ne set present =
    let there : find_spec (below_key ll key) (same_key_as ll key) (live h xs)
        ≡ some (r.heap.val r.item) =
      Walked-find w ∙ rw present refl in
    let ne_item = item-ne w present in
    let set_item = Placed-set w.placed (rw w.lived set) ne_item in
    elim (Bool-cases (expectation == expect_does_not_exist)) [
      | inl new ↦
          Walked-Meets
            (ll_cas-there malloc fuel ll h key expectation new_val e present set_item new pos) w set
            (omega arith) (sym (loose_cas_spec-there _ _ _ expectation _ there new))
      | inr old ↦
          Edited-Meets
            (ll_cas-replaced malloc fuel ll h key expectation new_val e present set_item old pos)
            (Placed-replace new_val w.placed ne_item)
            (ap (λ l. replace_spec (below_key ll key) new_val l) w.lived)
            (AllSet-replace (below_key ll key) new_val (live h xs) ne set) (omega arith)
            (sym (loose_cas_spec-replaced _ _ _ expectation (new_key_of ll key, new_val) there old))
    ]

-- Every branch, the one included in which an expectation is met by another value.
pub ll_cas-Meets :
    (malloc : Heap → ℕ) (fuel : ℕ) (ll : Ll) (h : Heap) (key expectation new_val : ℕ) (xs : List ℕ)
    → IsList ll h xs
    → IsFresh malloc ll xs
    → new_val ≢ 0
    → length xs + 2 < fuel
    → Meets ll (length xs + 1) (ll_cas malloc fuel ll h key expectation new_val) (
        loose_cas_spec
          (below_key ll key)
          (same_key_as ll key)
          expectation
          (new_key_of ll key, new_val)
          (live h xs))
ll_cas-Meets malloc zero ll h key expectation new_val xs l fresh ne lt = absurd (omega arith)
ll_cas-Meets malloc (suc fuel) ll h key expectation new_val xs l fresh ne lt =
    let (r, e, w) = find_pred_lem fuel ll h key l (omega arith) in
    elim (Bool-cases r.found) [
      | inl present ↦
          cas_present-Meets malloc fuel ll h key expectation new_val e w (omega arith) ne l.set
            present
      | inr absent ↦
          cas_absent-Meets malloc fuel ll h key expectation new_val e w fresh ne l.set absent
    ]

module _ (malloc : Heap → ℕ) (fuel : ℕ) (ll : Ll) (h : Heap) (key expectation new_val : ℕ)
    (xs : List ℕ) (list : IsList ll h xs) (fresh : IsFresh malloc ll xs) (ne : new_val ≢ 0)
    (enough : length xs + 2 < fuel) where
  -- If the key is not there, or the expectation is special or the value of the key: an undisturbed
  -- ll_cas, on a list that may hold marked nodes that nobody has unlinked, returns within the fuel
  -- what a compare-and-set on the ordered association list of its keys and values returns, on every
  -- branch, and leaves a list with the entries that it leaves. The new value is not DOES_NOT_EXIST,
  -- and malloc returns a block that is not in use.
  pub ll_cas_refines :
      ((old : ℕ)
        → find_spec (below_key ll key) (same_key_as ll key) (live h xs) ≡ some old
        → is_exact old expectation ≡ true)
      → Meets ll (length xs + 1) (ll_cas malloc fuel ll h key expectation new_val) (
          cas_spec
            (below_key ll key)
            (same_key_as ll key)
            expectation
            (new_key_of ll key, new_val)
            (live h xs))
  ll_cas_refines exact =
      subst (λ r. Meets ll (length xs + 1) (ll_cas malloc fuel ll h key expectation new_val) r)
        (loose_cas_spec-exact _ _ (live h xs) expectation (new_key_of ll key, new_val) exact)
        (ll_cas-Meets malloc fuel ll h key expectation new_val xs list fresh ne enough)

  -- Where the key is there and the expectation is neither special nor its value, an undisturbed
  -- ll_cas, on a list that may hold marked nodes, returns within the fuel the value that was there
  -- and replaces it all the same, while a compare-and-set leaves the entries as they are.
  pub ll_cas_overwrites :
      (old : ℕ)
      → find_spec (below_key ll key) (same_key_as ll key) (live h xs) ≡ some old
      → is_exact old expectation ≡ false
      → Meets ll
          (length xs + 1)
          (ll_cas malloc fuel ll h key expectation new_val)
          (old, replace_spec (below_key ll key) new_val (live h xs))
        × (cas_spec
              (below_key ll key)
              (same_key_as ll key)
              expectation
              (new_key_of ll key, new_val)
              (live h xs)
            ≡ (old, live h xs))
  ll_cas_overwrites old present inexact = (
    subst (λ r. Meets ll (length xs + 1) (ll_cas malloc fuel ll h key expectation new_val) r)
        (loose_cas_spec-replaced _ _ (live h xs) expectation (new_key_of ll key, new_val) present
          (ground (arith, inexact)))
        (ll_cas-Meets malloc fuel ll h key expectation new_val xs list fresh ne enough),
    cas_spec-unmet _ _ (live h xs) expectation (new_key_of ll key, new_val) present
        (ground (arith, inexact)),
  )
