-- ===== src/LinkedList/Refine/Remove.antt =====
-- `ll_remove` of src/map/list.c, one call that no other thread disturbs.
use ssr.Base.{ℕ, ◌+◌, ◌<◌, refl, sym, ap, ◌∙◌, ◌≢◌, inl, inr, List, length, Bool-cases, arith}
use ssr.LinkedList.{Heap, Ll}
use ssr.LinkedList.Ops.{ll_remove}
use ssr.LinkedList.Ops.Branches.{taken_out, ll_remove-absent, ll_remove-there}
use ssr.LinkedList.Shape.{live}
use ssr.Map.Spec.{delete_spec, remove_spec-there, remove_spec-missing, remove_spec, AllSet-delete}
use ssr.LinkedList.Place.{Placed-Outside, Placed-item, Placed-link, Placed-clear, Placed-pred_item}
use ssr.LinkedList.Change.{Unlinked, Placed-delete}
use ssr.LinkedList.Refine.{
  IsList, Meets, below_key, same_key_as, find_pred_lem, Walked-find, item-ne, Edited-Meets,
  Walked-Meets,
}

taken_out-Unlinked :
    (ll : Ll) (h : Heap) {pred item : ℕ}
    → pred ≢ item
    → Unlinked h (taken_out ll h pred item) pred item
taken_out-Unlinked ll h ne = record {
  elsewhere = λ a ne_p ne_i. ground arith;
  relinked = ground arith;
  same_keys = λ a. refl;
  same_vals = λ a ne_i. ground arith;
}

-- An undisturbed ll_remove, on a list that may hold marked nodes, returns within the fuel the value
-- of the key or DOES_NOT_EXIST, and leaves a list with the entries but that of the key.
pub ll_remove_refines :
    (fuel : ℕ) (ll : Ll) (h : Heap) (key : ℕ) (xs : List ℕ)
    → IsList ll h xs
    → length xs + 1 < fuel
    → Meets ll
        (length xs)
        (ll_remove fuel ll h key)
        (remove_spec (below_key ll key) (same_key_as ll key) (live h xs))
ll_remove_refines fuel ll h key xs l lt =
    let (r, e, w) = find_pred_lem fuel ll h key l lt in
    elim (Bool-cases r.found) [
      | inl present ↦
          let ne = item-ne w present in
          let apart = Placed-pred_item w.placed ne in
          Edited-Meets
            (ll_remove-there fuel ll h key e present (omega arith) (Placed-clear w.placed ne)
              (Placed-link w.placed) (λ z. apart (sym z)))
            (Placed-delete w.placed ne (Placed-item w.placed ne ll.head (Placed-Outside w.placed))
              (taken_out-Unlinked ll r.heap apart))
            (ap (λ l. delete_spec (below_key ll key) l) w.lived)
            (AllSet-delete (below_key ll key) (live h xs) l.set) (omega arith)
            (sym (remove_spec-there _ _ _ (Walked-find w ∙ rw present refl)))
      | inr absent ↦
          Walked-Meets (ll_remove-absent fuel ll h key e absent) w l.set (omega arith)
            (sym (remove_spec-missing _ _ _ (Walked-find w ∙ rw absent refl)))
    ]
