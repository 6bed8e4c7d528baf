-- ===== src/LinkedList/Splice.antt =====
-- The insertion of a node at the place where `find_pred` of src/map/list.c stopped.
use ssr.Base.{
  length, ◌+◌, ◌≤◌, ℕ, ◌%◌, ◌≡◌, refl, sym, ap, ◌∙◌, ◌≢◌, Bool, List, [], ◌∷◌, arith, subst,
}
use ssr.LinkedList.{Heap, set_next}
use ssr.LinkedList.Shape.{
  Outside, Chain, last, link, live, live-clear, live-SameBut, Chain-SameBut, set_next-SameBut,
}
use ssr.LinkedList.Walk.{Placed, at_end, at_item, onward}
use ssr.Map.Spec.{insert_spec}
use ssr.LinkedList.Place.{Placed-pred}

-- From `p` on the heap holds the entries `l`, in nodes that are among `extra` and `xs`.
pub record Edited (h : Heap) (p : ℕ) (extra xs : List ℕ) (l : List (ℕ × ℕ)) : Type 0 where
  pub nodes : List ℕ
  pub chain : Chain h p nodes
  pub unmarked : h.next p % 2 ≡ 0
  pub within : (a : ℕ) → Outside a extra → Outside a xs → Outside a nodes
  pub size : length nodes ≤ length extra + length xs
  pub lived : live h nodes ≡ l

pub Edited-onward :
    {h : Heap} {p x : ℕ} {extra xs : List ℕ} {l : List (ℕ × ℕ)} (entry : ℕ × ℕ)
    → Edited h x extra xs l
    → h.next p ≡ x
    → x ≢ 0
    → x % 2 ≡ 0
    → Outside p (x ∷ xs)
    → Outside p extra
    → (h.key x, h.val x) ≡ entry
    → Edited h p extra (x ∷ xs) (entry ∷ l)
Edited-onward {h} {p} {x} entry r e ne even (ne_x, out) new same = record {
  nodes = x ∷ r.nodes;
  chain = link (rw e (omega arith)) ne even (ne_x, r.within p new out) r.chain;
  unmarked = rw e even;
  within = λ a off (ne_a, outside). (ne_a, r.within a off outside);
  size = omega (arith, r.size);
  lived = live-clear h x r.nodes (ground (arith, r.unmarked)) ∙ rw r.lived (rw same refl);
}

set_next_self : (h : Heap) (p x : ℕ) → (set_next h p x).next p ≡ x
set_next_self h p x = ground arith

set_next_other : (h : Heap) (p x a : ℕ) → p ≢ a → (set_next h p x).next a ≡ h.next a
set_next_other h p x a ne = ground arith

pub linked :
    {h : Heap} {p x : ℕ} {xs : List ℕ}
    → h.next p ≡ x
    → x ≢ 0
    → x % 2 ≡ 0
    → Outside p (x ∷ xs)
    → Chain h x xs
    → Chain h p (x ∷ xs)
linked e ne even out c = link (rw e (omega arith)) ne even out c

-- A new node is linked in.
pub Placed-insert :
    {h : Heap} {below : ℕ → Bool} {p pred item : ℕ} {xs : List ℕ} (new : ℕ)
    → Placed h below p xs pred item
    → h.next new ≡ item
    → new ≢ 0
    → new % 2 ≡ 0
    → Outside new (p ∷ xs)
    → Edited
        (set_next h pred new)
        p
        (new ∷ [])
        xs
        (insert_spec below (h.key new, h.val new) (live h xs))
Placed-insert {h} {p = p} new (at_end e) at ne even (ne_p, out) =
    let to_null = set_next_other h p new new (λ z. ne_p (sym z)) ∙ at in
    record {
      nodes = new ∷ [];
      chain =
          linked (set_next_self h p new) ne even ((λ z. ne_p (sym z)), tt) (last (rw to_null refl));
      unmarked = rw (set_next_self h p new) even;
      within = λ a (ne, off) o. (ne, tt);
      size = omega arith;
      lived = live-clear (set_next h p new) new [] (rw to_null refl);
    }
Placed-insert {h} {below} {p} new
      (at_item {x = x} {xs = xs} e ne_x even_x (p_x, apart) clear above c) at ne even (ne_p, out) =
    let same = set_next-SameBut h p new in
    let p_new : p ≢ new = λ z. ne_p (sym z) in
    let off : Outside p (new ∷ x ∷ xs) = (p_new, (p_x, apart)) in
    let to_item = set_next_other h p new new p_new ∙ at in
    record {
      nodes = new ∷ x ∷ xs;
      chain =
          linked (set_next_self h p new) ne even off
            (linked to_item ne_x even_x out (Chain-SameBut same p_x c apart));
      unmarked = rw (set_next_self h p new) even;
      within = λ a (ne, off) o. (ne, o);
      size = omega arith;
      lived =
          live-clear (set_next h p new) new (x ∷ xs) (rw to_item (ground arith))
          ∙ (ap (λ l. (h.key new, h.val new) ∷ l) (live-SameBut same (x ∷ xs) (p_x, apart))
              ∙ rw (live-clear h x xs clear) (rw above refl));
    }
Placed-insert {h} {below} {p} {pred = pred} new
      (onward {x = x} {xs = xs} e ne_x even_x (p_x, apart) clear below_x r) at ne even (ne_p, out) =
    let p_new : p ≢ new = λ z. ne_p (sym z) in
    let ih = Placed-insert new r at ne even out in
    let to_x = set_next_other h pred new p (Placed-pred r p p_x apart) ∙ e in
    subst (λ l. Edited (set_next h pred new) p (new ∷ []) (x ∷ xs) l)
      (rw (live-clear h x xs clear) (rw below_x refl))
      (Edited-onward (h.key x, h.val x) ih to_x ne_x even_x (p_x, apart) (p_new, tt) refl)
