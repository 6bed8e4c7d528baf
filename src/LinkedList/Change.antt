-- ===== src/LinkedList/Change.antt =====
-- The removal of the node that `find_pred` of src/map/list.c found, and a new value for it.
use ssr.Base.{ℕ, ◌≡◌, refl, ◌∙◌, ◌≢◌, Bool, List, [], ◌∷◌, arith, subst}
use ssr.LinkedList.{Heap, strip_mark, set_val}
use ssr.LinkedList.Shape.{
  Outside, Chain, last, link, live, live-clear, Agree, live-SameBut, Chain-Outside, set_val-SameBut,
}
use ssr.LinkedList.Walk.{Placed, at_end, at_item, onward}
use ssr.Map.Spec.{replace_spec, delete_spec}
use ssr.LinkedList.Place.{Placed-Outside, Placed-pred, Placed-item}
use ssr.LinkedList.Splice.{Edited, Edited-onward, linked}

Chain-frame :
    {h h' : Heap} {p x y : ℕ} {xs : List ℕ}
    → ((a : ℕ) → p ≢ a → x ≢ a → h'.next a ≡ h.next a)
    → p ≢ y
    → x ≢ y
    → Chain h y xs
    → Outside p xs
    → Outside x xs
    → Chain h' y xs
Chain-frame same ne_p ne_x (last e) p_off x_off = last (rw (same _ ne_p ne_x) e)
Chain-frame same ne_p ne_x (link e ne even off c) (p_y, p_off) (x_y, x_off) =
    link (rw (same _ ne_p ne_x) e) ne even off (Chain-frame same p_y x_y c p_off x_off)

-- `p` takes over what follows `x`.
Chain-takeover :
    {h h' : Heap} {p x : ℕ} {xs : List ℕ}
    → ((a : ℕ) → p ≢ a → x ≢ a → h'.next a ≡ h.next a)
    → strip_mark (h'.next p) ≡ strip_mark (h.next x)
    → Chain h x xs
    → Outside p xs
    → Chain h' p xs
Chain-takeover same e (last end) off = last (e ∙ end)
Chain-takeover same e (link to ne even (x_y, x_off) c) (p_y, p_off) =
    link (e ∙ to) ne even (p_y, p_off) (Chain-frame same p_y x_y c p_off x_off)

live-frame :
    {h h' : Heap} {p x : ℕ}
    → ((a : ℕ) → p ≢ a → x ≢ a → Agree h h' a)
    → (xs : List ℕ) → Outside p xs
    → Outside x xs
    → live h' xs ≡ live h xs
live-frame same [] p_off x_off = refl
live-frame same (y ∷ xs) (p_y, p_off) (x_y, x_off) =
    let a = same y p_y x_y in
    rw a.same_next (rw a.same_key (rw a.same_val (rw (live-frame same xs p_off x_off) refl)))

-- The writes of a removal that unlinks its node, seen together: `pred` gets the `next` of `item`.
pub record Unlinked (h h' : Heap) (pred item : ℕ) : Type 0 where
  pub elsewhere : (a : ℕ) → pred ≢ a → item ≢ a → h'.next a ≡ h.next a
  pub relinked : h'.next pred ≡ h.next item
  pub same_keys : (a : ℕ) → h'.key a ≡ h.key a
  pub same_vals : (a : ℕ) → item ≢ a → h'.val a ≡ h.val a

-- The node found is taken out.
pub Placed-delete :
    {h h' : Heap} {below : ℕ → Bool} {p pred item : ℕ} {xs : List ℕ}
    → Placed h below p xs pred item
    → item ≢ 0
    → item ≢ p
    → Unlinked h h' pred item
    → Edited h' p [] xs (delete_spec below (live h xs))
Placed-delete (at_end e) ne ne_p u = absurd (ne refl)
Placed-delete {h} {h'} {below} {p}
      (at_item {x = x} {xs = xs} e ne_x even_x (p_x, apart) clear above c) ne ne_p u =
    record {
      nodes = xs;
      chain = Chain-takeover u.elsewhere (rw u.relinked refl) c apart;
      unmarked = rw u.relinked (ground arith);
      within = λ a none (ne_a, off). off;
      size = omega arith;
      lived =
          live-frame {h = h} {h' = h'}
            (λ a p_a x_a. record {
              same_next = u.elsewhere a p_a x_a;
              same_key = u.same_keys a;
              same_val = u.same_vals a x_a;
            })
            xs apart (Chain-Outside c)
          ∙ rw (live-clear h x xs clear) (rw above refl);
    }
Placed-delete {h} {h'} {below} {p} {pred} {item}
      (onward {x = x} {xs = xs} e pos even_x (p_x, apart) clear below_x r) ne ne_p u =
    let ne_x : item ≢ x = Placed-item r ne x (Placed-Outside r) in
    let to_x = u.elsewhere p (Placed-pred r p p_x apart) (Placed-item r ne p apart) ∙ e in
    subst (λ l. Edited h' p [] (x ∷ xs) l) (rw (live-clear h x xs clear) (rw below_x refl))
      (Edited-onward (h.key x, h.val x) (Placed-delete r ne ne_x u) to_x pos even_x (p_x, apart) tt
        (rw (u.same_keys x) (rw (u.same_vals x ne_x) refl)))

Chain-same_next :
    {h h' : Heap} {p : ℕ} {xs : List ℕ}
    → ((a : ℕ) → h'.next a ≡ h.next a)
    → Chain h p xs
    → Chain h' p xs
Chain-same_next same (last e) = last (rw (same _) e)
Chain-same_next same (link e ne even out c) =
    link (rw (same _) e) ne even out (Chain-same_next same c)

set_val_self : (h : Heap) (p x : ℕ) → (set_val h p x).val p ≡ x
set_val_self h p x = ground arith

-- The node found gets another value.
pub Placed-replace :
    {h : Heap} {below : ℕ → Bool} {p pred item : ℕ} {xs : List ℕ} (val : ℕ)
    → Placed h below p xs pred item
    → item ≢ 0
    → Edited (set_val h item val) p [] xs (replace_spec below val (live h xs))
Placed-replace val (at_end e) ne = absurd (ne refl)
Placed-replace {h} {below} {p} val
      (at_item {x = x} {xs = xs} e pos even_x (p_x, apart) clear above c) ne =
    record {
      nodes = x ∷ xs;
      chain = linked e pos even_x (p_x, apart) (Chain-same_next (λ a. refl) c);
      unmarked = rw e even_x;
      within = λ a none off. off;
      size = omega arith;
      lived =
          live-clear (set_val h x val) x xs clear
          ∙ rw (set_val_self h x val) (
              rw (live-SameBut (set_val-SameBut h x val) xs (Chain-Outside c))
                (rw (live-clear h x xs clear) (rw above refl)));
    }
Placed-replace {h} {below} {p} {pred} {item} val
      (onward {x = x} {xs = xs} e pos even_x (p_x, apart) clear below_x r) ne =
    let ne_x : item ≢ x = Placed-item r ne x (Placed-Outside r) in
    let same = set_val-SameBut h item val x ne_x in
    subst (λ l. Edited (set_val h item val) p [] (x ∷ xs) l)
      (rw (live-clear h x xs clear) (rw below_x refl))
      (Edited-onward (h.key x, h.val x) (Placed-replace val r ne) e pos even_x (p_x, apart) tt
        (rw same.same_val refl))
