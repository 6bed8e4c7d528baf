-- ===== src/LinkedList/Place.antt =====
-- The place in a list of src/map/list.c where `find_pred` stops.
use ssr.Base.{
  ℕ, ◌≡◌, refl, sym, ◌∙◌, ◌≢◌, Bool, false, some, none, List, ◌==◌, if◌then◌else◌, arith, subst,
}
use ssr.LinkedList.{Heap, has_mark}
use ssr.LinkedList.Shape.{Outside, Chain, last, link, live, live-clear, SameBut, Chain-SameBut}
use ssr.LinkedList.Walk.{Placed, at_end, at_item, onward}
use ssr.Map.Spec.{find_spec, AllSet}

pub Placed-Outside :
    {h : Heap} {below : ℕ → Bool} {p pred item : ℕ} {xs : List ℕ}
    → Placed h below p xs pred item
    → Outside p xs
Placed-Outside (at_end e) = tt
Placed-Outside (at_item e ne even apart clear above c) = apart
Placed-Outside (onward e ne even apart clear below r) = apart

pub Placed-pred :
    {h : Heap} {below : ℕ → Bool} {p pred item : ℕ} {xs : List ℕ}
    → Placed h below p xs pred item
    → (a : ℕ) → a ≢ p
    → Outside a xs
    → pred ≢ a
Placed-pred (at_end e) a ne out = λ z. ne (sym z)
Placed-pred (at_item e ne_x even apart clear above c) a ne out = λ z. ne (sym z)
Placed-pred (onward e ne_x even apart clear below r) a ne (ne_a, out) = Placed-pred r a ne_a out

pub Placed-item :
    {h : Heap} {below : ℕ → Bool} {p pred item : ℕ} {xs : List ℕ}
    → Placed h below p xs pred item
    → item ≢ 0
    → (a : ℕ) → Outside a xs
    → item ≢ a
Placed-item (at_end e) pos a out = absurd (pos refl)
Placed-item (at_item e ne_x even apart clear above c) pos a (ne, out) = λ z. ne (sym z)
Placed-item (onward e ne_x even apart clear below r) pos a (ne_a, out) = Placed-item r pos a out

-- What `find_pred` reports is what is there.
pub Placed-find :
    {h : Heap} {below : ℕ → Bool} {p pred item : ℕ} {xs : List ℕ} (same : ℕ → Bool)
    → Placed h below p xs pred item
    → find_spec below same (live h xs)
      ≡ (if (if item == 0 then false else same (h.key item)) then some (h.val item) else none)
Placed-find same (at_end e) = refl
Placed-find {h} same (at_item {x = x} {xs = xs} e pos even off clear above c) =
    rw (live-clear h x xs clear) (rw above (ground arith))
Placed-find {h} same (onward {x = x} {xs = xs} e pos even off clear below r) =
    rw (live-clear h x xs clear) (rw below (Placed-find same r))

-- The node found holds a value.
pub Placed-set :
    {h : Heap} {below : ℕ → Bool} {p pred item : ℕ} {xs : List ℕ}
    → Placed h below p xs pred item
    → AllSet (live h xs)
    → item ≢ 0
    → h.val item ≢ 0
Placed-set (at_end e) set ne = absurd (ne refl)
Placed-set {h} (at_item {x = x} {xs = xs} e pos even off clear above c) set ne =
    let (here, rest) = subst (λ l. AllSet l) (live-clear h x xs clear) set in here
Placed-set {h} (onward {x = x} {xs = xs} e pos even off clear below r) set ne =
    let (here, rest) = subst (λ l. AllSet l) (live-clear h x xs clear) set in Placed-set r rest ne

pub Placed-link :
    {h : Heap} {below : ℕ → Bool} {p pred item : ℕ} {xs : List ℕ}
    → Placed h below p xs pred item
    → h.next pred ≡ item
Placed-link (at_end e) = e
Placed-link (at_item e pos even off clear above c) = e
Placed-link (onward e pos even off clear below r) = Placed-link r

pub Placed-clear :
    {h : Heap} {below : ℕ → Bool} {p pred item : ℕ} {xs : List ℕ}
    → Placed h below p xs pred item
    → item ≢ 0
    → has_mark (h.next item) ≡ false
Placed-clear (at_end e) ne = absurd (ne refl)
Placed-clear (at_item e pos even off clear above c) ne = clear
Placed-clear (onward e pos even off clear below r) ne = Placed-clear r ne

pub Placed-pred_item :
    {h : Heap} {below : ℕ → Bool} {p pred item : ℕ} {xs : List ℕ}
    → Placed h below p xs pred item
    → item ≢ 0
    → pred ≢ item
Placed-pred_item (at_end e) ne = absurd (ne refl)
Placed-pred_item (at_item e pos even (p_x, off) clear above c) ne = p_x
Placed-pred_item (onward e pos even off clear below r) ne = Placed-pred_item r ne

pub Placed-Chain :
    {h : Heap} {below : ℕ → Bool} {p pred item : ℕ} {xs : List ℕ}
    → Placed h below p xs pred item
    → Chain h p xs
Placed-Chain (at_end e) = last (rw e refl)
Placed-Chain (at_item e pos even off clear above c) = link (rw e (omega arith)) pos even off c
Placed-Chain (onward e pos even off clear below r) =
    link (rw e (omega arith)) pos even off (Placed-Chain r)

-- A write to a node outside changes nothing of it.
pub Placed-SameBut :
    {h h' : Heap} {below : ℕ → Bool} {q p pred item : ℕ} {xs : List ℕ}
    → SameBut h h' q
    → q ≢ p
    → Placed h below p xs pred item
    → Outside q xs
    → Placed h' below p xs pred item
Placed-SameBut same ne (at_end e) out = at_end ((same _ ne).same_next ∙ e)
Placed-SameBut same ne (at_item e pos even off clear above c) (q_x, out) =
    let a = same _ q_x in
    at_item ((same _ ne).same_next ∙ e) pos even off (rw a.same_next clear) (rw a.same_key above)
      (Chain-SameBut same q_x c out)
Placed-SameBut same ne (onward e pos even off clear below r) (q_x, out) =
    let a = same _ q_x in
    onward ((same _ ne).same_next ∙ e) pos even off (rw a.same_next clear) (rw a.same_key below)
      (Placed-SameBut same q_x r out)
