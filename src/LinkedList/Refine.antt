-- ===== src/LinkedList/Refine.antt =====
-- What it is that a call of an operation of src/map/list.c, which no other thread disturbs, meets its
-- specification: lists that may hold marked nodes stand for ordered association lists.
pub mod Cas
pub mod Remove
use ssr.Base.{
  ◌≤◌, ◌+◌, arith, ℕ, zero, suc, ◌+◌, ◌%◌, ◌<◌, ◌≡◌, refl, sym, ap, ap₂, ◌∙◌, ◌≢◌, inl, inr, Bool,
  true, false, not, ◌&&◌, ◌||◌, Option, some, none, List, [], ◌∷◌, ◌==◌, length, if◌then◌else◌,
  Bool-cases, arith, subst,
}
use ssr.Map.{does_not_exist, expect_does_not_exist, expect_whatever}
use ssr.LinkedList.{
  Heap, Ll, has_mark, mark_node, set_next, set_val, cas_next, defer_node, is_below, is_same, Found,
  find_pred, walk,
}
use ssr.LinkedList.Ops.{node_alloc, new_key_of, settle, ll_cas, mark_loop, ll_remove}
use ssr.LinkedList.Ops.Branches.{
  made, taken_out, ll_cas-refused, ll_cas-inserted, ll_cas-there, ll_cas-replaced, ll_remove-absent,
  ll_remove-there,
}
use ssr.LinkedList.Shape.{Outside, Chain, live, Agree, SameBut, live-SameBut, set_next-SameBut}
use ssr.LinkedList.Walk.{Placed, Walked, walk_lem, found_at}
use ssr.Map.Spec.{
  find_spec, insert_spec, replace_spec, delete_spec, refuses, remove_spec-there,
  remove_spec-missing, loose_cas_spec-refused, loose_cas_spec-inserted, loose_cas_spec-there,
  loose_cas_spec-replaced, loose_cas_spec, remove_spec, AllSet, AllSet-insert, AllSet-replace,
  AllSet-delete,
}
use ssr.LinkedList.Place.{
  Placed-Outside, Placed-item, Placed-pred, Placed-find, Placed-set, Placed-link, Placed-clear,
  Placed-pred_item, Placed-Chain, Placed-SameBut,
}
use ssr.LinkedList.Splice.{Edited, Placed-insert}
use ssr.LinkedList.Change.{Unlinked, Placed-delete, Placed-replace}

-- The nodes of a list; those that are not marked hold values.
pub record IsList (ll : Ll) (h : Heap) (xs : List ℕ) : Type 0 where
  pub chain : Chain h ll.head xs
  pub unmarked : h.next ll.head % 2 ≡ 0
  pub set : AllSet (live h xs)

-- What `nbd_malloc` returns: the address of a block, 2-byte aligned at least, that is not in use.
abbrev pub IsFresh : (Heap → ℕ) → Ll → List ℕ → Type 0
IsFresh malloc ll xs =
    (h : Heap) → (malloc h ≢ 0) × (malloc h % 2 ≡ 0) × Outside (malloc h) (ll.head ∷ xs)

-- The call returns; its result and the list after it are those of the specification.
pub record Meets (ll : Ll) (bound : ℕ) (call : Option (ℕ × Heap)) (spec : ℕ × List (ℕ × ℕ))
    : Type 0 where
  pub result : ℕ
  pub heap : Heap
  pub nodes : List ℕ
  pub returns : call ≡ some (result, heap)
  pub room : length nodes ≤ bound
  pub is_list : IsList ll heap nodes
  pub agrees : (result, live heap nodes) ≡ spec

abbrev pub below_key : Ll → ℕ → ℕ → Bool
below_key ll key k = is_below ll k key

abbrev pub same_key_as : Ll → ℕ → ℕ → Bool
same_key_as ll key k = is_same ll k key

-- What `find_pred` leaves behind and where it stops, with fuel for each node and two more rounds.
pub find_pred_lem :
    (fuel : ℕ) (ll : Ll) (h : Heap) (key : ℕ) {xs : List ℕ}
    → IsList ll h xs
    → length xs + 1 < fuel
    → (r : Found) × (find_pred fuel ll key true h ≡ some r) × Walked ll key h ll.head xs r
unfolding find_pred
find_pred_lem fuel ll h key l lt =
    walk_lem fuel ll key h ll.head (h.next ll.head) l.chain lt refl l.unmarked

pub Walked-find :
    {ll : Ll} {key : ℕ} {h : Heap} {xs : List ℕ} {r : Found}
    → Walked ll key h ll.head xs r
    → find_spec (below_key ll key) (same_key_as ll key) (live h xs)
      ≡ (if r.found then some (r.heap.val r.item) else none)
Walked-find {ll} {key} w = rw w.decided (
    ap (λ l. find_spec (below_key ll key) (same_key_as ll key) l) (sym w.lived)
    ∙ Placed-find (same_key_as ll key) w.placed)

Walked-IsList :
    {ll : Ll} {key : ℕ} {h : Heap} {xs : List ℕ} {r : Found}
    → (w : Walked ll key h ll.head xs r) → AllSet (live h xs)
    → IsList ll r.heap w.nodes
Walked-IsList {ll} {key} {h} {xs} {r} w set = record {
  chain = Placed-Chain w.placed;
  unmarked = w.unmarked;
  set = rw w.lived set;
}

pub item-ne :
    {ll : Ll} {key : ℕ} {h : Heap} {xs : List ℕ} {r : Found}
    → Walked ll key h ll.head xs r
    → r.found ≡ true
    → r.item ≢ 0
item-ne w present z = ground (arith, w.decided)

pub Edited-Meets :
    {ll : Ll} {h : Heap} {extra xs : List ℕ} {l0 l : List (ℕ × ℕ)} {call : Option (ℕ × Heap)}
    {bound result : ℕ} {spec : ℕ × List (ℕ × ℕ)}
    → call ≡ some (result, h)
    → Edited h ll.head extra xs l0
    → l0 ≡ l
    → AllSet l
    → length extra + length xs ≤ bound
    → (result, l) ≡ spec
    → Meets ll bound call spec
Edited-Meets {result = result} e d same set fits agrees = record {
  result = result;
  heap = _;
  nodes = d.nodes;
  returns = e;
  room = omega (arith, d.size, fits);
  is_list = record { chain = d.chain; unmarked = d.unmarked; set = rw d.lived (rw same set) };
  agrees = rw d.lived (rw same agrees);
}

pub Walked-Meets :
    {ll : Ll} {key : ℕ} {h : Heap} {xs : List ℕ} {r : Found} {call : Option (ℕ × Heap)}
    {bound result : ℕ} {spec : ℕ × List (ℕ × ℕ)}
    → call ≡ some (result, r.heap)
    → Walked ll key h ll.head xs r
    → AllSet (live h xs)
    → length xs ≤ bound
    → (result, live h xs) ≡ spec
    → Meets ll bound call spec
Walked-Meets {result = result} e w set fits agrees = record {
  result = result;
  heap = _;
  nodes = w.nodes;
  returns = e;
  room = omega (arith, w.shorter, fits);
  is_list = Walked-IsList w set;
  agrees = rw w.lived agrees;
}
