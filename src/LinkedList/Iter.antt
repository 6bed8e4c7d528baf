-- ===== src/LinkedList/Iter.antt =====
-- The iterator of src/map/list.c, in the build without LIST_USE_HAZARD_POINTER.
use ssr.Base.{
  ℕ, zero, suc, ◌+◌, ◌%◌, ◌<◌, ◌≡◌, refl, sym, ap, ◌∙◌, ◌≢◌, false, Option, some, none, List, [],
  ◌∷◌, ◌==◌, length, if◌then◌else◌, arith, subst,
}
use ssr.Map.{does_not_exist}
use ssr.Map.Spec.{AllSet}
use ssr.LinkedList.{Heap, Ll, has_mark, strip_mark, find_pred}
use ssr.LinkedList.Shape.{Chain, last, link, live, live-clear}

-- `find_pred` writes through its `item_ptr` where it reaches the end of the list, and the iterator
-- passes NULL.
pub data Begun : Type 0 where
  null_write : Begun
  begun : (pred : ℕ) → Begun

unfoldable pub ll_iter_begin : ℕ → Ll → Heap → (key : ℕ) → Option Begun
ll_iter_begin fuel ll h key =
    if key == does_not_exist then some (begun ll.head) else elim (find_pred fuel ll key false h) [
      | none ↦ none
      | some r ↦ some (if r.item == 0 then null_write else begun r.pred)
    ]

-- What a call returns: the value, the key that it stores, if any, and `iter->pred` after it.
pub record Visit : Type 0 where
  pub value : ℕ
  pub key : Option ℕ
  pub pred : ℕ

-- The loop of `ll_iter_next`.
unfoldable pub next_loop : ℕ → Heap → (pred : ℕ) → Option Visit
next_loop zero h pred = none
next_loop (suc fuel) h pred =
    let item = h.next pred in
    let rest = next_loop fuel h (strip_mark item) in
    if strip_mark item == 0
    then some (record { value = does_not_exist; key = none; pred = 0 })
    else if has_mark item
    then rest
    else some (record { value = h.val item; key = some (h.key item); pred = item })

unfoldable pub ll_iter_next : ℕ → Heap → (pred : ℕ) → Option Visit
ll_iter_next fuel h pred =
    if pred == 0
    then some (record { value = does_not_exist; key = none; pred = 0 })
    else next_loop fuel h pred

-- What a client does: it calls `ll_iter_next` until the value is DOES_NOT_EXIST.
unfoldable pub drain : ℕ → Heap → (pred : ℕ) → Option (List (ℕ × ℕ))
drain zero h pred = none
drain (suc fuel) h pred = elim (ll_iter_next fuel h pred) [
  | none ↦ none
  | some v ↦
      let rest = drain fuel h v.pred in
      if v.value == does_not_exist then some [] else elim (v.key) [
        | none ↦ some []
        | some k ↦ elim rest [ none ↦ none | some l ↦ some ((k, v.value) ∷ l) ]
      ]
]

-- No node is marked.
abbrev pub Unmarked : Heap → List ℕ → Type 0
Unmarked h [] = Unit
Unmarked h (x ∷ xs) = (has_mark (h.next x) ≡ false) × Unmarked h xs

ll_iter_next-end :
    (fuel : ℕ) (h : Heap) (p : ℕ)
    → 0 < fuel
    → strip_mark (h.next p) ≡ 0
    → ll_iter_next fuel h p ≡ some (record { value = does_not_exist; key = none; pred = 0 })
unfolding ll_iter_next next_loop
ll_iter_next-end zero h p pos e = absurd (omega arith)
ll_iter_next-end (suc fuel) h p pos e = ground (arith, e)

ll_iter_next-node :
    (fuel : ℕ) (h : Heap) (p x : ℕ)
    → 0 < fuel
    → p ≢ 0
    → h.next p ≡ x
    → x ≢ 0
    → x % 2 ≡ 0
    → ll_iter_next fuel h p ≡ some (record { value = h.val x; key = some (h.key x); pred = x })
unfolding ll_iter_next next_loop
ll_iter_next-node zero h p x pos ne_p e ne even = absurd (omega arith)
ll_iter_next-node (suc fuel) h p x pos ne_p e ne even =
    subst
      (λ y.
        ll_iter_next (suc fuel) h p
        ≡ some (record { value = h.val y; key = some (h.key y); pred = y }))
      e (ground (arith, e))

drain-end :
    (fuel : ℕ) (h : Heap) (p : ℕ) {v : Visit}
    → ll_iter_next fuel h p ≡ some v
    → v.value ≡ 0
    → drain (suc fuel) h p ≡ some []
unfolding drain
drain-end fuel h p e z = rw (drain, e) (rw z refl)

drain-node :
    (fuel : ℕ) (h : Heap) (p x k w : ℕ) {l : List (ℕ × ℕ)}
    → ll_iter_next fuel h p ≡ some (record { value = w; key = some k; pred = x })
    → w ≢ 0
    → drain fuel h x ≡ some l
    → drain (suc fuel) h p ≡ some ((k, w) ∷ l)
unfolding drain
drain-node fuel h p x k w e ne rest = rw (drain, e) (rw rest (ground arith))

-- From a node that no marked node follows, and with fuel for each node and two more rounds, a client
-- that calls `ll_iter_next` until it ends visits the keys and values in order, each once.
pub drain_visits_all :
    (fuel : ℕ) (h : Heap) (p : ℕ) (xs : List ℕ)
    → p ≢ 0
    → Chain h p xs
    → h.next p % 2 ≡ 0
    → Unmarked h xs
    → AllSet (live h xs)
    → length xs + 1 < fuel
    → drain fuel h p ≡ some (live h xs)
drain_visits_all zero h p xs ne c even clear set lt = absurd (omega arith)
drain_visits_all (suc fuel) h p _ ne (last e) even clear set lt =
    drain-end fuel h p (ll_iter_next-end fuel h p (omega arith) e) refl
drain_visits_all (suc fuel) h p _ ne (link {x = x} {xs = xs} e ne_x even_x off c) even (clear, all)
      set lt =
    let all_set = subst (λ l. AllSet l) (live-clear h x xs clear) set in
    let (here, rest) = all_set in
    drain-node fuel h p x (h.key x) (h.val x)
      (ll_iter_next-node fuel h p x (omega arith) ne (ground arith) ne_x even_x) here
      (drain_visits_all fuel h x xs ne_x c (ground arith) all rest (omega arith))
    ∙ ap some (sym (live-clear h x xs clear))
