-- ===== src/LinkedList/Ops/Branches.antt =====
-- The branches of the operations of src/map/list.c that no other thread disturbs.
use ssr.Base.{ℕ, zero, suc, ◌+◌, ◌<◌, ◌≡◌, refl, ◌≢◌, true, false, some, ◌==◌, if◌then◌else◌, arith}
use ssr.Map.{does_not_exist, expect_does_not_exist}
use ssr.Map.Spec.{refuses}
use ssr.LinkedList.{
  Heap, Ll, has_mark, strip_mark, mark_node, set_next, set_val, defer_node, Found, find_pred,
}
use ssr.LinkedList.Ops.{
  node_alloc, new_key_of, settle, done, ll_cas, marked, mark_loop, ll_remove, ll_count, count_from,
  ll_lookup,
}

settle-there :
    (fuel : ℕ) (h : Heap) (item expectation new_val : ℕ)
    → 0 < fuel
    → h.val item ≢ 0
    → (expectation == expect_does_not_exist) ≡ true
    → settle fuel h item (h.val item) expectation new_val ≡ some (done (h.val item) h)
unfolding settle
settle-there zero h item expectation new_val pos set new = absurd (omega arith)
settle-there (suc fuel) h item expectation new_val pos set new = ground arith

settle-replaced :
    (fuel : ℕ) (h : Heap) (item expectation new_val : ℕ)
    → 0 < fuel
    → h.val item ≢ 0
    → (expectation == expect_does_not_exist) ≡ false
    → settle fuel h item (h.val item) expectation new_val
      ≡ some (done (h.val item) (set_val h item new_val))
unfolding settle
settle-replaced zero h item expectation new_val pos set old = absurd (omega arith)
settle-replaced (suc fuel) h item expectation new_val pos set old = ground arith

-- The heap in which the new node is made.
abbrev pub made : Ll → Heap → (new key val item : ℕ) → Heap
made ll h new key val item = set_next (node_alloc h new (new_key_of ll key) val) new item

module _ (malloc : Heap → ℕ) (fuel : ℕ) (ll : Ll) (h : Heap) (key expectation new_val : ℕ)
    {r : Found} (e : find_pred fuel ll key true h ≡ some r) where
  pub ll_cas-refused :
      r.found ≡ false
      → refuses expectation ≡ true
      → ll_cas malloc (suc fuel) ll h key expectation new_val ≡ some (does_not_exist, r.heap)
  unfolding ll_cas
  ll_cas-refused absent refusal = rw (ll_cas, e) (rw absent (rw refusal refl))

  pub ll_cas-inserted :
      r.found ≡ false
      → refuses expectation ≡ false
      → r.heap.next r.pred ≡ r.item
      → malloc r.heap ≢ r.pred
      → ll_cas malloc (suc fuel) ll h key expectation new_val
        ≡ some (
          does_not_exist,
          set_next (made ll r.heap (malloc r.heap) key new_val r.item) r.pred (malloc r.heap),
        )
  unfolding ll_cas
  ll_cas-inserted absent allowed at apart =
      rw (ll_cas, e) (rw absent (rw allowed (ground (arith, at))))

  pub ll_cas-there :
      r.found ≡ true
      → r.heap.val r.item ≢ 0
      → (expectation == expect_does_not_exist) ≡ true
      → 0 < fuel
      → ll_cas malloc (suc fuel) ll h key expectation new_val ≡ some (r.heap.val r.item, r.heap)
  unfolding ll_cas settle
  ll_cas-there present set new pos =
      rw (ll_cas, e)
        (rw present (rw (settle-there fuel r.heap r.item expectation new_val pos set new) refl))

  pub ll_cas-replaced :
      r.found ≡ true
      → r.heap.val r.item ≢ 0
      → (expectation == expect_does_not_exist) ≡ false
      → 0 < fuel
      → ll_cas malloc (suc fuel) ll h key expectation new_val
        ≡ some (r.heap.val r.item, set_val r.heap r.item new_val)
  unfolding ll_cas settle
  ll_cas-replaced present set old pos =
      rw (ll_cas, e)
        (rw present (rw (settle-replaced fuel r.heap r.item expectation new_val pos set old) refl))

mark_loop-clear :
    (fuel : ℕ) (h : Heap) (item : ℕ)
    → 0 < fuel
    → has_mark (h.next item) ≡ false
    → mark_loop fuel h item (h.next item)
      ≡ some (marked (h.next item) (set_next h item (mark_node (h.next item))))
unfolding mark_loop
mark_loop-clear zero h item pos clear = absurd (omega arith)
mark_loop-clear (suc fuel) h item pos clear = ground (arith, clear)

-- The heap after a removal that unlinks its node.
abbrev pub taken_out : Ll → Heap → (pred item : ℕ) → Heap
taken_out ll h pred item =
    defer_node ll
      (set_next (set_val (set_next h item (mark_node (h.next item))) item does_not_exist) pred
        (h.next item))
      item

module _ (fuel : ℕ) (ll : Ll) (h : Heap) (key : ℕ) {r : Found}
    (e : find_pred fuel ll key true h ≡ some r) where
  pub ll_remove-absent : r.found ≡ false → ll_remove fuel ll h key ≡ some (does_not_exist, r.heap)
  unfolding ll_remove
  ll_remove-absent absent = rw (ll_remove, e) (rw absent refl)

  pub ll_remove-there :
      r.found ≡ true
      → 0 < fuel
      → has_mark (r.heap.next r.item) ≡ false
      → r.heap.next r.pred ≡ r.item
      → r.item ≢ r.pred
      → ll_remove fuel ll h key ≡ some (r.heap.val r.item, taken_out ll r.heap r.pred r.item)
  unfolding ll_remove
  ll_remove-there present pos clear at apart =
      rw (ll_remove, e)
        (rw present (rw (mark_loop-clear fuel r.heap r.item pos clear) (ground (arith, at))))

pub ll_lookup_lem :
    (fuel : ℕ) (ll : Ll) (h : Heap) (key : ℕ) {r : Found}
    → find_pred fuel ll key false h ≡ some r
    → ll_lookup fuel ll h key ≡ some (if r.found then r.heap.val r.item else does_not_exist)
unfolding ll_lookup
ll_lookup_lem fuel ll h key e = rw (ll_lookup, e) (ground arith)

pub count_from_null : (fuel : ℕ) (h : Heap) → count_from (suc fuel) h 0 ≡ some 0
unfolding count_from
count_from_null fuel h = refl

pub count_from_node :
    (fuel : ℕ) (h : Heap) (x : ℕ) {n : ℕ}
    → x ≢ 0
    → count_from fuel h (strip_mark (h.next x)) ≡ some n
    → count_from (suc fuel) h x ≡ some (if has_mark (h.next x) then n else n + 1)
unfolding count_from
count_from_node fuel h x ne e = rw (count_from, e) (ground arith)

pub ll_count_lem :
    (fuel : ℕ) (ll : Ll) (h : Heap)
    → ll_count fuel ll h ≡ count_from fuel h (strip_mark (h.next ll.head))
unfolding ll_count
ll_count_lem fuel ll h = refl
