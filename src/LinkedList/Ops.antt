-- ===== src/LinkedList/Ops.antt =====
-- The operations of src/map/list.c.
pub mod Branches
use ssr.Base.{
  ℕ, zero, suc, ◌+◌, true, false, not, ◌&&◌, Option, none, some, ◌==◌, if◌then◌else◌, update,
}
use ssr.Datatype.{Datatype}
use ssr.Map.{does_not_exist, expect_does_not_exist, expect_whatever}
use ssr.LinkedList.{
  Heap, Ll, has_mark, strip_mark, mark_node, set_next, set_val, cas_next, cas_val, defer_node,
  find_pred,
}

-- `item` is what `nbd_malloc` returned. The memory is not cleared.
abbrev pub node_alloc : Heap → (item key val : ℕ) → Heap
node_alloc h item key val = record h { key = update h.key item key; val = update h.val item val }

-- `head` is the address of the node that is allocated for the head.
pub ll_alloc : Heap → (head : ℕ) → Option Datatype → Ll × Heap
ll_alloc h head key_type = (
  record { head = head; key_type = key_type },
  set_next (node_alloc h head 0 0) head does_not_exist,
)

-- The loop of `ll_count`.
pub count_from : ℕ → Heap → (item : ℕ) → Option ℕ
count_from zero h item = none
count_from (suc fuel) h item =
    let rest = count_from fuel h (strip_mark (h.next item)) in
    if item == 0
    then some 0
    else elim rest [ none ↦ none | some n ↦ some (if has_mark (h.next item) then n else n + 1) ]

pub ll_count : ℕ → Ll → Heap → Option ℕ
unfolding count_from
ll_count fuel ll h = count_from fuel h (strip_mark (h.next ll.head))

unfoldable pub ll_lookup : ℕ → Ll → Heap → (key : ℕ) → Option ℕ
ll_lookup fuel ll h key = elim (find_pred fuel ll key false h) [
  | none ↦ none
  | some r ↦ some (
      if r.found
      then (if r.heap.val r.item == does_not_exist then does_not_exist else r.heap.val r.item)
      else does_not_exist)
]

-- How the inner loop of `ll_cas` ends.
pub data Settle : Type 0 where
  again : (heap : Heap) → Settle
  done : (result : ℕ) (heap : Heap) → Settle

unfoldable pub settle : ℕ → Heap → (item old expectation new_val : ℕ) → Option Settle
settle zero h item old expectation new_val = none
settle (suc fuel) h item old expectation new_val =
    let (ret_val, h') = cas_val h item old new_val in
    let rest = settle fuel h' item ret_val expectation new_val in
    if old == does_not_exist
    then some (again h)
    else if expectation == expect_does_not_exist
    then some (done old h)
    else if ret_val == old
    then some (done ret_val h')
    else rest

abbrev pub new_key_of : Ll → ℕ → ℕ
new_key_of ll key = elim ll.key_type [ none ↦ key | some t ↦ t.clone key ]

-- `ll_cas` with `malloc` for `nbd_malloc`. A new node that loses its race is freed at once.
unfoldable pub ll_cas :
    (malloc : Heap → ℕ) → ℕ → Ll → Heap → (key expectation new_val : ℕ) → Option (ℕ × Heap)
unfolding settle
ll_cas malloc zero ll h key expectation new_val = none
ll_cas malloc (suc fuel) ll h key expectation new_val = elim (find_pred fuel ll key true h) [
  | none ↦ none
  | some r ↦ elim r.found [
    | false ↦
        elim (not (expectation == expect_does_not_exist) && not (expectation == expect_whatever)) [
          | true ↦ some (does_not_exist, r.heap)
          | false ↦
              let new_item = malloc r.heap in
              let made = node_alloc r.heap new_item (new_key_of ll key) new_val in
              let (other, linked) =
                cas_next (set_next made new_item r.item) r.pred r.item new_item in
              elim (other == r.item) [
                | true ↦ some (does_not_exist, linked)
                | false ↦ ll_cas malloc fuel ll linked key expectation new_val
              ]
        ]
    | true ↦ elim (settle fuel r.heap r.item (r.heap.val r.item) expectation new_val) [
      | none ↦ none
      | some (again h') ↦ ll_cas malloc fuel ll h' key expectation new_val
      | some (done result h') ↦ some (result, h')
    ]
  ]
]

-- How the marking loop of `ll_remove` ends: the `next` word before the mark, or a lost race.
pub data Marked : Type 0 where
  lost : (heap : Heap) → Marked
  marked : (next : ℕ) (heap : Heap) → Marked

pub mark_loop : ℕ → Heap → (item old_next : ℕ) → Option Marked
mark_loop zero h item old_next = none
mark_loop (suc fuel) h item old_next =
    let (found, h') = cas_next h item old_next (mark_node old_next) in
    let rest = mark_loop fuel h' item found in
    if has_mark found
    then some (lost h')
    else if old_next == found
    then some (marked old_next h')
    else rest

pub ll_remove : ℕ → Ll → Heap → (key : ℕ) → Option (ℕ × Heap)
unfolding mark_loop
ll_remove fuel ll h key = elim (find_pred fuel ll key true h) [
  | none ↦ none
  | some r ↦ elim r.found [
    | false ↦ some (does_not_exist, r.heap)
    | true ↦ elim (mark_loop fuel r.heap r.item (r.heap.next r.item)) [
      | none ↦ none
      | some (lost h') ↦ some (does_not_exist, h')
      | some (marked next h') ↦
          let val = h'.val r.item in
          let swapped = set_val h' r.item does_not_exist in
          let (other, unlinked) = cas_next swapped r.pred r.item next in
          elim (other == r.item) [
            | true ↦ some (val, defer_node ll unlinked r.item)
            | false ↦ some (val, unlinked)
          ]
    ]
  ]
]
