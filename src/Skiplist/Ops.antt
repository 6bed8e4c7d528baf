-- ===== src/Skiplist/Ops.antt =====
-- The operations of src/map/unsafe_skiplist.c, on fuel.
use ssr.Base.{
  ℕ, zero, suc, ◌+◌, true, false, not, ◌&&◌, ◌||◌, Option, none, some, ◌==◌, if◌then◌else◌, update,
}
use ssr.Map.{does_not_exist, expect_does_not_exist, expect_exists, expect_whatever}
use ssr.Skiplist.{Heap, Sl, find_preds, random_levels, node_alloc, set_next}

-- The loop of `sl_count`.
pub count_items : ℕ → Heap → (item : ℕ) → Option ℕ
count_items zero h item = none
count_items (suc fuel) h item =
    let rest = count_items fuel h (h.next item 0) in
    if item == 0 then some 0 else elim rest [ none ↦ none | some n ↦ some (n + 1) ]

pub sl_count : ℕ → Heap → Sl → Option ℕ
unfolding count_items
sl_count fuel h sl = count_items fuel h (h.next sl.head 0)

pub sl_lookup : ℕ → Heap → Sl → (key : ℕ) → Option ℕ
sl_lookup fuel h sl key = elim (find_preds fuel h 0 sl key false) [
  | none ↦ none
  | some (item, _) ↦ some (if item == 0 then does_not_exist else h.val item)
]

pub sl_min_key : Heap → Sl → ℕ
sl_min_key h sl = let item = h.next sl.head 0 in if item == 0 then does_not_exist else h.key item

-- The two loops over the levels of a new item: its own `next`, and that of its predecessors.
pub set_nexts : (n : ℕ) → Heap → (item : ℕ) (nexts : ℕ → ℕ) → Heap
set_nexts zero h item nexts = h
set_nexts (suc level) h item nexts =
    set_next (set_nexts level h item nexts) item level (nexts level)

pub link_item : (n : ℕ) → Heap → (item : ℕ) (preds : ℕ → ℕ) → Heap
link_item zero h item preds = h
link_item (suc level) h item preds =
    set_next (link_item level h item preds) (preds level) level item

-- `z` is the number of trailing zeros of the random number for the levels.
pub sl_cas :
    (malloc : Heap → ℕ) → ℕ → Heap → Sl → (z key expectation new_val : ℕ) → Option (ℕ × Heap × Sl)
unfolding set_nexts link_item
sl_cas malloc fuel h sl z key expectation new_val =
    let (n, sl') = random_levels sl z in
    elim (find_preds fuel h n sl' key false) [
      | none ↦ none
      | some (old_item, p) ↦
          let old_val = h.val old_item in
          let new_key : ℕ = elim sl'.key_type [ none ↦ key | some t ↦ t.clone key ] in
          let (new_item, made) = node_alloc malloc h n new_key new_val in
          let linked = link_item n (set_nexts n made new_item p.succs) new_item p.preds in
          if not (old_item == 0)
          then (if expectation == expect_does_not_exist
                || (not (expectation == expect_whatever)
                    && not (expectation == expect_exists)
                    && not (expectation == old_val))
              then some (old_val, h, sl')
              else some (old_val, record h { val = update h.val old_item new_val }, sl'))
          else if not (expectation == expect_does_not_exist) && not (expectation == expect_whatever)
          then some (does_not_exist, h, sl')
          else some (does_not_exist, linked, sl')
    ]

-- The memory of the item is freed after it was unlinked.
pub sl_remove : ℕ → Heap → Sl → (key : ℕ) → Option (ℕ × Heap)
sl_remove fuel h sl key = elim (find_preds fuel h sl.high_water sl key false) [
  | none ↦ none
  | some (item, _) ↦ elim (item == 0) [
    | true ↦ some (does_not_exist, h)
    | false ↦ elim (find_preds fuel h 0 sl key true) [
      | none ↦ none
      | some (_, p) ↦ some (h.val item, p.found.heap)
    ]
  ]
]

-- An iterator is its next item.
pub sl_iter_begin : ℕ → Heap → Sl → (key : ℕ) → Option ℕ
sl_iter_begin fuel h sl key = elim (key == does_not_exist) [
  | true ↦ some (h.next sl.head 0)
  | false ↦ elim (find_preds fuel h 1 sl key false) [ none ↦ none | some (_, p) ↦ some (p.succs 0) ]
]

-- The value, the key where there is an item, and the next item.
pub sl_iter_next : Heap → (next : ℕ) → ℕ × Option ℕ × ℕ
sl_iter_next h next =
    if next == 0 then (does_not_exist, none, 0) else (h.val next, some (h.key next), h.next next 0)
