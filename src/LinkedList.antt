-- ===== src/LinkedList.antt =====
-- src/map/list.c, the Harris-Michael list, as one thread runs it on a heap that other threads may
-- have left with nodes marked and not yet unlinked. The build is the one without
-- LIST_USE_HAZARD_POINTER. Each CAS and SWAP is one step on the heap, and every branch on its
-- outcome is there; loops take fuel, and `none` means that the fuel ran out.
pub mod Ops
pub mod Shape
pub mod Sweep
pub mod Walk
pub mod Place
pub mod Splice
pub mod Change
pub mod Refine
pub mod Reads
pub mod Order
pub mod Finite
pub mod Implements
pub mod Iter
pub mod Examples
use ssr.Base.{
  ℕ, zero, suc, ◌+◌, ◌-◌, ◌%◌, ◌^◌, Bool, true, false, Option, none, some, List, ◌∷◌, ◌==◌, ltb,
  if◌then◌else◌, update,
}
use ssr.Datatype.{Datatype}

-- The fields of the nodes, by address, and what has been handed to `rcu_defer_free`, last first.
pub record Heap : Type 0 where
  pub key : ℕ → ℕ
  pub val : ℕ → ℕ
  pub next : ℕ → ℕ
  pub deferred : List ℕ

-- `list_t`
pub record Ll : Type 0 where
  pub head : ℕ
  pub key_type : Option Datatype

-- MARK_NODE, HAS_MARK and STRIP_MARK: the lowest bit of a `next` word.
abbrev pub has_mark : ℕ → Bool
has_mark x = x % 2 == 1

abbrev pub strip_mark : ℕ → ℕ
strip_mark x = x - x % 2

abbrev pub mark_node : ℕ → ℕ
mark_node x = strip_mark x + 1

abbrev pub set_next : Heap → ℕ → ℕ → Heap
set_next h p x = record h { next = update h.next p x }

abbrev pub set_val : Heap → ℕ → ℕ → Heap
set_val h p x = record h { val = update h.val p x }

-- `SYNC_CAS` of a `next` word, and of a value: the old contents, and the heap after it.
abbrev pub cas_next : Heap → ℕ → ℕ → ℕ → ℕ × Heap
cas_next h p old new = (h.next p, if h.next p == old then set_next h p new else h)

abbrev pub cas_val : Heap → ℕ → ℕ → ℕ → ℕ × Heap
cas_val h p old new = (h.val p, if h.val p == old then set_val h p new else h)

-- `d = item->key - key` or `cmp`, as a pattern of 32 bits; a negative one means "go on".
abbrev pub compare_keys : Ll → ℕ → ℕ → ℕ
compare_keys ll a b = elim ll.key_type [ none ↦ (a + 2 ^ 64 - b) % 2 ^ 32 | some t ↦ t.cmp a b ]

abbrev pub is_below : Ll → ℕ → ℕ → Bool
is_below ll a b = if ltb (compare_keys ll a b) (2 ^ 31) then false else true

abbrev pub is_same : Ll → ℕ → ℕ → Bool
is_same ll a b = compare_keys ll a b == 0

-- The node that is unlinked, and its key if that is a pointer, go to `rcu_defer_free`.
abbrev pub defer_node : Ll → Heap → ℕ → Heap
defer_node ll h p = record h {
  deferred = elim ll.key_type [ none ↦ p ∷ h.deferred | some t ↦ p ∷ h.key p ∷ h.deferred ];
}

-- How the inner loop of `find_pred` ends: at an item with an unmarked `next`, or at NULL; or with
-- the need to start again.
pub data Skip : Type 0 where
  stop : (heap : Heap) (item next : ℕ) → Skip
  retry : (heap : Heap) → Skip

abbrev pub next_of : Heap → ℕ → ℕ
next_of h item = if item == 0 then 0 else h.next item

-- The inner loop, `while (HAS_MARK(next))`.
pub skip_marked : ℕ → Ll → (help : Bool) → Heap → (pred item next : ℕ) → Option Skip
skip_marked zero ll help h pred item next = none
skip_marked (suc fuel) ll help h pred item next =
    let after = strip_mark (h.next item) in
    let skipped = skip_marked fuel ll help h pred after (h.next after) in
    let (other, h') = cas_next h pred item (strip_mark next) in
    let linked = defer_node ll h' other in
    let unlinked =
      skip_marked fuel ll help linked pred (strip_mark next) (next_of linked (strip_mark next)) in
    let moved = skip_marked fuel ll help h' pred other (next_of h' other) in
    if has_mark next
    then if help
      then if other == item then unlinked else if has_mark other then some (retry h') else moved
      else if after == 0
      then some (stop h 0 next)
      else skipped
    else some (stop h item next)

pub record Found : Type 0 where
  pub found : Bool
  pub pred : ℕ
  pub item : ℕ
  pub heap : Heap

abbrev pub outcome : Bool → ℕ → ℕ → Heap → Option Found
outcome found pred item h = some (record { found = found; pred = pred; item = item; heap = h })

-- The outer loop, `while (item != NULL)`.
pub walk : ℕ → Ll → (key : ℕ) (help : Bool) → Heap → (pred item : ℕ) → Option Found
unfolding skip_marked
walk zero ll key help h pred item = none
walk (suc fuel) ll key help h pred item = elim (item == 0) [
  | true ↦ outcome false pred 0 h
  | false ↦ elim (skip_marked fuel ll help h pred item (h.next item)) [
    | none ↦ none
    | some (retry h') ↦ walk fuel ll key help h' ll.head (h'.next ll.head)
    | some (stop h' item' next') ↦ elim (item' == 0) [
      | true ↦ outcome false pred 0 h'
      | false ↦ elim (is_below ll (h'.key item') key) [
        | true ↦ walk fuel ll key help h' item' next'
        | false ↦ outcome (is_same ll (h'.key item') key) pred item' h'
      ]
    ]
  ]
]

pub find_pred : ℕ → Ll → (key : ℕ) (help : Bool) → Heap → Option Found
unfolding walk
find_pred fuel ll key help h = walk fuel ll key help h ll.head (h.next ll.head)
