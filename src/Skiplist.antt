-- ===== src/Skiplist.antt =====
-- src/map/unsafe_skiplist.c, the skip list for one thread.
pub mod Ops
pub mod Levels
use ssr.Base.{
  ℕ, zero, suc, ◌+◌, ◌-◌, ◌*◌, ◌/◌, ◌%◌, ◌^◌, Bool, true, false, not, ◌&&◌, Option, none, some,
  ◌==◌, ltb, leb, if◌then◌else◌, update,
}
use ssr.Datatype.{Datatype}
use ssr.Map.{does_not_exist}

-- `node_t`, the fields by address, `next` by address and level.
pub record Heap : Type 0 where
  pub key : ℕ → ℕ
  pub val : ℕ → ℕ
  pub num_levels : ℕ → ℕ
  pub next : ℕ → ℕ → ℕ

pub record Sl : Type 0 where
  pub head : ℕ
  pub key_type : Option Datatype
  pub high_water : ℕ

abbrev pub max_levels : ℕ
max_levels = 24

-- `z` is the number of trailing zeros of a random number.
unfoldable pub random_levels : Sl → (z : ℕ) → ℕ × Sl
random_levels sl z =
    let levels = z * 2 / 3 in
    let raised = record sl { high_water = sl.high_water + 1 } in
    let capped = λ (n : ℕ). if ltb max_levels n then max_levels else n in
    if levels == 0
    then (1, sl)
    else if ltb sl.high_water levels
    then (capped raised.high_water, raised)
    else (capped levels, sl)

abbrev pub set_next : Heap → (p level q : ℕ) → Heap
set_next h p level q = record h { next = update h.next p (update (h.next p) level q) }

-- `malloc` gives the address of the node.
pub node_alloc : (malloc : Heap → ℕ) → Heap → (num_levels key val : ℕ) → ℕ × Heap
node_alloc malloc h num_levels key val =
    let item = malloc h in
    (
      item,
      record {
        key = update h.key item key;
        val = update h.val item val;
        num_levels = update h.num_levels item num_levels;
        next = update h.next item (λ level. if ltb level num_levels then 0 else h.next item level);
      },
    )

pub sl_alloc : (malloc : Heap → ℕ) → Option Datatype → Heap → Sl × Heap
unfolding node_alloc
sl_alloc malloc key_type h =
    let (head, h') = node_alloc malloc h max_levels 0 0 in
    (record { head = head; key_type = key_type; high_water = 1 }, h')

-- An `int` is its pattern of 32 bits.
abbrev pub compare_keys : Sl → (a b : ℕ) → ℕ
compare_keys sl a b = elim sl.key_type [ none ↦ (a + 2 ^ 64 - b) % 2 ^ 32 | some t ↦ t.cmp a b ]

-- What the inner loop of `find_preds` leaves.
pub record Found : Type 0 where
  pub heap : Heap
  pub pred : ℕ
  pub item : ℕ
  pub d : ℕ

-- The inner loop of `find_preds`, on fuel.
pub traverse_level : ℕ → Sl → (key : ℕ) (unlink : Bool) (level : ℕ) → Found → Option Found
traverse_level zero sl key unlink level at = none
traverse_level (suc fuel) sl key unlink level at =
    let h = at.heap in
    let next = h.next at.item level in
    let d = compare_keys sl (h.key at.item) key in
    let rest =
      traverse_level fuel sl key unlink level
        (record { heap = h; pred = at.item; item = next; d = d }) in
    let unlinked : Found = record {
      heap = set_next h at.pred level next;
      pred = at.pred;
      item = next;
      d = d;
    } in
    let stopped : Found = record { heap = h; pred = at.pred; item = at.item; d = d } in
    if at.item == 0
    then some at
    else if not (ltb d (2 ^ 31))
    then rest
    else if d == 0 && unlink
    then some unlinked
    else some stopped

-- What `find_preds` leaves, with the arrays `preds` and `succs`.
pub record Preds : Type 0 where
  pub found : Found
  pub preds : ℕ → ℕ
  pub succs : ℕ → ℕ

-- The outer loop, over the levels below `levels`.
pub traverse : (levels : ℕ) → ℕ → Sl → (n key : ℕ) (unlink : Bool) → Preds → Option Preds
unfolding traverse_level
traverse zero fuel sl n key unlink p = some p
traverse (suc level) fuel sl n key unlink p =
    let at = p.found in
    let next = at.heap.next at.pred level in
    let skipped = traverse level fuel sl n key unlink p in
    elim (next == 0 && leb n level) [
      | true ↦ skipped
      | false ↦
          elim (traverse_level fuel sl key unlink level
            (record { heap = at.heap; pred = at.pred; item = next; d = at.d })) [
              | none ↦ none
              | some f ↦ traverse level fuel sl n key unlink (record {
                found = f;
                preds = if ltb level n then update p.preds level f.pred else p.preds;
                succs = if ltb level n then update p.succs level f.item else p.succs;
              })
            ]
    ]

-- The item with the key or NULL, and the rest.
pub find_preds : ℕ → Heap → (n : ℕ) → Sl → (key : ℕ) (unlink : Bool) → Option (ℕ × Preds)
unfolding traverse
find_preds fuel h n sl key unlink =
    let start : Preds = record {
      found = record { heap = h; pred = sl.head; item = 0; d = 0 };
      preds = λ _. 0;
      succs = λ _. 0;
    } in
    elim (traverse sl.high_water fuel sl n key unlink start) [
      | none ↦ none
      | some p ↦ some (if p.found.d == 0 then p.found.item else 0, p)
    ]
