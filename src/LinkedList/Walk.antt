-- ===== src/LinkedList/Walk.antt =====
-- `find_pred` of src/map/list.c with `help_remove`: where it stops, and what it leaves behind.
use ssr.Base.{
  ◌≤◌, ℕ, zero, suc, ◌+◌, ◌%◌, ◌<◌, ◌≡◌, refl, sym, ap, ◌∙◌, ◌≢◌, inl, inr, Bool, true, false,
  Option, some, List, [], ◌∷◌, ◌==◌, length, if◌then◌else◌, Bool-cases, arith,
}
use ssr.LinkedList.{
  Heap, Ll, has_mark, Skip, stop, skip_marked, is_below, is_same, Found, outcome, walk,
}
use ssr.LinkedList.Shape.{
  Outside, Chain, Chain-head, Chain-tail, last, link, live, live-clear, next_of_node, Agree,
  Agree-trans,
}
use ssr.LinkedList.Sweep.{Swept, Swept-refl, SkipPost, swept_all, swept_to, skip_marked_lem}

-- From `p` on no node is marked and every key is below the one searched for, up to `pred`; then
-- comes `item`, which is not below it, or NULL.
pub data Placed (h : Heap) (below : ℕ → Bool) : ℕ → List ℕ → (pred item : ℕ) → Type 0 where
  at_end : {p : ℕ} → h.next p ≡ 0 → Placed h below p [] p 0
  at_item :
      {p x : ℕ} {xs : List ℕ}
      → h.next p ≡ x
      → x ≢ 0
      → x % 2 ≡ 0
      → Outside p (x ∷ xs)
      → has_mark (h.next x) ≡ false
      → below (h.key x) ≡ false
      → Chain h x xs
      → Placed h below p (x ∷ xs) p x
  onward :
      {p x pred item : ℕ} {xs : List ℕ}
      → h.next p ≡ x
      → x ≢ 0
      → x % 2 ≡ 0
      → Outside p (x ∷ xs)
      → has_mark (h.next x) ≡ false
      → below (h.key x) ≡ true
      → Placed h below x xs pred item
      → Placed h below p (x ∷ xs) pred item

abbrev pub found_at : Ll → ℕ → Heap → ℕ → Bool
found_at ll key h item = if item == 0 then false else is_same ll (h.key item) key

-- The heap before and after a walk from `p`.
pub record Walked (ll : Ll) (key : ℕ) (h : Heap) (p : ℕ) (xs : List ℕ) (r : Found) : Type 0 where
  pub nodes : List ℕ
  pub kept : (a : ℕ) → Outside a (p ∷ xs) → Agree h r.heap a
  pub same_keys : (a : ℕ) → r.heap.key a ≡ h.key a
  pub same_vals : (a : ℕ) → r.heap.val a ≡ h.val a
  pub within : (a : ℕ) → Outside a xs → Outside a nodes
  pub shorter : length nodes ≤ length xs
  pub lived : live r.heap nodes ≡ live h xs
  pub placed : Placed r.heap (λ k. is_below ll k key) p nodes r.pred r.item
  pub decided : r.found ≡ found_at ll key r.heap r.item
  pub unmarked : r.heap.next p % 2 ≡ 0

pub walk_at_end :
    (fuel : ℕ) (ll : Ll) (key : ℕ) (help : Bool) (h : Heap) (p item : ℕ)
    → item ≡ 0
    → walk (suc fuel) ll key help h p item ≡ outcome false p 0 h
unfolding walk
walk_at_end fuel ll key help h p item e = rw e refl

pub walk_swept_all :
    (fuel : ℕ) (ll : Ll) (key : ℕ) (help : Bool) (h h' : Heap) (p item next : ℕ)
    → item ≢ 0
    → skip_marked fuel ll help h p item (h.next item) ≡ some (stop h' 0 next)
    → walk (suc fuel) ll key help h p item ≡ outcome false p 0 h'
unfolding walk
walk_swept_all fuel ll key help h h' p item next ne e = ground (arith, e)

pub walk_at_item :
    (fuel : ℕ) (ll : Ll) (key : ℕ) (help : Bool) (h h' : Heap) (p item x : ℕ)
    → item ≢ 0
    → skip_marked fuel ll help h p item (h.next item) ≡ some (stop h' x (h'.next x))
    → x ≢ 0
    → is_below ll (h'.key x) key ≡ false
    → walk (suc fuel) ll key help h p item ≡ outcome (is_same ll (h'.key x) key) p x h'
unfolding walk
walk_at_item fuel ll key help h h' p item x ne e ne_x b = ground (arith, e)

pub walk_onward :
    (fuel : ℕ) (ll : Ll) (key : ℕ) (help : Bool) (h h' : Heap) (p item x : ℕ)
    → item ≢ 0
    → skip_marked fuel ll help h p item (h.next item) ≡ some (stop h' x (h'.next x))
    → x ≢ 0
    → is_below ll (h'.key x) key ≡ true
    → walk (suc fuel) ll key help h p item ≡ walk fuel ll key help h' x (h'.next x)
unfolding walk
walk_onward fuel ll key help h h' p item x ne e ne_x b = ground (arith, e)

abbrev WalkPost : ℕ → Ll → ℕ → Heap → (p item : ℕ) → List ℕ → Type 0
WalkPost fuel ll key h p item xs =
    (r : Found) × (walk fuel ll key true h p item ≡ some r) × Walked ll key h p xs r

Walked-all :
    {ll : Ll} {key : ℕ} {h h' : Heap} {p : ℕ} {xs : List ℕ}
    → Swept h h' p xs []
    → Walked ll key h p xs (record { found = false; pred = p; item = 0; heap = h' })
Walked-all {h' = h'} s = record {
  nodes = [];
  kept = λ a (ne, out). s.only_p a (λ e. ne (sym e));
  same_keys = s.same_keys;
  same_vals = s.same_vals;
  within = s.within;
  shorter = s.shorter;
  lived = s.lived;
  placed = at_end (next_null s.chain s.unmarked);
  decided = refl;
  unmarked = s.unmarked;
}
  where
    next_null : {p : ℕ} → Chain h' p [] → h'.next p % 2 ≡ 0 → h'.next p ≡ 0
    next_null (last e) even = omega arith

Walked-here :
    {ll : Ll} {key : ℕ} {h h' : Heap} {p x : ℕ} {xs xs' : List ℕ}
    → Swept h h' p xs (x ∷ xs')
    → Chain h' p (x ∷ xs')
    → has_mark (h'.next x) ≡ false
    → is_below ll (h'.key x) key ≡ false
    → Walked ll key h p xs
        (record { found = is_same ll (h'.key x) key; pred = p; item = x; heap = h' })
Walked-here {h' = h'} {x = x} {xs' = xs'} s (link e ne even out c) clear above = record {
  nodes = x ∷ xs';
  kept = λ a (ne, out). s.only_p a (λ e. ne (sym e));
  same_keys = s.same_keys;
  same_vals = s.same_vals;
  within = s.within;
  shorter = s.shorter;
  lived = s.lived;
  placed = at_item (omega (arith, s.unmarked)) ne even out clear above c;
  decided = ground arith;
  unmarked = s.unmarked;
}

Walked-onward :
    {ll : Ll} {key : ℕ} {h h' : Heap} {p x : ℕ} {xs xs' : List ℕ} {r : Found}
    → Swept h h' p xs (x ∷ xs')
    → Chain h' p (x ∷ xs')
    → has_mark (h'.next x) ≡ false
    → is_below ll (h'.key x) key ≡ true
    → Walked ll key h' x xs' r
    → Walked ll key h p xs r
Walked-onward {ll} {key} {h' = h'} {p = p} {x = x} {xs' = xs'} {r = r} s
      (link e ne even (ne_x, out) c) clear below w =
    let next_p = (w.kept p (ne_x, out)).same_next in
    let to_x : r.heap.next p ≡ x = omega (arith, s.unmarked, next_p) in
    let clear_x : has_mark (r.heap.next x) ≡ false = ground (arith, w.unmarked) in
    record {
      nodes = x ∷ w.nodes;
      kept = λ a (ne, off). Agree-trans (s.only_p a (λ e. ne (sym e))) (w.kept a (s.within a off));
      same_keys = λ a. w.same_keys a ∙ s.same_keys a;
      same_vals = λ a. w.same_vals a ∙ s.same_vals a;
      within = λ a off. let (ne, o) = s.within a off in (ne, w.within a o);
      shorter = omega (arith, s.shorter, w.shorter);
      lived =
          live-clear r.heap x w.nodes clear_x
          ∙ (rw (w.same_keys x)
              (rw (w.same_vals x) (rw w.lived (sym (live-clear h' x xs' clear) ∙ s.lived))));
      placed =
          onward to_x ne even (ne_x, w.within p out) clear_x (rw (w.same_keys x) below) w.placed;
      decided = w.decided;
      unmarked = rw to_x even;
    }

after_skip :
    (fuel : ℕ) (ll : Ll) (key : ℕ) (h : Heap) (p item : ℕ) {xs : List ℕ}
    → ((h' : Heap) (x : ℕ) (ys : List ℕ)
        → Chain h' x ys
        → length ys + 1 < fuel
        → h'.next x % 2 ≡ 0
        → WalkPost fuel ll key h' x (h'.next x) ys)
    → item ≢ 0
    → length xs < fuel
    → (o : Option Skip) → skip_marked fuel ll true h p item (h.next item) ≡ o
    → SkipPost h p xs o
    → WalkPost (suc fuel) ll key h p item xs
after_skip fuel ll key h p item rest ne lt _ e (swept_all {h'} s) = (
  record { found = false; pred = p; item = 0; heap = h' },
  walk_swept_all fuel ll key true h h' p item 0 ne e,
  Walked-all s,
)
after_skip fuel ll key h p item rest ne lt _ e (swept_to {h'} {x} s clear) =
    let ne_x = Chain-head s.chain in
    elim (Bool-cases (is_below ll (h'.key x) key)) [
      | inl below ↦
          let (r, walked, w) =
            rest h' x _ (Chain-tail s.chain) (omega (arith, s.shorter)) (ground arith) in
          (
            r,
            walk_onward fuel ll key true h h' p item x ne e ne_x below ∙ walked,
            Walked-onward s s.chain clear below w,
          )
      | inr above ↦ (
        record { found = is_same ll (h'.key x) key; pred = p; item = x; heap = h' },
        walk_at_item fuel ll key true h h' p item x ne e ne_x above,
        Walked-here s s.chain clear above,
      )
    ]

-- With fuel for every node and two more rounds the walk ends where the key belongs.
pub walk_lem :
    (fuel : ℕ) (ll : Ll) (key : ℕ) (h : Heap) (p item : ℕ) {xs : List ℕ}
    → Chain h p xs
    → length xs + 1 < fuel
    → h.next p ≡ item
    → item % 2 ≡ 0
    → WalkPost fuel ll key h p item xs
walk_lem zero ll key h p item c lt at even = absurd (omega arith)
walk_lem (suc fuel) ll key h p item (last end) lt at even = (
  record { found = false; pred = p; item = 0; heap = h },
  walk_at_end fuel ll key true h p item (ground arith),
  Walked-all (Swept-refl (last end) (omega arith)),
)
walk_lem (suc fuel) ll key h p item (link {x = x} e ne x_even out c) lt at even =
    let here : item ≡ x = ground arith in
    let ne_item : item ≢ 0 = λ z. ne (sym here ∙ z) in
    let post = skip_marked_lem fuel ll h p item (link e ne x_even out c) (omega arith) at even in
    after_skip fuel ll key h p item
      (λ h' y ys c' lt' even'. walk_lem fuel ll key h' y (h'.next y) c' lt' refl even') ne_item
      (omega arith) _
      (ap (λ n. skip_marked fuel ll true h p item n) (sym (next_of_node h item ne_item))) post
