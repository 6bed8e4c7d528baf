-- ===== src/LinkedList/Reads.antt =====
-- `ll_lookup` and `ll_count` of src/map/list.c, on a list that may hold marked nodes, against the
-- ordered association list. They change nothing.
use ssr.Base.{
  ℕ, zero, suc, ◌+◌, ◌%◌, ◌<◌, ◌≡◌, refl, ap, ◌∙◌, ◌≢◌, inl, inr, Bool, true, false, Option, some,
  none, List, [], ◌∷◌, length, if◌then◌else◌, Bool-cases, arith, subst,
}
use ssr.LinkedList.{
  Heap, Ll, Skip, stop, has_mark, strip_mark, skip_marked, is_below, is_same, Found, find_pred,
  walk,
}
use ssr.LinkedList.Ops.{ll_lookup, ll_count, count_from}
use ssr.LinkedList.Ops.Branches.{ll_lookup_lem, count_from_null, count_from_node, ll_count_lem}
use ssr.Map.{does_not_exist}
use ssr.LinkedList.Shape.{Chain, last, link, live, live-clear}
use ssr.LinkedList.Walk.{walk_at_end, walk_swept_all, walk_at_item, walk_onward}
use ssr.Map.Spec.{find_spec, lookup_spec}
use ssr.LinkedList.Refine.{IsList, below_key, same_key_as}

-- How the inner loop ends without help: at the first node that is not marked, or at NULL.
data ReadPost (h : Heap) (xs : List ℕ) : Option Skip → Type 0 where
  none_left : {next : ℕ} → live h xs ≡ [] → ReadPost h xs (some (stop h 0 next))
  node_left :
      {x : ℕ} {ys : List ℕ}
      → x ≢ 0
      → h.next x % 2 ≡ 0
      → Chain h x ys
      → length ys < length xs
      → live h xs ≡ (h.key x, h.val x) ∷ live h ys
      → ReadPost h xs (some (stop h x (h.next x)))

skip-clear :
    (fuel : ℕ) (ll : Ll) (h : Heap) (p x : ℕ)
    → has_mark (h.next x) ≡ false
    → skip_marked (suc fuel) ll false h p x (h.next x) ≡ some (stop h x (h.next x))
unfolding skip_marked
skip-clear fuel ll h p x clear = rw clear refl

skip-over :
    (fuel : ℕ) (ll : Ll) (h : Heap) (p x y : ℕ)
    → has_mark (h.next x) ≡ true
    → strip_mark (h.next x) ≡ y
    → y ≢ 0
    → skip_marked (suc fuel) ll false h p x (h.next x) ≡ skip_marked fuel ll false h p y (h.next y)
unfolding skip_marked
skip-over fuel ll h p x y marked e ne = rw marked (rw e (ground arith))

skip-last :
    (fuel : ℕ) (ll : Ll) (h : Heap) (p x : ℕ)
    → has_mark (h.next x) ≡ true
    → strip_mark (h.next x) ≡ 0
    → skip_marked (suc fuel) ll false h p x (h.next x) ≡ some (stop h 0 (h.next x))
unfolding skip_marked
skip-last fuel ll h p x marked e = rw marked (rw e refl)

ReadPost-marked :
    {h : Heap} {x : ℕ} {xs : List ℕ} {o : Option Skip}
    → has_mark (h.next x) ≡ true
    → ReadPost h xs o
    → ReadPost h (x ∷ xs) o
ReadPost-marked marked (none_left e) = none_left (rw marked e)
ReadPost-marked marked (node_left ne even c lt e) = node_left ne even c (omega arith) (rw marked e)

skip_reads :
    (fuel : ℕ) (ll : Ll) (h : Heap) (p x : ℕ) (xs : List ℕ)
    → x ≢ 0
    → Chain h x xs
    → length xs < fuel
    → ReadPost h (x ∷ xs) (skip_marked fuel ll false h p x (h.next x))
skip_reads zero ll h p x xs ne c lt = absurd (omega arith)
skip_reads (suc fuel) ll h p x _ ne (last e) lt = elim (Bool-cases (has_mark (h.next x))) [
  | inl marked ↦ rw (skip-last fuel ll h p x marked e) (none_left (rw marked refl))
  | inr clear ↦
      rw (skip-clear fuel ll h p x clear)
        (node_left ne (ground arith) (last e) (omega arith) (live-clear h x [] clear))
]
skip_reads (suc fuel) ll h p x _ ne (link {x = y} {xs = ys} e ne_y even off c) lt =
    elim (Bool-cases (has_mark (h.next x))) [
      | inl marked ↦
          rw (skip-over fuel ll h p x y marked e ne_y)
            (ReadPost-marked marked (skip_reads fuel ll h p y ys ne_y c (omega arith)))
      | inr clear ↦ rw (skip-clear fuel ll h p x clear) (
          node_left ne (ground arith) (link e ne_y even off c) (omega arith)
            (live-clear h x (y ∷ ys) clear))
    ]

abbrev found_value : Found → Option ℕ
found_value r = if r.found then some (r.heap.val r.item) else none

abbrev ReadsAs : ℕ → Ll → ℕ → Heap → (q item : ℕ) → List ℕ → Type 0
ReadsAs fuel ll key h q item xs =
    (r : Found) × (walk fuel ll key false h q item ≡ some r)
    × (found_value r ≡ find_spec (below_key ll key) (same_key_as ll key) (live h xs))

after_reads :
    (fuel : ℕ) (ll : Ll) (key : ℕ) (h : Heap) (q item : ℕ) (xs : List ℕ)
    → ((p x : ℕ) (ys : List ℕ)
        → Chain h p ys
        → length ys + 1 < fuel
        → h.next p ≡ x
        → x % 2 ≡ 0
        → ReadsAs fuel ll key h p x ys)
    → item ≢ 0
    → length xs < fuel
    → (o : Option Skip) → skip_marked fuel ll false h q item (h.next item) ≡ o
    → ReadPost h xs o
    → ReadsAs (suc fuel) ll key h q item xs
after_reads fuel ll key h q item xs rest ne lt _ e (none_left {next} gone) = (
  record { found = false; pred = q; item = 0; heap = h },
  walk_swept_all fuel ll key false h h q item next ne e,
  rw gone refl,
)
after_reads fuel ll key h q item xs rest ne lt _ e (node_left {x} {ys} ne_x even c shorter there) =
    elim (Bool-cases (is_below ll (h.key x) key)) [
      | inl below ↦
          let (r, walked, reads) = rest x (h.next x) ys c (omega arith) refl even in
          (
            r,
            walk_onward fuel ll key false h h q item x ne e ne_x below ∙ walked,
            rw there (rw below reads),
          )
      | inr above ↦ (
        record { found = is_same ll (h.key x) key; pred = q; item = x; heap = h },
        walk_at_item fuel ll key false h h q item x ne e ne_x above,
        rw there (rw above refl),
      )
    ]

walk_reads :
    (fuel : ℕ) (ll : Ll) (key : ℕ) (h : Heap) (p item : ℕ) (xs : List ℕ)
    → Chain h p xs
    → length xs + 1 < fuel
    → h.next p ≡ item
    → item % 2 ≡ 0
    → ReadsAs fuel ll key h p item xs
walk_reads zero ll key h p item xs c lt at even = absurd (omega arith)
walk_reads (suc fuel) ll key h p item _ (last end) lt at even = (
  record { found = false; pred = p; item = 0; heap = h },
  walk_at_end fuel ll key false h p item (ground arith),
  refl,
)
walk_reads (suc fuel) ll key h p item _ (link {x = x} {xs = xs} e ne x_even out c) lt at even =
    let here : x ≡ item = ground arith in
    subst (λ i. ReadsAs (suc fuel) ll key h p i (x ∷ xs)) here
      (after_reads fuel ll key h p x (x ∷ xs) (λ q y ys. walk_reads fuel ll key h q y ys) ne
        (omega arith) _ refl (skip_reads fuel ll h p x xs ne c (omega arith)))

found_or :
    (b : Bool) (v : ℕ)
    → (if b then v else does_not_exist)
      ≡ (elim (if b then some v else none) [ none ↦ does_not_exist | some v ↦ v ])
found_or true v = refl
found_or false v = refl

-- ll_lookup, on a list that may hold marked nodes, returns within the fuel the value of the key in
-- the ordered association list, or DOES_NOT_EXIST.
pub ll_lookup_refines :
    (fuel : ℕ) (ll : Ll) (h : Heap) (key : ℕ) (xs : List ℕ)
    → IsList ll h xs
    → length xs + 1 < fuel
    → ll_lookup fuel ll h key
      ≡ some (lookup_spec (below_key ll key) (same_key_as ll key) (live h xs))
unfolding lookup_spec find_pred
ll_lookup_refines fuel ll h key xs l lt =
    let (r, e, reads) =
      walk_reads fuel ll key h ll.head (h.next ll.head) xs l.chain lt refl l.unmarked in
    ll_lookup_lem fuel ll h key e
    ∙ ap some (
        found_or r.found (r.heap.val r.item)
        ∙ ap (λ o. elim o [ none ↦ does_not_exist | some v ↦ v ]) reads)

count_one :
    (b : Bool) (entry : ℕ × ℕ) (l : List (ℕ × ℕ))
    → (if b then length l else length l + 1) ≡ length (if b then l else entry ∷ l)
count_one true entry l = refl
count_one false entry l = omega arith

count_from_lem :
    (fuel : ℕ) (h : Heap) (p : ℕ) (xs : List ℕ)
    → Chain h p xs
    → length xs < fuel
    → count_from fuel h (strip_mark (h.next p)) ≡ some (length (live h xs))
count_from_lem zero h p xs c lt = absurd (omega arith)
count_from_lem (suc fuel) h p _ (last e) lt = rw e (count_from_null fuel h)
count_from_lem (suc fuel) h p _ (link {x = x} {xs = xs} e ne even off c) lt = rw e (
    count_from_node fuel h x ne (count_from_lem fuel h x xs c (omega arith))
    ∙ ap some (count_one (has_mark (h.next x)) (h.key x, h.val x) (live h xs)))

-- `ll_count` returns, with fuel for each node and one more, the number of the entries.
pub ll_count_refines :
    (fuel : ℕ) (ll : Ll) (h : Heap) (xs : List ℕ)
    → IsList ll h xs
    → length xs < fuel
    → ll_count fuel ll h ≡ some (length (live h xs))
ll_count_refines fuel ll h xs l lt =
    ll_count_lem fuel ll h ∙ count_from_lem fuel h ll.head xs l.chain lt
