-- ===== src/LinkedList/Sweep.antt =====
-- The inner loop of `find_pred` of src/map/list.c: it unlinks the marked nodes that follow `pred`.
use ssr.Base.{
  ℕ, zero, suc, ◌%◌, ◌≤◌, ◌<◌, ◌≡◌, refl, sym, ap, ◌∙◌, ◌≢◌, inl, inr, true, false, Option, some,
  List, [], ◌∷◌, length, Bool-cases, arith, subst,
}
use ssr.LinkedList.{
  Heap, Ll, has_mark, strip_mark, set_next, defer_node, Skip, stop, next_of, skip_marked,
}
use ssr.LinkedList.Shape.{
  Outside, Chain, last, link, live, Agree-trans, SameBut, live-SameBut, Chain-SameBut,
}

-- After it the nodes from `p` on are fewer, and hold the same keys and values.
pub record Swept (h h' : Heap) (p : ℕ) (xs xs' : List ℕ) : Type 0 where
  pub only_p : SameBut h h' p
  pub same_keys : (a : ℕ) → h'.key a ≡ h.key a
  pub same_vals : (a : ℕ) → h'.val a ≡ h.val a
  pub within : (a : ℕ) → Outside a xs → Outside a xs'
  pub shorter : length xs' ≤ length xs
  pub lived : live h' xs' ≡ live h xs
  pub chain : Chain h' p xs'
  pub unmarked : h'.next p % 2 ≡ 0

pub data SkipPost (h : Heap) (p : ℕ) (xs : List ℕ) : Option Skip → Type 0 where
  swept_all : {h' : Heap} → Swept h h' p xs [] → SkipPost h p xs (some (stop h' 0 0))
  swept_to :
      {h' : Heap} {x : ℕ} {xs' : List ℕ}
      → Swept h h' p xs (x ∷ xs')
      → has_mark (h'.next x) ≡ false
      → SkipPost h p xs (some (stop h' x (h'.next x)))

abbrev unlink : Ll → Heap → (p x : ℕ) → Heap
unlink ll h p x = defer_node ll (set_next h p (strip_mark (h.next x))) x

skip-stop :
    (fuel : ℕ) (ll : Ll) (h : Heap) (p item next : ℕ)
    → has_mark next ≡ false
    → skip_marked (suc fuel) ll true h p item next ≡ some (stop h item next)
unfolding skip_marked
skip-stop fuel ll h p item next e = rw e refl

skip-unlink :
    (fuel : ℕ) (ll : Ll) (h : Heap) (p x : ℕ)
    → has_mark (h.next x) ≡ true
    → h.next p ≡ x
    → skip_marked (suc fuel) ll true h p x (h.next x) ≡ (
        let h' = unlink ll h p x in
        skip_marked fuel ll true h' p (strip_mark (h.next x)) (next_of h' (strip_mark (h.next x))))
unfolding skip_marked
skip-unlink fuel ll h p x e at = ground arith

Chain-relink :
    {h h' : Heap} {p x : ℕ} {xs : List ℕ}
    → SameBut h h' p
    → strip_mark (h'.next p) ≡ strip_mark (h.next x)
    → Chain h x xs
    → Outside p xs
    → Chain h' p xs
Chain-relink same e (last end) out = last (e ∙ end)
Chain-relink same e (link next ne even apart c) (ne_y, out) =
    link (e ∙ next) ne even (ne_y, out) (Chain-SameBut same ne_y c out)

pub Swept-refl :
    {h : Heap} {p : ℕ} {xs : List ℕ} → Chain h p xs → h.next p % 2 ≡ 0 → Swept h h p xs xs
Swept-refl c even = record {
  only_p = λ a ne. record { same_next = refl; same_key = refl; same_val = refl };
  same_keys = λ a. refl;
  same_vals = λ a. refl;
  within = λ a out. out;
  shorter = omega arith;
  lived = refl;
  chain = c;
  unmarked = even;
}

unlink-SameBut : (ll : Ll) (h : Heap) (p x : ℕ) → SameBut h (unlink ll h p x) p
unlink-SameBut ll h p x a ne = record { same_next = ground arith; same_key = refl; same_val = refl }

Swept-unlink :
    (ll : Ll) {h k : Heap} {p x : ℕ} {xs ys : List ℕ}
    → has_mark (h.next x) ≡ true
    → Outside p xs
    → Swept (unlink ll h p x) k p xs ys
    → Swept h k p (x ∷ xs) ys
Swept-unlink ll {h} {k} {p} {x} {xs} e out s = record {
  only_p = λ a ne. Agree-trans (unlink-SameBut ll h p x a ne) (s.only_p a ne);
  same_keys = s.same_keys;
  same_vals = s.same_vals;
  within = λ a (ne, off). s.within a off;
  shorter = omega (arith, s.shorter);
  lived = s.lived ∙ (live-SameBut (unlink-SameBut ll h p x) xs out ∙ rw e refl);
  chain = s.chain;
  unmarked = s.unmarked;
}

SkipPost-unlink :
    (ll : Ll) {h : Heap} {p x : ℕ} {xs : List ℕ} {r : Option Skip}
    → has_mark (h.next x) ≡ true
    → Outside p xs
    → SkipPost (unlink ll h p x) p xs r
    → SkipPost h p (x ∷ xs) r
SkipPost-unlink ll e out (swept_all s) = swept_all (Swept-unlink ll e out s)
SkipPost-unlink ll e out (swept_to s unmarked) = swept_to (Swept-unlink ll e out s) unmarked

unlink-next : (ll : Ll) (h : Heap) (p x : ℕ) → (unlink ll h p x).next p ≡ strip_mark (h.next x)
unlink-next ll h p x = ground arith

unlinked_strip :
    (ll : Ll) (h : Heap) (p x : ℕ) → strip_mark ((unlink ll h p x).next p) ≡ strip_mark (h.next x)
unlinked_strip ll h p x = rw (unlink-next ll h p x) (omega arith)

skip_at_end :
    (fuel : ℕ) (ll : Ll) (h : Heap) (p item : ℕ)
    → item ≡ 0
    → skip_marked (suc fuel) ll true h p item (next_of h item) ≡ some (stop h 0 0)
skip_at_end fuel ll h p item e =
    ap (λ i. skip_marked (suc fuel) ll true h p i (next_of h i)) e ∙ skip-stop fuel ll h p 0 0 refl

at_node :
    (fuel : ℕ) (ll : Ll) (h : Heap) (p item : ℕ) {x : ℕ}
    → item ≡ x
    → x ≢ 0
    → skip_marked fuel ll true h p item (next_of h item) ≡ skip_marked fuel ll true h p x (h.next x)
at_node fuel ll h p item {x} e ne =
    ap (λ i. skip_marked fuel ll true h p i (next_of h i)) e
    ∙ ap (λ n. skip_marked fuel ll true h p x n) (ground arith)

pub skip_marked_lem :
    (fuel : ℕ) (ll : Ll) (h : Heap) (p item : ℕ) {xs : List ℕ}
    → Chain h p xs
    → length xs < fuel
    → h.next p ≡ item
    → item % 2 ≡ 0
    → SkipPost h p xs (skip_marked fuel ll true h p item (next_of h item))
skip_marked_lem zero ll h p item c lt at even = absurd (omega arith)
skip_marked_lem (suc fuel) ll h p item (last end) lt at even =
    subst (λ o. SkipPost h p [] o) (sym (skip_at_end fuel ll h p item (ground arith)))
      (swept_all (Swept-refl (last end) (omega arith)))
skip_marked_lem (suc fuel) ll h p item (link {x = x} {xs = xs} next ne x_even (ne_x, out) c) lt at
      even =
    let here : h.next p ≡ x = ground arith in
    subst (λ o. SkipPost h p (x ∷ xs) o) (sym (at_node (suc fuel) ll h p item (sym at ∙ here) ne))
      (elim (Bool-cases (has_mark (h.next x))) [
        | inl marked ↦
            subst (λ o. SkipPost h p (x ∷ xs) o) (sym (skip-unlink fuel ll h p x marked here))
              (SkipPost-unlink ll marked out (
                skip_marked_lem fuel ll (unlink ll h p x) p (strip_mark (h.next x))
                  (Chain-relink (unlink-SameBut ll h p x) (unlinked_strip ll h p x) c out)
                  (omega arith) (unlink-next ll h p x) (ground arith)))
        | inr unmarked ↦
            subst (λ o. SkipPost h p (x ∷ xs) o) (sym (skip-stop fuel ll h p x (h.next x) unmarked))
              (swept_to (Swept-refl (link next ne x_even (ne_x, out) c) (omega arith)) unmarked)
      ])
