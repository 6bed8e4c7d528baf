-- ===== src/LinkedList/Shape.antt =====
-- The nodes that hang from a node of a list of src/map/list.c, those included that are marked and
-- not yet unlinked.
use ssr.Base.{ℕ, ◌%◌, ◌≡◌, refl, ◌∙◌, ◌≢◌, false, List, [], ◌∷◌, if◌then◌else◌, arith}
use ssr.LinkedList.{Heap, has_mark, strip_mark, next_of, set_next, set_val}

-- `a` is none of `xs`.
abbrev pub Outside : ℕ → List ℕ → Type 0
Outside a [] = Unit
Outside a (x ∷ xs) = (a ≢ x) × Outside a xs

-- The `next` words lead from `p` through `xs`, all different, to NULL.
pub data Chain (h : Heap) : ℕ → List ℕ → Type 0 where
  last : {p : ℕ} → strip_mark (h.next p) ≡ 0 → Chain h p []
  link :
      {p x : ℕ} {xs : List ℕ}
      → strip_mark (h.next p) ≡ x
      → x ≢ 0
      → x % 2 ≡ 0
      → Outside p (x ∷ xs)
      → Chain h x xs
      → Chain h p (x ∷ xs)

-- The keys and values of the nodes that are not marked.
abbrev pub live : Heap → List ℕ → List (ℕ × ℕ)
live h [] = []
live h (x ∷ xs) = if has_mark (h.next x) then live h xs else (h.key x, h.val x) ∷ live h xs

-- The two heaps agree on a node.
pub record Agree (h h' : Heap) (a : ℕ) : Type 0 where
  pub same_next : h'.next a ≡ h.next a
  pub same_key : h'.key a ≡ h.key a
  pub same_val : h'.val a ≡ h.val a

pub Agree-trans : {h h' k : Heap} {a : ℕ} → Agree h h' a → Agree h' k a → Agree h k a
Agree-trans f g = record {
  same_next = g.same_next ∙ f.same_next;
  same_key = g.same_key ∙ f.same_key;
  same_val = g.same_val ∙ f.same_val;
}

abbrev pub SameBut : Heap → Heap → ℕ → Type 0
SameBut h h' q = (a : ℕ) → q ≢ a → Agree h h' a

pub Chain-Outside : {h : Heap} {p : ℕ} {xs : List ℕ} → Chain h p xs → Outside p xs
Chain-Outside (last e) = tt
Chain-Outside (link e ne even out c) = out

pub set_next-SameBut : (h : Heap) (p x : ℕ) → SameBut h (set_next h p x) p
set_next-SameBut h p x a ne = record { same_next = ground arith; same_key = refl; same_val = refl }

pub set_val-SameBut : (h : Heap) (p x : ℕ) → SameBut h (set_val h p x) p
set_val-SameBut h p x a ne = record { same_next = refl; same_key = refl; same_val = ground arith }

pub live-SameBut :
    {h h' : Heap} {q : ℕ} → SameBut h h' q → (xs : List ℕ) → Outside q xs → live h' xs ≡ live h xs
live-SameBut same [] out = refl
live-SameBut same (x ∷ xs) (ne, out) =
    let a = same x ne in
    rw a.same_next (rw a.same_key (rw a.same_val (rw (live-SameBut same xs out) refl)))

pub Chain-SameBut :
    {h h' : Heap} {q p : ℕ} {xs : List ℕ}
    → SameBut h h' q
    → q ≢ p
    → Chain h p xs
    → Outside q xs
    → Chain h' p xs
Chain-SameBut same ne (last e) out = last (rw (same _ ne).same_next e)
Chain-SameBut same ne (link e pos even apart c) (ne_x, out) =
    link (rw (same _ ne).same_next e) pos even apart (Chain-SameBut same ne_x c out)

pub live-clear :
    (h : Heap) (x : ℕ) (xs : List ℕ)
    → has_mark (h.next x) ≡ false
    → live h (x ∷ xs) ≡ (h.key x, h.val x) ∷ live h xs
live-clear h x xs e = rw e refl

pub Chain-head : {h : Heap} {p x : ℕ} {xs : List ℕ} → Chain h p (x ∷ xs) → x ≢ 0
Chain-head (link e ne even out c) = ne

pub Chain-tail : {h : Heap} {p x : ℕ} {xs : List ℕ} → Chain h p (x ∷ xs) → Chain h x xs
Chain-tail (link e ne even out c) = c

pub next_of_node : (h : Heap) (item : ℕ) → item ≢ 0 → next_of h item ≡ h.next item
next_of_node h item ne = ground arith
