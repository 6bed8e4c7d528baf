-- ===== src/LinkedList/Finite.antt =====
-- MAP_IMPL_LL of src/map/list.h: the list of src/map/list.c with integer keys below 2 ^ 31 as an
-- implementation of the maps of src/map/map.c.
use ssr.Base.{
  not, ℕ, ◌+◌, ◌^◌, ◌<◌, ◌≡◌, refl, sym, ap, ◌∙◌, ◌≢◌, inl, inr, true, false, Option, none, some,
  List, [], ◌∷◌, ◌==◌, ltb, length, if◌then◌else◌, Bool-cases, arith,
}
use ssr.Map.{does_not_exist, expect_does_not_exist}
use ssr.Map.Spec.{find_spec, lookup_spec, refuses, is_exact, AllSet}
use ssr.Map.Laws.{before, equals, value_in, lookup_spec-value_in, Sorted, Bounded}
use ssr.Map.Interface.{MapImpl, writes, set_if}
use ssr.LinkedList.{Heap, Ll}
use ssr.LinkedList.Ops.{new_key_of, ll_cas, ll_lookup, ll_remove, ll_count}
use ssr.LinkedList.Shape.{live}
use ssr.LinkedList.Refine.{IsList, IsFresh, Meets}

abbrev pub map_impl_ll : (malloc : Heap → ℕ) → ℕ → Ll → MapImpl Heap
map_impl_ll malloc fuel ll = record {
  cas = λ h key expected_val new_val. ll_cas malloc fuel ll h key expected_val new_val;
  get = λ h key. ll_lookup fuel ll h key;
  remove = λ h key. ll_remove fuel ll h key;
  count = λ h. ll_count fuel ll h;
}

-- The list holds a finite map, its keys in ascending order, and there is fuel for its nodes.
pub record IsMap (fuel : ℕ) (ll : Ll) (h : Heap) (m : ℕ → ℕ) : Type 0 where
  pub nodes : List ℕ
  pub is_list : IsList ll h nodes
  pub sorted : Sorted (live h nodes)
  pub bounded : Bounded (2 ^ 31) (live h nodes)
  pub values : (j : ℕ) → value_in (live h nodes) j ≡ m j
  pub fits : length nodes + 1 < fuel

pub record HasRoom (malloc : Heap → ℕ) (fuel : ℕ) (ll : Ll) (h : Heap) (m : ℕ → ℕ) : Type 0 where
  pub is_map : IsMap fuel ll h m
  pub fresh : IsFresh malloc ll is_map.nodes
  pub room : length is_map.nodes + 2 < fuel

pub Meets-IsMap :
    {ll : Ll} {call : Option (ℕ × Heap)} {spec : ℕ × List (ℕ × ℕ)} {n : ℕ} (fuel old : ℕ)
    (l : List (ℕ × ℕ)) (m : ℕ → ℕ)
    → Meets ll n call spec
    → spec ≡ (old, l)
    → Sorted l
    → Bounded (2 ^ 31) l
    → ((j : ℕ) → value_in l j ≡ m j)
    → n + 1 < fuel
    → (t : Heap) × (call ≡ some (old, t)) × IsMap fuel ll t m
Meets-IsMap fuel old l m x e sorted bounded values fits =
    let both = x.agrees ∙ e in
    let result : x.result ≡ old = ap (λ p. p.0) both in
    let entries : live x.heap x.nodes ≡ l = ap (λ p. p.1) both in
    (
      x.heap,
      x.returns ∙ ap (λ o. some (o, x.heap)) result,
      record {
        nodes = x.nodes;
        is_list = x.is_list;
        sorted = rw entries sorted;
        bounded = rw entries bounded;
        values = λ j. rw entries (values j);
        fits = omega (arith, x.room);
      },
    )

pub value_in-find :
    (key : ℕ) (l : List (ℕ × ℕ)) {o : Option ℕ}
    → find_spec (before key) (equals key) l ≡ o
    → value_in l key ≡ (elim o [ none ↦ does_not_exist | some v ↦ v ])
unfolding lookup_spec
value_in-find key l e =
    sym (lookup_spec-value_in key l) ∙ ap (λ o. elim o [ none ↦ does_not_exist | some v ↦ v ]) e

pub find_spec-AllSet :
    (key : ℕ) (l : List (ℕ × ℕ)) {old : ℕ}
    → AllSet l
    → find_spec (before key) (equals key) l ≡ some old
    → old ≢ 0
find_spec-AllSet key [] set e = absurd (ground arith)
find_spec-AllSet key ((k, v) ∷ l) {old} (here, rest) e = elim (Bool-cases (ltb k key)) [
  | inl b ↦
      let later : find_spec (before key) (equals key) l ≡ some old = ground (arith, e) in
      find_spec-AllSet key l rest later
  | inr a ↦ ground (arith, e)
]

pub int_key : (ll : Ll) → ll.key_type ≡ none → (key : ℕ) → new_key_of ll key ≡ key
int_key ll ints key = rw ints refl

pub writes-refused : (old e : ℕ) → old ≡ 0 → refuses e ≡ true → writes old e ≡ false
writes-refused old e zero_old refusal = ground arith

pub writes-allowed : (old e : ℕ) → old ≡ 0 → refuses e ≡ false → writes old e ≡ true
writes-allowed old e zero_old allowed = ground arith

pub writes-present :
    (old e : ℕ) → old ≢ 0 → is_exact old e ≡ true → writes old e ≡ not (e == expect_does_not_exist)
writes-present old e ne exact = ground (arith, exact)

pub set_if_kept : (m : ℕ → ℕ) (key e v j : ℕ) → writes (m key) e ≡ false → m j ≡ set_if m key e v j
set_if_kept m key e v j no_write = rw no_write refl

pub set_if_written :
    (m : ℕ → ℕ) (key e v j : ℕ)
    → writes (m key) e ≡ true
    → (if key == j then v else m j) ≡ set_if m key e v j
set_if_written m key e v j write = rw write refl
