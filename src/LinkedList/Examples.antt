-- ===== src/LinkedList/Examples.antt =====
-- Runs of the list of src/map/list.c.
use ssr.Base.{◌≢◌, ◌<◌, ◌+◌, ◌^◌, ℕ, ◌≡◌, refl, some, none, List, [], ◌∷◌, update, arith}
use ssr.LinkedList.{Heap, Ll, find_pred, walk, skip_marked}
use ssr.LinkedList.Iter.{
  drain, drain_visits_all, null_write, ll_iter_begin, ll_iter_next, next_loop,
}
use ssr.LinkedList.Ops.{ll_cas, ll_remove, ll_lookup, ll_count, settle}
use ssr.LinkedList.Shape.{last, link, live}
use ssr.LinkedList.Refine.{IsList, IsFresh, Meets, below_key, same_key_as}
use ssr.LinkedList.Refine.Cas.{ll_cas_refines, ll_cas_overwrites}
use ssr.LinkedList.Refine.Remove.{ll_remove_refines}
use ssr.LinkedList.Reads.{ll_lookup_refines, ll_count_refines}
use ssr.LinkedList.Finite.{map_impl_ll, IsMap, HasRoom}
use ssr.LinkedList.Implements.{map_impl_ll_laws}
use ssr.Map.Interface.{MapLaws, map_cas, set_if}
use ssr.Map.Laws.{value_in}
use ssr.Map.Spec.{cas_spec, replace_spec, remove_spec, lookup_spec}

-- Keys 1, 5 and 9 at the addresses 4, 6 and 8; the second node is marked.
abbrev heap : Heap
heap = record {
  key = update (update (update (λ _. 0) 4 1) 6 5) 8 9;
  val = update (update (λ _. 0) 4 10) 8 90;
  next = update (update (update (λ _. 0) 2 4) 4 6) 6 9;
  deferred = [];
}

abbrev ll : Ll
ll = record { head = 2; key_type = none }

abbrev nodes : List ℕ
nodes = 4 ∷ 6 ∷ 8 ∷ []

abbrev malloc : Heap → ℕ
malloc _ = 10

heap-IsList : IsList ll heap nodes
heap-IsList = record {
  chain =
      link refl (omega arith) refl (omega arith, (omega arith, (omega arith, tt)))
        (link refl (omega arith) refl (omega arith, (omega arith, tt))
          (link refl (omega arith) refl (omega arith, tt) (last refl)));
  unmarked = refl;
  set = (omega arith, (omega arith, tt));
}

malloc-IsFresh : IsFresh malloc ll nodes
malloc-IsFresh h =
    (omega arith, refl, (omega arith, (omega arith, (omega arith, (omega arith, tt)))))

ll_cas_refines_example :
    Meets ll 4
      (ll_cas malloc 6 ll heap 9 90 50)
      (cas_spec (below_key ll 9) (same_key_as ll 9) 90 (9, 50) (live heap nodes))
ll_cas_refines_example =
    ll_cas_refines malloc 6 ll heap 9 90 50 nodes heap-IsList malloc-IsFresh (omega arith)
      (omega arith) (λ old present. ground (arith, present))

ll_cas_overwrites_example :
    Meets ll 4
      (ll_cas malloc 6 ll heap 9 77 50)
      (90, replace_spec (below_key ll 9) 50 (live heap nodes))
    × (cas_spec (below_key ll 9) (same_key_as ll 9) 77 (9, 50) (live heap nodes)
        ≡ (90, live heap nodes))
ll_cas_overwrites_example =
    ll_cas_overwrites malloc 6 ll heap 9 77 50 nodes heap-IsList malloc-IsFresh (omega arith)
      (omega arith) 90 refl refl

ll_remove_refines_example :
    Meets ll 3
      (ll_remove 5 ll heap 9)
      (remove_spec (below_key ll 9) (same_key_as ll 9) (live heap nodes))
ll_remove_refines_example = ll_remove_refines 5 ll heap 9 nodes heap-IsList (omega arith)

ll_lookup_refines_example :
    ll_lookup 5 ll heap 9 ≡ some (lookup_spec (below_key ll 9) (same_key_as ll 9) (live heap nodes))
ll_lookup_refines_example = ll_lookup_refines 5 ll heap 9 nodes heap-IsList (omega arith)

ll_count_refines_example : ll_count 4 ll heap ≡ some 2
ll_count_refines_example = ll_count_refines 4 ll heap nodes heap-IsList (omega arith)

-- Keys 1 and 9 only, and no node marked.
abbrev clean : Heap
clean = record heap { next = update (update (λ _. 0) 2 4) 4 8 }

drain_visits_all_example : drain 5 clean 2 ≡ some ((1, 10) ∷ (9, 90) ∷ [])
drain_visits_all_example =
    drain_visits_all 5 clean 2 (4 ∷ 8 ∷ []) (omega arith)
      (link refl (omega arith) refl (omega arith, (omega arith, tt))
        (link refl (omega arith) refl (omega arith, tt) (last refl)))
      refl (refl, (refl, tt)) (omega arith, (omega arith, tt)) (omega arith)

-- With a marked node in the middle the iteration ends before the last key.
drain_ends_early : drain 9 heap 2 ≡ some ((1, 10) ∷ [])
unfolding drain ll_iter_next next_loop
drain_ends_early = refl

begin_past_end : ll_iter_begin 9 ll clean 100 ≡ some null_write
unfolding ll_iter_begin find_pred walk skip_marked
begin_past_end = refl

-- A key that is 2 ^ 32 too large is found.
wide_key : ll_lookup 9 ll clean (2 ^ 32 + 9) ≡ some 90
unfolding ll_lookup find_pred walk skip_marked
wide_key = refl

-- An expectation that does not hold is not looked at where the key is there.
other_expectation :
    ll_cas malloc 9 ll clean 9 77 50 ≡ some (90, record clean { val = update clean.val 8 50 })
unfolding ll_cas settle find_pred walk skip_marked
other_expectation = refl

abbrev entries : ℕ → ℕ
entries = value_in ((1, 10) ∷ (9, 90) ∷ [])

abbrev clean_nodes : List ℕ
clean_nodes = 4 ∷ 8 ∷ []

abbrev clean_map : IsMap 9 ll clean entries
clean_map = record {
  nodes = clean_nodes;
  is_list = record {
    chain =
        link refl (omega arith) refl (omega arith, (omega arith, tt))
          (link refl (omega arith) refl (omega arith, tt) (last refl));
    unmarked = refl;
    set = (omega arith, (omega arith, tt));
  };
  sorted = ((omega arith, tt), (tt, tt));
  bounded = (omega arith, (omega arith, tt));
  values = λ j. refl;
  fits = omega arith;
}

abbrev clean_room : HasRoom malloc 9 ll clean entries
clean_room = record {
  is_map = clean_map;
  fresh = λ h. (omega arith, refl, (omega arith, (omega arith, (omega arith, tt))));
  room = omega arith;
}

map_impl_ll_laws_example :
    MapLaws
      (map_impl_ll malloc 9 ll)
      (λ key. key < 2 ^ 31)
      (λ val. val ≢ 0)
      (IsMap 9 ll)
      (HasRoom malloc 9 ll)
map_impl_ll_laws_example = map_impl_ll_laws malloc 9 ll refl

-- map_cas with the value that is there.
clean_cas :
    (t : Heap) × (map_cas (map_impl_ll malloc 9 ll) clean 9 90 91 ≡ some (90, t))
    × IsMap 9 ll t (set_if entries 9 90 91)
clean_cas =
    (map_impl_ll_laws malloc 9 ll refl).cas_law clean entries 9 90 91 clean_room (omega arith)
      (omega arith) refl
