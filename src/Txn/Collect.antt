-- ===== src/Txn/Collect.antt =====
-- The collection of old updates in txn_map_get of src/txn/txn.c ends.
use ssr.Base.{
  update-other, update_self, ℕ, zero, suc, ◌≤◌, ◌≡◌, ◌⊎◌, ◌∙◌, refl, sym, ap, subst, inl, inr, Bool,
  true, false, Option, none, some, List, [], ◌∷◌, ◌==◌, ltb, leb, if◌then◌else◌, update, Bool-cases,
  arith, length,
}
use ssr.Txn.{
  Version, number, aborted_version, writer, Val, plain, rec, Update, Store, word, update_block,
}
use ssr.Txn.Ops.{sl_min_key}
use ssr.Txn.Get.{collect, free_chain, skip_aborted, cut_next, merge}
use ssr.Txn.Invariant.{Linked, versions}
use native.Mathlib.Decide.{ℕ_discrete}

-- A list of updates ends within `n` of them.
abbrev pub Ends : (ℕ → Update) → ℕ → Val → Type 0
Ends updates n (plain v) = Unit
Ends updates zero (rec i) = ⊥
Ends updates (suc n) (rec i) = Ends updates n (updates i).next

abbrev cut_at : (ℕ → Update) → (u : ℕ) → ℕ → Update
cut_at updates u = update updates u (record (updates u) { next = plain 0 })

Ends-cut :
    (updates : ℕ → Update) (u n : ℕ) (val : Val)
    → Ends updates n val
    → Ends (cut_at updates u) n val
Ends-cut updates u n (plain v) h = h
Ends-cut updates u zero (rec i) h = h
Ends-cut updates u (suc n) (rec i) h = elim (ℕ_discrete u i) [
  | yes e ↦
      subst (λ x. Ends (cut_at updates u) n x.next)
        (sym (ap (cut_at updates u) (sym e) ∙ update_self updates u _)) tt
  | no ne ↦
      subst (λ x. Ends (cut_at updates u) n x.next) (sym (update-other updates u _ i ne))
        (Ends-cut updates u n (updates i).next h)
]

pub Ends-Linked :
    (updates : ℕ → Update) (val : Val) (l : List ℕ) (rest : ℕ)
    → Linked updates val l rest
    → Ends updates (length l) val
Ends-Linked updates val [] rest linked = rw linked tt
Ends-Linked updates val (i ∷ l) rest (here, linked) =
    rw here (Ends-Linked updates (updates i).next l rest linked)

pub Val-cases : (val : Val) → ((v : ℕ) × (val ≡ plain v)) ⊎ ((i : ℕ) × (val ≡ rec i))
Val-cases (plain v) = inl (v, refl)
Val-cases (rec i) = inr (i, refl)

abbrev freed_at : Store → (u : ℕ) → Store
freed_at m u = record m { updates = cut_at m.updates u; freed = update_block u ∷ m.freed }

free_chain-plain :
    (fuel : ℕ) (m : Store) (u v : ℕ)
    → (m.updates u).next ≡ plain v
    → free_chain (suc fuel) m u ≡ some (if v == 0 then cut_next m u else freed_at m u)
unfolding free_chain
free_chain-plain fuel m u v e = ground (arith, e)

free_chain-rec :
    (fuel : ℕ) (m : Store) (u i : ℕ)
    → (m.updates u).next ≡ rec i
    → free_chain (suc fuel) m u ≡ free_chain fuel (freed_at m u) i
unfolding free_chain
free_chain-rec fuel m u i e = ground (arith, e)

free_chain-returns :
    (fuel : ℕ) (m : Store) (n u : ℕ)
    → Ends m.updates n (rec u)
    → n ≤ fuel
    → (m' : Store) × (free_chain fuel m u ≡ some m')
free_chain-returns fuel m zero u h le = absurd h
free_chain-returns zero m (suc n) u h le = absurd (omega arith)
free_chain-returns (suc fuel) m (suc n) u h le = elim (Val-cases (m.updates u).next) [
  | inl (v, e) ↦ (_, free_chain-plain fuel m u v e)
  | inr (i, e) ↦
      let (m', ended) =
        free_chain-returns fuel (freed_at m u) n i
          (Ends-cut m.updates u n (rec i) (subst (Ends m.updates n) e h)) (omega arith) in
      (m', free_chain-rec fuel m u i e ∙ ended)
]

pub Ends-suc :
    (updates : ℕ → Update) (n : ℕ) (val : Val) → Ends updates n val → Ends updates (suc n) val
Ends-suc updates n (plain v) h = tt
Ends-suc updates zero (rec i) h = absurd h
Ends-suc updates (suc n) (rec i) h = Ends-suc updates n (updates i).next h

skip_aborted-step :
    (fuel : ℕ) (m : Store) (u i min_active : ℕ)
    → (m.updates u).next ≡ rec i
    → (v : Version) → (m.updates u).version ≡ v
    → ((b : Bool) × (skip_aborted fuel m i min_active ≡ some b))
    → (b : Bool) × (skip_aborted (suc fuel) m u min_active ≡ some b)
unfolding skip_aborted
skip_aborted-step fuel m u i min_active e (number n) version later =
    (true, rw (skip_aborted, version) refl)
skip_aborted-step fuel m u i min_active e (writer w) version later =
    (true, rw (skip_aborted, version) refl)
skip_aborted-step fuel m u i min_active e aborted_version version (b, later) =
    elim (Bool-cases (leb min_active (word (versions m i)))) [
      | inl recent ↦ (false, rw (skip_aborted, version) (rw e (rw recent refl)))
      | inr old ↦ (b, rw (skip_aborted, version) (rw e (rw old later)))
    ]

skip_aborted-last :
    (fuel : ℕ) (m : Store) (u v min_active : ℕ)
    → (m.updates u).next ≡ plain v
    → skip_aborted (suc fuel) m u min_active ≡ some true
unfolding skip_aborted
skip_aborted-last fuel m u v min_active e = by_version (versions m u) refl
  where
    by_version :
        (v : Version) → versions m u ≡ v → skip_aborted (suc fuel) m u min_active ≡ some true
    by_version (number n) version = rw (skip_aborted, version) refl
    by_version (writer w) version = rw (skip_aborted, version) refl
    by_version aborted_version version = rw (skip_aborted, version) (rw e refl)

skip_aborted-returns :
    (fuel : ℕ) (m : Store) (n u min_active : ℕ)
    → Ends m.updates n (rec u)
    → n ≤ fuel
    → (b : Bool) × (skip_aborted fuel m u min_active ≡ some b)
skip_aborted-returns fuel m zero u min_active h le = absurd h
skip_aborted-returns zero m (suc n) u min_active h le = absurd (omega arith)
skip_aborted-returns (suc fuel) m (suc n) u min_active h le = elim (Val-cases (m.updates u).next) [
  | inl (v, e) ↦ (true, skip_aborted-last fuel m u v min_active e)
  | inr (i, e) ↦
      skip_aborted-step fuel m u i min_active e (versions m u) refl
        (skip_aborted-returns fuel m n i min_active (subst (Ends m.updates n) e h) (omega arith))
]

-- The two loops, one after the other.
abbrev pub scanned : Option Bool → Store → Option Store → Option Store
scanned none m freed = none
scanned (some false) m freed = some m
scanned (some true) m freed = freed

pub collect-old :
    (fuel : ℕ) (m : Store) (key u i : ℕ) (o : Option Bool)
    → (m.updates u).next ≡ rec i
    → ltb (word (versions m i)) (sl_min_key m.active) ≡ true
    → skip_aborted fuel m i (sl_min_key m.active) ≡ o
    → collect fuel m key u ≡ scanned o m (free_chain fuel m i)
unfolding collect
collect-old fuel m key u i none e old scan = rw (collect, e) (rw old (rw scan refl))
collect-old fuel m key u i (some true) e old scan = rw (collect, e) (rw old (rw scan refl))
collect-old fuel m key u i (some false) e old scan = rw (collect, e) (rw old (rw scan refl))

scanned-ends :
    (b : Bool) (m : Store) {o : Option Store}
    → ((m' : Store) × (o ≡ some m'))
    → (m' : Store) × (scanned (some b) m o ≡ some m')
scanned-ends true m ended = ended
scanned-ends false m ended = (m, refl)

pub collect-returns :
    (fuel : ℕ) (m : Store) (key n u : ℕ)
    → Ends m.updates n (m.updates u).next
    → n ≤ fuel
    → (m' : Store) × (collect fuel m key u ≡ some m')
unfolding collect
collect-returns fuel m key n u h le = elim (Val-cases (m.updates u).next) [
  | inl (v, e) ↦ (merge m key u, rw (collect, e) refl)
  | inr (i, e) ↦ elim (Bool-cases (ltb (word (versions m i)) (sl_min_key m.active))) [
    | inl old ↦
        let ends = subst (Ends m.updates n) e h in
        let (b, scan) = skip_aborted-returns fuel m n i (sl_min_key m.active) ends le in
        let (m', ended) = scanned-ends b m (free_chain-returns fuel m n i ends le) in
        (m', collect-old fuel m key u i (some b) e old scan ∙ ended)
    | inr recent ↦ (m, rw (collect, e) (rw recent refl))
  ]
]
