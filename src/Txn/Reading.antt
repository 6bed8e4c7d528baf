-- ===== src/Txn/Reading.antt =====
-- What a transaction of src/txn/txn.c reads, as a function of the list of updates of the key.
use ssr.Base.{
  ℕ, zero, suc, ◌<◌, ◌≡◌, ◌∙◌, refl, ap, inl, inr, Bool, false, some, List, [], ◌∷◌, ◌==◌, leb,
  if◌then◌else◌, Bool-cases, arith, length,
}
use ssr.Txn.{running, Version, number, aborted_version, writer, Val, rec, Update, Store}
use ssr.Txn.Get.{Seen, value, found, find_visible, txn_map_get}
use ssr.Txn.System.{In}
use ssr.Txn.Invariant.{Linked}
use ssr.Txn.Collect.{Ends, Ends-suc, Ends-Linked, collect-returns}

-- A transaction sees its own updates and those that were committed until it began.
abbrev pub sees : (rv t : ℕ) → Version → Bool
sees rv t (number n) = leb n rv
sees rv t aborted_version = false
sees rv t (writer w) = w == t

-- The newest update that it sees, or the plain value.
abbrev pub reading : (ℕ → Update) → (rv t : ℕ) → List ℕ → (rest : ℕ) → ℕ
reading updates rv t [] rest = rest
reading updates rv t (i ∷ l) rest =
    if sees rv t (updates i).version then (updates i).value else reading updates rv t l rest

-- Where the loop ends, `n` updates follow at most.
abbrev EndsAfter : Store → ℕ → Seen → Type 0
EndsAfter m n (value v) = Unit
EndsAfter m n (found u) = Ends m.updates n (m.updates u).next

EndsAfter-suc : (m : Store) (n : ℕ) (x : Seen) → EndsAfter m n x → EndsAfter m (suc n) x
EndsAfter-suc m n (value v) h = tt
EndsAfter-suc m n (found u) h = Ends-suc m.updates n (m.updates u).next h

-- The loop ends where `reading` does.
abbrev pub seen_value : Store → Seen → ℕ
seen_value s (value v) = v
seen_value s (found u) = (s.updates u).value

pub reading-congr :
    (u v : ℕ → Update) (rv t : ℕ) (l : List ℕ) (rest : ℕ)
    → ((i : ℕ)
        → In i l
        → ((v i).value ≡ (u i).value) × (sees rv t (v i).version ≡ sees rv t (u i).version))
    → reading v rv t l rest ≡ reading u rv t l rest
reading-congr u v rv t [] rest same = refl
reading-congr u v rv t (i ∷ l) rest same =
    let (e, e') = same i (inl refl) in
    rw (e, e')
      (ap (λ r. if sees rv t (u i).version then (u i).value else r)
        (reading-congr u v rv t l rest (λ j h. same j (inr h))))

-- A version whose transaction still runs, if it has one.
abbrev pub Settled : Store → Version → Type 0
Settled m (number n) = Unit
Settled m aborted_version = Unit
Settled m (writer w) = (m.txns w).state ≡ running

find_visible-step :
    (fuel : ℕ) (m : Store) (t u : ℕ) (v : Version)
    → (m.updates u).version ≡ v
    → Settled m v
    → find_visible (suc fuel) m t (rec u) ≡ (
        if sees (m.txns t).rv t v
        then some (found u, m)
        else find_visible fuel m t (m.updates u).next)
unfolding find_visible
find_visible-step fuel m t u (number n) e settled = ground (arith, e)
find_visible-step fuel m t u aborted_version e settled = ground (arith, e)
find_visible-step fuel m t u (writer w) e settled = ground (arith, e, settled)

find_visible-reading :
    (fuel : ℕ) (m : Store) (t : ℕ) (val : Val) (l : List ℕ) (rest : ℕ)
    → Linked m.updates val l rest
    → ((i : ℕ) → In i l → Settled m (m.updates i).version)
    → length l < fuel
    → (x : Seen) × (find_visible fuel m t val ≡ some (x, m))
      × (seen_value m x ≡ reading m.updates (m.txns t).rv t l rest)
      × EndsAfter m (length l) x
unfolding find_visible
find_visible-reading zero m t val l rest linked settled lt = absurd (omega arith)
find_visible-reading (suc fuel) m t val [] rest linked settled lt =
    (value rest, rw linked refl, refl, tt)
find_visible-reading (suc fuel) m t val (i ∷ l) rest (here, linked) settled lt =
    let step : find_visible (suc fuel) m t val ≡ _ =
      ap (find_visible (suc fuel) m t) here
      ∙ find_visible-step fuel m t i (m.updates i).version refl (settled i (inl refl)) in
    elim (Bool-cases (sees (m.txns t).rv t (m.updates i).version)) [
      | inl seen ↦ (
        found i,
        step ∙ rw seen refl,
        rw seen refl,
        Ends-suc m.updates (length l) (m.updates i).next
            (Ends-Linked m.updates (m.updates i).next l rest linked),
      )
      | inr skipped ↦
          let (x, e, e', ends) =
            find_visible-reading fuel m t (m.updates i).next l rest linked
              (λ j h. settled j (inr h)) (omega arith) in
          (x, step ∙ rw skipped e, rw skipped e', EndsAfter-suc m (length l) x ends)
    ]

-- txn_map_get returns what the transaction sees.
pub txn_map_get-reading :
    (fuel : ℕ) (m : Store) (t key : ℕ) (l : List ℕ) (rest : ℕ)
    → (m.txns t).state ≡ running
    → Linked m.updates (m.map key) l rest
    → ((i : ℕ) → In i l → Settled m (m.updates i).version)
    → length l < fuel
    → (m' : Store) × (txn_map_get fuel m t key
        ≡ some (reading m.updates (m.txns t).rv t l rest, m'))
unfolding txn_map_get
txn_map_get-reading fuel m t key l rest runs linked settled lt =
    let (x, e, e', ends) = find_visible-reading fuel m t (m.map key) l rest linked settled lt in
    rw (← e') (got x e ends)
  where
    got :
        (x : Seen)
        → find_visible fuel m t (m.map key) ≡ some (x, m)
        → EndsAfter m (length l) x
        → (m' : Store) × (txn_map_get fuel m t key ≡ some (seen_value m x, m'))
    got (value v) e ends = (m, rw (txn_map_get, runs) (rw e refl))
    got (found u) e ends =
        let (m', collected) = collect-returns fuel m key (length l) u ends (omega arith) in
        (m', rw (txn_map_get, runs) (rw e (rw collected refl)))
