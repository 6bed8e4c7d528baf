-- ===== src/Txn/Validate.antt =====
-- The validation of src/txn/txn.c: a transaction is refused just if a key that it wrote has an update
-- that was committed after it began.
use ssr.Base.{
  ℕ, zero, suc, ◌≤◌, ◌<◌, ◌≡◌, ◌⊎◌, ◌∙◌, refl, sym, ap, inl, inr, Bool, true, false, ◌||◌, Option,
  some, List, [], ◌∷◌, ◌==◌, ltb, if◌then◌else◌, Bool-cases, arith, length,
}
use ssr.Txn.{
  TxnState, running, validated, aborted, Version, number, aborted_version, writer, Val, rec, Store,
  set_state, validate_from, validate_key, validate_writes,
}
use ssr.Txn.System.{In}
use ssr.Txn.Invariant.{Linked, AllBefore, Ordered, rvs, versions, Heads, Before, Wrote}

-- An update that was committed after `rv`.
abbrev pub is_newer : (rv : ℕ) → Version → Bool
is_newer rv (number n) = ltb rv n
is_newer rv aborted_version = false
is_newer rv (writer w) = false

abbrev pub any_newer : (rv : ℕ) → (ℕ → Version) → List ℕ → Bool
any_newer rv version [] = false
any_newer rv version (i ∷ l) = is_newer rv (version i) || any_newer rv version l

-- One of the keys has such an update.
abbrev pub conflict : (rv : ℕ) → (ℕ → Version) → (chain : ℕ → List ℕ) → List (ℕ × ℕ) → Bool
conflict rv version chain [] = false
conflict rv version chain ((k, i) ∷ writes) =
    any_newer rv version (chain k) || conflict rv version chain writes

abbrev pub verdict : Bool → TxnState
verdict newer = if newer then aborted else validated

any_newer-AllBefore :
    (rv : ℕ) (rvf : ℕ → ℕ) (version : ℕ → Version) (c : ℕ) (l : List ℕ)
    → AllBefore rvf version c l
    → c ≤ rv
    → any_newer rv version l ≡ false
any_newer-AllBefore rv rvf version c [] h le = refl
any_newer-AllBefore rv rvf version c (i ∷ l) (here, h) le =
    rw (any_newer-AllBefore rv rvf version c l h le) (old (version i) here)
  where
    old : (v : Version) → Before rvf c v → (is_newer rv v || false) ≡ false
    old (number n) le' = ground arith
    old aborted_version h = refl
    old (writer w) h = refl

-- A version whose transaction runs, or is the one that is validated.
abbrev pub Quiet : Store → (t : ℕ) → Version → Type 0
Quiet m t (number n) = Unit
Quiet m t aborted_version = Unit
Quiet m t (writer w) = ((w == t) ≡ true) ⊎ ((m.txns w).state ≡ running)

-- One round of the loop of validate_key.
abbrev after_round :
    (rv : ℕ) → Version → (skip : Option (TxnState × Store)) → Store → Option (TxnState × Store)
after_round rv (number n) skip m = some (verdict (ltb rv n), m)
after_round rv aborted_version skip m = skip
after_round rv (writer w) skip m = skip

validate_from-step :
    (help : Store → ℕ → Option (TxnState × Store)) (fuel : ℕ) (m : Store) (t u : ℕ) (v : Version)
    → (m.updates u).version ≡ v
    → Quiet m t v
    → validate_from help (suc fuel) m t (rec u)
      ≡ after_round (m.txns t).rv v (validate_from help fuel m t (m.updates u).next) m
unfolding validate_from
validate_from-step help fuel m t u (number n) e quiet = ground (arith, e)
validate_from-step help fuel m t u aborted_version e quiet = ground (arith, e)
validate_from-step help fuel m t u (writer w) e (inl own) = ground (arith, e, own)
validate_from-step help fuel m t u (writer w) e (inr runs) = ground (arith, e, runs)

after_round-verdict :
    (rv : ℕ) (m : Store) (v : Version) (l : List ℕ) (skip : Option (TxnState × Store))
    → Heads (rvs m) (versions m) v l
    → skip ≡ some (verdict (any_newer rv (versions m) l), m)
    → after_round rv v skip m ≡ some (verdict (is_newer rv v || any_newer rv (versions m) l), m)
after_round-verdict rv m (number n) l skip before later = elim (Bool-cases (ltb rv n)) [
  | inl newer ↦ rw newer refl
  | inr older ↦
      rw (older, any_newer-AllBefore rv (rvs m) (versions m) n l before (ground (arith, older)))
        refl
]
after_round-verdict rv m aborted_version l skip before later = later
after_round-verdict rv m (writer w) l skip before later = later

module _ (help : Store → ℕ → Option (TxnState × Store)) (m : Store) (t : ℕ) where
  validate_from-verdict :
      (fuel : ℕ) (val : Val) (l : List ℕ) (rest : ℕ)
      → Linked m.updates val l rest
      → Ordered (rvs m) (versions m) l
      → ((i : ℕ) → In i l → Quiet m t (versions m i))
      → length l < fuel
      → validate_from help fuel m t val ≡ some (verdict (any_newer (m.txns t).rv (versions m) l), m)
  unfolding validate_from
  validate_from-verdict zero val l rest linked ordered quiet lt = absurd (omega arith)
  validate_from-verdict (suc fuel) val [] rest linked ordered quiet lt = rw linked refl
  validate_from-verdict (suc fuel) val (i ∷ l) rest (here, linked) (first, ordered) quiet lt =
      ap (validate_from help (suc fuel) m t) here
      ∙ validate_from-step help fuel m t i (versions m i) refl (quiet i (inl refl))
      ∙ after_round-verdict (m.txns t).rv m (versions m i) l _ first (
          validate_from-verdict fuel (m.updates i).next l rest linked ordered
            (λ j h. quiet j (inr h)) (omega arith))

  pub validate_writes-conflict :
      (fuel : ℕ) (chain : ℕ → List ℕ) (rest : ℕ → ℕ) (writes : List (ℕ × ℕ))
      → ((k : ℕ) → Linked m.updates (m.map k) (chain k) (rest k))
      → ((k : ℕ) → Ordered (rvs m) (versions m) (chain k))
      → ((k i : ℕ) → In i (chain k) → Quiet m t (versions m i))
      → ((k : ℕ) → length (chain k) < fuel)
      → validate_writes help fuel m t writes
        ≡ some
            (if conflict (m.txns t).rv (versions m) chain writes then set_state m t aborted else m)
  unfolding validate_writes validate_key
  validate_writes-conflict fuel chain rest [] linked ordered quiet lt = refl
  validate_writes-conflict fuel chain rest ((k, i) ∷ writes) linked ordered quiet lt =
      let judged =
        validate_from-verdict fuel (m.map k) (chain k) (rest k) (linked k) (ordered k) (quiet k)
          (lt k) in
      elim (Bool-cases (any_newer (m.txns t).rv (versions m) (chain k))) [
        | inl newer ↦
            let refused : validate_key help fuel m t k ≡ some (aborted, m) =
              judged ∙ rw newer refl in
            rw newer (rw (validate_writes, refused) refl)
        | inr older ↦
            let passed : validate_key help fuel m t k ≡ some (validated, m) =
              judged ∙ rw older refl in
            rw older (
              rw (validate_writes, passed)
                (validate_writes-conflict fuel chain rest writes linked ordered quiet lt))
      ]

pub conflict-Wrote :
    (rv : ℕ) (version : ℕ → Version) (chain : ℕ → List ℕ) (writes : List (ℕ × ℕ)) (k j : ℕ)
    → Wrote k j writes
    → conflict rv version chain writes ≡ false
    → any_newer rv version (chain k) ≡ false
conflict-Wrote rv version chain [] k j h calm = absurd h
conflict-Wrote rv version chain ((k', j') ∷ writes) k j (inl (e, e')) calm =
    elim (Bool-cases (any_newer rv version (chain k'))) [
      | inl newer ↦ absurd (ground (arith, newer, calm))
      | inr older ↦ ap (λ x. any_newer rv version (chain x)) e ∙ older
    ]
conflict-Wrote rv version chain ((k', j') ∷ writes) k j (inr h) calm =
    conflict-Wrote rv version chain writes k j h
      (elim (Bool-cases (any_newer rv version (chain k'))) [
        | inl newer ↦ absurd (ground (arith, newer, calm))
        | inr older ↦ rw older at calm
      ])

pub any_newer-In :
    (rv c : ℕ) (version : ℕ → Version) (l : List ℕ) (i : ℕ)
    → In i l
    → version i ≡ number c
    → any_newer rv version l ≡ false
    → c ≤ rv
any_newer-In rv c version [] i h e calm = absurd h
any_newer-In rv c version (x ∷ l) i (inl e') e calm =
    let newer : is_newer rv (version x) ≡ ltb rv c = ap (is_newer rv) (ap version (sym e') ∙ e) in
    ground (arith, newer, calm)
any_newer-In rv c version (x ∷ l) i (inr h) e calm =
    any_newer-In rv c version l i h e (elim (Bool-cases (is_newer rv (version x))) [
      | inl newer ↦ absurd (ground (arith, newer, calm))
      | inr older ↦ rw older at calm
    ])
