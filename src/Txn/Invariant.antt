-- ===== src/Txn/Invariant.antt =====
-- What holds between the calls of src/txn/txn.c.
use ssr.Base.{◌++◌, ℕ, ◌≤◌, ◌<◌, ◌≡◌, ◌⊎◌, refl, inl, inr, true, List, [], ◌∷◌}
use ssr.Txn.{running, Version, number, aborted_version, writer, Val, plain, rec, Update, Txn, Store}
use ssr.Txn.System.{System, In, init}

-- The value word leads to the updates of the list, and then to a plain value.
abbrev pub Linked : (ℕ → Update) → Val → List ℕ → (rest : ℕ) → Type 0
Linked updates val [] rest = val ≡ plain rest
Linked updates val (i ∷ l) rest = (val ≡ rec i) × Linked updates (updates i).next l rest

-- An update of version `v` may follow one that was committed with version `c`.
abbrev pub Before : (rv : ℕ → ℕ) → (c : ℕ) → Version → Type 0
Before rv c (number n) = n ≤ c
Before rv c aborted_version = Unit
Before rv c (writer w) = rv w < c

abbrev pub AllBefore : (rv : ℕ → ℕ) → (version : ℕ → Version) → (c : ℕ) → List ℕ → Type 0
AllBefore rv version c [] = Unit
AllBefore rv version c (j ∷ l) = Before rv c (version j) × AllBefore rv version c l

abbrev pub Heads : (rv : ℕ → ℕ) → (version : ℕ → Version) → Version → List ℕ → Type 0
Heads rv version (number c) l = AllBefore rv version c l
Heads rv version aborted_version l = Unit
Heads rv version (writer w) l = Unit

-- Committed versions fall along the list, and what follows one was not read by its writer.
abbrev pub Ordered : (rv : ℕ → ℕ) → (version : ℕ → Version) → List ℕ → Type 0
Ordered rv version [] = Unit
Ordered rv version (i ∷ l) = Heads rv version (version i) l × Ordered rv version l

abbrev pub Wrote : (key u : ℕ) → List (ℕ × ℕ) → Type 0
Wrote key u [] = ⊥
Wrote key u ((k, i) ∷ l) = ((key ≡ k) × (u ≡ i)) ⊎ Wrote key u l

pub Wrote-append_left : (k u : ℕ) (l r : List (ℕ × ℕ)) → Wrote k u l → Wrote k u (l ++ r)
Wrote-append_left k u [] r h = absurd h
Wrote-append_left k u ((j, i) ∷ l) r (inl e) = inl e
Wrote-append_left k u ((j, i) ∷ l) r (inr h) = inr (Wrote-append_left k u l r h)

pub Wrote-append_right : (k u : ℕ) (l r : List (ℕ × ℕ)) → Wrote k u r → Wrote k u (l ++ r)
Wrote-append_right k u [] r h = h
Wrote-append_right k u ((j, i) ∷ l) r h = inr (Wrote-append_right k u l r h)

pub Wrote-snoc :
    (k u j i : ℕ) (l : List (ℕ × ℕ))
    → Wrote k u (l ++ (j, i) ∷ [])
    → Wrote k u l ⊎ ((k ≡ j) × (u ≡ i))
Wrote-snoc k u j i [] (inl e) = inr e
Wrote-snoc k u j i [] (inr h) = absurd h
Wrote-snoc k u j i ((j', i') ∷ l) (inl e) = inl (inl e)
Wrote-snoc k u j i ((j', i') ∷ l) (inr h) = elim (Wrote-snoc k u j i l h) [
  | inl h' ↦ inl (inr h')
  | inr e ↦ inr e
]

-- The version of an update of a key: committed, aborted, or by a transaction that is live and knows
-- of the update.
abbrev pub Known : System → (key u : ℕ) → Version → Type 0
Known s key u (number n) = n ≤ s.mem.version
Known s key u aborted_version = Unit
Known s key u (writer w) = (s.live w ≡ true) × Wrote key u (s.mem.txns w).writes

abbrev pub rvs : Store → ℕ → ℕ
rvs m t = (m.txns t).rv

abbrev pub versions : Store → ℕ → Version
versions m u = (m.updates u).version

-- A transaction that is live.
pub record IsLive (m : Store) (x : Txn) : Type 0 where
  pub runs : x.state ≡ running
  pub no_wv : x.wv ≡ 0
  pub rv_le : x.rv ≤ m.version

pub record Inv (s : System) : Type 0 where
  pub linked : (k : ℕ) → Linked s.mem.updates (s.mem.map k) (s.chain k) (s.rest k)
  pub ordered : (k : ℕ) → Ordered (rvs s.mem) (versions s.mem) (s.chain k)
  pub known : (k u : ℕ) → In u (s.chain k) → Known s k u (versions s.mem u)
  pub lives : (t : ℕ) → s.live t ≡ true → IsLive s.mem (s.mem.txns t)
  pub written :
      (t k u : ℕ)
      → s.live t ≡ true
      → Wrote k u (s.mem.txns t).writes
      → In u (s.chain k) × (versions s.mem u ≡ writer t)

pub init-Inv : (map : ℕ → ℕ) → Inv (init map)
init-Inv map = record {
  linked = λ k. refl;
  ordered = λ k. tt;
  known = λ k u h. absurd h;
  lives = λ t h. cc;
  written = λ t k u h. cc;
}

-- Versions may change, as long as no link does.
pub Linked-congr :
    (u v : ℕ → Update) (val : Val) (l : List ℕ) (rest : ℕ)
    → ((i : ℕ) → In i l → (v i).next ≡ (u i).next)
    → Linked u val l rest
    → Linked v val l rest
Linked-congr u v val [] rest same h = h
Linked-congr u v val (i ∷ l) rest same (here, h) =
    (here, rw (same i (inl refl)) (Linked-congr u v (u i).next l rest (λ j h'. same j (inr h')) h))

module _ (rv rv' : ℕ → ℕ) (version version' : ℕ → Version) where
  AllBefore-congr :
      (c : ℕ) (l : List ℕ)
      → ((i : ℕ) → In i l → Before rv c (version i) → Before rv' c (version' i))
      → AllBefore rv version c l
      → AllBefore rv' version' c l
  AllBefore-congr c [] keep h = tt
  AllBefore-congr c (i ∷ l) keep (here, h) =
      (keep i (inl refl) here, AllBefore-congr c l (λ j h'. keep j (inr h')) h)

  -- One update of the list: it keeps its version, is aborted, or is committed with `wv`.
  abbrev pub Changed : (wv : ℕ) → (i : ℕ) → Type 0
  Changed wv i =
      (version' i ≡ version i) ⊎ (version' i ≡ aborted_version) ⊎ (version' i ≡ number wv)

  Heads-congr :
      (wv i : ℕ) (l : List ℕ)
      → Changed wv i
      → ((j : ℕ) → In j l → Before rv' wv (version' j))
      → ((c j : ℕ)
          → version i ≡ number c
          → In j l
          → Before rv c (version j)
          → Before rv' c (version' j))
      → Heads rv version (version i) l
      → Heads rv' version' (version' i) l
  Heads-congr wv i l (inl e) top keep h = rw e (same (version i) refl h)
    where
      same : (v : Version) → version i ≡ v → Heads rv version v l → Heads rv' version' v l
      same (number c) e h = AllBefore-congr c l (λ j. keep c j e) h
      same aborted_version e h = tt
      same (writer w) e h = tt
  Heads-congr wv i l (inr (inl e)) top keep h = rw e tt
  Heads-congr wv i l (inr (inr e)) top keep h = rw e (all l top)
    where
      all :
          (l : List ℕ)
          → ((j : ℕ) → In j l → Before rv' wv (version' j))
          → AllBefore rv' version' wv l
      all [] top = tt
      all (j ∷ l) top = (top j (inl refl), all l (λ k h. top k (inr h)))

  pub Ordered-congr :
      (wv : ℕ) (l : List ℕ)
      → ((i : ℕ) → In i l → Changed wv i)
      → ((j : ℕ) → In j l → Before rv' wv (version' j))
      → ((i c j : ℕ)
          → In i l
          → version i ≡ number c
          → In j l
          → Before rv c (version j)
          → Before rv' c (version' j))
      → Ordered rv version l
      → Ordered rv' version' l
  Ordered-congr wv [] shape top keep h = tt
  Ordered-congr wv (i ∷ l) shape top keep (here, h) = (
    Heads-congr wv i l (shape i (inl refl)) (λ j h'. top j (inr h'))
        (λ c j e h'. keep i c j (inl refl) e (inr h')) here,
    Ordered-congr wv l (λ j h'. shape j (inr h')) (λ j h'. top j (inr h'))
        (λ k c j h' e h''. keep k c j (inr h') e (inr h'')) h,
  )
