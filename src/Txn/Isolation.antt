-- ===== src/Txn/Isolation.antt =====
-- Snapshot isolation of the transactions of src/txn/txn.c.
use ssr.Base.{
  update_self, ℕ, ◌≤◌, ◌<◌, ◌≡◌, ◌≢◌, ◌∙◌, refl, ap, inl, inr, true, false, some, List, [], ◌∷◌,
  ◌==◌, if◌then◌else◌, update, arith, length,
}
use ssr.Txn.{Version, number, aborted_version, writer, Update, Txn, Store}
use ssr.Txn.Ops.{txn_begin, txn_map_set}
use ssr.Txn.Get.{txn_map_get}
use ssr.Txn.System.{System, Reach, Others, In, begin_step, set_step, here, other}
use ssr.Txn.Invariant.{Inv}
use ssr.Txn.Steps.{begun, txn_begin-begun, number-le, writer-live}
use ssr.Txn.Pushed.{txn_map_set-pushed}
use ssr.Txn.Reading.{reading}
use ssr.Txn.Safety.{Step-Inv, Reach-Inv}
use ssr.Txn.Snapshot.{sight, result_of, txn_map_get-sight, sight-Step, sight-pushed}

-- The value that was committed last, or the plain value of the key.
abbrev pub latest : (ℕ → Update) → List ℕ → (rest : ℕ) → ℕ
latest updates [] rest = rest
latest updates (i ∷ l) rest = elim (updates i).version [
  | number n ↦ (updates i).value
  | aborted_version ↦ latest updates l rest
  | writer w ↦ latest updates l rest
]

sight-Others :
    {t : ℕ} {s s' : System}
    → Others t s s'
    → Inv s
    → s.live t ≡ true
    → (k : ℕ) → Inv s' × (s'.live t ≡ true) × (sight s' t k ≡ sight s t k)
sight-Others here inv live k = (inv, live, refl)
sight-Others {t} {s} (other others ne step) inv live k =
    let (inv', live', e) = sight-Others others inv live k in
    let (e', live'') = sight-Step step inv' t k ne live' in (Step-Inv step inv', live'', e' ∙ e)

reading-latest :
    (updates : ℕ → Update) (rv t : ℕ) (l : List ℕ) (rest : ℕ)
    → ((i n : ℕ) → In i l → (updates i).version ≡ number n → n ≤ rv)
    → ((i w : ℕ) → In i l → (updates i).version ≡ writer w → t ≢ w)
    → reading updates rv t l rest ≡ latest updates l rest
reading-latest updates rv t [] rest old others = refl
reading-latest updates rv t (i ∷ l) rest old others =
    by_version (updates i).version refl
      (reading-latest updates rv t l rest (λ j n h. old j n (inr h)) (λ j w h. others j w (inr h)))
  where
    by_version :
        (v : Version)
        → (updates i).version ≡ v
        → reading updates rv t l rest ≡ latest updates l rest
        → reading updates rv t (i ∷ l) rest ≡ latest updates (i ∷ l) rest
    by_version (number n) e later = let le = old i n (inl refl) e in ground (arith, e, le)
    by_version aborted_version e later = ground (arith, e, later)
    by_version (writer w) e later = let ne = others i w (inl refl) e in ground (arith, e, later, ne)

sight-begin :
    (s : System) (inv : Inv s) (t k : ℕ) (active : List (ℕ × ℕ))
    → s.live t ≡ false
    → reading s.mem.updates ((begun s.mem t active).txns t).rv t (s.chain k) (s.rest k)
      ≡ latest s.mem.updates (s.chain k) (s.rest k)
sight-begin s inv t k active dead =
    ap (λ (x : Txn). reading s.mem.updates x.rv t (s.chain k) (s.rest k))
      (update_self s.mem.txns t _)
    ∙ reading-latest s.mem.updates s.mem.version t (s.chain k) (s.rest k)
        (λ i n h e. number-le s inv k i h n e)
        (λ i w h e e'.
          let live = (writer-live s inv k i h w e).0 in
          let same : s.live t ≡ s.live w = ap s.live e' in cc)

-- After any calls that collect nothing, a transaction that begins, and then, whatever other
-- transactions begin, set, read without collecting, abort and commit, reads a key: txn_map_get, with
-- fuel above the number of updates of the key, returns the value that was committed last before it
-- began.
pub reads_snapshot :
    {map : ℕ → ℕ} {s s' : System} {mem : Store}
    → Reach map s
    → (t fuel : ℕ) → s.live t ≡ false
    → txn_begin fuel s.mem t ≡ some mem
    → Others t (record s { mem = mem; live = update s.live t true }) s'
    → (k fuel' : ℕ) → length (s'.chain k) < fuel'
    → result_of (txn_map_get fuel' s'.mem t k) ≡ some (latest s.mem.updates (s.chain k) (s.rest k))
reads_snapshot {s = s} {s'} {mem} reach t fuel dead begun_mem others k fuel' lt =
    let inv = Reach-Inv reach in
    let (active, e) = txn_begin-begun fuel s.mem mem t begun_mem in
    let (inv', live', kept) =
      sight-Others others (Step-Inv (begin_step fuel dead begun_mem) inv)
        (update_self s.live t true) k in
    txn_map_get-sight s' inv' t k fuel' live' lt
    ∙ ap some (
        kept
        ∙ ap (λ (m : Store). reading m.updates (m.txns t).rv t (s.chain k) (s.rest k)) e
        ∙ sight-begin s inv t k active dead)

-- After any calls that collect nothing, a transaction that is live sets a key: whatever other
-- transactions do afterwards without collecting, its txn_map_get, with fuel above the number of
-- updates of the key, returns for this key the value that it set, and for any other key what it
-- returned before.
pub reads_own_write :
    {map : ℕ → ℕ} {s s' : System}
    → Reach map s
    → (t u key value : ℕ) → s.live t ≡ true
    → ((k : ℕ) → ¬ In u (s.chain k))
    → Others t
        (record s {
          mem = txn_map_set s.mem t u key value;
          chain = update s.chain key (u ∷ s.chain key);
        })
        s'
    → (k fuel fuel' : ℕ) → length (s.chain k) < fuel
    → length (s'.chain k) < fuel'
    → result_of (txn_map_get fuel' s'.mem t k)
      ≡ (if key == k then some value else result_of (txn_map_get fuel s.mem t k))
reads_own_write {s = s} {s'} reach t u key value live new others k fuel fuel' lt lt' =
    let inv = Reach-Inv reach in
    let (inv', live', kept) =
      sight-Others others (Step-Inv (set_step u key value live new) inv) live k in
    let pushed_sight =
      ap
        (λ (m : Store).
          reading m.updates (m.txns t).rv t (update s.chain key (u ∷ s.chain key) k) (s.rest k))
        (txn_map_set-pushed s.mem t u key value (inv.lives t live).runs)
      ∙ sight-pushed s inv t u key value live new t k in
    txn_map_get-sight s' inv' t k fuel' live' lt'
    ∙ ap some (kept ∙ pushed_sight)
    ∙ ground (arith, txn_map_get-sight s inv t k fuel live lt)
