-- ===== src/Txn/Snapshot.antt =====
-- What a transaction of src/txn/txn.c reads does not depend on what others do meanwhile.
use ssr.Base.{
  update-other, ℕ, ◌+◌, ◌≤◌, ◌<◌, ◌≡◌, ◌≢◌, ◌⊎◌, ◌∙◌, refl, ap, subst, inl, inr, Bool, true, false,
  Option, none, some, List, ◌∷◌, ◌==◌, if◌then◌else◌, update, Bool-cases, arith, length, ==_iff,
}
use ssr.Txn.{Version, number, aborted_version, writer, Update, Txn, Store}
use ssr.Txn.Ops.{detach}
use ssr.Txn.Get.{txn_map_get}
use ssr.Txn.System.{System, Step, In, begin_step, set_step, get_step, abort_step, commit_step}
use ssr.Txn.Invariant.{Inv, rvs, versions}
use ssr.Txn.Steps.{begun, txn_begin-begun, writer-live}
use ssr.Txn.Pushed.{pushed, txn_map_set-pushed, set_update, set_self}
use ssr.Txn.Commit.{clashes, final, committed}
use ssr.Txn.Ended.{ended, ended_version, detached, detach-fields}
use ssr.Txn.Reading.{sees, reading, reading-congr, Settled, txn_map_get-reading}
use ssr.Txn.Safety.{txn_abort-ended, txn_commit-committed}

-- What `t` reads of a key.
abbrev pub sight : System → (t k : ℕ) → ℕ
sight s t k = reading s.mem.updates (s.mem.txns t).rv t (s.chain k) (s.rest k)

-- What txn_map_get returns.
abbrev pub result_of : Option (ℕ × Store) → Option ℕ
result_of none = none
result_of (some (v, m)) = some v

Known-Settled :
    (s : System) (inv : Inv s) (k i : ℕ) → In i (s.chain k) → Settled s.mem (versions s.mem i)
Known-Settled s inv k i h = settled (versions s.mem i) refl
  where
    settled : (v : Version) → versions s.mem i ≡ v → Settled s.mem v
    settled (number n) e = tt
    settled aborted_version e = tt
    settled (writer w) e = (inv.lives w (writer-live s inv k i h w e).0).runs

pub txn_map_get-sight :
    (s : System) (inv : Inv s) (t k fuel : ℕ)
    → s.live t ≡ true
    → length (s.chain k) < fuel
    → result_of (txn_map_get fuel s.mem t k) ≡ some (sight s t k)
txn_map_get-sight s inv t k fuel live lt =
    let (m', e) =
      txn_map_get-reading fuel s.mem t k (s.chain k) (s.rest k) (inv.lives t live).runs
        (inv.linked k) (λ i h. Known-Settled s inv k i h) lt in
    ap result_of e

-- The end of another transaction shows nothing new.
sees-ended :
    (rv t w version : ℕ) (final v : Version)
    → w ≢ t
    → rv ≤ version
    → (final ≡ aborted_version) ⊎ (final ≡ number (version + 1))
    → sees rv t (ended_version w final v) ≡ sees rv t v
sees-ended rv t w version final (number n) ne le last = refl
sees-ended rv t w version final aborted_version ne le last = refl
sees-ended rv t w version final (writer x) ne le last = elim (Bool-cases (x == w)) [
  | inl own ↦
      let hidden : sees rv t (writer x) ≡ false = ground (arith, own) in
      rw (own, hidden)
        (elim last [ inl e ↦ ap (sees rv t) e | inr e ↦ ap (sees rv t) e ∙ ground arith ])
  | inr stays ↦ rw stays refl
]

sight-ended :
    (s : System) (inv : Inv s) (t w k version : ℕ) (live : s.live w ≡ true) (last : Version)
    (active : List (ℕ × ℕ)) (txns : ℕ → Txn)
    → w ≢ t
    → s.live t ≡ true
    → (last ≡ aborted_version) ⊎ (last ≡ number (s.mem.version + 1))
    → txns t ≡ s.mem.txns t
    → reading (ended s.mem w last version active txns).updates (txns t).rv t (s.chain k) (s.rest k)
      ≡ sight s t k
sight-ended s inv t w k version live last active txns ne live_t fits same =
    ap
      (λ (x : Txn).
        reading (detach s.mem.updates last (s.mem.txns w).writes) x.rv t (s.chain k) (s.rest k))
      same
    ∙ reading-congr s.mem.updates (detach s.mem.updates last (s.mem.txns w).writes) (rvs s.mem t) t
        (s.chain k) (s.rest k)
        (λ i h. (
          (detach-fields last s.mem.updates (s.mem.txns w).writes i).1,
          ap (sees (rvs s.mem t) t) (detached s inv w live last k i h)
              ∙ sees-ended (rvs s.mem t) t w s.mem.version last (versions s.mem i) ne
                  (inv.lives t live_t).rv_le fits,
        ))

sight-begun :
    (s : System) (t w k : ℕ) (active : List (ℕ × ℕ))
    → w ≢ t
    → reading s.mem.updates ((begun s.mem w active).txns t).rv t (s.chain k) (s.rest k)
      ≡ sight s t k
sight-begun s t w k active ne =
    ap (λ (x : Txn). reading s.mem.updates x.rv t (s.chain k) (s.rest k))
      (update-other s.mem.txns w _ t ne)

module _ (s : System) (inv : Inv s) (w u key value : ℕ) (live : s.live w ≡ true)
    (new : (k : ℕ) → ¬ In u (s.chain k)) where
  abbrev set_updates : ℕ → Update
  set_updates = (pushed s.mem w u key value).updates

  abbrev set_chain : ℕ → List ℕ
  set_chain = update s.chain key (u ∷ s.chain key)

  reading-set :
      (rv t k : ℕ)
      → reading set_updates rv t (s.chain k) (s.rest k)
        ≡ reading s.mem.updates rv t (s.chain k) (s.rest k)
  reading-set rv t k = reading-congr s.mem.updates set_updates rv t (s.chain k) (s.rest k) (λ i h.
      let e = set_update s inv w u key value live new k i h in
      (ap (λ x. x.value) e, ap (λ x. sees rv t x.version) e))

  -- What a reader makes of the new update, which is by `w`.
  reading-pushed :
      (rv t : ℕ)
      → reading set_updates rv t (u ∷ s.chain key) (s.rest key)
        ≡ (if w == t then value else reading s.mem.updates rv t (s.chain key) (s.rest key))
  reading-pushed rv t =
      ap
        (λ (x : Update).
          if sees rv t x.version
          then x.value
          else reading set_updates rv t (s.chain key) (s.rest key))
        (set_self s inv w u key value live new)
      ∙ ap (λ r. if w == t then value else r) (reading-set rv t key)

  reading-set_chain :
      (rv t k : ℕ)
      → reading set_updates rv t (set_chain k) (s.rest k) ≡ (
          if key == k
          then (if w == t then value else reading s.mem.updates rv t (s.chain k) (s.rest k))
          else reading s.mem.updates rv t (s.chain k) (s.rest k))
  reading-set_chain rv t k = elim (Bool-cases (key == k)) [
    | inl e ↦ rw e (
        subst
          (λ j.
            reading set_updates rv t (u ∷ s.chain key) (s.rest j)
            ≡ (if w == t then value else reading s.mem.updates rv t (s.chain j) (s.rest j)))
          ((==_iff key k).0 e) (reading-pushed rv t))
    | inr e ↦ rw e (reading-set rv t k)
  ]

  rv-set : (t : ℕ) → rvs (pushed s.mem w u key value) t ≡ rvs s.mem t
  rv-set t = ground arith

  -- What anyone reads after txn_map_set.
  pub sight-pushed :
      (t k : ℕ)
      → reading set_updates (rvs (pushed s.mem w u key value) t) t (set_chain k) (s.rest k)
        ≡ (if key == k then (if w == t then value else sight s t k) else sight s t k)
  sight-pushed t k =
      ap (λ rv. reading set_updates rv t (set_chain k) (s.rest k)) (rv-set t)
      ∙ reading-set_chain (rvs s.mem t) t k

final-cases :
    (m : Store) (clash : Bool)
    → (final m clash ≡ aborted_version) ⊎ (final m clash ≡ number (m.version + 1))
final-cases m true = inl refl
final-cases m false = inr refl

-- A call of another transaction.
pub sight-Step :
    {s : System} {w : ℕ} {s' : System}
    → Step s w s'
    → Inv s
    → (t k : ℕ) → w ≢ t
    → s.live t ≡ true
    → (sight s' t k ≡ sight s t k) × (s'.live t ≡ true)
sight-Step {s} {w} (begin_step fuel {mem = mem} dead e) inv t k ne live_t =
    let (active, e') = txn_begin-begun fuel s.mem mem w e in
    (
      ap (λ (m : Store). reading m.updates (m.txns t).rv t (s.chain k) (s.rest k)) e'
          ∙ sight-begun s t w k active ne,
      update-other s.live w true t ne ∙ live_t,
    )
sight-Step {s} {w} (set_step u key value live new) inv t k ne live_t = (
  ap
        (λ (m : Store).
          reading m.updates (m.txns t).rv t (update s.chain key (u ∷ s.chain key) k) (s.rest k))
        (txn_map_set-pushed s.mem w u key value (inv.lives w live).runs)
      ∙ sight-pushed s inv w u key value live new t k
      ∙ ground arith,
  live_t,
)
sight-Step {s} {w} (get_step fuel key value live e) inv t k ne live_t = (refl, live_t)
sight-Step {s} {w} (abort_step live) inv t k ne live_t = (
  ap (λ (m : Store). reading m.updates (m.txns t).rv t (s.chain k) (s.rest k))
        (txn_abort-ended s.mem w (inv.lives w live).runs)
      ∙ sight-ended s inv t w k s.mem.version live aborted_version s.mem.active s.mem.txns ne live_t
          (inl refl) refl,
  update-other s.live w false t ne ∙ live_t,
)
sight-Step {s} {w} (commit_step fuel {mem = mem} {state = state} live lt e) inv t k ne live_t =
    let (active, e') = txn_commit-committed s inv w fuel state mem live lt e in
    (
      ap (λ (m : Store). reading m.updates (m.txns t).rv t (s.chain k) (s.rest k)) e'
          ∙ sight-ended s inv t w k (s.mem.version + 1) live (final s.mem (clashes s w)) active
              (committed s.mem w (clashes s w) active).txns ne live_t
              (final-cases s.mem (clashes s w)) (update-other s.mem.txns w _ t ne),
      update-other s.live w false t ne ∙ live_t,
    )
