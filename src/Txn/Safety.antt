-- ===== src/Txn/Safety.antt =====
-- The invariant of the transactions of src/txn/txn.c after any calls, and what a transaction reads
-- while others go on.
use ssr.Base.{
  update-other, ℕ, suc, ◌+◌, ◌<◌, ◌≡◌, ◌∙◌, refl, sym, ap, subst, inl, inr, true, false, some, List,
  ◌∷◌, update, Bool-cases, Option-cases, arith, length,
}
use ssr.Txn.{TxnState, running, aborted_version, Store}
use ssr.Txn.Ops.{txn_abort, txn_commit}
use ssr.Txn.System.{
  System, Step, Reach, begin_step, set_step, get_step, abort_step, commit_step, start, later,
}
use ssr.Txn.Invariant.{Inv, init-Inv}
use ssr.Txn.Steps.{txn_begin-begun, begun-Inv}
use ssr.Txn.Pushed.{txn_map_set-pushed, pushed-Inv}
use ssr.Txn.Validate.{verdict}
use ssr.Txn.Commit.{clashes, final, committed, lowered, txn_commit-lem}
use ssr.Txn.Numbered.{numbered}
use ssr.Txn.Ended.{ended, Fits}
use ssr.Txn.Ending.{ended-Inv}

pub txn_abort-ended :
    (m : Store) (t : ℕ)
    → (m.txns t).state ≡ running
    → txn_abort m t ≡ ended m t aborted_version m.version m.active m.txns
unfolding txn_abort
txn_abort-ended m t runs = rw (txn_abort, runs) refl

pub txn_commit-committed :
    (s : System) (inv : Inv s) (t fuel : ℕ) (state : TxnState) (m' : Store)
    → s.live t ≡ true
    → ((k : ℕ) → length (s.chain k) < fuel)
    → txn_commit (suc fuel) s.mem t ≡ some (state, m')
    → (active : List (ℕ × ℕ)) × (m' ≡ committed s.mem t (clashes s t) active)
txn_commit-committed s inv t fuel state m' live lt e =
    let e' = sym (txn_commit-lem s inv t fuel live lt) ∙ e in
    elim (Option-cases (lowered (suc fuel) s.mem t)) [
      | inl stuck ↦ absurd (ground (arith, stuck, e'))
      | inr (active, done) ↦ (active, ground (arith, done, e'))
    ]

final-Fits :
    (s : System) (inv : Inv s) (t : ℕ) (live : s.live t ≡ true)
    → Fits s inv t live (final s.mem (clashes s t)) (s.mem.version + 1)
final-Fits s inv t live = elim (Bool-cases (clashes s t)) [
  | inl clash ↦ rw clash (inl refl)
  | inr calm ↦ inr (ap (final s.mem) calm, omega arith, calm)
]

pub Step-Inv : {s : System} {t : ℕ} {s' : System} → Step s t s' → Inv s → Inv s'
Step-Inv {s} {t} (begin_step fuel {mem = mem} dead e) inv =
    let (active, e') = txn_begin-begun fuel s.mem mem t e in
    subst (λ m. Inv (record s { mem = m; live = update s.live t true })) (sym e')
      (begun-Inv s inv t dead active)
Step-Inv {s} {t} (set_step u key value live new) inv =
    subst (λ m. Inv (record s { mem = m; chain = update s.chain key (u ∷ s.chain key) }))
      (sym (txn_map_set-pushed s.mem t u key value (inv.lives t live).runs))
      (pushed-Inv s inv t u key value live new)
Step-Inv {s} {t} (get_step fuel key value live e) inv = inv
Step-Inv {s} {t} (abort_step live) inv =
    subst (λ m. Inv (record s { mem = m; live = update s.live t false }))
      (sym (txn_abort-ended s.mem t (inv.lives t live).runs))
      (ended-Inv s inv t live aborted_version s.mem.version (omega arith) (inl refl) s.mem.active
        s.mem.txns (λ w ne. refl))
Step-Inv {s} {t} (commit_step fuel {mem = mem} {state = state} live lt e) inv =
    let (active, e') = txn_commit-committed s inv t fuel state mem live lt e in
    subst (λ m. Inv (record s { mem = m; live = update s.live t false })) (sym e')
      (ended-Inv s inv t live (final s.mem (clashes s t)) (s.mem.version + 1) (omega arith)
        (final-Fits s inv t live) active
        (update s.mem.txns t (numbered s.mem t (verdict (clashes s t))))
        (λ w ne. update-other s.mem.txns t _ w ne))

pub Reach-Inv : {map : ℕ → ℕ} {s : System} → Reach map s → Inv s
Reach-Inv {map} start = init-Inv map
Reach-Inv (later r step) = Step-Inv step (Reach-Inv r)
