-- ===== src/Txn/Commit.antt =====
-- What txn_commit of src/txn/txn.c does in a store where the other transactions run.
use ssr.Base.{
  update-other, ℕ, suc, ◌+◌, ◌<◌, ◌≡◌, ◌∙◌, refl, sym, ap, subst, inl, inr, Bool, true, false,
  Option, none, some, List, ◌==◌, if◌then◌else◌, Bool-cases, arith, length,
}
use mathlib.Core.Path.{fun_ext}
use ssr.Txn.{
  TxnState, running, validating, aborted, Version, number, aborted_version, writer, Txn, Store,
  set_state, txn_validate,
}
use ssr.Txn.Ops.{txn_commit, detach, lower_count, final_version, defer_txn}
use ssr.Txn.System.{System, In}
use ssr.Txn.Invariant.{Ordered, rvs, versions, Inv}
use ssr.Txn.Validate.{conflict, verdict, Quiet, validate_writes-conflict}
use ssr.Txn.Steps.{writer-live}
use ssr.Txn.Numbered.{numbered, with_state, with_state_self, txn_validate-verdict}

abbrev pub final : Store → Bool → Version
final m clash = if clash then aborted_version else number (m.version + 1)

-- The store after a commit.
abbrev pub committed : Store → (t : ℕ) → Bool → List (ℕ × ℕ) → Store
committed m t clash active =
    defer_txn
      (record (with_state m t (verdict clash)) {
        active = active;
        updates = detach m.updates (final m clash) (m.txns t).writes;
      })
      t

-- The count of the read version is lowered last.
abbrev commit_outcome : Store → (t : ℕ) → Bool → Option (List (ℕ × ℕ)) → Option (TxnState × Store)
commit_outcome m t clash lowered = elim lowered [
  | none ↦ none
  | some active ↦ some (verdict clash, committed m t clash active)
]

abbrev pub lowered : ℕ → Store → (t : ℕ) → Option (List (ℕ × ℕ))
lowered fuel m t = lower_count fuel m.active (m.version + 1) (m.txns t).rv 2

-- What follows the validation, where `x` is the transaction.
abbrev commit_rest : ℕ → Store → TxnState → (t : ℕ) → Txn → Option (TxnState × Store)
commit_rest fuel s' state t x = elim (lower_count fuel s'.active s'.version x.rv 2) [
  | none ↦ none
  | some active ↦ some (
    state,
    defer_txn
        (record s' { active = active; updates = detach s'.updates (final_version x) x.writes }) t,
  )
]

txn_commit-validated :
    (fuel : ℕ) (m : Store) (t : ℕ) (state : TxnState) (s' : Store)
    → (m.txns t).state ≡ running
    → txn_validate fuel (set_state m t validating) t ≡ some (state, s')
    → txn_commit fuel m t ≡ commit_rest fuel s' state t (s'.txns t)
unfolding txn_commit
txn_commit-validated fuel m t state s' runs validation = rw (txn_commit, runs) (rw validation refl)

txn_commit-outcome :
    (fuel : ℕ) (m : Store) (t : ℕ) (clash : Bool)
    → (m.txns t).state ≡ running
    → txn_validate fuel (set_state m t validating) t
      ≡ some (verdict clash, with_state m t (verdict clash))
    → txn_commit fuel m t ≡ commit_outcome m t clash (lowered fuel m t)
txn_commit-outcome fuel m t clash runs validation =
    txn_commit-validated fuel m t (verdict clash) (with_state m t (verdict clash)) runs validation
    ∙ ap (commit_rest fuel (with_state m t (verdict clash)) (verdict clash) t)
        (with_state_self m t (verdict clash))
    ∙ by_verdict clash
  where
    by_verdict :
        (clash : Bool)
        → commit_rest fuel
            (with_state m t (verdict clash))
            (verdict clash)
            t
            (numbered m t (verdict clash))
          ≡ commit_outcome m t clash (lowered fuel m t)
    by_verdict true = refl
    by_verdict false = refl

rvs-with_state : (m : Store) (t : ℕ) (state : TxnState) → rvs (with_state m t state) ≡ rvs m
rvs-with_state m t state = fun_ext (λ j. ground arith)

Quiet-with_state :
    (s : System) (inv : Inv s) (t k i : ℕ)
    → In i (s.chain k)
    → Quiet (with_state s.mem t validating) t (versions s.mem i)
Quiet-with_state s inv t k i h = quiet (versions s.mem i) refl
  where
    quiet : (v : Version) → versions s.mem i ≡ v → Quiet (with_state s.mem t validating) t v
    quiet (number n) e = tt
    quiet aborted_version e = tt
    quiet (writer w) e = elim (Bool-cases (w == t)) [
      | inl own ↦ inl own
      | inr other ↦ inr (
          ap (λ x. x.state) (update-other s.mem.txns t _ w (λ e'. ground (arith, other, e')))
          ∙ (inv.lives w (writer-live s inv k i h w e).0).runs)
    ]

-- The lists in which a transaction that is live finds a conflict.
abbrev pub clashes : System → (t : ℕ) → Bool
clashes s t = conflict (s.mem.txns t).rv (versions s.mem) s.chain (s.mem.txns t).writes

pub txn_commit-lem :
    (s : System) (inv : Inv s) (t fuel : ℕ)
    → s.live t ≡ true
    → ((k : ℕ) → length (s.chain k) < fuel)
    → txn_commit (suc fuel) s.mem t
      ≡ commit_outcome s.mem t (clashes s t) (lowered (suc fuel) s.mem t)
txn_commit-lem s inv t fuel live lt =
    let l = inv.lives t live in
    let m = s.mem in
    txn_commit-outcome (suc fuel) m t (clashes s t) l.runs (
      txn_validate-verdict m t fuel (clashes s t) l.no_wv (
        validate_writes-conflict (txn_validate fuel) (with_state m t validating) t fuel s.chain
          s.rest (m.txns t).writes inv.linked
          (λ k.
            subst (λ rv. Ordered rv (versions m) (s.chain k)) (sym (rvs-with_state m t validating))
              (inv.ordered k))
          (λ k i h. Quiet-with_state s inv t k i h) lt
        ∙ ap
            (λ (x : Txn). some (
              if conflict x.rv (versions m) s.chain (m.txns t).writes
              then set_state (with_state m t validating) t aborted
              else with_state m t validating))
            (with_state_self m t validating)))
