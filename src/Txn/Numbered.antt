-- ===== src/Txn/Numbered.antt =====
-- What txn_validate of src/txn/txn.c makes of a transaction that commits.
use ssr.Base.{
  update_self, update_twice, ℕ, suc, ◌+◌, ◌≡◌, ◌∙◌, refl, sym, ap, subst, Bool, true, false, some,
  if◌then◌else◌, update,
}
use ssr.Txn.{
  TxnState, validating, validated, aborted, Txn, Store, set_state, validate_writes, acquire_wv,
  settle_state, txn_validate,
}
use ssr.Txn.Validate.{verdict}

txn_validate-loop :
    (fuel : ℕ) (s : Store) (t : ℕ) (s' : Store)
    → (s.txns t).state ≡ validating
    → validate_writes (txn_validate fuel) fuel (acquire_wv s t) t (s.txns t).writes ≡ some s'
    → txn_validate (suc fuel) s t
      ≡ (let done = settle_state s' t (s'.txns t).state in some ((done.txns t).state, done))
unfolding txn_validate
txn_validate-loop fuel s t s' e loop = rw (txn_validate, e) (rw loop refl)

module _ (m : Store) (t : ℕ) where
  -- The transaction as it is when the loop of validate_key starts, and after it.
  abbrev pub numbered : TxnState → Txn
  numbered state = record (m.txns t) { wv = m.version + 1; state = state }

  abbrev pub with_state : TxnState → Store
  with_state state = record m { version = m.version + 1; txns = update m.txns t (numbered state) }

  abbrev with_txns : (ℕ → Txn) → Store
  with_txns txns = record m { version = m.version + 1; txns = txns }

  acquire_wv-first :
      (s : Store)
      → (s.txns t).wv ≡ 0
      → acquire_wv s t ≡ record s {
        version = s.version + 1;
        txns = update s.txns t (record (s.txns t) { wv = s.version + 1 });
      }
  acquire_wv-first s e = rw e refl

  acquire_wv-with_state :
      (m.txns t).wv ≡ 0 → acquire_wv (set_state m t validating) t ≡ with_state validating
  acquire_wv-with_state e =
      let self = update_self m.txns t (record (m.txns t) { state = validating }) in
      acquire_wv-first (set_state m t validating) (ap (λ x. x.wv) self ∙ e)
      ∙ ap
          (λ (x : Txn). with_txns (
            update (update m.txns t (record (m.txns t) { state = validating })) t
              (record x { wv = m.version + 1 })))
          self
      ∙ ap with_txns (update_twice m.txns t _ _)

  pub set_state-with_state : (a b : TxnState) → set_state (with_state a) t b ≡ with_state b
  set_state-with_state a b =
      let self = update_self m.txns t (numbered a) in
      ap (λ (x : Txn). with_txns (update (update m.txns t (numbered a)) t (record x { state = b })))
        self
      ∙ ap with_txns (update_twice m.txns t _ _)

  pub with_state_self : (state : TxnState) → (with_state state).txns t ≡ numbered state
  with_state_self state = update_self m.txns t (numbered state)

  -- What the loop over the written keys leaves, and the states after it.
  abbrev pub looped : Bool → Store
  looped clash =
      if clash then set_state (with_state validating) t aborted else with_state validating

  settle_state-looped :
      (clash : Bool)
      → settle_state (looped clash) t ((looped clash).txns t).state ≡ with_state (verdict clash)
  settle_state-looped true =
      subst (λ s. settle_state s t (s.txns t).state ≡ with_state aborted)
        (sym (set_state-with_state validating aborted))
        (ap (λ x. settle_state (with_state aborted) t x.state) (with_state_self aborted))
  settle_state-looped false =
      ap (λ x. settle_state (with_state validating) t x.state) (with_state_self validating)
      ∙ set_state-with_state validating validated

  pub txn_validate-verdict :
      (fuel : ℕ) (clash : Bool)
      → (m.txns t).wv ≡ 0
      → validate_writes (txn_validate fuel) fuel (with_state validating) t (m.txns t).writes
        ≡ some (looped clash)
      → txn_validate (suc fuel) (set_state m t validating) t
        ≡ some (verdict clash, with_state (verdict clash))
  txn_validate-verdict fuel clash e loop =
      let self = update_self m.txns t (record (m.txns t) { state = validating }) in
      txn_validate-loop fuel (set_state m t validating) t (looped clash) (ap (λ x. x.state) self) (
        ap
          (λ s.
            validate_writes (txn_validate fuel) fuel s t ((set_state m t validating).txns t).writes)
          (acquire_wv-with_state e)
        ∙ ap
            (λ (x : Txn).
              validate_writes (txn_validate fuel) fuel (with_state validating) t x.writes)
            self
        ∙ loop)
      ∙ ap (λ s. some ((s.txns t).state, s)) (settle_state-looped clash)
      ∙ ap (λ x. some (x.state, with_state (verdict clash))) (with_state_self (verdict clash))
