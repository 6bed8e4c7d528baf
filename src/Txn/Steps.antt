-- ===== src/Txn/Steps.antt =====
-- What the invariant gives for one update, and txn_begin of src/txn/txn.c, which keeps it.
use ssr.Base.{
  update-other, update_self, ℕ, ◌+◌, ◌≤◌, ◌<◌, ◌≡◌, ◌≢◌, ◌∙◌, refl, sym, ap, subst, inl, inr, true,
  false, some, List, [], update, Option-cases, arith,
}
use native.Mathlib.Decide.{ℕ_discrete}
use ssr.Txn.{
  running, undetermined_version, initial_writes_size, Version, number, aborted_version, writer, Txn,
  Store,
}
use ssr.Txn.Ops.{txn_begin, raise_count}
use ssr.Txn.System.{System, In}
use ssr.Txn.Invariant.{Before, Wrote, Known, rvs, versions, IsLive, Inv, Ordered-congr}

-- A version that is older than any that will be committed.
pub Before-top :
    (rv : ℕ → ℕ) (c : ℕ) (v : Version)
    → ((n : ℕ) → v ≡ number n → n ≤ c)
    → ((w : ℕ) → v ≡ writer w → rv w < c)
    → Before rv c v
Before-top rv c (number n) le lt = le n refl
Before-top rv c aborted_version le lt = tt
Before-top rv c (writer w) le lt = lt w refl

-- A read version counts only for a version that is its transaction's.
pub Before-congr :
    (rv rv' : ℕ → ℕ) (c : ℕ) (v : Version)
    → ((w : ℕ) → v ≡ writer w → rv' w ≡ rv w)
    → Before rv c v
    → Before rv' c v
Before-congr rv rv' c (number n) same h = h
Before-congr rv rv' c aborted_version same h = tt
Before-congr rv rv' c (writer w) same h = rw (same w refl) h

pub Known-congr :
    (s s' : System) (k u : ℕ) (v : Version)
    → s.mem.version ≤ s'.mem.version
    → ((w : ℕ)
        → v ≡ writer w
        → s.live w ≡ true
        → (s'.live w ≡ true) × (Wrote k u (s.mem.txns w).writes → Wrote k u (s'.mem.txns w).writes))
    → Known s k u v
    → Known s' k u v
Known-congr s s' k u (number n) le keep h = omega arith
Known-congr s s' k u aborted_version le keep h = tt
Known-congr s s' k u (writer w) le keep (live, wrote) =
    let (live', writes) = keep w refl live in (live', writes wrote)

module _ (s : System) (inv : Inv s) (k u : ℕ) (in_chain : In u (s.chain k)) where
  -- What the invariant knows of a version.
  pub number-le : (n : ℕ) → versions s.mem u ≡ number n → n ≤ s.mem.version
  number-le n e = subst (Known s k u) e (inv.known k u in_chain)

  pub writer-live :
      (w : ℕ) → versions s.mem u ≡ writer w → (s.live w ≡ true) × Wrote k u (s.mem.txns w).writes
  writer-live w e = subst (Known s k u) e (inv.known k u in_chain)

  -- A version to come is above all of them.
  pub Before-next :
      (rv' : ℕ → ℕ)
      → ((w : ℕ) → s.live w ≡ true → rv' w ≤ s.mem.version)
      → Before rv' (s.mem.version + 1) (versions s.mem u)
  Before-next rv' le =
      Before-top rv' (s.mem.version + 1) (versions s.mem u) (λ n e. omega (arith, number-le n e))
        (λ w e. omega (arith, le w (writer-live w e).0))

-- The transactions that are live are none that has just begun.
live-ne : (s : System) (t w : ℕ) → s.live t ≡ false → s.live w ≡ true → t ≢ w
live-ne s t w dead live e = let e' : s.live t ≡ s.live w = ap s.live e in cc

abbrev pub fresh_txn : Store → Txn
fresh_txn m = record {
  rv = m.version;
  wv = undetermined_version;
  writes = [];
  writes_size = initial_writes_size;
  state = running;
}

abbrev pub begun : Store → (t : ℕ) → List (ℕ × ℕ) → Store
begun m t active = record m { active = active; txns = update m.txns t (fresh_txn m) }

pub txn_begin-begun :
    (fuel : ℕ) (m m' : Store) (t : ℕ)
    → txn_begin fuel m t ≡ some m'
    → (active : List (ℕ × ℕ)) × (m' ≡ begun m t active)
unfolding txn_begin
txn_begin-begun fuel m m' t e = elim (Option-cases (raise_count fuel m.active m.version 0)) [
  | inl stuck ↦ absurd (ground (arith, stuck, e))
  | inr (active, done) ↦ (active, ground (arith, done, e))
]

module _ (s : System) (inv : Inv s) (t : ℕ) (dead : s.live t ≡ false) (active : List (ℕ × ℕ)) where
  abbrev after_begin : System
  after_begin = record s { mem = begun s.mem t active; live = update s.live t true }

  same_txn : (w : ℕ) → s.live w ≡ true → (begun s.mem t active).txns w ≡ s.mem.txns w
  same_txn w live = update-other s.mem.txns t (fresh_txn s.mem) w (live-ne s t w dead live)

  live-after : (w : ℕ) → s.live w ≡ true → after_begin.live w ≡ true
  live-after w live = update-other s.live t true w (live-ne s t w dead live) ∙ live

  begun-lives :
      (w : ℕ) → after_begin.live w ≡ true → IsLive after_begin.mem (after_begin.mem.txns w)
  begun-lives w live = elim (ℕ_discrete t w) [
    | yes e ↦
        rw (sym e, update_self s.mem.txns t (fresh_txn s.mem))
          (record { runs = refl; no_wv = refl; rv_le = omega arith })
    | no ne ↦
        let live' : s.live w ≡ true = sym (update-other s.live t true w ne) ∙ live in
        let old = inv.lives w live' in
        rw (same_txn w live') (record { runs = old.runs; no_wv = old.no_wv; rv_le = old.rv_le })
  ]

  begun-written :
      (w k u : ℕ)
      → after_begin.live w ≡ true
      → Wrote k u (after_begin.mem.txns w).writes
      → In u (s.chain k) × (versions s.mem u ≡ writer w)
  begun-written w k u live wrote = elim (ℕ_discrete t w) [
    | yes e ↦ absurd (
        subst (λ x. Wrote k u x.writes)
          (ap (λ j. after_begin.mem.txns j) (sym e) ∙ update_self s.mem.txns t (fresh_txn s.mem))
          wrote)
    | no ne ↦
        let live' : s.live w ≡ true = sym (update-other s.live t true w ne) ∙ live in
        inv.written w k u live' (subst (λ x. Wrote k u x.writes) (same_txn w live') wrote)
  ]

  pub begun-Inv : Inv after_begin
  begun-Inv = record {
    linked = inv.linked;
    ordered = λ k.
        Ordered-congr (rvs s.mem) (rvs after_begin.mem) (versions s.mem) (versions s.mem)
          (s.mem.version + 1) (s.chain k) (λ i h. inl refl)
          (λ j h. Before-next s inv k j h (rvs after_begin.mem) (λ w live.
            subst (λ x. x.rv ≤ s.mem.version) (sym (same_txn w live)) (inv.lives w live).rv_le))
          (λ i c j hi e hj.
            Before-congr (rvs s.mem) (rvs after_begin.mem) c (versions s.mem j)
              (λ w e'. ap (λ x. x.rv) (same_txn w (writer-live s inv k j hj w e').0)))
          (inv.ordered k);
    known = λ k u h.
        Known-congr s after_begin k u (versions s.mem u) (omega arith)
          (λ w e live. (live-after w live, λ wrote. rw (same_txn w live) wrote)) (inv.known k u h);
    lives = begun-lives;
    written = begun-written;
  }
