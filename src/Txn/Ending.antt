-- ===== src/Txn/Ending.antt =====
-- The end of a transaction of src/txn/txn.c keeps the invariant.
use ssr.Base.{
  update-other, update_self, ℕ, ◌+◌, ◌≤◌, ◌<◌, ◌≡◌, ◌≢◌, ◌⊎◌, ◌∙◌, refl, sym, ap, subst, inl, inr,
  true, false, List, ◌==◌, if◌then◌else◌, update, Bool-cases, arith, ==_iff,
}
use ssr.Txn.{Version, number, aborted_version, writer, Txn}
use ssr.Txn.System.{System, In}
use ssr.Txn.Invariant.{
  Linked, Before, Ordered, Wrote, Known, rvs, versions, IsLive, Inv, Linked-congr, Ordered-congr,
}
use ssr.Txn.Steps.{number-le, writer-live}
use ssr.Txn.Validate.{conflict-Wrote, any_newer-In}
use ssr.Txn.Commit.{clashes}
use ssr.Txn.Ended.{detached, detach-fields, ended_version, ended, Fits, ended-Changed}

module _ (s : System) (inv : Inv s) (t : ℕ) (live : s.live t ≡ true) (final : Version) (version : ℕ)
    (le : s.mem.version ≤ version) (fits : Fits s inv t live final version) (active : List (ℕ × ℕ))
    (txns : ℕ → Txn) (same : (w : ℕ) → t ≢ w → txns w ≡ s.mem.txns w) where
  abbrev pub after_end : System
  after_end = record s {
    mem = ended s.mem t final version active txns;
    live = update s.live t false;
  }

  -- The transactions that are live afterwards.
  live_ne : (w : ℕ) → after_end.live w ≡ true → t ≢ w
  live_ne w l e =
      let e' : after_end.live t ≡ false = update_self s.live t false in
      let l' : after_end.live t ≡ true = ap after_end.live e ∙ l in cc

  live_before : (w : ℕ) → after_end.live w ≡ true → s.live w ≡ true
  live_before w l = sym (update-other s.live t false w (live_ne w l)) ∙ l

  not_same : (w : ℕ) → t ≢ w → (w == t) ≡ false
  not_same w ne = elim (Bool-cases (w == t)) [
    | inl own ↦ absurd (ne (sym ((==_iff w t).0 own)))
    | inr other ↦ other
  ]

  end-Linked : (k : ℕ) → Linked after_end.mem.updates (s.mem.map k) (s.chain k) (s.rest k)
  end-Linked k =
      Linked-congr s.mem.updates after_end.mem.updates (s.mem.map k) (s.chain k) (s.rest k)
        (λ i h. (detach-fields final s.mem.updates (s.mem.txns t).writes i).0) (inv.linked k)

  ended-Known :
      (k u : ℕ) (v : Version)
      → versions s.mem u ≡ v
      → Known s k u v
      → Known after_end k u (ended_version t final v)
  ended-Known k u (number n) e known = omega arith
  ended-Known k u aborted_version e known = tt
  ended-Known k u (writer w) e (l, wrote) = elim (Bool-cases (w == t)) [
    | inl own ↦ rw own (elim fits [
      | inl e' ↦ subst (Known after_end k u) (sym e') tt
      | inr (e', le', calm) ↦ subst (Known after_end k u) (sym e') le'
    ])
    | inr other ↦
        let ne : t ≢ w = λ e'. ground (arith, other, e') in
        rw other (
          update-other s.live t false w ne ∙ l,
          subst (λ x. Wrote k u x.writes) (sym (same w ne)) wrote,
        )
  ]

  -- A transaction without a conflict has overwritten no update that it did not read.
  overwrites :
      (k i c j w : ℕ)
      → versions s.mem j ≡ writer w
      → In i (s.chain k)
      → versions s.mem i ≡ number c
      → In j (s.chain k)
      → rvs s.mem w < c
      → (w == t) ≡ true
      → clashes s t ≡ false
      → ⊥
  overwrites k i c j w e hi ei hj before own calm =
      let e' : w ≡ t = (==_iff w t).0 own in
      let wrote : Wrote k j (s.mem.txns t).writes =
        subst (λ x. Wrote k j (s.mem.txns x).writes) e' (writer-live s inv k j hj w e).1 in
      let older : c ≤ (s.mem.txns t).rv =
        any_newer-In (s.mem.txns t).rv c (versions s.mem) (s.chain k) i hi ei (
          conflict-Wrote (s.mem.txns t).rv (versions s.mem) s.chain (s.mem.txns t).writes k j wrote
            calm) in
      let younger : rvs s.mem t < c = subst (λ x. rvs s.mem x < c) e' before in
      omega (arith, older, younger)

  -- An update that stood below a committed one still may.
  kept_Before :
      (k i c j : ℕ) (v : Version)
      → versions s.mem j ≡ v
      → In i (s.chain k)
      → versions s.mem i ≡ number c
      → In j (s.chain k)
      → Before (rvs s.mem) c v
      → Before (rvs after_end.mem) c (ended_version t final v)
  kept_Before k i c j (number n) e hi ei hj before = before
  kept_Before k i c j aborted_version e hi ei hj before = tt
  kept_Before k i c j (writer w) e hi ei hj before = elim (Bool-cases (w == t)) [
    | inl own ↦ rw own (elim fits [
      | inl e' ↦ subst (Before (rvs after_end.mem) c) (sym e') tt
      | inr (e', le', calm) ↦ absurd (overwrites k i c j w e hi ei hj before own calm)
    ])
    | inr other ↦
        rw other (subst (λ x. x.rv < c) (sym (same w (λ e'. ground (arith, other, e')))) before)
  ]

  top_Before :
      (k j : ℕ) (v : Version)
      → versions s.mem j ≡ v
      → In j (s.chain k)
      → Before (rvs after_end.mem) (s.mem.version + 1) (ended_version t final v)
  top_Before k j (number n) e h = omega (arith, number-le s inv k j h n e)
  top_Before k j aborted_version e h = tt
  top_Before k j (writer w) e h = elim (Bool-cases (w == t)) [
    | inl own ↦ rw own (elim fits [
      | inl e' ↦ subst (Before (rvs after_end.mem) (s.mem.version + 1)) (sym e') tt
      | inr (e', le', calm) ↦
          subst (Before (rvs after_end.mem) (s.mem.version + 1)) (sym e') (omega arith)
    ])
    | inr other ↦
        let l = inv.lives w (writer-live s inv k j h w e).0 in
        rw other (
          subst (λ x. x.rv < s.mem.version + 1) (sym (same w (λ e'. ground (arith, other, e'))))
            (omega (arith, l.rv_le)))
  ]

  end-Ordered : (k : ℕ) → Ordered (rvs after_end.mem) (versions after_end.mem) (s.chain k)
  end-Ordered k =
      Ordered-congr (rvs s.mem) (rvs after_end.mem) (versions s.mem) (versions after_end.mem)
        (s.mem.version + 1) (s.chain k)
        (λ i h.
          subst
            (λ v. (v ≡ versions s.mem i) ⊎ (v ≡ aborted_version) ⊎ (v ≡ number (s.mem.version + 1)))
            (sym (detached s inv t live final k i h))
            (ended-Changed s inv t live final version (versions s.mem i) fits))
        (λ j h.
          subst (Before (rvs after_end.mem) (s.mem.version + 1))
            (sym (detached s inv t live final k j h)) (top_Before k j (versions s.mem j) refl h))
        (λ i c j hi e hj before.
          subst (Before (rvs after_end.mem) c) (sym (detached s inv t live final k j hj))
            (kept_Before k i c j (versions s.mem j) refl hi e hj before))
        (inv.ordered k)

  end_written :
      (w k u : ℕ)
      → after_end.live w ≡ true
      → Wrote k u (txns w).writes
      → In u (s.chain k) × (versions after_end.mem u ≡ writer w)
  end_written w k u l wrote =
      let ne = live_ne w l in
      let (h, e) =
        inv.written w k u (live_before w l) (subst (λ x. Wrote k u x.writes) (same w ne) wrote) in
      (
        h,
        detached s inv t live final k u h
            ∙ ap (ended_version t final) e
            ∙ ap (λ b. if b then final else writer w) (not_same w ne),
      )

  pub ended-Inv : Inv after_end
  ended-Inv = record {
    linked = end-Linked;
    ordered = end-Ordered;
    known = λ k u h.
        subst (Known after_end k u) (sym (detached s inv t live final k u h))
          (ended-Known k u (versions s.mem u) refl (inv.known k u h));
    lives = λ w l.
        let old = inv.lives w (live_before w l) in
        subst (IsLive after_end.mem) (sym (same w (live_ne w l)))
          (record { runs = old.runs; no_wv = old.no_wv; rv_le = omega (arith, old.rv_le, le) });
    written = end_written;
  }
