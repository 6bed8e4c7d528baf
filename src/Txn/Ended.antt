-- ===== src/Txn/Ended.antt =====
-- The end of a transaction of src/txn/txn.c, by txn_abort or txn_commit, keeps the invariant.
use ssr.Base.{
  update-other, ℕ, ◌+◌, ◌≤◌, ◌≡◌, ◌≢◌, ◌⊎◌, ◌∙◌, refl, sym, ap, subst, inl, inr, true, false, List,
  [], ◌∷◌, ◌==◌, if◌then◌else◌, update, Bool-cases, arith, ==_iff,
}
use ssr.Txn.{Version, number, aborted_version, writer, Update, Txn, Store, txn_block, writes_block}
use ssr.Txn.Ops.{detach}
use ssr.Txn.System.{System, In}
use ssr.Txn.Invariant.{Wrote, versions, Inv}
use ssr.Txn.Steps.{writer-live}
use ssr.Txn.Commit.{clashes}

module _ (v : Version) where
  detached-kept :
      (updates : ℕ → Update) (writes : List (ℕ × ℕ)) (i : ℕ)
      → (updates i).version ≡ v
      → (detach updates v writes i).version ≡ v
  unfolding detach
  detached-kept updates [] i e = e
  detached-kept updates ((k, u) ∷ writes) i e =
      detached-kept (update updates u (record (updates u) { version = v })) writes i
        (ground (arith, e))

  pub detach-Wrote :
      (updates : ℕ → Update) (writes : List (ℕ × ℕ)) (k i : ℕ)
      → Wrote k i writes
      → (detach updates v writes i).version ≡ v
  unfolding detach
  detach-Wrote updates [] k i h = absurd h
  detach-Wrote updates ((j, u) ∷ writes) k i (inl (e, e')) =
      detached-kept (update updates u (record (updates u) { version = v })) writes i
        (ground (arith, e'))
  detach-Wrote updates ((j, u) ∷ writes) k i (inr h) =
      detach-Wrote (update updates u (record (updates u) { version = v })) writes k i h

  detach-other :
      (updates : ℕ → Update) (writes : List (ℕ × ℕ)) (i : ℕ)
      → ((k : ℕ) → ¬ Wrote k i writes)
      → detach updates v writes i ≡ updates i
  unfolding detach
  detach-other updates [] i out = refl
  detach-other updates ((k, u) ∷ writes) i out =
      detach-other (update updates u (record (updates u) { version = v })) writes i
        (λ j h. out j (inr h))
      ∙ update-other updates u _ i (λ e. out k (inl (refl, sym e)))

  -- The links and values stay.
  pub detach-fields :
      (updates : ℕ → Update) (writes : List (ℕ × ℕ)) (i : ℕ)
      → ((detach updates v writes i).next ≡ (updates i).next)
        × ((detach updates v writes i).value ≡ (updates i).value)
  unfolding detach
  detach-fields updates [] i = (refl, refl)
  detach-fields updates ((k, u) ∷ writes) i =
      let (e, e') =
        detach-fields (update updates u (record (updates u) { version = v })) writes i in
      (ground (arith, e), ground (arith, e'))

-- The version of an update after the end of `t`.
abbrev pub ended_version : (t : ℕ) (final : Version) → Version → Version
ended_version t final (number n) = number n
ended_version t final aborted_version = aborted_version
ended_version t final (writer w) = if w == t then final else writer w

-- The store after the end of `t`.
abbrev pub ended :
    Store → (t : ℕ) (final : Version) (version : ℕ) → List (ℕ × ℕ) → (ℕ → Txn) → Store
ended m t final version active txns = record m {
  version = version;
  active = active;
  txns = txns;
  updates = detach m.updates final (m.txns t).writes;
  deferred = txn_block t ∷ writes_block t ∷ m.deferred;
}

abbrev other_writer : ℕ → Version → ℕ
other_writer d (number n) = d
other_writer d aborted_version = d
other_writer d (writer w) = w

module _ (s : System) (inv : Inv s) (t : ℕ) (live : s.live t ≡ true) (final : Version) where
  ne_writer : (w : ℕ) → (w == t) ≡ false → writer w ≢ writer t
  ne_writer w other e = let e' : w ≡ t = ap (other_writer 0) e in ground (arith, e', other)

  -- Only the updates of `t` change their version.
  pub detached :
      (k i : ℕ)
      → In i (s.chain k)
      → (detach s.mem.updates final (s.mem.txns t).writes i).version
        ≡ ended_version t final (versions s.mem i)
  detached k i h = by_version (versions s.mem i) refl
    where
      same :
          versions s.mem i ≢ writer t
          → (detach s.mem.updates final (s.mem.txns t).writes i).version ≡ versions s.mem i
      same ne =
          ap (λ x. x.version)
            (detach-other final s.mem.updates (s.mem.txns t).writes i
              (λ j h'. ne (inv.written t j i live h').1))

      by_version :
          (v : Version)
          → versions s.mem i ≡ v
          → (detach s.mem.updates final (s.mem.txns t).writes i).version ≡ ended_version t final v
      by_version (number n) e = same (λ e'. cc) ∙ e
      by_version aborted_version e = same (λ e'. cc) ∙ e
      by_version (writer w) e = elim (Bool-cases (w == t)) [
        | inl own ↦ rw own (
            detach-Wrote final s.mem.updates (s.mem.txns t).writes k i (
              subst (λ j. Wrote k i (s.mem.txns j).writes) ((==_iff w t).0 own)
                (writer-live s inv k i h w e).1))
        | inr other ↦ rw other (same (λ e'. ne_writer w other (sym e ∙ e')) ∙ e)
      ]

  -- The last version of `t`: aborted, or the next number, if no update that it may not overwrite
  -- was committed.
  abbrev pub Fits : (version : ℕ) → Type 0
  Fits version =
      (final ≡ aborted_version)
      ⊎ ((final ≡ number (s.mem.version + 1))
          × (s.mem.version + 1 ≤ version)
          × (clashes s t ≡ false))

  pub ended-Changed :
      (version : ℕ) (v : Version)
      → Fits version
      → (ended_version t final v ≡ v)
        ⊎ (ended_version t final v ≡ aborted_version)
        ⊎ (ended_version t final v ≡ number (s.mem.version + 1))
  ended-Changed version (number n) fits = inl refl
  ended-Changed version aborted_version fits = inl refl
  ended-Changed version (writer w) fits = elim (Bool-cases (w == t)) [
    | inl own ↦ rw own (elim fits [ inl e ↦ inr (inl e) | inr (e, le, calm) ↦ inr (inr e) ])
    | inr other ↦ rw other (inl refl)
  ]
