-- ===== src/Txn/Pushed.antt =====
-- txn_map_set of src/txn/txn.c keeps the invariant.
use ssr.Base.{
  length, ◌*◌, ◌==◌, if◌then◌else◌, update-other, update_self, update_ind, ℕ, ◌+◌, ◌≡◌, ◌≢◌, ◌⊎◌,
  ◌∙◌, refl, sym, ap, subst, inl, inr, true, List, [], ◌∷◌, ◌++◌, update, arith,
}
use ssr.Txn.{Txn, running, writer, Val, rec, Store}
use ssr.Txn.Ops.{txn_map_set, add_write, push_update}
use ssr.Txn.System.{System, In}
use ssr.Txn.Invariant.{
  Wrote-append_left, Wrote-append_right, Wrote-snoc, Linked, Ordered, Wrote, Known, rvs, versions,
  IsLive, Inv, Linked-congr, Ordered-congr, Heads,
}
use ssr.Txn.Steps.{Before-next, Before-congr, Known-congr}

-- The transaction after txn_map_set.
abbrev after_write : Store → (t u key : ℕ) → Txn
after_write m t u key =
    let x = m.txns t in
    record x {
      writes = x.writes ++ (key, u) ∷ [];
      writes_size = if length x.writes == x.writes_size then x.writes_size * 2 else x.writes_size;
    }

-- What txn_map_set does for a transaction that runs.
abbrev pub pushed : Store → (t u key value : ℕ) → Store
pushed m t u key value = add_write (push_update m t u key value) t u key

pub txn_map_set-pushed :
    (m : Store) (t u key value : ℕ)
    → (m.txns t).state ≡ running
    → txn_map_set m t u key value ≡ pushed m t u key value
unfolding txn_map_set
txn_map_set-pushed m t u key value e = ground (arith, e)

module _ (s : System) (inv : Inv s) (t u key value : ℕ) (live : s.live t ≡ true)
    (new : (k : ℕ) → ¬ In u (s.chain k)) where
  abbrev pub after_set : System
  after_set = record s {
    mem = pushed s.mem t u key value;
    chain = update s.chain key (u ∷ s.chain key);
  }

  pub set_ne : (k i : ℕ) → In i (s.chain k) → u ≢ i
  set_ne k i h e = new k (subst (λ x. In x (s.chain k)) (sym e) h)

  pub set_update : (k i : ℕ) → In i (s.chain k) → after_set.mem.updates i ≡ s.mem.updates i
  set_update k i h = update-other s.mem.updates u _ i (set_ne k i h)

  set_rv : (w : ℕ) → rvs after_set.mem w ≡ rvs s.mem w
  set_rv w = ground arith

  -- The updates of a key after the call.
  set-In_cases : (k i : ℕ) → In i (after_set.chain k) → ((k ≡ key) × (i ≡ u)) ⊎ In i (s.chain k)
  set-In_cases k i =
      update_ind s.chain key (u ∷ s.chain key)
        (λ j l. In i l → ((j ≡ key) × (i ≡ u)) ⊎ In i (s.chain j)) in_pushed (λ j ne h. inr h) k
    where
      in_pushed : In i (u ∷ s.chain key) → ((key ≡ key) × (i ≡ u)) ⊎ In i (s.chain key)
      in_pushed (inl e) = inl (refl, e)
      in_pushed (inr h) = inr h

  Linked-same : (k : ℕ) → Linked after_set.mem.updates (s.mem.map k) (s.chain k) (s.rest k)
  Linked-same k =
      Linked-congr s.mem.updates after_set.mem.updates (s.mem.map k) (s.chain k) (s.rest k)
        (λ i h. ap (λ x. x.next) (set_update k i h)) (inv.linked k)

  Linked-pushed : Linked after_set.mem.updates (rec u) (u ∷ s.chain key) (s.rest key)
  Linked-pushed = (
    refl,
    subst (λ x. Linked after_set.mem.updates x.next (s.chain key) (s.rest key))
        (sym (
          update_self s.mem.updates u
            (record { version = writer t; value = value; next = s.mem.map key })))
        (Linked-same key),
  )

  abbrev LinkedAt : (k : ℕ) → Val → List ℕ → Type 0
  LinkedAt k val l = Linked after_set.mem.updates val l (s.rest k)

  set-Linked : (k : ℕ) → LinkedAt k (after_set.mem.map k) (after_set.chain k)
  set-Linked =
      update_ind s.mem.map key (rec u) (λ j v. LinkedAt j v (after_set.chain j))
        (subst (LinkedAt key (rec u)) (sym (update_self s.chain key (u ∷ s.chain key)))
          Linked-pushed)
        (λ j ne.
          subst (LinkedAt j (s.mem.map j)) (sym (update-other s.chain key _ j ne)) (Linked-same j))

  set_version : (k i : ℕ) → In i (s.chain k) → versions after_set.mem i ≡ versions s.mem i
  set_version k i h = ap (λ x. x.version) (set_update k i h)

  Ordered-same : (k : ℕ) → Ordered (rvs after_set.mem) (versions after_set.mem) (s.chain k)
  Ordered-same k =
      Ordered-congr (rvs s.mem) (rvs after_set.mem) (versions s.mem) (versions after_set.mem)
        (s.mem.version + 1) (s.chain k) (λ i h. inl (set_version k i h))
        (λ j h. rw (set_version k j h) (
          Before-next s inv k j h (rvs after_set.mem) (λ w l. rw (set_rv w) (inv.lives w l).rv_le)))
        (λ i c j hi e hj b.
          rw (set_version k j hj) (
            Before-congr (rvs s.mem) (rvs after_set.mem) c (versions s.mem j) (λ w e'. set_rv w) b))
        (inv.ordered k)

  pub set_self :
      after_set.mem.updates u ≡ record { version = writer t; value = value; next = s.mem.map key }
  set_self = update_self s.mem.updates u _

  set-Ordered : (k : ℕ) → Ordered (rvs after_set.mem) (versions after_set.mem) (after_set.chain k)
  set-Ordered =
      update_ind s.chain key (u ∷ s.chain key)
        (λ j l. Ordered (rvs after_set.mem) (versions after_set.mem) l)
        (
          subst (λ v. Heads (rvs after_set.mem) (versions after_set.mem) v (s.chain key))
              (ap (λ x. x.version) (sym set_self)) tt,
          Ordered-same key,
        )
        (λ j ne. Ordered-same j)

  -- The write sets grow.
  set_writes :
      (w k i : ℕ) → Wrote k i (s.mem.txns w).writes → Wrote k i (after_set.mem.txns w).writes
  set_writes w k i =
      update_ind s.mem.txns t (after_write s.mem t u key)
        (λ j x. Wrote k i (s.mem.txns j).writes → Wrote k i x.writes)
        (Wrote-append_left k i (s.mem.txns t).writes ((key, u) ∷ [])) (λ j ne h. h) w

  new_write : Wrote key u (after_set.mem.txns t).writes
  new_write =
      subst (λ x. Wrote key u x.writes) (sym (update_self s.mem.txns t _))
        (Wrote-append_right key u (s.mem.txns t).writes ((key, u) ∷ []) (inl (refl, refl)))

  set-Known : (k i : ℕ) → In i (after_set.chain k) → Known after_set k i (versions after_set.mem i)
  set-Known k i h = elim (set-In_cases k i h) [
    | inl (e, e') ↦
        subst (λ j. Known after_set j i (versions after_set.mem i)) (sym e)
          (subst (λ j. Known after_set key j (versions after_set.mem j)) (sym e')
            (subst (λ x. Known after_set key u x.version) (sym set_self) (live, new_write)))
    | inr h' ↦ subst (Known after_set k i) (sym (set_version k i h')) (
        Known-congr s after_set k i (versions s.mem i) (omega arith)
          (λ w e l. (l, set_writes w k i)) (inv.known k i h'))
  ]

  set_lives : (w : ℕ) → s.live w ≡ true → IsLive after_set.mem (after_set.mem.txns w)
  set_lives =
      update_ind s.mem.txns t (after_write s.mem t u key)
        (λ j x. s.live j ≡ true → IsLive after_set.mem x)
        (λ l.
          let old = inv.lives t l in
          record { runs = old.runs; no_wv = old.no_wv; rv_le = old.rv_le })
        (λ j ne l.
          let old = inv.lives j l in
          record { runs = old.runs; no_wv = old.no_wv; rv_le = old.rv_le })

  -- The lists grow.
  set-In : (k i : ℕ) → In i (s.chain k) → In i (after_set.chain k)
  set-In k i =
      update_ind s.chain key (u ∷ s.chain key) (λ j l. In i (s.chain j) → In i l) (λ h. inr h)
        (λ j ne h. h) k

  set_written_old :
      (w k i : ℕ)
      → s.live w ≡ true
      → Wrote k i (s.mem.txns w).writes
      → In i (after_set.chain k) × (versions after_set.mem i ≡ writer w)
  set_written_old w k i l h =
      let (in_chain, e) = inv.written w k i l h in
      (set-In k i in_chain, set_version k i in_chain ∙ e)

  new_written :
      (k i : ℕ) → k ≡ key → i ≡ u → In i (after_set.chain k) × (versions after_set.mem i ≡ writer t)
  new_written k i ek ei = (
    subst (λ j. In i (after_set.chain j)) (sym ek)
        (subst (In i) (sym (update_self s.chain key (u ∷ s.chain key))) (inl ei)),
    ap (versions after_set.mem) ei ∙ ap (λ x. x.version) set_self,
  )

  set_written :
      (w k i : ℕ)
      → s.live w ≡ true
      → Wrote k i (after_set.mem.txns w).writes
      → In i (after_set.chain k) × (versions after_set.mem i ≡ writer w)
  set_written w k i =
      update_ind s.mem.txns t (after_write s.mem t u key)
        (λ j x.
          s.live j ≡ true
          → Wrote k i x.writes
          → In i (after_set.chain k) × (versions after_set.mem i ≡ writer j))
        (λ l wrote. elim (Wrote-snoc k i key u (s.mem.txns t).writes wrote) [
          | inl old ↦ set_written_old t k i l old
          | inr (ek, ei) ↦ new_written k i ek ei
        ])
        (λ j ne l. set_written_old j k i l) w

  pub pushed-Inv : Inv after_set
  pushed-Inv = record {
    linked = set-Linked;
    ordered = set-Ordered;
    known = set-Known;
    lives = set_lives;
    written = set_written;
  }
