-- ===== src/Txn/Conflict.antt =====
-- Which transactions of src/txn/txn.c commit, and what is left of one that has.
use ssr.Base.{
  update_self, ℕ, suc, ◌+◌, ◌<◌, ◌≡◌, ◌≢◌, ◌∙◌, refl, sym, ap, subst, inl, inr, Bool, true, false,
  Option, some, List, ◌==◌, if◌then◌else◌, Bool-cases, arith, length,
}
use ssr.Txn.{TxnState, Version, number, aborted_version, writer, Store}
use ssr.Txn.Ops.{txn_abort, txn_commit, txn_map_set}
use ssr.Txn.Get.{txn_map_get, error_txn_not_running}
use ssr.Txn.System.{System, Reach, In}
use ssr.Txn.Invariant.{Inv, Wrote, versions}
use ssr.Txn.Validate.{verdict}
use ssr.Txn.Commit.{clashes, final, committed, txn_commit-lem}
use ssr.Txn.Numbered.{numbered}
use ssr.Txn.Counts.{lower_count-ends}
use ssr.Txn.Ended.{detached, detach-Wrote, ended_version}
use ssr.Txn.Safety.{Reach-Inv}

ended_version-other : (t : ℕ) (last v : Version) → v ≢ writer t → ended_version t last v ≡ v
ended_version-other t last (number n) ne = refl
ended_version-other t last aborted_version ne = refl
ended_version-other t last (writer w) ne = elim (Bool-cases (w == t)) [
  | inl own ↦ let e : w ≡ t = ground (arith, own) in absurd (ne (ap writer e))
  | inr stays ↦ rw stays refl
]

commit-ends :
    (s : System) (inv : Inv s) (t fuel : ℕ)
    → s.live t ≡ true
    → ((k : ℕ) → length (s.chain k) < suc fuel)
    → (active : List (ℕ × ℕ)) × (txn_commit (suc (suc fuel)) s.mem t
        ≡ some (verdict (clashes s t), committed s.mem t (clashes s t) active))
commit-ends s inv t fuel live lt =
    let le = (inv.lives t live).rv_le in
    let (active, e) =
      lower_count-ends fuel s.mem.active (s.mem.version + 1) (s.mem.txns t).rv
        (ground (arith, le)) in
    (active, txn_commit-lem s inv t (suc fuel) live lt ∙ rw e refl)

-- After any calls that collect nothing, txn_commit of a transaction that is live returns, with fuel
-- above the number of updates of each key: TXN_ABORTED if some key that it wrote has an update with a
-- version above its read version, else TXN_VALIDATED. Its own updates are then aborted, or all have
-- the version that follows `version_`, and the version of every other update of a key is as before.
pub first_committer_wins :
    {map : ℕ → ℕ} {s : System}
    → Reach map s
    → (t fuel : ℕ) → s.live t ≡ true
    → ((k : ℕ) → length (s.chain k) < suc fuel)
    → (m : Store) × (txn_commit (suc (suc fuel)) s.mem t ≡ some (verdict (clashes s t), m))
      × ((k u : ℕ)
          → Wrote k u (s.mem.txns t).writes
          → versions m u ≡ (if clashes s t then aborted_version else number (s.mem.version + 1)))
      × ((k u : ℕ)
          → In u (s.chain k)
          → versions s.mem u ≢ writer t
          → versions m u ≡ versions s.mem u)
first_committer_wins {s = s} reach t fuel live lt =
    let inv = Reach-Inv reach in
    let last = final s.mem (clashes s t) in
    let (active, e) = commit-ends s inv t fuel live lt in
    (
      committed s.mem t (clashes s t) active,
      e,
      (λ k u h. detach-Wrote last s.mem.updates (s.mem.txns t).writes k u h),
      (λ k u h ne.
          detached s inv t live last k u h ∙ ended_version-other t last (versions s.mem u) ne),
    )

-- The answers to a transaction that ended with `state`: an error, or nothing changes.
abbrev pub Refuses : Store → TxnState → (t fuel u key value : ℕ) → Type 0
Refuses m state t fuel u key value =
    (txn_map_get fuel m t key ≡ some (error_txn_not_running, m))
    × (txn_map_set m t u key value ≡ m)
    × (txn_abort m t ≡ m)
    × (txn_commit fuel m t ≡ some (state, m))

refused :
    (m : Store) (t fuel u key value : ℕ) (clash : Bool)
    → (m.txns t).state ≡ verdict clash
    → Refuses m (verdict clash) t fuel u key value
unfolding txn_map_get txn_map_set txn_abort txn_commit
refused m t fuel u key value true e = (
  rw (txn_map_get, e) refl,
  rw (txn_map_set, e) refl,
  rw (txn_abort, e) refl,
  rw (txn_commit, e) refl,
)
refused m t fuel u key value false e = (
  rw (txn_map_get, e) refl,
  rw (txn_map_set, e) refl,
  rw (txn_abort, e) refl,
  rw (txn_commit, e) refl,
)

some-pair :
    {a b : TxnState} {m m' : Store}
    → ◌≡◌ {A = Option (TxnState × Store)} (some (a, m)) (some (b, m'))
    → (a ≡ b) × (m ≡ m')
some-pair e = (cc, cc)

-- After any calls that collect nothing and a txn_commit of a transaction that is live, and as long as
-- its memory is not reused: its txn_map_get returns ERROR_TXN_NOT_RUNNING, another txn_commit the
-- state that the first one returned, and these, txn_map_set and txn_abort change nothing.
pub ended_is_refused :
    {map : ℕ → ℕ} {s : System} {state : TxnState} {m : Store}
    → Reach map s
    → (t fuel : ℕ) → s.live t ≡ true
    → ((k : ℕ) → length (s.chain k) < suc fuel)
    → txn_commit (suc (suc fuel)) s.mem t ≡ some (state, m)
    → (fuel' u key value : ℕ) → Refuses m state t fuel' u key value
ended_is_refused {s = s} {state} {m} reach t fuel live lt commits fuel' u key value =
    let clash = clashes s t in
    let (active, e) = commit-ends s (Reach-Inv reach) t fuel live lt in
    let (same_state, same_mem) = some-pair (sym e ∙ commits) in
    let m' = committed s.mem t clash active in
    let over =
      refused m' t fuel' u key value clash
        (ap (λ x. x.state) (update_self s.mem.txns t (numbered s.mem t (verdict clash)))) in
    subst (λ x. Refuses x state t fuel' u key value) same_mem
      (subst (λ x. Refuses m' x t fuel' u key value) same_state over)
