-- ===== src/Rcu/Rounds.antt =====
-- What a whole call of `rcu_update` of src/runtime/rcu.c, which runs alone, does to the counts.
use ssr.Base.{
  ℕ, zero, suc, ◌^◌, ◌≤◌, ◌<◌, ◌≡◌, ◌≢◌, refl, sym, ap, subst, ◌∙◌, inl, inr, some, take, ◌==◌,
  Bool-cases, arith,
}
use native.Mathlib.Decide.{ℕ_discrete}
use ssr.Rcu.{Rcu, next_thread, update_round, update_rounds, free_rounds, rcu_update}
use ssr.Rcu.System.{System, Reach, later, update_step, free_step}
use ssr.Rcu.Invariant.{Reach-Inv}
use ssr.Rcu.Queued.{Reach-OwnQueue}
use ssr.Rcu.Ends.{else_branch, rcu_update_ends}

-- The counts on behalf of thread `i` in a round of thread `u`.
round-other :
    (m : Rcu) (u j i v : ℕ)
    → j ≢ i
    → ((update_round m u j).rcu v i ≡ m.rcu v i)
      × ((update_round m u j).last_posted v i ≡ m.last_posted v i)
round-other m u j i v ne = (ground arith, ground arith)

round_own :
    (m : Rcu) (u v : ℕ)
    → ((update_round m u u).rcu v u ≡ m.rcu v u)
      × ((update_round m u u).last_posted v u ≡ m.last_posted v u)
round_own m u v = (ground arith, ground arith)

round-passes :
    (m : Rcu) (n u i : ℕ)
    → m.num_threads ≡ n
    → u ≢ i
    → m.rcu (next_thread n u) i ≡ m.last_posted u i
    → (update_round m u i).rcu (next_thread n u) i ≡ m.rcu u i
round-passes m n u i threads ne chained =
    let next : next_thread m.num_threads u ≡ next_thread n u = ap (λ k. next_thread k u) threads in
    ground (arith, chained, next)

pub round-posted : (m : Rcu) (u j i : ℕ) → (update_round m u j).last_posted i i ≡ m.last_posted i i
round-posted m u j i = ground arith

round-threads : (m : Rcu) (u j : ℕ) → (update_round m u j).num_threads ≡ m.num_threads
round-threads m u j = ground arith

rounds-threads : (k : ℕ) (m : Rcu) (u : ℕ) → (update_rounds k m u).num_threads ≡ m.num_threads
unfolding update_rounds
rounds-threads zero m u = refl
rounds-threads (suc k) m u = round-threads (update_rounds k m u) u k ∙ rounds-threads k m u

rounds-posted :
    (k : ℕ) (m : Rcu) (u i : ℕ) → (update_rounds k m u).last_posted i i ≡ m.last_posted i i
unfolding update_rounds
rounds-posted zero m u i = refl
rounds-posted (suc k) m u i = round-posted (update_rounds k m u) u k i ∙ rounds-posted k m u i

-- Before its round nothing changes on behalf of `i`, and never on behalf of the thread itself.
rounds-before :
    (k : ℕ) (m : Rcu) (u i v : ℕ)
    → k ≤ i
    → ((update_rounds k m u).rcu v i ≡ m.rcu v i)
      × ((update_rounds k m u).last_posted v i ≡ m.last_posted v i)
unfolding update_rounds
rounds-before zero m u i v le = (refl, refl)
rounds-before (suc k) m u i v le =
    let (r, p) = rounds-before k m u i v (omega arith) in
    let (r', p') = round-other (update_rounds k m u) u k i v (omega arith) in (r' ∙ r, p' ∙ p)

pub rounds_own : (k : ℕ) (m : Rcu) (u v : ℕ) → (update_rounds k m u).rcu v u ≡ m.rcu v u
unfolding update_rounds
rounds_own zero m u v = refl
rounds_own (suc k) m u v = elim (ℕ_discrete k u) [
  | yes it ↦
      ap (λ j. (update_round (update_rounds k m u) u j).rcu v u) it
      ∙ ((round_own (update_rounds k m u) u v).0 ∙ rounds_own k m u v)
  | no ne ↦ (round-other (update_rounds k m u) u k u v ne).0 ∙ rounds_own k m u v
]

-- After its round the next thread knows what this one knew.
pub rounds-passes :
    (k : ℕ) (m : Rcu) (n u i : ℕ)
    → m.num_threads ≡ n
    → i < k
    → u ≢ i
    → m.rcu (next_thread n u) i ≡ m.last_posted u i
    → (update_rounds k m u).rcu (next_thread n u) i ≡ m.rcu u i
unfolding update_rounds
rounds-passes zero m n u i threads lt ne chained = absurd (omega arith)
rounds-passes (suc k) m n u i threads lt ne chained = elim (ℕ_discrete k i) [
  | yes it ↦
      let b = update_rounds k m u in
      let before : (v : ℕ) → (b.rcu v i ≡ m.rcu v i) × (b.last_posted v i ≡ m.last_posted v i) =
        λ v. rounds-before k m u i v (omega arith) in
      let known : b.rcu (next_thread n u) i ≡ b.last_posted u i =
        (before (next_thread n u)).0 ∙ chained ∙ sym (before u).1 in
      ap (λ j. (update_round b u j).rcu (next_thread n u) i) it
      ∙ (round-passes b n u i (rounds-threads k m u ∙ threads) ne known ∙ (before u).0)
  | no apart ↦
      (round-other (update_rounds k m u) u k i (next_thread n u) apart).0
      ∙ rounds-passes k m n u i threads (omega arith) ne chained
]

-- A whole call is a run of steps.
update_rounds-Reach :
    {n : ℕ} {s : System} (k t : ℕ)
    → k ≤ n
    → t < n
    → Reach n s
    → (seen : ℕ → ℕ → ℕ) × Reach n (record s { mem = update_rounds k s.mem t; seen = seen })
unfolding update_rounds
update_rounds-Reach {s = s} zero t le t_n r = (s.seen, r)
update_rounds-Reach (suc k) t le t_n r =
    let (seen, before) = update_rounds-Reach k t (omega arith) t_n r in
    let threads = (Reach-Inv before).threads in
    (_, later before (update_step t k (omega (arith, threads)) (omega (arith, threads))))

free_rounds-Reach :
    {n : ℕ} (fuel t : ℕ) {s : System} {m : Rcu}
    → t < n
    → Reach n s
    → free_rounds fuel s.mem t ≡ some m
    → Reach n (record s { mem = m })
      × (m.rcu ≡ s.mem.rcu)
      × (m.last_posted ≡ s.mem.last_posted)
      × (m.head ≡ s.mem.head)
unfolding free_rounds
free_rounds-Reach zero t t_n r e = absurd (ground (arith, e))
free_rounds-Reach {n} (suc fuel) t {s} {m} t_n r e =
    elim (Bool-cases (s.mem.tail t == s.mem.rcu t t)) [
      | inl ended ↦
          let same : s.mem ≡ m = ground (arith, e, ended) in
          subst
            (λ k.
              Reach n (record s { mem = k })
              × (k.rcu ≡ s.mem.rcu)
              × (k.last_posted ≡ s.mem.last_posted)
              × (k.head ≡ s.mem.head))
            same (r, refl, refl, refl)
      | inr more ↦
          let next = later r (free_step t (omega (arith, (Reach-Inv r).threads))) in
          let (r', a, b, c) =
            free_rounds-Reach fuel t t_n next (sym (else_branch _ _ _ more) ∙ e) in
          (r', a ∙ rw more refl, b ∙ rw more refl, c ∙ rw more refl)
    ]

-- What a call of `rcu_update` by thread `t` leaves, with fuel for a full queue.
pub record Called (n : ℕ) (s : System) (fuel t : ℕ) : Type 0 where
  pub mem : Rcu
  pub seen : ℕ → ℕ → ℕ
  pub returns : rcu_update fuel s.mem t ≡ some mem
  pub reached : Reach n (record { mem = mem; seen = seen; deferred = s.deferred })
  pub same_rcu : mem.rcu ≡ (update_rounds n s.mem t).rcu
  pub same_posted : mem.last_posted ≡ (update_rounds n s.mem t).last_posted
  pub freed : mem.freed t ≡ take ((update_rounds n s.mem t).rcu t t) (s.deferred t)

pub rcu_update-Called :
    {n : ℕ} {s : System} (fuel t : ℕ) → Reach n s → t < n → 2 ^ 20 ≤ fuel → Called n s fuel t
unfolding rcu_update
rcu_update-Called {n} {s} fuel t r t_n enough =
    let q = Reach-OwnQueue t r in
    let (m, e, tail, freed) = rcu_update_ends fuel t r t_n (omega (arith, q.fits)) in
    let threads = (Reach-Inv r).threads in
    let (seen, before) = update_rounds-Reach n t (omega arith) t_n r in
    let (after, a, b, c) =
      free_rounds-Reach fuel t t_n before
        (sym (ap (λ k. free_rounds fuel (update_rounds k s.mem t) t) threads) ∙ e) in
    record {
      mem = m;
      seen = seen;
      returns = e;
      reached = after;
      same_rcu = a;
      same_posted = b;
      freed = freed;
    }
