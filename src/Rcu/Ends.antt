-- ===== src/Rcu/Ends.antt =====
-- `rcu_update` of src/runtime/rcu.c ends.
use ssr.Base.{
  ℕ, zero, suc, ◌+◌, ◌-◌, ◌^◌, ◌≤◌, ◌<◌, ◌≡◌, refl, ap, ◌∙◌, inl, inr, Bool, true, false, some,
  List, take, ◌==◌, if◌then◌else◌, Bool-cases, arith,
}
use ssr.Rcu.{Rcu, update_round, free_round, update_rounds, free_rounds, rcu_update}
use ssr.Rcu.System.{System, Reach}
use ssr.Rcu.Invariant.{Inv, Inv-update, Reach-Inv}
use ssr.Rcu.Queued.{OwnQueue, OwnQueue-update_round, OwnQueue-free_round, Reach-OwnQueue}

pub else_branch {ℓ} : {A : Type ℓ} (b : Bool) (x y : A) → b ≡ false → (if b then x else y) ≡ y
else_branch b x y e = rw e refl

free_rounds-end :
    (fuel : ℕ) (m : Rcu) (deferred : ℕ → List ℕ) (t : ℕ)
    → m.tail t ≤ m.rcu t t
    → m.rcu t t ≤ m.head t
    → m.head t < 2 ^ 32
    → OwnQueue m deferred t
    → m.rcu t t - m.tail t < fuel
    → (m' : Rcu) × (free_rounds fuel m t ≡ some m')
      × (m'.tail t ≡ m.rcu t t)
      × (m'.freed t ≡ take (m.rcu t t) (deferred t))
unfolding free_rounds
free_rounds-end zero m deferred t le known small queue lt = absurd (omega arith)
free_rounds-end (suc fuel) m deferred t le known small queue lt =
    elim (Bool-cases (m.tail t == m.rcu t t)) [
      | inl ended ↦ (
        m,
        rw ended refl,
        count ended,
        queue.reclaimed ∙ ap (λ k. take k (deferred t)) (count ended),
      )
      | inr more ↦
          let same : (free_round m t).rcu t t ≡ m.rcu t t = rw more refl in
          let next : (free_round m t).tail t ≡ m.tail t + 1 = rw more (ground arith) in
          let same_head : (free_round m t).head t ≡ m.head t = rw more refl in
          let (m', e, tail, freed) =
            free_rounds-end fuel (free_round m t) deferred t (ground arith)
              (omega (arith, same, same_head)) (omega (arith, same_head))
              (OwnQueue-free_round m deferred t le known small t queue) (ground arith) in
          (m', else_branch _ _ _ more ∙ e, tail ∙ same, freed ∙ ap (λ k. take k (deferred t)) same)
    ]
  where
    count : (m.tail t == m.rcu t t) ≡ true → m.tail t ≡ m.rcu t t
    count ended = ground (arith, ended)

update_rounds-Inv :
    {n : ℕ} {s : System} (k t : ℕ)
    → k ≤ n
    → t < n
    → Inv n s
    → (seen : ℕ → ℕ → ℕ) × Inv n (record s { mem = update_rounds k s.mem t; seen = seen })
unfolding update_rounds
update_rounds-Inv {s = s} zero t le t_n inv = (s.seen, inv)
update_rounds-Inv (suc k) t le t_n inv =
    let (seen, before) = update_rounds-Inv k t (omega arith) t_n inv in
    (_, Inv-update t k t_n (omega arith) before)

update_rounds-OwnQueue :
    (k : ℕ) (m : Rcu) (deferred : ℕ → List ℕ) (t : ℕ)
    → OwnQueue m deferred t
    → OwnQueue (update_rounds k m t) deferred t
unfolding update_rounds
update_rounds-OwnQueue zero m deferred t q = q
update_rounds-OwnQueue (suc k) m deferred t q =
    OwnQueue-update_round (update_rounds k m t) deferred t k t
      (update_rounds-OwnQueue k m deferred t q)

update_round-queue :
    (m : Rcu) (t i : ℕ)
    → ((update_round m t i).head t ≡ m.head t) × ((update_round m t i).tail t ≡ m.tail t)
update_round-queue m t i = (ground arith, ground arith)

update_rounds-queue :
    (k : ℕ) (m : Rcu) (t : ℕ)
    → ((update_rounds k m t).head t ≡ m.head t) × ((update_rounds k m t).tail t ≡ m.tail t)
unfolding update_rounds
update_rounds-queue zero m t = (refl, refl)
update_rounds-queue (suc k) m t =
    let (h, q) = update_rounds-queue k m t in
    let (h', q') = update_round-queue (update_rounds k m t) t k in (h' ∙ h, q' ∙ q)

-- In every reachable state a call of `rcu_update` that runs alone ends, with fuel for each block that
-- waits and one more round. The blocks that the thread has freed by then, in this call or before, are
-- in order and each once the first ones that it has deferred, as many as the count that came back to
-- it round the ring says.
pub rcu_update_ends :
    {n : ℕ} {s : System} (fuel t : ℕ)
    → Reach n s
    → t < n
    → s.mem.head t - s.mem.tail t < fuel
    → (m : Rcu) × (rcu_update fuel s.mem t ≡ some m)
      × (m.tail t ≡ (update_rounds n s.mem t).rcu t t)
      × (m.freed t ≡ take ((update_rounds n s.mem t).rcu t t) (s.deferred t))
unfolding rcu_update
rcu_update_ends {n} {s} fuel t r t_n lt =
    let inv = Reach-Inv r in
    let (seen, after) = update_rounds-Inv n t (omega arith) t_n inv in
    let (h, q) = update_rounds-queue n s.mem t in
    let (m, e, tail, freed) =
      free_rounds-end fuel (update_rounds n s.mem t) s.deferred t (after.reclaimed t t_n)
        (after.bounded t t t_n t_n) (after.small t)
        (update_rounds-OwnQueue n s.mem s.deferred t (Reach-OwnQueue t r))
        (omega (arith, after.bounded t t t_n t_n, after.reclaimed t t_n, h, q)) in
    (m, ap (λ k. free_rounds fuel (update_rounds k s.mem t) t) inv.threads ∙ e, tail, freed)
