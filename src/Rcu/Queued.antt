-- ===== src/Rcu/Queued.antt =====
-- What the queues of src/runtime/rcu.c hold in every reachable state: the blocks that were deferred
-- and not freed yet.
use ssr.Base.{
  ℕ, ◌+◌, ◌^◌, ◌≤◌, ◌<◌, ◌≡◌, ◌≢◌, refl, sym, ap, ◌∙◌, inl, inr, true, List, [], ◌∷◌, ◌++◌, ◌-◌,
  ◌==◌, ltb, u32, u64, length, get_or, take, length-snoc, take-snoc, take-add_one, get_or-snoc_lt,
  get_or-snoc_self, update, update-other, update_self, Bool-cases, subst, arith,
}
use native.Mathlib.Decide.{ℕ_discrete}
use ssr.Rcu.{Rcu, mod_scale, enqueued, dequeued, post_head, has_room, update_round, free_round}
use ssr.Rcu.System.{System, Step, update_step, free_step, defer_step, Reach, start, later}
use ssr.Rcu.Invariant.{Inv, Reach-Inv, rcu_defer_free_lem}

-- Of the blocks `deferred`, those before `tail` are freed and the other ones wait in `slots`.
pub record Queued (head tail : ℕ) (slots : ℕ → ℕ) (freed deferred : List ℕ) : Type 0 where
  pub counted : length deferred ≡ head
  pub ordered : tail ≤ head
  pub fits : head < tail + 2 ^ 20
  pub waits : (j : ℕ) → tail ≤ j → j < head → slots (mod_scale j) ≡ get_or deferred j 0
  pub reclaimed : freed ≡ take tail deferred

module _ {head tail : ℕ} {slots : ℕ → ℕ} {freed deferred : List ℕ}
    (q : Queued head tail slots freed deferred) where
  Queued-dequeue :
      tail < head → Queued head (tail + 1) slots (freed ++ slots (mod_scale tail) ∷ []) deferred
  Queued-dequeue lt = record {
    counted = q.counted;
    ordered = omega arith;
    fits = omega (arith, q.fits);
    waits = λ j le l. q.waits j (omega arith) l;
    reclaimed =
        ap (λ x. freed ++ x ∷ []) (q.waits tail (omega arith) lt)
        ∙ ap (λ l. l ++ get_or deferred tail 0 ∷ []) q.reclaimed
        ∙ sym (take-add_one deferred tail 0 (omega (arith, q.counted)));
  }

  enqueued-fits : mod_scale (head + 1) ≢ mod_scale tail → head + 1 < tail + 2 ^ 20
  enqueued-fits room = omega (arith, q.fits)

  apart : (j : ℕ) → tail ≤ j → j < head → mod_scale head ≢ mod_scale j
  apart j le lt = omega (arith, q.fits)

  Queued-enqueue :
      (x : ℕ)
      → mod_scale (head + 1) ≢ mod_scale tail
      → Queued (head + 1) tail (update slots (mod_scale head) x) freed (deferred ++ x ∷ [])
  Queued-enqueue x room = record {
    counted = omega (arith, length-snoc deferred x, q.counted);
    ordered = omega (arith, q.ordered);
    fits = enqueued-fits room;
    waits = λ j le lt. elim (ℕ_discrete j head) [
      | yes last ↦ rw last (
          update_self slots (mod_scale head) x
          ∙ sym (
              ap (λ k. get_or (deferred ++ x ∷ []) k 0) (sym q.counted)
              ∙ get_or-snoc_self deferred x 0))
      | no before ↦
          let old : j < head = omega arith in
          update-other slots (mod_scale head) x (mod_scale j) (apart j le old)
          ∙ (q.waits j le old ∙ sym (get_or-snoc_lt deferred x j 0 (omega (arith, q.counted))))
    ];
    reclaimed = q.reclaimed ∙ sym (take-snoc deferred x tail (omega (arith, q.counted, q.ordered)));
  }

-- The queue of thread `i`.
abbrev pub OwnQueue : Rcu → (deferred : ℕ → List ℕ) → (i : ℕ) → Type 0
OwnQueue m deferred i = Queued (m.head i) (m.tail i) (m.slots i) (m.freed i) (deferred i)

module _ (m : Rcu) (deferred : ℕ → List ℕ) (t : ℕ) where
  pub OwnQueue-update_round :
      (u i : ℕ) → OwnQueue m deferred i → OwnQueue (update_round m t u) deferred i
  OwnQueue-update_round u i q = elim (Bool-cases (u == t)) [
    | inl own ↦ rw own q
    | inr other ↦ rw other (elim (Bool-cases (m.rcu t u == m.last_posted t u)) [
      | inl known ↦ rw known q
      | inr news ↦ rw news q
    ])
  ]

  OwnQueue-post_head : (i : ℕ) → OwnQueue m deferred i → OwnQueue (post_head m t) deferred i
  OwnQueue-post_head i q =
      elim (Bool-cases (ltb (u64 (m.head t + 2 ^ 64 - m.last_posted t t)) 10)) [
        | inl few ↦ rw few q
        | inr many ↦ rw many q
      ]

  -- The count that came back to the thread lies in its queue.
  pub OwnQueue-free_round :
      m.tail t ≤ m.rcu t t
      → m.rcu t t ≤ m.head t
      → m.head t < 2 ^ 32
      → (i : ℕ) → OwnQueue m deferred i
      → OwnQueue (free_round m t) deferred i
  OwnQueue-free_round le known small i q = elim (Bool-cases (m.tail t == m.rcu t t)) [
    | inl ended ↦ rw ended q
    | inr more ↦ rw more (elim (ℕ_discrete t i) [
      | yes it ↦
          subst (λ j. OwnQueue (dequeued m t) deferred j) it
            (own (subst (λ j. OwnQueue m deferred j) (sym it) q) (ground (arith, more)))
      | no ne ↦
          rw
            (
              update-other m.tail t (u32 (m.tail t + 1)) i ne,
              update-other m.freed t (m.freed t ++ m.slots t (mod_scale (m.tail t)) ∷ []) i ne,
            )
            q
    ])
  ]
    where
      own : OwnQueue m deferred t → m.tail t < m.head t → OwnQueue (dequeued m t) deferred t
      own q lt =
          let next : update m.tail t (u32 (m.tail t + 1)) t ≡ m.tail t + 1 = ground arith in
          rw (next, update_self m.freed t (m.freed t ++ m.slots t (mod_scale (m.tail t)) ∷ []))
            (Queued-dequeue q lt)

  OwnQueue-enqueued :
      (x : ℕ)
      → m.head t + 1 < 2 ^ 32
      → has_room m t ≡ true
      → (i : ℕ) → OwnQueue m deferred i
      → OwnQueue (enqueued m t x) (update deferred t (deferred t ++ x ∷ [])) i
  OwnQueue-enqueued x small room i q = elim (ℕ_discrete t i) [
    | yes it ↦
        subst (λ j. OwnQueue (enqueued m t x) (update deferred t (deferred t ++ x ∷ [])) j) it
          (own (subst (λ j. OwnQueue m deferred j) (sym it) q))
    | no ne ↦
        rw
          (
            update-other m.head t (u32 (m.head t + 1)) i ne,
            update-other m.slots t (update (m.slots t) (mod_scale (m.head t)) x) i ne,
            update-other deferred t (deferred t ++ x ∷ []) i ne,
          )
          q
  ]
    where
      own :
          OwnQueue m deferred t
          → OwnQueue (enqueued m t x) (update deferred t (deferred t ++ x ∷ [])) t
      own q =
          let next : update m.head t (u32 (m.head t + 1)) t ≡ m.head t + 1 = ground arith in
          rw
            (
              next,
              update_self m.slots t (update (m.slots t) (mod_scale (m.head t)) x),
              update_self deferred t (deferred t ++ x ∷ []),
            )
            (Queued-enqueue q x (ground (arith, room)))

Step-OwnQueue :
    {n : ℕ} {s s' : System} (i : ℕ)
    → Inv n s
    → Step s s'
    → OwnQueue s.mem s.deferred i
    → OwnQueue s'.mem s'.deferred i
Step-OwnQueue {s = s} i inv (update_step t u t_n u_n) q =
    OwnQueue-update_round s.mem s.deferred t u i q
Step-OwnQueue {n} {s} i inv (free_step t t_n) q =
    let t_in : t < n = omega (arith, inv.threads) in
    OwnQueue-free_round s.mem s.deferred t (inv.reclaimed t t_in) (inv.bounded t t t_in t_in)
      (inv.small t) i q
Step-OwnQueue {s = s} i inv (defer_step t x t_n small e) q =
    let (room, called) = rcu_defer_free_lem s.mem t x e in
    let ghosts = update s.deferred t (s.deferred t ++ x ∷ []) in
    subst (λ m. OwnQueue m ghosts i) called
      (OwnQueue-post_head (enqueued s.mem t x) ghosts t i
        (OwnQueue-enqueued s.mem s.deferred t x small room i q))

pub Reach-OwnQueue : {n : ℕ} {s : System} (i : ℕ) → Reach n s → OwnQueue s.mem s.deferred i
Reach-OwnQueue i start = record {
  counted = refl;
  ordered = omega arith;
  fits = omega arith;
  waits = λ j le lt. absurd (omega arith);
  reclaimed = refl;
}
Reach-OwnQueue i (later r st) = Step-OwnQueue i (Reach-Inv r) st (Reach-OwnQueue i r)
