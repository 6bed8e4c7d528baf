-- ===== src/Rcu/Invariant.antt =====
-- What holds of the counts of src/runtime/rcu.c in every reachable state.
use ssr.Base.{
  u64, ltb, List, [], ◌∷◌, ◌++◌, update, subst, not, ◌&&◌, true, some, ◌-◌, inl, inr, Bool-cases,
  ap, ℕ, ◌+◌, ◌^◌, ◌≤◌, ◌<◌, ◌≡◌, ◌≢◌, refl, ◌==◌, arith, mod-ne,
}
use native.Mathlib.Nat.{mod-lt}
use ssr.Rcu.{
  Rcu, enqueued, next_thread, update_at, post, post_head, has_room, update_round, free_round,
  rcu_defer_free,
}
use ssr.Rcu.System.{System, Step, update_step, free_step, defer_step, Reach, start, later, init}

pub record Inv (n : ℕ) (s : System) : Type 0 where
  pub threads : s.mem.num_threads ≡ n
  pub chained : (t i : ℕ) → t < n → i < n → s.mem.rcu (next_thread n t) i ≡ s.mem.last_posted t i
  pub behind : (t i : ℕ) → t < n → i < n → t ≢ i → s.mem.last_posted t i ≤ s.mem.rcu t i
  pub bounded : (t i : ℕ) → t < n → i < n → s.mem.rcu t i ≤ s.mem.head i
  pub small : (i : ℕ) → s.mem.head i < 2 ^ 32
  pub witnessed : (t i : ℕ) → t < n → i < n → t ≢ i → s.mem.last_posted t i ≤ s.seen t i
  pub reclaimed : (i : ℕ) → i < n → s.mem.tail i ≤ s.mem.rcu i i

next_thread_injective : (n t u : ℕ) → t < n → u < n → next_thread n t ≡ next_thread n u → t ≡ u
next_thread_injective n t u t_n u_n e =
    ground (arith, mod-ne (t + 1) (u + 1) n, mod-ne (u + 1) (t + 1) n)

Inv-init : (n : ℕ) → Inv n (init n)
Inv-init n = record {
  threads = refl;
  chained = λ t i a b. refl;
  behind = λ t i a b ne. omega arith;
  bounded = λ t i a b. omega arith;
  small = λ i. omega arith;
  witnessed = λ t i a b ne. omega arith;
  reclaimed = λ i a. omega arith;
}

Inv-free :
    {n : ℕ} {s : System} (t : ℕ) → t < n → Inv n s → Inv n (record s { mem = free_round s.mem t })
Inv-free {n} {s} t t_n inv = elim (Bool-cases (s.mem.tail t == s.mem.rcu t t)) [
  | inl ended ↦ rw ended inv
  | inr more ↦ rw more (record {
    threads = inv.threads;
    chained = inv.chained;
    behind = inv.behind;
    bounded = inv.bounded;
    small = inv.small;
    witnessed = inv.witnessed;
    reclaimed = λ j j_n. ground (arith, inv.reclaimed j j_n, inv.bounded t t t_n t_n, inv.small t);
  })
]

-- A thread passes on a count that is between the one it passed on before and the one it knows.
Inv-post :
    {n : ℕ} {s : System} (seen : ℕ → ℕ → ℕ) (t i x : ℕ)
    → t < n
    → i < n
    → s.mem.last_posted t i ≤ x
    → x ≤ s.mem.head i
    → (t ≢ i → x ≤ s.mem.rcu t i)
    → ((u j : ℕ) → u < n → j < n → u ≢ j → s.mem.last_posted u j ≤ seen u j)
    → (t ≢ i → x ≤ seen t i)
    → Inv n s
    → Inv n (record s { mem = post s.mem t i x; seen = seen })
Inv-post {n} {s} seen t i x t_n i_n grows fits known saw sees inv =
    let next : next_thread s.mem.num_threads t ≡ next_thread n t =
      ap (λ k. next_thread k t) inv.threads in
    record {
      threads = inv.threads;
      chained = λ u j u_n j_n.
          ground (arith, next, inv.chained u j u_n j_n, next_thread_injective n t u t_n u_n);
      behind = λ u j u_n j_n ne.
          ground (arith, next, inv.behind u j u_n j_n ne, inv.chained t i t_n i_n, known);
      bounded = λ u j u_n j_n. ground (arith, inv.bounded u j u_n j_n);
      small = inv.small;
      witnessed = λ u j u_n j_n ne. ground (arith, saw u j u_n j_n ne, sees);
      reclaimed = λ j j_n. ground (arith, next, inv.reclaimed j j_n, inv.chained t i t_n i_n);
    }

-- The ghost state may change.
Inv-seen :
    {n : ℕ} {s : System} (seen : ℕ → ℕ → ℕ) (deferred : ℕ → List ℕ)
    → ((u j : ℕ) → u < n → j < n → u ≢ j → s.mem.last_posted u j ≤ seen u j)
    → Inv n s
    → Inv n (record { mem = s.mem; seen = seen; deferred = deferred })
Inv-seen seen deferred saw inv = record {
  threads = inv.threads;
  chained = inv.chained;
  behind = inv.behind;
  bounded = inv.bounded;
  small = inv.small;
  witnessed = saw;
  reclaimed = inv.reclaimed;
}

pub Inv-update :
    {n : ℕ} {s : System} (t i : ℕ)
    → t < n
    → i < n
    → Inv n s
    → Inv n (record s { mem = update_round s.mem t i; seen = update_at s.seen t i (s.mem.head i) })
Inv-update {n} {s} t i t_n i_n inv =
    let saw : (u j : ℕ)
        → u < n
        → j < n
        → u ≢ j
        → s.mem.last_posted u j ≤ update_at s.seen t i (s.mem.head i) u j =
      λ u j u_n j_n ne.
        ground (
          arith,
          inv.witnessed u j u_n j_n ne,
          inv.behind u j u_n j_n ne,
          inv.bounded u j u_n j_n,
        ) in
    elim (Bool-cases (i == t)) [
      | inl own ↦ rw own (Inv-seen _ s.deferred saw inv)
      | inr other ↦ rw other (elim (Bool-cases (s.mem.rcu t i == s.mem.last_posted t i)) [
        | inl known ↦ rw known (Inv-seen _ s.deferred saw inv)
        | inr news ↦ rw news (
            Inv-post _ t i (s.mem.rcu t i) t_n i_n (inv.behind t i t_n i_n (ground arith))
              (inv.bounded t i t_n i_n) (λ ne. omega arith) saw
              (λ ne. ground (arith, inv.bounded t i t_n i_n)) inv)
      ])
    ]

-- What a call of `rcu_defer_free` that returns has asserted and done.
pub rcu_defer_free_lem :
    (s : Rcu) (t x : ℕ) {m : Rcu}
    → rcu_defer_free s t x ≡ some m
    → (has_room s t ≡ true) × (post_head (enqueued s t x) t ≡ m)
rcu_defer_free_lem s t x e = elim (Bool-cases (not (x == 0) && has_room s t)) [
  | inl asserted ↦ (ground (arith, asserted), ground (arith, e, asserted))
  | inr failed ↦ absurd (ground (arith, e, failed))
]

Inv-enqueue :
    {n : ℕ} {s : System} (t x : ℕ)
    → s.mem.head t + 1 < 2 ^ 32
    → Inv n s
    → Inv n (record s { mem = enqueued s.mem t x })
Inv-enqueue {n} {s} t x room inv = record {
  threads = inv.threads;
  chained = inv.chained;
  behind = inv.behind;
  bounded = λ u j u_n j_n. ground (arith, inv.bounded u j u_n j_n);
  small = λ j. ground (arith, inv.small j);
  witnessed = inv.witnessed;
  reclaimed = inv.reclaimed;
}

Inv-defer :
    {n : ℕ} {s : System} (t x : ℕ)
    → t < n
    → s.mem.head t + 1 < 2 ^ 32
    → Inv n s
    → Inv n (record s { mem = post_head (enqueued s.mem t x) t })
Inv-defer {n} {s} t x t_n room inv =
    let q = enqueued s.mem t x in
    let next = Inv-enqueue t x room inv in
    elim (Bool-cases (ltb (u64 (q.head t + 2 ^ 64 - q.last_posted t t)) 10)) [
      | inl few ↦ rw few next
      | inr many ↦ rw many (
          Inv-post s.seen t t (q.head t) t_n t_n
            (ground (
              arith,
              next.chained t t t_n t_n,
              next.bounded (next_thread n t) t (mod-lt (t + 1) (omega arith)) t_n,
            ))
            (omega arith) (λ ne. absurd (ne refl)) inv.witnessed (λ ne. absurd (ne refl)) next)
    ]

Step-Inv : {n : ℕ} {s s' : System} → Step s s' → Inv n s → Inv n s'
Step-Inv (update_step t i t_n i_n) inv =
    Inv-update t i (omega (arith, inv.threads)) (omega (arith, inv.threads)) inv
Step-Inv (free_step t t_n) inv = Inv-free t (omega (arith, inv.threads)) inv
Step-Inv {n} {s} (defer_step t x {m} t_n room e) inv =
    let (asserted, called) = rcu_defer_free_lem s.mem t x e in
    let next = Inv-defer t x (omega (arith, inv.threads)) room inv in
    let ghosts = update s.deferred t (s.deferred t ++ x ∷ []) in
    subst (λ k. Inv n (record s { mem = k; deferred = ghosts })) called
      (Inv-seen s.seen ghosts next.witnessed next)

pub Reach-Inv : {n : ℕ} {s : System} → Reach n s → Inv n s
Reach-Inv {n} start = Inv-init n
Reach-Inv (later r st) = Step-Inv st (Reach-Inv r)
