-- ===== src/Rcu.antt =====
-- src/runtime/rcu.c, deferred reclamation by counts that the threads pass round a ring.
pub mod System
pub mod Invariant
pub mod Queued
pub mod Safety
pub mod Ends
pub mod Rounds
pub mod Ring
pub mod Examples
use ssr.Base.{
  zero, suc, Option, none, some, ℕ, ◌+◌, ◌-◌, ◌%◌, ◌^◌, Bool, true, false, List, [], ◌∷◌, ◌++◌,
  ◌==◌, ◌&&◌, not, ltb, if◌then◌else◌, update, u32, u64,
}

-- MAX_NUM_THREADS is no bound of the model; RCU_POST_THRESHOLD and RCU_QUEUE_SCALE.
abbrev post_threshold : ℕ
post_threshold = 10

abbrev queue_scale : ℕ
queue_scale = 20

-- `rcu_`, `rcu_last_posted_` and `pending_` by thread, `num_threads_`, and the blocks that each thread
-- has freed, in this order.
pub record Rcu : Type 0 where
  pub num_threads : ℕ
  pub rcu : ℕ → ℕ → ℕ
  pub last_posted : ℕ → ℕ → ℕ
  pub head : ℕ → ℕ
  pub tail : ℕ → ℕ
  pub slots : ℕ → ℕ → ℕ
  pub freed : ℕ → List ℕ

-- MOD_SCALE
abbrev pub mod_scale : ℕ → ℕ
mod_scale x = x % 2 ^ queue_scale

abbrev pub next_thread : ℕ → ℕ → ℕ
next_thread n t = (t + 1) % n

abbrev pub update_at : (ℕ → ℕ → ℕ) → ℕ → ℕ → ℕ → ℕ → ℕ → ℕ
update_at f a b x = update f a (update (f a) b x)

-- `x` is posted to the next thread, on behalf of thread `i`.
abbrev pub post : Rcu → (t i x : ℕ) → Rcu
post s t i x = record s {
  rcu = update_at s.rcu (next_thread s.num_threads t) i x;
  last_posted = update_at s.last_posted t i x;
}

-- One round of the first loop of `rcu_update`.
abbrev pub update_round : Rcu → (t i : ℕ) → Rcu
update_round s t i =
    if i == t then s else if s.rcu t i == s.last_posted t i then s else post s t i (s.rcu t i)

abbrev pub dequeued : Rcu → (t : ℕ) → Rcu
dequeued s t = record s {
  freed = update s.freed t (s.freed t ++ s.slots t (mod_scale (s.tail t)) ∷ []);
  tail = update s.tail t (u32 (s.tail t + 1));
}

-- One round of the second loop.
abbrev pub free_round : Rcu → (t : ℕ) → Rcu
free_round s t = if s.tail t == s.rcu t t then s else dequeued s t

abbrev pub enqueued : Rcu → (t x : ℕ) → Rcu
enqueued s t x = record s {
  slots = update_at s.slots t (mod_scale (s.head t)) x;
  head = update s.head t (u32 (s.head t + 1));
}

-- The end of `rcu_defer_free`, which posts the head after enough blocks.
abbrev pub post_head : Rcu → (t : ℕ) → Rcu
post_head q t =
    if ltb (u64 (q.head t + 2 ^ 64 - q.last_posted t t)) post_threshold
    then q
    else post q t t (q.head t)

-- The assertion that the queue has room.
abbrev pub has_room : Rcu → (t : ℕ) → Bool
has_room s t = not (mod_scale (u32 (s.head t + 1)) == mod_scale (s.tail t))

-- `none` is an assertion that fails.
abbrev pub rcu_defer_free : Rcu → (t x : ℕ) → Option Rcu
rcu_defer_free s t x =
    if not (x == 0) && has_room s t then some (post_head (enqueued s t x) t) else none

-- The first loop of `rcu_update`, its first `k` rounds.
pub update_rounds : (k : ℕ) → Rcu → (t : ℕ) → Rcu
update_rounds zero s t = s
update_rounds (suc k) s t = update_round (update_rounds k s t) t k

-- The second loop, on fuel.
pub free_rounds : ℕ → Rcu → (t : ℕ) → Option Rcu
free_rounds zero s t = none
free_rounds (suc fuel) s t =
    let rest = free_rounds fuel (free_round s t) t in if s.tail t == s.rcu t t then some s else rest

pub rcu_update : ℕ → Rcu → (t : ℕ) → Option Rcu
unfolding update_rounds free_rounds
rcu_update fuel s t = free_rounds fuel (update_rounds s.num_threads s t) t
