-- ===== src/Rcu/Safety.antt =====
-- No block is freed before every other thread has passed through `rcu_update` of src/runtime/rcu.c.
use ssr.Base.{ℕ, zero, suc, ◌+◌, ◌-◌, ◌%◌, ◌≤◌, ◌<◌, ◌≡◌, sym, ap, ◌∙◌, ◌≢◌, take, arith, mod-ne}
use native.Mathlib.Nat.{mod-lt, mod-eq_of_lt, mod-add-mod, add-mod_right}
use native.Mathlib.Decide.{dec_lt}
use ssr.Rcu.{next_thread}
use ssr.Rcu.System.{System, Reach}
use ssr.Rcu.Invariant.{Inv, Reach-Inv}
use ssr.Rcu.Queued.{Reach-OwnQueue}

-- The thread that is `k` places behind `i` in the ring.
abbrev pub place : ℕ → ℕ → ℕ → ℕ
place n i k = (i + k) % n

pub next_thread-place : (n i k : ℕ) → next_thread n (place n i k) ≡ place n i (k + 1)
next_thread-place n i k = mod-add-mod (i + k) n 1 ∙ ap (λ z. z % n) (omega arith)

pub place-other : (n i k : ℕ) → i < n → 0 < k → k < n → place n i k ≢ i
place-other n i k i_n pos k_n e =
    mod-ne i (i + k) n (omega arith) (omega arith) (mod-eq_of_lt i_n ∙ sym e)

pub place-round : (n i : ℕ) → i < n → place n i n ≡ i
place-round n i i_n = add-mod_right i n ∙ mod-eq_of_lt i_n

-- What has come back to thread `i` has been passed on by every thread before.
passed_on :
    {n : ℕ} {s : System} (i : ℕ) (m k : ℕ)
    → Inv n s
    → i < n
    → k + (m + 1) ≡ n
    → s.mem.rcu i i ≤ s.mem.last_posted (place n i k) i
passed_on {n} {s} i zero k inv i_n e =
    let here : next_thread n (place n i k) ≡ i =
      next_thread-place n i k ∙ (ap (λ z. place n i z) (omega arith) ∙ place-round n i i_n) in
    omega (
      arith,
      inv.chained (place n i k) i (mod-lt (i + k) (omega arith)) i_n,
      ap (λ z. s.mem.rcu z i) here,
    )
passed_on {n} {s} i (suc m) k inv i_n e =
    let later = passed_on i m (k + 1) inv i_n (omega arith) in
    let next = ap (λ z. s.mem.rcu z i) (next_thread-place n i k) in
    omega (
      arith,
      later,
      next,
      inv.chained (place n i k) i (mod-lt (i + k) (omega arith)) i_n,
      inv.behind (place n i (k + 1)) i (mod-lt (i + (k + 1)) (omega arith)) i_n
          (place-other n i (k + 1) i_n (omega arith) (omega arith)),
    )

passed_on_all :
    {n : ℕ} {s : System} (t i : ℕ)
    → Inv n s
    → t < n
    → i < n
    → t ≢ i
    → s.mem.rcu i i ≤ s.mem.last_posted t i
passed_on_all {n} {s} t i inv t_n i_n ne = elim (dec_lt i t) [
  | yes after ↦
      let here : place n i (t - i) ≡ t = ap (λ z. z % n) (omega arith) ∙ mod-eq_of_lt t_n in
      omega (
        arith,
        passed_on i (n - (t - i) - 1) (t - i) inv i_n (omega arith),
        ap (λ z. s.mem.last_posted z i) here,
      )
  | no before ↦
      let here : place n i (t + n - i) ≡ t =
        ap (λ z. z % n) (omega arith) ∙ (add-mod_right t n ∙ mod-eq_of_lt t_n) in
      omega (
        arith,
        passed_on i (i - t - 1) (t + n - i) inv i_n (omega arith),
        ap (λ z. s.mem.last_posted z i) here,
      )
]

-- In every interleaving of the rounds of `rcu_update` and of calls of `rcu_defer_free` whose
-- assertions hold, while no thread has deferred 2 ^ 32 blocks: the blocks that a thread `i` has freed
-- are, in order and each once, the first `tail` of the blocks that it has deferred, and it had
-- deferred at least as many when any other thread `t` was last in `rcu_update`, in the round for `i`.
pub reclaim_safe :
    {n : ℕ} {s : System} (t i : ℕ)
    → Reach n s
    → t < n
    → i < n
    → t ≢ i
    → (s.mem.freed i ≡ take (s.mem.tail i) (s.deferred i)) × (s.mem.tail i ≤ s.seen t i)
reclaim_safe t i r t_n i_n ne =
    let inv = Reach-Inv r in
    (
      (Reach-OwnQueue i r).reclaimed,
      omega (
        arith,
        inv.reclaimed i i_n,
        passed_on_all t i inv t_n i_n ne,
        inv.witnessed t i t_n i_n ne,
      ),
    )
