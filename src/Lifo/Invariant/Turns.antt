-- ===== src/Lifo/Invariant/Turns.antt =====
-- The four uses of a cell's lock in src/lifo/clifo.c: each is a harmless turn.
use ssr.Base.{ℕ, true, ◌≡◌, ◌≢◌, refl, some, arith}
use ssr.Lifo.{
  empty, busy, full, lock_at, Pc, push_lock, push_store, push_unlock, pushed, pop_lock, pop_read,
  pop_unlock, popped,
}
use ssr.Lifo.System.{System}
use ssr.Lifo.Invariant.{holds, Local, Inv}
use ssr.Lifo.Invariant.Cell.{IsTurn}

-- Who holds a cell finds it BUSY.
pub holds-busy :
    (s : System) (p : Pc) (k : ℕ) → Local s p → holds p ≡ some k → lock_at s.mem k ≡ busy
holds-busy s (push_store v j) k h e = ground arith
holds-busy s p k h e = ground arith

module _ {n : ℕ} {s : System} (inv : Inv n s) (i : ℕ) where
  open inv use {drained, loaded, locals, unique}

  free : (k : ℕ) → lock_at s.mem k ≢ busy → (j : ℕ) → holds (s.pc j) ≡ some k → i ≡ j
  free k ne j e = absurd (ne (holds-busy s (s.pc j) k (locals j) e))

  pub push_lock-IsTurn :
      (v k : ℕ)
      → s.pc i ≡ push_lock v k
      → lock_at s.mem k ≡ empty
      → IsTurn s i k busy (push_store v k)
  push_lock-IsTurn v k at got = record {
    inside = ground (arith, locals i);
    alone = free k (ground arith);
    before = λ j e. ground arith;
    behind = λ j e. ground arith;
    if_empty = λ e. cc;
    if_full = λ e. cc;
    if_busy = λ e. refl;
    here = ground (arith, locals i, drained k);
    weigh = λ j. ground arith;
  }

  pub pop_lock-IsTurn :
      (k : ℕ) → s.pc i ≡ pop_lock k → lock_at s.mem k ≡ full → IsTurn s i k busy (pop_read k)
  pop_lock-IsTurn k at got = record {
    inside = ground (arith, locals i);
    alone = free k (ground arith);
    before = λ j e. ground arith;
    behind = λ j e. ground arith;
    if_empty = λ e. cc;
    if_full = λ e. cc;
    if_busy = λ e. refl;
    here = ground (arith, locals i, loaded k);
    weigh = λ j. ground arith;
  }

  pub push_unlock-IsTurn : (k : ℕ) → s.pc i ≡ push_unlock k → IsTurn s i k full (pushed true)
  push_unlock-IsTurn k at = record {
    inside = ground (arith, locals i);
    alone = λ j e. unique i j k (ground arith) e;
    before = λ j e. ground arith;
    behind = λ j e. cc;
    if_empty = λ e. cc;
    if_full = λ e. ground (arith, locals i);
    if_busy = λ e. cc;
    here = tt;
    weigh = λ j. ground (arith, locals i);
  }

  pub pop_unlock-IsTurn : (k v : ℕ) → s.pc i ≡ pop_unlock k v → IsTurn s i k empty (popped v)
  pop_unlock-IsTurn k v at = record {
    inside = ground (arith, locals i);
    alone = λ j e. unique i j k (ground arith) e;
    before = λ j e. ground arith;
    behind = λ j e. cc;
    if_empty = λ e. ground (arith, locals i);
    if_full = λ e. cc;
    if_busy = λ e. cc;
    here = tt;
    weigh = λ j. ground (arith, locals i);
  }
