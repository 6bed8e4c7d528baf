-- ===== src/Lifo/Invariant/Claim.antt =====
-- Steps of src/lifo/clifo.c that write at most `head` keep the invariant.

use ssr.Base.{ℕ, ◌+◌, ◌-◌, ◌<◌, ◌≡◌, ◌≢◌, update, arith, weight-update}
use ssr.Lifo.{Pc, push_cas, push_lock, pop_cas, pop_lock}
use ssr.Lifo.System.{System}
use ssr.Lifo.Invariant.{holds, pusher, pop_waiter, Local, Inv}
use ssr.Lifo.Invariant.Change.{Local-move}

module _ {n : ℕ} {s : System} (inv : Inv n s) (i : ℕ) (lt : i < n) where
  open inv use {room, small, drained, loaded, in_order, locals, unique, held, balance}

  -- A step that writes no memory.
  pub Inv-move :
      (p : Pc)
      → Local s p
      → holds p ≡ holds (s.pc i)
      → ((k : ℕ) → (pusher k p ≡ pusher k (s.pc i)) × (pop_waiter k p ≡ pop_waiter k (s.pc i)))
      → Inv n (record s { pc = update s.pc i p })
  Inv-move p here same weigh = record {
    room = room;
    small = small;
    drained = drained;
    loaded = loaded;
    in_order = in_order;
    locals = λ j. ground (
      arith,
      Local-move s s.mem.head (update s.pc i p) (s.pc j) (locals j),
      Local-move s s.mem.head (update s.pc i p) p here,
    );
    unique = λ a b k. ground (arith, unique a b k, unique i b k, unique a i k);
    held = λ k le e. let (j, jn, own) = held k le e in (j, jn, ground arith);
    balance = λ k le. omega (
      arith,
      balance k le,
      weigh k,
      weight-update (pusher k) n s.pc i p lt,
      weight-update (pop_waiter k) n s.pc i p lt,
    );
  }

  pub Inv-push_claim :
      (v : ℕ)
      → s.pc i ≡ push_cas v s.mem.head
      → Inv n (record s {
        mem = record s.mem { head = s.mem.head + 1 };
        pc = update s.pc i (push_lock v s.mem.head);
      })
  Inv-push_claim v at = record {
    room = next;
    small = small;
    drained = drained;
    loaded = loaded;
    in_order = in_order;
    locals = λ j. ground (
      arith,
      next,
      Local-move s (s.mem.head + 1) (update s.pc i (push_lock v s.mem.head)) (s.pc j) (locals j),
    );
    unique = λ a b k. ground (arith, unique a b k);
    held = λ k le e. let (j, jn, own) = held k le e in (j, jn, ground arith);
    balance = λ k le. ground (
      arith,
      balance k le,
      weight-update (pusher k) n s.pc i (push_lock v s.mem.head) lt,
      weight-update (pop_waiter k) n s.pc i (push_lock v s.mem.head) lt,
    );
  }
    where
      next : s.mem.head + 1 < s.mem.bound
      next = ground (arith, locals i)

  pub Inv-pop_claim :
      s.pc i ≡ pop_cas s.mem.head
      → Inv n (record s {
        mem = record s.mem { head = s.mem.head - 1 };
        pc = update s.pc i (pop_lock (s.mem.head - 1));
      })
  Inv-pop_claim at = record {
    room = omega arith;
    small = small;
    drained = drained;
    loaded = loaded;
    in_order = in_order;
    locals = λ j. ground (
      arith,
      some_left,
      Local-move s (s.mem.head - 1) (update s.pc i (pop_lock (s.mem.head - 1))) (s.pc j) (locals j),
    );
    unique = λ a b k. ground (arith, unique a b k);
    held = λ k le e. let (j, jn, own) = held k le e in (j, jn, ground arith);
    balance = λ k le. ground (
      arith,
      some_left,
      balance k le,
      weight-update (pusher k) n s.pc i (pop_lock (s.mem.head - 1)) lt,
      weight-update (pop_waiter k) n s.pc i (pop_lock (s.mem.head - 1)) lt,
    );
  }
    where
      some_left : s.mem.head ≢ 0
      some_left = ground (arith, locals i)
