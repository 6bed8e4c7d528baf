-- ===== src/Fifo/Invariant/Keep.antt =====
-- Every step of every thread keeps the invariant (src/fifo/cfifo.c).
use Prim.Native.Nat.{ℕ}
use native.Mathlib.Decide.{dec_lt}
use ssr.Base.{
  ◌+◌, ◌%◌, ◌≤◌, ◌<◌, ◌≡◌, sym, ◌∙◌, Bool, true, some, List, get_or, update, arith, mod-ne,
  length-snoc, get_or-snoc_lt, get_or-snoc_self, take-snoc, take-add_one,
}
use ssr.Fifo.{
  Fifo, Pc, push_cas, push_store, push_commit, push_count, pop_cas, pop_count, silent, enqueue,
  dequeue,
}
use ssr.Fifo.System.{System, after}
use ssr.Fifo.Invariant.{ticket, popping, Local, Inv}
use ssr.Fifo.Invariant.Change.{Local-claim, Local-store, Local-commit, Local-take}

ticket-lt : (m : Fifo) (l : List ℕ) (p : Pc) (t : ℕ) → ticket p ≡ some t → Local m l p → t < m.tail
ticket-lt m l (push_store v u) t e h = ground arith
ticket-lt m l p t e h = ground arith

module _ {consumer : ℕ → Bool} {s : System} (inv : Inv consumer s) (i : ℕ) where
  open inv use {
    head_le, sentinel_le, fits, tail_counts, head_counts, in_order, stored, locals, unique, covered,
    consumers,
  }

  -- A step that writes nothing but `used`.
  pub Inv-move :
      (p : Pc) (used : ℕ)
      → Local s.mem s.enqueued p
      → ticket p ≡ ticket (s.pc i)
      → (popping p ≡ true → consumer i ≡ true)
      → Inv consumer (record s { mem = record s.mem { used = used }; pc = update s.pc i p })
  Inv-move p used here same may = record {
    head_le = head_le;
    sentinel_le = sentinel_le;
    fits = fits;
    tail_counts = tail_counts;
    head_counts = head_counts;
    in_order = in_order;
    stored = stored;
    locals = λ j. ground (arith, locals j);
    unique = λ a b t. ground (arith, unique a b t, unique i b t, unique a i t);
    covered = λ t le lt. let (j, held) = covered t le lt in (j, ground arith);
    consumers = λ j. ground (arith, consumers j);
  }

  pub Inv-claim :
      (v : ℕ)
      → s.pc i ≡ push_cas v s.mem.tail
      → Inv consumer
          (after s i (record s.mem { tail = s.mem.tail + 1 }, push_store v s.mem.tail, enqueue v))
  Inv-claim v at = record {
    head_le = head_le;
    sentinel_le = omega arith;
    fits = ground (arith, locals i);
    tail_counts = omega (arith, length-snoc s.enqueued v);
    head_counts = head_counts;
    in_order = in_order ∙ sym (take-snoc s.enqueued v s.mem.head (omega arith));
    stored = λ k a b. ground (arith, stored k, get_or-snoc_lt s.enqueued v k 0);
    locals = λ j. ground (
      arith,
      tail_counts,
      Local-claim s.mem s.enqueued v (s.pc j) tail_counts sentinel_le (locals j),
      get_or-snoc_self s.enqueued v 0,
    );
    unique = λ a b t. ground (arith, unique a b t, older a t, older b t);
    covered = λ t le lt. elim (dec_lt t s.mem.tail) [
      | yes old ↦ let (j, held) = covered t le old in (j, ground arith)
      | no new ↦ (i, ground arith)
    ];
    consumers = λ j. ground (arith, consumers j);
  }
    where
      older : (a t : ℕ) → ticket (s.pc a) ≡ some t → t < s.mem.tail
      older a t e = ticket-lt s.mem s.enqueued (s.pc a) t e (locals a)

  pub Inv-store :
      (v t : ℕ)
      → s.pc i ≡ push_store v t
      → Inv consumer (
          after s i (
            record s.mem {
              buffer = record s.mem.buffer { cells = update s.mem.cells (t % s.mem.bound) v };
            },
            push_commit t,
            silent,
          ))
  Inv-store v t at = record {
    head_le = head_le;
    sentinel_le = sentinel_le;
    fits = fits;
    tail_counts = tail_counts;
    head_counts = head_counts;
    in_order = in_order;
    stored = λ k a b. ground (arith, stored k, mod-ne k t s.mem.bound, own);
    locals =
        λ j. ground (arith, own, Local-store s.mem s.enqueued t v (s.pc j), locals j, unique i j t);
    unique = λ a b u. ground (arith, unique a b u, unique i b u, unique a i u);
    covered = λ u le lt. let (j, held) = covered u le lt in (j, ground arith);
    consumers = λ j. ground (arith, consumers j);
  }
    where
      own : (s.mem.sentinel ≤ t) × (t < s.mem.tail) × (get_or s.enqueued t 0 ≡ v)
      own = ground (arith, locals i)

  pub Inv-commit :
      s.pc i ≡ push_commit s.mem.sentinel
      → Inv consumer
          (after s i (record s.mem { sentinel = s.mem.sentinel + 1 }, push_count, silent))
  Inv-commit at = record {
    head_le = omega arith;
    sentinel_le = ground (arith, locals i);
    fits = fits;
    tail_counts = tail_counts;
    head_counts = head_counts;
    in_order = in_order;
    stored = λ k a b. elim (dec_lt k s.mem.sentinel) [
      | yes old ↦ stored k a old
      | no new ↦ ground (arith, locals i)
    ];
    locals = λ j.
        ground (arith, Local-commit s.mem s.enqueued (s.pc j), locals j, unique i j s.mem.sentinel);
    unique = λ a b u. ground (arith, unique a b u);
    covered = λ u le lt. let (j, held) = covered u (omega arith) lt in (j, ground arith);
    consumers = λ j. ground (arith, consumers j);
  }

  pub Inv-take :
      (v : ℕ)
      → ((a b : ℕ) → consumer a ≡ true → consumer b ≡ true → a ≡ b)
      → s.pc i ≡ pop_cas s.mem.head v
      → Inv consumer (after s i (record s.mem { head = s.mem.head + 1 }, pop_count v, dequeue v))
  Inv-take v single at = record {
    head_le = omega (arith, own.0);
    sentinel_le = sentinel_le;
    fits = omega arith;
    tail_counts = tail_counts;
    head_counts = omega (arith, length-snoc s.dequeued v);
    in_order = ground (arith, in_order, own, take-add_one s.enqueued s.mem.head 0);
    stored = λ k a b. stored k (omega arith) b;
    locals = λ j. ground (
      arith,
      Local-take s.mem s.enqueued (s.pc j),
      locals j,
      consumers i,
      consumers j,
      single i j,
    );
    unique = λ a b u. ground (arith, unique a b u);
    covered = λ u le lt. let (j, held) = covered u le lt in (j, ground arith);
    consumers = λ j. ground (arith, consumers j);
  }
    where
      own : (s.mem.head < s.mem.sentinel) × (get_or s.enqueued s.mem.head 0 ≡ v)
      own = ground (arith, locals i)
