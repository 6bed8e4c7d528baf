-- ===== src/Rcu/Examples.antt =====
-- A run of src/runtime/rcu.c with two threads.
use ssr.Base.{
  some, none, zero, ◌-◌, take, update, ◌++◌, suc, ◌<◌, ◌^◌, [], ◌∷◌, ℕ, ◌+◌, ◌≤◌, ◌≡◌, refl, arith,
}
use ssr.Rcu.System.{System, Reach, start, later, update_step, free_step, defer_step, init}
use ssr.Rcu.Safety.{reclaim_safe}
use ssr.Rcu.Ends.{rcu_update_ends}
use ssr.Rcu.{
  Rcu, rcu_update, update_rounds, rcu_defer_free, enqueued, post_head, update_round, free_round,
  update_at,
}

-- Thread 0 defers ten blocks, and so posts their number; thread 1 passes it on; thread 0 frees one.
abbrev deferring : (s : System) (x : ℕ) → System
deferring s x = record s {
  mem = post_head (enqueued s.mem 0 x) 0;
  deferred = update s.deferred 0 (s.deferred 0 ++ x ∷ []);
}

abbrev defers : ℕ → System → System
defers zero s = s
defers (suc k) s = deferring (defers k s) (k + 1)

abbrev passed : System → System
passed s = record s { mem = update_round s.mem 1 0; seen = update_at s.seen 1 0 (s.mem.head 0) }

abbrev first_freed : System
first_freed = let s = passed (defers 10 (init 2)) in record s { mem = free_round s.mem 0 }

defer_more :
    {s : System} (x : ℕ)
    → s.mem.num_threads ≡ 2
    → s.mem.head 0 + 1 < 2 ^ 32
    → rcu_defer_free s.mem 0 x ≡ some (deferring s x).mem
    → Reach 2 s
    → Reach 2 (deferring s x)
defer_more x two small asserted r = later r (defer_step 0 x (omega arith) small asserted)

defers-Reach : Reach 2 (defers 10 (init 2))
defers-Reach = defer_more 10 refl (omega arith) refl (
    defer_more 9 refl (omega arith) refl (
      defer_more 8 refl (omega arith) refl (
        defer_more 7 refl (omega arith) refl (
          defer_more 6 refl (omega arith) refl (
            defer_more 5 refl (omega arith) refl (
              defer_more 4 refl (omega arith) refl (
                defer_more 3 refl (omega arith) refl (
                  defer_more 2 refl (omega arith) refl
                    (defer_more 1 refl (omega arith) refl start)))))))))

first_freed-Reach : Reach 2 first_freed
first_freed-Reach =
    later (later defers-Reach (update_step 1 0 (omega arith) (omega arith)))
      (free_step 0 (omega arith))

one_freed : first_freed.mem.freed 0 ≡ 1 ∷ []
one_freed = refl

-- The assertion fails where the queue is full, and for NULL.
full_queue : rcu_defer_free (record (init 2).mem { head = λ _. 2 ^ 20 - 1 }) 0 7 ≡ none
full_queue = refl

null_block : rcu_defer_free (init 2).mem 0 0 ≡ none
null_block = refl

reclaim_safe_example :
    (first_freed.mem.freed 0 ≡ take (first_freed.mem.tail 0) (first_freed.deferred 0))
    × (first_freed.mem.tail 0 ≤ first_freed.seen 1 0)
reclaim_safe_example = reclaim_safe 1 0 first_freed-Reach (omega arith) (omega arith) (omega arith)

rcu_update_ends_example :
    let s = passed (defers 10 (init 2)) in
    (m : Rcu) × (rcu_update 11 s.mem 0 ≡ some m)
    × (m.tail 0 ≡ (update_rounds 2 s.mem 0).rcu 0 0)
    × (m.freed 0 ≡ take ((update_rounds 2 s.mem 0).rcu 0 0) (s.deferred 0))
rcu_update_ends_example =
    rcu_update_ends 11 0 (later defers-Reach (update_step 1 0 (omega arith) (omega arith)))
      (omega arith) (omega arith)
