-- ===== src/Lifo/Invariant/Change.antt =====
-- The locals of one thread survive what another does to its own cell (src/lifo/clifo.c).
use ssr.Base.{ℕ, ◌≢◌, some, [], ◌∷◌, ◌++◌, update, arith}
use ssr.Lifo.{NodeState, Pc, set_lock, set_value, push_store}
use ssr.Lifo.System.{System}
use ssr.Lifo.Invariant.{holds, Local}

module _ (s : System) (k : ℕ) where
  pub Local-set_lock :
      (st : NodeState) (pc : ℕ → Pc) (p : Pc)
      → holds p ≢ some k
      → Local s p
      → Local (record s { mem = set_lock s.mem k st; pc = pc }) p
  Local-set_lock st pc (push_store v j) ne h = ground arith
  Local-set_lock st pc p ne h = ground arith

  pub Local-wrote :
      (v : ℕ) (pc : ℕ → Pc) (p : Pc)
      → holds p ≢ some k
      → Local s p
      → Local
          (record s {
            mem = set_value s.mem k v;
            pc = pc;
            given = update s.given k (s.given k ++ v ∷ []);
          })
          p
  Local-wrote v pc (push_store w j) ne h = ground arith
  Local-wrote v pc p ne h = ground arith

  pub Local-read :
      (v : ℕ) (pc : ℕ → Pc) (p : Pc)
      → holds p ≢ some k
      → Local s p
      → Local (record s { pc = pc; taken = update s.taken k (s.taken k ++ v ∷ []) }) p
  Local-read v pc (push_store w j) ne h = ground arith
  Local-read v pc p ne h = ground arith

-- A CAS of `head`, or a step that writes nothing shared.
pub Local-move :
    (s : System) (head : ℕ) (pc : ℕ → Pc) (p : Pc)
    → Local s p
    → Local (record s { mem = record s.mem { head = head }; pc = pc }) p
Local-move s head pc (push_store w j) h = ground arith
Local-move s head pc p h = ground arith
