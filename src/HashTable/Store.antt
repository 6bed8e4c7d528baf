-- ===== src/HashTable/Store.antt =====
-- The end of `hti_copy_entry` of src/map/hashtable.c: the value goes into the new table.
use native.Mathlib.Decide.{ℕ_discrete}
use ssr.Base.{
  ℕ, ◌+◌, ◌-◌, ◌≤◌, ◌<◌, ◌≡◌, refl, sym, ap, subst, ◌∙◌, ◌≢◌, inl, inr, true, false, some, ◌==◌,
  if◌then◌else◌, update, Bool-cases, arith, u64,
}
use ssr.HashTable.{
  Ht, is_tagged1, strip_tag1, copied_value, tombstone, set_entry_val, add_count, minus_one,
}
use ssr.HashTable.Copy.{is_copied, copy_val}
use ssr.HashTable.View.{View, Inv, value_from, value_from-found}
use ssr.HashTable.Change.{Changed, Changed-other, Changed-Inv}
use ssr.HashTable.Chain.{view, effective, set_table-view, set_entry_val-Changed}
use ssr.HashTable.Frame.{Frame, Frame-elsewhere, Frame-own}

-- The value of a key in the tables from `b` on.
abbrev pub value_of : View → (b q : ℕ) → ℕ
value_of s b q = value_from s (s.installed - b) b q

abbrev pub value : Ht → (b q : ℕ) → ℕ
value ht b q = value_of (view ht) b q

-- Values of the program: not tagged, and not TOMBSTONE.
pub record IsValue (v : ℕ) : Type 0 where
  pub nonzero : v ≢ 0
  pub small : v < tombstone

-- While entry `i` of table `t`, with the key `q`, is copied, the other keys have the values `m`.
pub record Copying (o ht : Ht) (b t i q : ℕ) (m : ℕ → ℕ) : Type 0 where
  pub frame : Frame o ht t i
  pub inv : Inv (view ht) b
  pub low : b ≤ t
  pub in_range : t + 1 < ht.installed
  pub own_key : (ht.tables t).key i ≡ q
  pub others : (p : ℕ) → p ≢ 0 → p ≢ q → value ht b p ≡ m p

-- The entry is copied, and its key has the value `v`.
pub record Done (o ht : Ht) (b t i q : ℕ) (m : ℕ → ℕ) (v : ℕ) : Type 0 where
  pub now : Copying o ht b t i q m
  pub moved : (ht.tables t).val i ≡ copied_value
  pub has : value ht b q ≡ v
  pub growth : ht.installed ≤ o.installed + 1

module _ {o s : Ht} {b t i q u j v : ℕ} {m : ℕ → ℕ} (copying : Copying o s b t i q m) (ne : q ≢ 0)
    (val : IsValue v) (above : t < u) (exists : u < s.installed)
    (found : (view s).look u q ≡ some (j, false)) (vacant : (s.tables u).val j ≡ 0) where
  abbrev with_value : Ht
  with_value = set_entry_val s u j v

  abbrev with_dead : Ht
  with_dead = set_entry_val with_value t i copied_value

  abbrev stored : Ht
  stored = add_count (add_count with_dead t minus_one) u 1

  stored-view : view stored ≡ view with_dead
  stored-view =
      let less = add_count with_dead t minus_one in
      set_table-view less u (record (less.tables u) { count = u64 ((less.tables u).count + 1) })
        refl
      ∙ set_table-view with_dead t
          (record (with_dead.tables t) { count = u64 ((with_dead.tables t).count + minus_one) })
          refl

  with_value-Changed : Changed (view s) (view with_value) u j v
  with_value-Changed =
      subst (λ x. Changed (view s) (view with_value) u j x) (untagged v val.small)
        (set_entry_val-Changed s u j v)
    where
      untagged : (v : ℕ) → v < tombstone → effective v ≡ v
      untagged v lt = ground arith

  with_dead-Changed : Changed (view with_value) (view with_dead) t i copied_value
  with_dead-Changed = set_entry_val-Changed with_value t i copied_value

  not_copied : (v : ℕ) → v < tombstone → is_copied v ≡ false
  not_copied v lt = ground arith

  with_value-Inv : Inv (view with_value) b
  with_value-Inv =
      let empty : (view s).val u j ≡ 0 = rw vacant refl in
      Changed-Inv with_value-Changed (λ e. absurd (ground (arith, e, empty))) copying.inv
        (inr (not_copied v val.small))
        (inr (λ z. ne (sym (copying.inv.looks.found_key u q j found) ∙ z)))

  with_dead-Inv : Inv (view with_dead) b
  with_dead-Inv =
      Changed-Inv with_dead-Changed (λ e. refl) with_value-Inv (inl copying.in_range) (inl refl)

  stored-has : value with_dead b q ≡ v
  stored-has =
      let at_u : (view with_dead).val u j ≡ v =
        with_dead-Changed.vals u j
        ∙ (let apart : (t == u) ≡ false = ground arith in
            rw apart (
              with_value-Changed.vals u j
              ∙ (let e : (u == u) ≡ true = ground arith in
                  let e' : (j == j) ≡ true = ground arith in rw e (rw e' refl)))) in
      value_from-found (s.installed - b) q u j with_dead-Inv (omega (arith, copying.inv.some_table))
        (omega (arith, copying.low)) exists ne
        (with_dead-Changed.same_looks u q ∙ with_value-Changed.same_looks u q ∙ found)
        (rw at_u (not_copied v val.small))
      ∙ rw at_u (plain_value v val.small)
    where
      plain_value : (v : ℕ) → v < tombstone → (if v == tombstone then 0 else v) ≡ v
      plain_value v lt = ground arith

  stored-others : (p : ℕ) → p ≢ 0 → p ≢ q → value with_dead b p ≡ m p
  stored-others p ne_p apart =
      Changed-other with_dead-Changed (s.installed - b) b p with_value-Inv.looks
        (λ e. apart (e ∙ with_value-Changed.same_keys t i ∙ copying.own_key))
      ∙ Changed-other with_value-Changed (s.installed - b) b p copying.inv.looks
          (λ e. apart (e ∙ copying.inv.looks.found_key u q j found))
      ∙ copying.others p ne_p apart

  with_value-Frame : Frame o with_value t i
  with_value-Frame =
      let frame = copying.frame in
      let other : t ≢ u = omega arith in
      Frame-elsewhere frame u (record (s.tables u) { val = update (s.tables u).val j v }) other refl
        (λ k. elim (Bool-cases (j == k)) [
          | inl here ↦ rw here (λ e. absurd (too_small v val.small e))
          | inr there ↦ rw there (frame.settled u k exists (inl other))
        ])
        (λ k. elim (ℕ_discrete j k) [
          | yes here ↦
              let e : (j == k) ≡ true = ground arith in
              rw e (
                subst (λ a. is_copied v ≡ is_copied ((s.tables u).val a)) here
                  (not_copied v val.small ∙ sym (ap is_copied vacant)))
          | no there ↦ let e : (j == k) ≡ false = ground arith in rw e refl
        ])
    where
      too_small : (v : ℕ) → v < tombstone → is_tagged1 v ≢ true
      too_small v lt e = ground (arith, e)

  with_dead-Frame : Frame o with_dead t i
  with_dead-Frame =
      let apart : (k : ℕ) → i ≢ k → (i == k) ≡ false = λ k other. ground arith in
      Frame-own with_value-Frame
        (record (with_value.tables t) { val = update (with_value.tables t).val i copied_value })
        refl refl (λ k other. rw (apart k other) refl) (omega (arith, copying.in_range))

  stored-Frame : Frame o stored t i
  stored-Frame =
      let other : t ≢ u = omega arith in
      let less = add_count with_dead t minus_one in
      let less-Frame : Frame o less t i =
        Frame-own with_dead-Frame
          (record (with_dead.tables t) { count = u64 ((with_dead.tables t).count + minus_one) })
          refl refl (λ k other. refl) (omega (arith, copying.in_range)) in
      Frame-elsewhere less-Frame u
        (record (less.tables u) { count = u64 ((less.tables u).count + 1) }) other refl
        (λ k. less-Frame.settled u k exists (inl other)) (λ k. refl)

  stored-moved : (stored.tables t).val i ≡ copied_value
  stored-moved =
      let apart : (u == t) ≡ false = ground arith in
      let itself : (t == t) ≡ true = ground arith in
      let entry : (i == i) ≡ true = ground arith in rw apart (rw itself (rw entry refl))

  -- The value is stored, and the old entry is marked.
  pub copy_val-Done :
      (ent_val : ℕ)
      → strip_tag1 ent_val ≡ v
      → s.installed ≤ o.installed + 1
      → (s' : Ht) × (copy_val s t i u j ent_val ≡ some (true, s')) × Done o s' b t i q m v
  copy_val-Done ent_val strip growth = (
    stored,
    rw vacant (rw strip refl),
    record {
      now = record {
        frame = stored-Frame;
        inv = subst (λ w. Inv w b) (sym stored-view) with_dead-Inv;
        low = copying.low;
        in_range = copying.in_range;
        own_key =
            ap (λ f. f i) (stored-Frame.same_keys ∙ sym copying.frame.same_keys) ∙ copying.own_key;
        others = λ p ne_p apart. ap (λ w. value_of w b p) stored-view ∙ stored-others p ne_p apart;
      };
      moved = stored-moved;
      has = ap (λ w. value_of w b q) stored-view ∙ stored-has;
      growth = growth;
    },
  )
