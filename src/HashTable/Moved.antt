-- ===== src/HashTable/Moved.antt =====
-- `hti_copy_entry` of src/map/hashtable.c on any entry: it is copied, and no value is lost.
use ssr.Base.{
  ◌⊎◌, ℕ, ◌+◌, ◌-◌, ◌≤◌, ◌<◌, ◌≡◌, refl, sym, ap, subst, ◌∙◌, ◌≢◌, inl, inr, Bool, true, false, not,
  none, arith,
}
use native.Mathlib.Decide.{ℕ_discrete}
use ssr.HashTable.{Ht, is_tagged1, set_entry_val}
use ssr.HashTable.Copy.{is_copied}
use ssr.HashTable.View.{Inv, plain, value_from-found}
use ssr.HashTable.Change.{Changed-dead}
use ssr.HashTable.Chain.{view, effective}
use ssr.HashTable.Frame.{Frame, IsSettled, settled_plain}
use ssr.HashTable.Kept.{Kept-refl}
use ssr.HashTable.Store.{value}
use ssr.HashTable.Entry.{tag-Changed, tag_val, tag-Copying}

-- No entry of the tables from `b` on is being copied.
pub record Stable (ht : Ht) (b : ℕ) : Type 0 where
  pub integer_keys : ht.key_type ≡ none
  pub inv : Inv (view ht) b
  pub scales : (w : ℕ) → w < ht.installed → 4 ≤ (ht.tables w).scale
  pub settled : (w k : ℕ) → w < ht.installed → IsSettled ((ht.tables w).key k) ((ht.tables w).val k)

-- Entry `i` of table `t` is copied, and all keys keep their values.
pub record Moved (ht s : Ht) (b t i : ℕ) (newly : Bool) : Type 0 where
  pub stable : Stable s b
  pub frame : Frame ht s t i
  pub moved : is_copied ((s.tables t).val i) ≡ true
  pub same_values : (p : ℕ) → p ≢ 0 → value s b p ≡ value ht b p
  pub growth : s.installed ≤ ht.installed + 1
  pub in_range : t + 1 < s.installed
  pub was_live : newly ≡ not (is_copied ((ht.tables t).val i))

pub Stable-Frame : {ht : Ht} {b : ℕ} (t i : ℕ) → Stable ht b → t < ht.installed → Frame ht ht t i
Stable-Frame {ht} t i stable lt = record {
  own_range = lt;
  same_first = refl;
  integer_keys = stable.integer_keys;
  same_keys = refl;
  kept = Kept-refl ht (λ w k. (t ≢ w) ⊎ (i ≢ k));
  scales = stable.scales;
  settled = λ w k lt ne. stable.settled w k lt;
}

-- A frame where the entry itself is settled, too.
pub Frame-Stable :
    {o s : Ht} {b t i : ℕ}
    → Frame o s t i
    → Inv (view s) b
    → IsSettled ((s.tables t).key i) ((s.tables t).val i)
    → Stable s b
Frame-Stable {o} {s} {b} {t} {i} frame inv own = record {
  integer_keys = frame.integer_keys;
  inv = inv;
  scales = frame.scales;
  settled = λ w k lt. elim (ℕ_discrete t w) [
    | no other ↦ frame.settled w k lt (inl other)
    | yes here ↦ elim (ℕ_discrete i k) [
      | no other ↦ frame.settled w k lt (inr other)
      | yes it ↦
          subst (λ c. IsSettled ((s.tables c).key k) ((s.tables c).val k)) here
            (subst (λ c. IsSettled ((s.tables t).key c) ((s.tables t).val c)) it own)
    ]
  ];
}

module _ {ht : Ht} {b : ℕ} (t i : ℕ) (stable : Stable ht b) (low : b ≤ t)
    (in_range : t + 1 < ht.installed) where
  -- The value of the key of an entry that is not copied.
  pub live_value :
      (q : ℕ)
      → q ≢ 0
      → (ht.tables t).key i ≡ q
      → is_copied ((ht.tables t).val i) ≡ false
      → value ht b q ≡ plain ((ht.tables t).val i)
  live_value q ne own live =
      let lt : t < ht.installed = omega arith in
      let untagged = settled_plain (stable.settled t i lt) live in
      let same : effective ((ht.tables t).val i) ≡ (ht.tables t).val i = rw untagged refl in
      value_from-found (ht.installed - b) q t i stable.inv (omega arith) low lt ne
        (stable.inv.reached t q i lt ne own) (subst (λ v. is_copied v ≡ false) (sym same) live)
      ∙ ap plain same

  -- An entry without a value is marked.
  pub marked_dead :
      (x : ℕ)
      → is_tagged1 x ≡ true
      → is_copied x ≡ true
      → IsSettled ((ht.tables t).key i) x
      → is_copied ((ht.tables t).val i) ≡ false
      → plain ((ht.tables t).val i) ≡ 0
      → Moved ht (set_entry_val ht t i x) b t i true
  marked_dead x tagged copied settled_x live gone =
      let q = (ht.tables t).key i in
      let s = set_entry_val ht t i x in
      let lt : t < ht.installed = omega arith in
      let copying =
        tag-Copying {q = q} {m = λ p. value ht b p} x tagged (Stable-Frame t i stable lt) stable.inv
          low in_range refl (λ p ne_p ne_q. refl) in
      let at = tag_val ht t i x in
      let untagged = settled_plain (stable.settled t i lt) live in
      let same : effective ((ht.tables t).val i) ≡ (ht.tables t).val i = rw untagged refl in
      record {
        stable = Frame-Stable copying.frame copying.inv (
            subst (λ k. IsSettled k ((s.tables t).val i)) (sym copying.own_key)
              (subst (λ v. IsSettled q v) (sym at) settled_x));
        frame = copying.frame;
        moved = subst (λ v. is_copied v ≡ true) (sym at) copied;
        same_values = λ p ne. elim (ℕ_discrete p q) [
          | no other ↦ copying.others p ne other
          | yes own ↦
              Changed-dead (tag-Changed ht t i x tagged) (ht.installed - b) p stable.inv low
                (omega arith) lt ne (sym own) (subst (λ v. is_copied v ≡ false) (sym same) live)
                refl
              ∙ sym (live_value p ne (sym own) live ∙ gone)
        ];
        growth = omega arith;
        in_range = in_range;
        was_live = rw live refl;
      }
