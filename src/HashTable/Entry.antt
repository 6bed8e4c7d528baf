-- ===== src/HashTable/Entry.antt =====
-- `hti_copy_entry` of src/map/hashtable.c: an entry is copied, and no value is lost.
use ssr.Base.{
  ℕ, zero, suc, ◌+◌, ◌-◌, ◌≤◌, ◌<◌, ◌≡◌, refl, ap, ap₂, subst, ◌∙◌, ◌≢◌, inl, inr, Bool, true,
  false, ◌&&◌, Option, none, some, ◌==◌, if◌then◌else◌, update, Bool-cases, arith,
}
use ssr.Murmur.{murmur32_8b}
use ssr.HashTable.{
  Ht, is_tagged1, tag1, strip_tag1, copied_value, tombstone, set_entry_val, key_hash, cas_entry_val,
}
use ssr.Map.{does_not_exist}
use ssr.HashTable.Copy.{is_copied, copy_to, copy_tagged, real_key, hti_copy_entry}
use ssr.HashTable.View.{Inv}
use ssr.HashTable.Change.{Changed, Changed-other, Changed-passes, Changed-Inv}
use ssr.HashTable.Chain.{view, effective, set_entry_val-Changed}
use ssr.HashTable.Frame.{Frame, Frame-own}
use ssr.HashTable.Store.{value, IsValue, Copying, Done}
use ssr.HashTable.Pending.{Pending, Pending-growth}
use ssr.HashTable.Copying.{copy_to-Done}

-- `hti_copy_entry` of an entry with a value.
pub copy_tagged_step :
    (retry : Ht → (hash u : ℕ) → Option (Bool × Ht)) (ht : Ht) {t i q v : ℕ} (hash u : ℕ)
    → ht.key_type ≡ none
    → (ht.tables t).key i ≡ q
    → (ht.tables t).val i ≡ v
    → is_copied v ≡ false
    → (v == tombstone) ≡ false
    → (if hash == 0 then key_hash none q else hash) ≡ murmur32_8b q
    → copy_tagged retry ht t i hash u
      ≡ copy_to
          (λ s. retry s (murmur32_8b q))
          (set_entry_val ht t i (tag1 v))
          t
          i
          q
          q
          v
          (murmur32_8b q)
          u
copy_tagged_step retry ht {t} {i} {q} {v} hash u kt ek ev live alive eh =
    let same_key : real_key ht.key_type ((ht.tables t).key i) ≡ q =
      ap (λ k. real_key k ((ht.tables t).key i)) kt ∙ ek in
    let same_hash : (if hash == 0
          then key_hash ht.key_type (real_key ht.key_type ((ht.tables t).key i))
          else hash)
        ≡ murmur32_8b q =
      ap (λ k. if hash == 0 then key_hash ht.key_type k else hash) same_key
      ∙ ap (λ k. if hash == 0 then key_hash k q else hash) kt
      ∙ eh in
    rw (copy_tagged, same_hash, same_key, ek) (rw ev (rw live (rw alive refl)))

pub copy_entry_step :
    (fuel : ℕ) (ht : Ht) {t i v : ℕ} (hash u : ℕ)
    → (ht.tables t).val i ≡ v
    → is_copied v ≡ false
    → (v == does_not_exist) ≡ false
    → hti_copy_entry (suc fuel) ht t i hash u
      ≡ copy_tagged (λ s h n. hti_copy_entry fuel s t i h n) ht t i hash u
unfolding hti_copy_entry
copy_entry_step fuel ht {t} {i} {v} hash u ev live some_value =
    let live' : is_copied ((ht.tables t).val i) ≡ false = rw ev live in
    let some_value' : ((ht.tables t).val i == does_not_exist) ≡ false = rw ev some_value in
    let after = (cas_entry_val ht t i does_not_exist copied_value).1 in
    ap₂
      (λ c z.
        if c
        then some (false, ht)
        else if z && z
        then some (true, after)
        else copy_tagged (λ s h n. hti_copy_entry fuel s t i h n) (if z then after else ht) t i hash
            u)
      live' some_value'

pub is_tagged1-tag1 : (v : ℕ) → is_tagged1 (tag1 v) ≡ true
is_tagged1-tag1 v = ground arith

pub tag-Changed :
    (ht : Ht) (t i x : ℕ)
    → is_tagged1 x ≡ true
    → Changed (view ht) (view (set_entry_val ht t i x)) t i copied_value
tag-Changed ht t i x tagged_x =
    let e : effective x ≡ copied_value = rw tagged_x refl in
    subst (λ y. Changed (view ht) (view (set_entry_val ht t i x)) t i y) e
      (set_entry_val-Changed ht t i x)

pub tag_val : (ht : Ht) (t i x : ℕ) → ((set_entry_val ht t i x).tables t).val i ≡ x
tag_val ht t i x =
    let itself : (t == t) ≡ true = ground arith in
    let entry : (i == i) ≡ true = ground arith in rw itself (rw entry refl)

module _ {o ht : Ht} {b t i q : ℕ} {m : ℕ → ℕ} (x : ℕ) (tagged_x : is_tagged1 x ≡ true) where
  -- An entry is tagged.
  pub tag-Copying :
      Frame o ht t i
      → Inv (view ht) b
      → b ≤ t
      → t + 1 < ht.installed
      → (ht.tables t).key i ≡ q
      → ((p : ℕ) → p ≢ 0 → p ≢ q → value ht b p ≡ m p)
      → Copying o (set_entry_val ht t i x) b t i q m
  tag-Copying frame inv low in_range own_key others =
      let apart : (k : ℕ) → i ≢ k → (i == k) ≡ false = λ k other. ground arith in
      let itself : (t == t) ≡ true = ground arith in
      record {
        frame =
            Frame-own frame (record (ht.tables t) { val = update (ht.tables t).val i x }) refl refl
              (λ k other. rw (apart k other) refl) (omega arith);
        inv = Changed-Inv (tag-Changed ht t i x tagged_x) (λ e. refl) inv (inl in_range) (inl refl);
        low = low;
        in_range = in_range;
        own_key = rw itself own_key;
        others = λ p ne_p ne_q.
            Changed-other (tag-Changed ht t i x tagged_x) (ht.installed - b) b p inv.looks
              (λ e. ne_q (e ∙ own_key))
            ∙ others p ne_p ne_q;
      }

  tag-Pending :
      {u v : ℕ}
      → Pending o ht b t i q m u v
      → x ≡ tag1 v
      → Pending o (set_entry_val ht t i x) b t i q m u v
  tag-Pending {u} {v} pending e =
      let now = pending.now in
      record {
        now = tag-Copying now.frame now.inv now.low now.in_range now.own_key now.others;
        marked = tag_val ht t i x ∙ e;
        above = pending.above;
        exists = pending.exists;
        pass = λ w le lt.
            Changed-passes (tag-Changed ht t i x tagged_x) (λ _. refl) w q (pending.pass w le lt);
        lost =
            λ w le lt. rw ((tag-Changed ht t i x tagged_x).same_looks w q) (pending.lost w le lt);
        room = elim pending.room [
          | inl same ↦ inl same
          | inr (more, end, (j, vacant)) ↦
              inr (more, end, (j, (tag-Changed ht t i x tagged_x).same_looks u q ∙ vacant))
        ];
      }

-- With enough fuel, an entry that is tagged is copied.
pub copy_chain :
    {o : Ht} {b t i q v : ℕ} {m : ℕ → ℕ} (fuel : ℕ) (ht : Ht) (hash u : ℕ)
    → Pending o ht b t i q m u v
    → q ≢ 0
    → IsValue v
    → (if hash == 0 then key_hash none q else hash) ≡ murmur32_8b q
    → o.installed + 2 ≤ fuel + u
    → (s' : Ht) × (hti_copy_entry fuel ht t i hash u ≡ some (true, s')) × Done o s' b t i q m v
unfolding hti_copy_entry key_hash
copy_chain zero ht hash u pending ne val eh enough =
    absurd (omega (arith, Pending-growth pending, pending.exists))
copy_chain {o} {b} {t} {i} {q} {v} {m} (suc fuel) ht hash u pending ne val eh enough =
    let frame = pending.now.frame in
    let tagged = set_entry_val ht t i (tag1 (tag1 v)) in
    let (s', e, done) =
      copy_to-Done (λ s. hti_copy_entry fuel s t i (murmur32_8b q)) (tag1 v)
        (tag-Pending (tag1 (tag1 v)) (is_tagged1-tag1 (tag1 v)) pending (twice v val.small)) ne val
        (strip_tag1-tag1 v val.small)
        (λ s next. copy_chain fuel s (murmur32_8b q) (u + 1) next ne val same_hash (omega arith)) in
    (
      s',
      copy_entry_step fuel ht hash u pending.marked (marked_live v val) (marked_some v)
          ∙ copy_tagged_step (λ s h n. hti_copy_entry fuel s t i h n) ht hash u frame.integer_keys
              pending.now.own_key pending.marked (marked_live v val) (marked_alive v) eh
          ∙ e,
      done,
    )
  where
    same_hash : (if murmur32_8b q == 0 then key_hash none q else murmur32_8b q) ≡ murmur32_8b q
    same_hash = elim (Bool-cases (murmur32_8b q == 0)) [ inl e ↦ rw e refl | inr e ↦ rw e refl ]

    twice : (v : ℕ) → v < tombstone → tag1 (tag1 v) ≡ tag1 v
    twice v lt = omega arith

    strip_tag1-tag1 : (v : ℕ) → v < tombstone → strip_tag1 (tag1 v) ≡ v
    strip_tag1-tag1 v lt = omega arith

    marked_live : (v : ℕ) → IsValue v → is_copied (tag1 v) ≡ false
    marked_live v val = ground (arith, val.nonzero, val.small)

    marked_some : (v : ℕ) → (tag1 v == does_not_exist) ≡ false
    marked_some v = ground arith

    marked_alive : (v : ℕ) → (tag1 v == tombstone) ≡ false
    marked_alive v = ground arith
