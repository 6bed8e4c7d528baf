-- ===== src/HashTable/CopyEntry.antt =====
-- `hti_copy_entry` of src/map/hashtable.c on every branch.
use ssr.Base.{
  ℕ, suc, ◌+◌, ◌≤◌, ◌<◌, ◌≡◌, refl, sym, ap, ap₂, subst, ◌∙◌, ◌≢◌, inl, inr, Bool, true, false,
  ◌&&◌, Option, none, some, ◌==◌, if◌then◌else◌, Bool-cases, arith,
}
use native.Mathlib.Decide.{ℕ_discrete}
use ssr.Murmur.{murmur32_8b}
use ssr.HashTable.{
  Ht, is_tagged1, tag1, strip_tag1, copied_value, tombstone, set_entry_val, key_hash,
}
use ssr.Map.{does_not_exist}
use ssr.HashTable.Copy.{is_copied, hti_copy_entry, copy_tagged}
use ssr.HashTable.View.{plain, passes, is_found, sends_on}
use ssr.HashTable.Change.{Changed-passes}
use ssr.HashTable.Chain.{view, effective}
use ssr.HashTable.Frame.{settled_plain}
use ssr.HashTable.Store.{value, IsValue}
use ssr.HashTable.Pending.{Pending}
use ssr.HashTable.Copying.{copy_to-Done}
use ssr.HashTable.Entry.{
  copy_tagged_step, copy_entry_step, is_tagged1-tag1, tag-Changed, tag_val, tag-Copying, copy_chain,
}
use ssr.HashTable.Moved.{Stable, Moved, Stable-Frame, Frame-Stable, live_value, marked_dead}

module _ {ht : Ht} {b : ℕ} (t i : ℕ) (stable : Stable ht b) (low : b ≤ t)
    (in_range : t + 1 < ht.installed) (fuel hash : ℕ)
    (own_hash : (if hash == 0 then key_hash none ((ht.tables t).key i) else hash)
      ≡ murmur32_8b ((ht.tables t).key i)) where
  abbrev q : ℕ
  q = (ht.tables t).key i

  abbrev v : ℕ
  v = (ht.tables t).val i

  -- An entry with a value.
  live-Moved :
      IsValue v
      → is_copied v ≡ false
      → q ≢ 0
      → ht.installed + 1 ≤ fuel + (t + 1)
      → (s : Ht) × (hti_copy_entry (suc fuel) ht t i hash (t + 1) ≡ some (true, s))
        × Moved ht s b t i true
  unfolding key_hash
  live-Moved val live ne enough =
      let lt : t < ht.installed = omega arith in
      let tagged = set_entry_val ht t i (tag1 v) in
      let ch = tag-Changed ht t i (tag1 v) (is_tagged1-tag1 v) in
      let found = stable.inv.reached t q i lt ne refl in
      let untagged = settled_plain (stable.settled t i lt) live in
      let same : effective v ≡ v = rw untagged refl in
      let live' : is_copied (effective v) ≡ false = rw same live in
      let copying =
        tag-Copying {q = q} {m = λ p. value ht b p} (tag1 v) (is_tagged1-tag1 v)
          (Stable-Frame t i stable lt) stable.inv low in_range refl (λ p ne_p ne_q. refl) in
      let pending : Pending ht tagged b t i q (λ p. value ht b p) (t + 1) v = record {
        now = copying;
        marked = tag_val ht t i (tag1 v);
        above = omega arith;
        exists = in_range;
        pass = λ w le before. elim (ℕ_discrete w t) [
          | yes here ↦
              subst (λ a. passes (view tagged) a q ≡ true) (sym here)
                (sends_on-found (tagged.tables t).val
                  (copying.inv.reached t q i lt ne copying.own_key) (tag_val ht t i (tag1 v)))
          | no earlier ↦
              Changed-passes ch (λ _. refl) w q
                (stable.inv.ordered w t q le (omega arith) lt ne (rw found refl))
        ];
        lost = λ w le below.
            rw (ch.same_looks w q) (elim (Bool-cases (is_found ((view ht).look w q))) [
              | inr no_entry ↦ no_entry
              | inl entry ↦
                  let sent = stable.inv.ordered t w q low (omega arith) below ne entry in
                  absurd (
                    ground
                      (arith, live', subst (λ o. sends_on o ((view ht).val t) ≡ true) found sent))
            ]);
        room = inl refl;
      } in
      let (s, e, done) =
        copy_to-Done (λ s. hti_copy_entry fuel s t i (murmur32_8b q)) v pending ne val
          (strip_small v val.small)
          (λ s next.
            copy_chain fuel s (murmur32_8b q) (t + 1 + 1) next ne val same_hash (omega arith)) in
      (
        s,
        copy_entry_step fuel ht hash (t + 1) refl live (some_value v val.nonzero)
            ∙ copy_tagged_step (λ s h n. hti_copy_entry fuel s t i h n) ht hash (t + 1)
                stable.integer_keys refl refl live (alive v val.small) own_hash
            ∙ e,
        record {
          stable = Frame-Stable done.now.frame done.now.inv (λ _. inl done.moved);
          frame = done.now.frame;
          moved = rw done.moved refl;
          same_values = λ p ne_p. elim (ℕ_discrete p q) [
            | no other ↦ done.now.others p ne_p other
            | yes own ↦
                ap (λ a. value s b a) own
                ∙ done.has
                ∙ sym (
                    live_value t i stable low in_range p ne_p (sym own) live
                    ∙ plain_small v val.small)
          ];
          growth = done.growth;
          in_range = done.now.in_range;
          was_live = rw live refl;
        },
      )
    where
      sends_on-found :
          {o : Option (ℕ × Bool)}
          → (f : ℕ → ℕ) → o ≡ some (i, false)
          → f i ≡ tag1 v
          → sends_on o (λ k. effective (f k)) ≡ true
      sends_on-found f e e' = rw e (rw e' (rw (is_tagged1-tag1 v) refl))

      same_hash : (if murmur32_8b q == 0 then key_hash none q else murmur32_8b q) ≡ murmur32_8b q
      same_hash = elim (Bool-cases (murmur32_8b q == 0)) [ inl e ↦ rw e refl | inr e ↦ rw e refl ]

      strip_small : (x : ℕ) → x < tombstone → strip_tag1 x ≡ x
      strip_small x lt = omega arith

      some_value : (x : ℕ) → x ≢ 0 → (x == does_not_exist) ≡ false
      some_value x ne = ground arith

      alive : (x : ℕ) → x < tombstone → (x == tombstone) ≡ false
      alive x lt = ground arith

      plain_small : (x : ℕ) → x < tombstone → plain x ≡ x
      plain_small x lt = ground arith

  -- An entry that was never filled.
  empty_killed :
      is_copied v ≡ false
      → v ≡ 0
      → hti_copy_entry (suc fuel) ht t i hash (t + 1)
        ≡ some (true, set_entry_val ht t i copied_value)
  unfolding hti_copy_entry
  empty_killed live e =
      let zero_val : (v == does_not_exist) ≡ true = rw e refl in
      let s = set_entry_val ht t i copied_value in
      ap₂
        (λ c z.
          if c
          then some (false, ht)
          else if z && z
          then some (true, if z then s else ht)
          else copy_tagged (λ s h n. hti_copy_entry fuel s t i h n)
              (if z then (if z then s else ht) else ht) t i hash (t + 1))
        live zero_val

  -- A value that was removed.
  tombstone_tagged :
      is_copied v ≡ false
      → v ≡ tombstone
      → hti_copy_entry (suc fuel) ht t i hash (t + 1) ≡ some (true, set_entry_val ht t i (tag1 v))
  tombstone_tagged live e =
      let there : (v == does_not_exist) ≡ false = rw e refl in
      let removed : (v == tombstone) ≡ true = rw e refl in
      copy_entry_step fuel ht hash (t + 1) refl live there
      ∙ (rw (copy_tagged, live) (rw removed refl))

  keyed : is_copied v ≡ false → v ≢ 0 → q ≢ 0
  keyed live ne z =
      let lt : t < ht.installed = omega arith in
      let untagged = settled_plain (stable.settled t i lt) live in
      let same : effective v ≡ v = rw untagged refl in
      ne (sym same ∙ stable.inv.unkeyed t i lt z (rw same live))

  -- On tables with integer keys in which no entry is being copied, hti_copy_entry returns within
  -- the fuel on every branch, nested copies included: the entry is copied, every key keeps its
  -- value, the tables stay well formed, and the result says whether the entry was not copied
  -- before.
  pub hti_copy_entry-Moved :
      ht.installed + 1 ≤ fuel + (t + 1)
      → (newly : Bool) × (s : Ht) × (hti_copy_entry (suc fuel) ht t i hash (t + 1)
          ≡ some (newly, s))
        × Moved ht s b t i newly
  unfolding hti_copy_entry
  hti_copy_entry-Moved enough =
      let lt : t < ht.installed = omega arith in
      elim (Bool-cases (is_copied v)) [
        | inl copied ↦ (
          false,
          ht,
          was_copied copied,
          record {
            stable = stable;
            frame = Stable-Frame t i stable lt;
            moved = copied;
            same_values = λ p ne. refl;
            growth = omega arith;
            in_range = in_range;
            was_live = rw copied refl;
          },
        )
        | inr live ↦ elim (ℕ_discrete v 0) [
          | yes z ↦ (
            true,
            set_entry_val ht t i copied_value,
            empty_killed live z,
            marked_dead t i stable low in_range copied_value refl refl (λ _. inl refl) live
                (ap plain z),
          )
          | no ne ↦ elim (ℕ_discrete v tombstone) [
            | yes dead ↦ (
              true,
              set_entry_val ht t i (tag1 v),
              tombstone_tagged live dead,
              marked_dead t i stable low in_range (tag1 v) (is_tagged1-tag1 v)
                  (ap (λ x. is_copied (tag1 x)) dead) (λ _. inr (ap tag1 dead, keyed live ne)) live
                  (ap plain dead),
            )
            | no alive ↦
                let (s, e, moved) =
                  live-Moved
                    (record {
                      nonzero = ne;
                      small = small v (settled_plain (stable.settled t i lt) live) alive;
                    })
                    live (keyed live ne) enough in
                (true, s, e, moved)
          ]
        ]
      ]
    where
      was_copied :
          is_copied v ≡ true → hti_copy_entry (suc fuel) ht t i hash (t + 1) ≡ some (false, ht)
      was_copied copied = rw copied refl

      small : (x : ℕ) → is_tagged1 x ≡ false → x ≢ tombstone → x < tombstone
      small x untagged ne = ground (arith, untagged)
