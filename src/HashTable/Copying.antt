-- ===== src/HashTable/Copying.antt =====
-- `hti_copy_entry` of src/map/hashtable.c on a tagged entry: it finds a table for the value.
use ssr.Base.{
  ℕ, ◌+◌, ◌-◌, ◌≤◌, ◌<◌, ◌≡◌, refl, sym, ap, subst, ◌∙◌, ◌≢◌, inl, inr, Bool, true, false, Option,
  none, some, ◌==◌, if◌then◌else◌, update, Bool-cases, arith, u64,
}
use native.Mathlib.Decide.{ℕ_discrete, dec_lt}
use ssr.Murmur.{murmur32_8b}
use ssr.HashTable.{
  Ht, is_tagged1, strip_tag1, copied_value, set_entry_key, add_key_count, has_next, hti_start_copy,
  hti_lookup, cas_entry_key,
}
use ssr.Map.{does_not_exist}
use ssr.HashTable.Copy.{is_copied, copy_val, copy_to, copy_keyed}
use ssr.HashTable.View.{passes, Look-cases}
use ssr.HashTable.Install.{Installed, Installed-passes, Installed-Inv, Installed-value}
use ssr.HashTable.Chain.{
  view, view-Looks, set_table-view, set_entry_key-Installed, hti_lookup-look, effective,
}
use ssr.HashTable.Frame.{Frame, settled_plain, Frame-elsewhere}
use ssr.HashTable.Store.{IsValue, Copying, Done, copy_val-Done}
use ssr.HashTable.Pending.{Pending, Pending-growth, no_room}

module _ {o ht : Ht} {b t i q u v j : ℕ} {m : ℕ → ℕ} (pending : Pending o ht b t i q m u v)
    (ne : q ≢ 0) (e : (view ht).look u q ≡ some (j, true)) where
  abbrev keyed : Ht
  keyed = add_key_count (set_entry_key ht u j q) u

  keyed-view : view keyed ≡ view (set_entry_key ht u j q)
  keyed-view =
      let s = set_entry_key ht u j q in
      set_table-view s u (record (s.tables u) { key_count = u64 ((s.tables u).key_count + 1) }) refl

  keyed-Installed : Installed (view ht) (view keyed) u j q
  keyed-Installed =
      subst (λ w. Installed (view ht) w u j q) (sym keyed-view)
        (set_entry_key-Installed ht u j q pending.now.inv pending.exists ne e)

  keyed-Frame : Frame o keyed t i
  keyed-Frame =
      let frame = pending.now.frame in
      let other : t ≢ u = omega (arith, pending.above) in
      let s = set_entry_key ht u j q in
      let s-Frame : Frame o s t i =
        Frame-elsewhere frame u (record (ht.tables u) { key = update (ht.tables u).key j q }) other
          refl
          (λ k. elim (ℕ_discrete j k) [
            | yes here ↦
                let itself : (j == k) ≡ true = ground arith in
                rw itself (λ tagged. elim (frame.settled u k pending.exists (inl other) tagged) [
                  | inl dead ↦ inl dead
                  | inr (dead, _) ↦ inr (dead, ne)
                ])
            | no there ↦
                let apart : (j == k) ≡ false = ground arith in
                rw apart (frame.settled u k pending.exists (inl other))
          ])
          (λ k. refl) in
      Frame-elsewhere s-Frame u
        (record (s.tables u) { key_count = u64 ((s.tables u).key_count + 1) }) other refl
        (λ k. s-Frame.settled u k pending.exists (inl other)) (λ k. refl)

  pub keyed-Copying : Copying o keyed b t i q m
  keyed-Copying =
      let now = pending.now in
      let low_u : b ≤ u = omega (arith, now.low, pending.above) in
      record {
        frame = keyed-Frame;
        inv =
            Installed-Inv keyed-Installed (view-Looks keyed) now.inv ne low_u pending.exists
              pending.pass;
        low = now.low;
        in_range = now.in_range;
        own_key = ap (λ f. f i) (keyed-Frame.same_keys ∙ sym now.frame.same_keys) ∙ now.own_key;
        others = λ p ne_p apart.
            Installed-value keyed-Installed (view-Looks keyed) now.inv ne low_u pending.exists
              (ht.installed - b) b p (omega arith) (omega (arith, now.low, now.in_range)) ne_p
            ∙ now.others p ne_p apart;
      }

  keyed_val : (keyed.tables u).val j ≡ (ht.tables u).val j
  keyed_val = let itself : (u == u) ≡ true = ground arith in rw itself refl

  pub keyed_look : (view keyed).look u q ≡ some (j, false)
  keyed_look = keyed-Installed.now

  -- An entry without a key is copied when it is killed.
  pub dead_value : is_copied ((keyed.tables u).val j) ≡ true → (keyed.tables u).val j ≡ copied_value
  dead_value dead =
      let now = pending.now in
      let dead' : is_copied ((ht.tables u).val j) ≡ true =
        subst (λ v. is_copied v ≡ true) keyed_val dead in
      let tagged = copied_tagged ((ht.tables u).val j) dead' in
      keyed_val
      ∙ elim (now.frame.settled u j pending.exists (inl (omega (arith, pending.above))) tagged) [
        | inl exact ↦ exact
        | inr (_, key) ↦ absurd (key (now.inv.looks.empty_key u q j e))
      ]
    where
      copied_tagged : (v : ℕ) → is_copied v ≡ true → is_tagged1 v ≡ true
      copied_tagged v h = ground (arith, h)

  -- The key went into an entry whose table is itself copied.
  pub dead_entry : is_copied ((keyed.tables u).val j) ≡ true → Pending o keyed b t i q m (u + 1) v
  dead_entry dead =
      let now = pending.now in
      let inv = keyed-Copying.inv in
      let low_u : b ≤ u = omega (arith, now.low, pending.above) in
      let dead' : is_copied ((view keyed).val u j) ≡ true =
        copied_effective ((keyed.tables u).val j) dead in
      let more : u + 1 < ht.installed = elim (dec_lt (u + 1) ht.installed) [
        | yes lt ↦ lt
        | no last ↦ absurd (ground (arith, dead', inv.last u j (omega (arith, pending.exists))))
      ] in
      record {
        now = keyed-Copying;
        marked =
            let apart : (u == t) ≡ false = ground (arith, pending.above) in rw apart pending.marked;
        above = omega (arith, pending.above);
        exists = more;
        pass = λ w le lt. elim (ℕ_discrete w u) [
          | yes here ↦
              subst (λ a. passes (view keyed) a q ≡ true) (sym here) (rw keyed-Installed.now dead')
          | no before ↦
              Installed-passes keyed-Installed (view-Looks keyed) now.inv ne low_u pending.exists w
                q (pending.pass w le (omega arith))
        ];
        lost = λ w le lt.
            rw (keyed-Installed.elsewhere w q (omega arith)) (pending.lost w (omega arith) lt);
        room = elim pending.room [ inl same ↦ inl same | inr (_, end, _) ↦ absurd (omega arith) ];
      }
    where
      copied_effective : (v : ℕ) → is_copied v ≡ true → is_copied (effective v) ≡ true
      copied_effective v h = ground (arith, h)

  -- Otherwise it has no value yet.
  pub empty_entry : is_copied ((keyed.tables u).val j) ≡ false → (keyed.tables u).val j ≡ 0
  empty_entry live =
      let now = pending.now in
      let live' : is_copied ((ht.tables u).val j) ≡ false =
        subst (λ v. is_copied v ≡ false) keyed_val live in
      let untagged =
        settled_plain (now.frame.settled u j pending.exists (inl (omega (arith, pending.above))))
          live' in
      let same : effective ((ht.tables u).val j) ≡ (ht.tables u).val j = rw untagged refl in
      let z = now.inv.unkeyed u j pending.exists (now.inv.looks.empty_key u q j e) in
      keyed_val ∙ sym same ∙ z (subst (λ v. is_copied v ≡ false) (sym same) live')

-- Where the recursive calls on later tables copy the entry, so does this one.
pub copy_to-Done :
    {o ht : Ht} {b t i q u v : ℕ} {m : ℕ → ℕ} (retry : Ht → ℕ → Option (Bool × Ht)) (ent_val : ℕ)
    → Pending o ht b t i q m u v
    → q ≢ 0
    → IsValue v
    → strip_tag1 ent_val ≡ v
    → ((s : Ht)
        → Pending o s b t i q m (u + 1) v
        → (s' : Ht) × (retry s (u + 1) ≡ some (true, s')) × Done o s' b t i q m v)
    → (s' : Ht) × (copy_to retry ht t i q q ent_val (murmur32_8b q) u ≡ some (true, s'))
      × Done o s' b t i q m v
copy_to-Done {o} {ht} {b} {t} {i} {q} {u} {v} {m} retry ent_val pending ne val strip again =
    let looked : hti_lookup ht.key_type (ht.tables u) q (murmur32_8b q) ≡ (view ht).look u q =
      ap (λ k. hti_lookup k (ht.tables u) q (murmur32_8b q)) pending.now.frame.integer_keys
      ∙ hti_lookup-look (ht.tables u) q in
    elim (Look-cases ((view ht).look u q)) [
      | inl none_left ↦
          rw (copy_to, looked ∙ none_left)
            (again (if has_next ht u then ht else hti_start_copy ht u) (no_room pending none_left))
      | inr (inr (j, found)) ↦
          absurd (ground (arith, pending.lost u (omega arith) pending.exists, found))
      | inr (inl (j, vacant)) ↦
          let z : (ht.tables u).key j ≡ 0 = pending.now.inv.looks.empty_key u q j vacant in
          let cas : cas_entry_key ht u j does_not_exist q ≡ (0, set_entry_key ht u j q) =
            rw z refl in
          rw (copy_to, looked ∙ vacant)
            (subst
              (λ c.
                (s' : Ht) × (copy_keyed retry c t i ent_val u j ≡ some (true, s'))
                × Done o s' b t i q m v)
              (sym cas) (at_entry j vacant))
    ]
  where
    at_entry :
        (j : ℕ) (vacant : (view ht).look u q ≡ some (j, true))
        → (s' : Ht) × (copy_keyed retry (0, set_entry_key ht u j q) t i ent_val u j
            ≡ some (true, s'))
          × Done o s' b t i q m v
    at_entry j vacant =
        let s = keyed pending ne vacant in
        elim (Bool-cases (is_copied ((s.tables u).val j))) [
          | inl dead ↦
              let (s', e, done) = again s (dead_entry pending ne vacant dead) in
              let failed : copy_val s t i u j ent_val ≡ none =
                let exact = dead_value pending ne vacant dead in rw exact refl in
              (s', rw failed e, done)
          | inr live ↦
              let (s', e, done) =
                copy_val-Done (keyed-Copying pending ne vacant) ne val pending.above pending.exists
                  (keyed_look pending ne vacant) (empty_entry pending ne vacant live) ent_val strip
                  (Pending-growth pending) in
              (s', rw e refl, done)
        ]
