-- ===== src/HashTable/Pending.antt =====
-- `hti_copy_entry` of src/map/hashtable.c on a tagged entry: the tables it goes through.
use ssr.Base.{
  ℕ, suc, ◌+◌, ◌-◌, ◌≤◌, ◌<◌, ◌≡◌, refl, sym, ap, subst, ◌∙◌, ◌⊎◌, inl, inr, true, false, none,
  some, if◌then◌else◌, arith,
}
use native.Mathlib.Decide.{ℕ_discrete, dec_lt}
use ssr.HashTable.{Ht, tag1, has_next, hti_start_copy}
use ssr.HashTable.View.{value_from, passes, is_found}
use ssr.HashTable.Grow.{Grown, Grown-passes, Grown-Inv, Grown-value}
use ssr.HashTable.Chain.{
  view, view-Looks, hti_start_copy-Grown, hti_start_copy-old, hti_start_copy-look,
}
use ssr.HashTable.Frame.{Frame-more}
use ssr.HashTable.Store.{Copying}

-- The entry is tagged, and its key is in none of the tables from `u` on.
pub record Pending (o ht : Ht) (b t i q : ℕ) (m : ℕ → ℕ) (u v : ℕ) : Type 0 where
  pub now : Copying o ht b t i q m
  pub marked : (ht.tables t).val i ≡ tag1 v
  pub above : t < u
  pub exists : u < ht.installed
  pub pass : (w : ℕ) → b ≤ w → w < u → passes (view ht) w q ≡ true
  pub lost : (w : ℕ) → u ≤ w → w < ht.installed → is_found ((view ht).look w q) ≡ false
  pub room :
      (ht.installed ≡ o.installed)
      ⊎ ((ht.installed ≡ o.installed + 1)
          × (u + 1 ≡ ht.installed)
          × ((j : ℕ) × ((view ht).look u q ≡ some (j, true))))

pub Pending-growth :
    {o ht : Ht} {b t i q u v : ℕ} {m : ℕ → ℕ}
    → Pending o ht b t i q m u v
    → ht.installed ≤ o.installed + 1
Pending-growth pending = elim pending.room [ inl e ↦ omega arith | inr (e, _, _) ↦ omega arith ]

-- The table `u` has no room for the key.
pub no_room :
    {o ht : Ht} {b t i q u v : ℕ} {m : ℕ → ℕ}
    → Pending o ht b t i q m u v
    → (view ht).look u q ≡ none
    → Pending o (if has_next ht u then ht else hti_start_copy ht u) b t i q m (u + 1) v
no_room {o} {ht} {b} {t} {i} {q} {u} {v} {m} pending e = elim (dec_lt (u + 1) ht.installed) [
  | yes next ↦
      let has : has_next ht u ≡ true = ground arith in
      rw has (record {
        now = pending.now;
        marked = pending.marked;
        above = omega (arith, pending.above);
        exists = next;
        pass = λ w le lt. elim (ℕ_discrete w u) [
          | yes here ↦ rw here (rw e refl)
          | no before ↦ pending.pass w le (omega arith)
        ];
        lost = λ w le lt. pending.lost w (omega arith) lt;
        room = elim pending.room [
          | inl same ↦ inl same
          | inr (more, end, _) ↦ absurd (omega arith)
        ];
      })
  | no last ↦
      let now = pending.now in
      let lacks : has_next ht u ≡ false = ground arith in
      let end : u + 1 ≡ ht.installed = omega (arith, pending.exists) in
      let s' = hti_start_copy ht u in
      let grown : Grown (view ht) (view s') = hti_start_copy-Grown ht u in
      let (j, vacant) = hti_start_copy-look ht u q in
      let more : s'.installed ≡ ht.installed + 1 = grown.one_more in
      let vacant' : (view s').look (u + 1) q ≡ some (j, true) =
        subst (λ w. (view s').look w q ≡ some (j, true)) (sym end) vacant in
      let low_b : b ≤ t = now.low in
      let up : t + 1 < ht.installed = now.in_range in
      let left : suc (ht.installed - b) ≡ s'.installed - b = omega (arith, more, low_b, up) in
      rw lacks (record {
        now = record {
          frame = Frame-more now.frame u (omega arith) pending.exists;
          inv = Grown-Inv grown (view-Looks s') now.inv;
          low = now.low;
          in_range = omega (arith, more, now.in_range);
          own_key = grown.same_keys t i (omega (arith, now.in_range)) ∙ now.own_key;
          others = λ p ne apart.
              subst (λ n. value_from (view s') n b p ≡ m p) left
                (Grown-value grown (ht.installed - b) b p (omega arith) ∙ now.others p ne apart);
        };
        marked =
            ap (λ x. x.val i) (hti_start_copy-old ht u t (omega (arith, now.in_range)))
            ∙ pending.marked;
        above = omega (arith, pending.above);
        exists = omega (arith, more);
        pass = λ w le lt. Grown-passes grown w q (omega arith) (elim (ℕ_discrete w u) [
          | yes here ↦ rw here (rw e refl)
          | no before ↦ pending.pass w le (omega arith)
        ]);
        lost = λ w le lt.
            let last_one : w ≡ u + 1 = omega (arith, more) in rw last_one (rw vacant' refl);
        room = elim pending.room [
          | inl same ↦ inr (omega (arith, more), omega (arith, more), (j, vacant'))
          | inr (_, _, (k, filled)) ↦ absurd (ground (arith, filled, e))
        ];
      })
]
