-- ===== src/HashTable/Loop.antt =====
-- The loops of `ht_cas` and `ht_remove` of src/map/hashtable.c over the tables.
use ssr.Base.{ℕ, zero, suc, ◌+◌, ◌≤◌, ◌<◌, ◌≡◌, sym, ap, ◌∙◌, ◌≢◌, ◌⊎◌, inl, inr, true, some, arith}
use ssr.Murmur.{murmur32_8b}
use ssr.HashTable.{Ht, tombstone}
use ssr.HashTable.Ops.{cas_tables, hti_cas}
use ssr.HashTable.View.{passes}
use ssr.HashTable.Chain.{view}
use ssr.HashTable.Kept.{Kept, Kept-join, Every}
use ssr.HashTable.Store.{value}
use ssr.HashTable.Moved.{Stable}
use ssr.HashTable.Outcome.{set_value, Onward, IsNew}
use ssr.HashTable.Cas.{hti_cas-Outcome}

-- The loops of `ht_cas` and `ht_remove` return the value of the key, and set it where the
-- expectation is met.
pub record CasDone (ht s : Ht) (b q expected new : ℕ) : Type 0 where
  pub stable : Stable s b
  pub now : value s b q ≡ set_value (value ht b q) expected new
  pub others : (p : ℕ) → p ≢ 0 → p ≢ q → value s b p ≡ value ht b p
  pub growth : s.installed ≤ ht.installed + 1
  pub same_first : s.first ≡ ht.first
  pub kept : Kept ht s Every

pub cas_tables-Done :
    {o : Ht} {b q expected new : ℕ} (fuel : ℕ) (ht : Ht) (t : ℕ)
    → Stable ht b
    → b ≤ t
    → t < ht.installed
    → q ≢ 0
    → ((w : ℕ) → b ≤ w → w < t → passes (view ht) w q ≡ true)
    → expected ≢ tombstone
    → IsNew new
    → ((p : ℕ) → p ≢ 0 → value ht b p ≡ value o b p)
    → ht.first ≡ o.first
    → Kept o ht Every
    → (ht.installed ≡ o.installed)
      ⊎ ((ht.installed ≡ o.installed + 1)
          × (t + 1 ≡ ht.installed)
          × ((j : ℕ) × ((view ht).look t q ≡ some (j, true))))
    → o.installed + 2 ≤ fuel + t
    → (s : Ht) × (cas_tables fuel ht t q (murmur32_8b q) expected new ≡ some (value o b q, s))
      × CasDone o s b q expected new
unfolding cas_tables hti_cas
cas_tables-Done zero ht t stable low lt ne pass not_removed is_new same first kept (inl number)
      enough =
    absurd (omega arith)
cas_tables-Done zero ht t stable low lt ne pass not_removed is_new same first kept
      (inr (number, end, _)) enough =
    absurd (omega arith)
cas_tables-Done (suc zero) ht t stable low lt ne pass not_removed is_new same first kept
      (inl number) enough =
    absurd (omega arith)
cas_tables-Done (suc zero) ht t stable low lt ne pass not_removed is_new same first kept
      (inr (number, end, _)) enough =
    absurd (omega arith)
cas_tables-Done {o} {b} {q} {expected} {new} (suc (suc fuel)) ht t stable low lt ne pass not_removed
      is_new same first kept room enough =
    elim (hti_cas-Outcome fuel stable low lt ne pass not_removed is_new) [
      | inl (s, e, onward) ↦
          let (s', e', done) =
            cas_tables-Done {o = o} {b = b} {q = q} {expected = expected} {new = new} (suc fuel) s
              (t + 1) onward.stable (omega arith) onward.next ne onward.pass not_removed is_new
              (λ p ne_p. onward.same_values p ne_p ∙ same p ne_p) (onward.same_first ∙ first)
              (Kept-join kept onward.kept) (next_room s onward room) (omega arith) in
          (s', (rw (cas_tables, e) e'), done)
      | inr (old, s, e, answered) ↦ (
        s,
        (rw (cas_tables, e)
            (rw answered.not_moved (ap (λ x. some (x, s)) (answered.returned ∙ same q ne)))),
        record {
          stable = answered.stable;
          now = answered.now ∙ ap (λ x. set_value x expected new) (same q ne);
          others = λ p ne_p apart. answered.others p ne_p apart ∙ same p ne_p;
          growth = growth s answered.same_number room;
          same_first = answered.same_first ∙ first;
          kept = Kept-join kept answered.kept;
        },
      )
    ]
  where
    next_room :
        (s : Ht)
        → Onward ht s b t q
        → (ht.installed ≡ o.installed)
          ⊎ ((ht.installed ≡ o.installed + 1)
              × (t + 1 ≡ ht.installed)
              × ((j : ℕ) × ((view ht).look t q ≡ some (j, true))))
        → (s.installed ≡ o.installed)
          ⊎ ((s.installed ≡ o.installed + 1)
              × (t + 1 + 1 ≡ s.installed)
              × ((j : ℕ) × ((view s).look (t + 1) q ≡ some (j, true))))
    next_room s onward room = elim onward.room [
      | inl kept ↦ elim room [
        | inl number ↦ inl (kept ∙ number)
        | inr (number, end, _) ↦ absurd (omega (arith, onward.next))
      ]
      | inr (lost, more, end, vacant) ↦ elim room [
        | inl number ↦ inr (more ∙ ap (λ n. n + 1) number, end, vacant)
        | inr (_, _, (j, vacant')) ↦ absurd (ground (arith, sym lost ∙ vacant'))
      ]
    ]

    growth :
        (s : Ht)
        → s.installed ≡ ht.installed
        → (ht.installed ≡ o.installed)
          ⊎ ((ht.installed ≡ o.installed + 1)
              × (t + 1 ≡ ht.installed)
              × ((j : ℕ) × ((view ht).look t q ≡ some (j, true))))
        → s.installed ≤ o.installed + 1
    growth s e (inl number) = omega arith
    growth s e (inr (number, _, _)) = omega arith
