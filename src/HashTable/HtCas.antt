-- ===== src/HashTable/HtCas.antt =====
-- `ht_cas` of src/map/hashtable.c, whether a copy is under way or not.
use ssr.Base.{
  ℕ, ◌+◌, ◌^◌, ◌≤◌, ◌<◌, ◌≡◌, refl, sym, ap, subst, ◌∙◌, ◌≢◌, ◌⊎◌, inl, inr, true, some, arith,
}
use ssr.Murmur.{murmur32_8b}
use ssr.Map.{expect_whatever}
use ssr.HashTable.{Ht, tombstone, size_of, key_hash}
use ssr.HashTable.Copy.{is_copied}
use ssr.HashTable.Ops.{cas_tables, ht_cas, ht_get}
use ssr.HashTable.Store.{value, IsValue}
use ssr.HashTable.Kept.{Kept-refl, Every}
use ssr.HashTable.Moved.{Stable}
use ssr.HashTable.Get.{ht_get-value}
use ssr.HashTable.Outcome.{set_value}
use ssr.HashTable.HelpCopy.{Accounts}
use ssr.HashTable.Advance.{Advanced, help_first-Advanced, left-Stable, left-same}
use ssr.HashTable.Loop.{CasDone, cas_tables-Done}

-- The value of the key is set where the expectation is met; the first table may be another one.
pub record SetDone (ht s : Ht) (q expected new : ℕ) : Type 0 where
  pub stable : Stable s s.first
  pub now : value s s.first q ≡ set_value (value ht ht.first q) expected new
  pub others : (p : ℕ) → p ≢ 0 → p ≢ q → value s s.first p ≡ value ht ht.first p
  pub growth : s.installed ≤ ht.installed + size_of (ht.tables ht.first) + 1
  pub first_or_next : (s.first ≡ ht.first) ⊎ (s.first ≡ ht.first + 1)

-- After the help with the copy, the loop starts from the table that was the first one.
after_help :
    {ht a s : Ht} {q expected new : ℕ}
    → q ≢ 0
    → Advanced ht a
    → CasDone a s ht.first q expected new
    → SetDone ht s q expected new
after_help {ht} {a} {s} {q} {expected} {new} ne advanced done = elim advanced.first_or_next [
  | inl same ↦
      let e : s.first ≡ ht.first = done.same_first ∙ same in
      record {
        stable = subst (λ c. Stable s c) (sym e) done.stable;
        now = ap (λ c. value s c q) e ∙ now;
        others = λ p ne_p apart. ap (λ c. value s c p) e ∙ others p ne_p apart;
        growth = omega (arith, done.growth, advanced.growth);
        first_or_next = inl e;
      }
  | inr (next, in_range, copied) ↦
      let e : s.first ≡ ht.first + 1 = done.same_first ∙ next in
      let lt : ht.first < a.installed = omega arith in
      let more : ht.first + 1 < s.installed = omega (arith, done.kept.no_fewer) in
      let scale = ap (λ c. c.scale) (done.kept.accounts ht.first lt) in
      let still : (k : ℕ)
          → k < size_of (s.tables ht.first)
          → is_copied ((s.tables ht.first).val k) ≡ true =
        λ k below.
          done.kept.copies ht.first k lt refl ∙ copied k (subst (λ c. k < 2 ^ c) scale below) in
      record {
        stable = subst (λ c. Stable s c) (sym e) (left-Stable done.stable more still);
        now = ap (λ c. value s c q) e ∙ left-same done.stable more still q ne ∙ now;
        others = λ p ne_p apart.
            ap (λ c. value s c p) e ∙ left-same done.stable more still p ne_p ∙ others p ne_p apart;
        growth = omega (arith, done.growth, advanced.growth);
        first_or_next = inr e;
      }
]
  where
    now : value s ht.first q ≡ set_value (value ht ht.first q) expected new
    now = done.now ∙ ap (λ x. set_value x expected new) (advanced.old_values q ne)

    others : (p : ℕ) → p ≢ 0 → p ≢ q → value s ht.first p ≡ value ht ht.first p
    others p ne_p apart = done.others p ne_p apart ∙ advanced.old_values p ne_p

module _ (fuel : ℕ) (ht : Ht) (q : ℕ) (stable : Stable ht ht.first)
    (accounts : Accounts ht ht.first) (ne : q ≢ 0)
    (enough : ht.installed + size_of (ht.tables ht.first) + 2 ≤ fuel + ht.first) where
  same_hash : key_hash ht.key_type q ≡ murmur32_8b q
  unfolding key_hash
  same_hash = rw stable.integer_keys refl

  -- On tables with integer keys in which no entry is being copied and whose first table has correct
  -- counters, whether a copy is under way or not, for a key other than 0, a new value from 1 to
  -- 2^63 - 2 and every expectation but 2^63 - 1, the mark of a removed value: ht_cas returns within
  -- the fuel the value of the key, sets it where the expectation is met and keeps the other keys;
  -- the special expectations mean what map.h says, and any other one is met by an equal value only.
  -- The help with the copy and the step to the next table are part of it.
  pub ht_cas-SetDone :
      (expected new : ℕ)
      → expected ≢ tombstone
      → IsValue new
      → (s : Ht) × (ht_cas fuel ht q expected new ≡ some (value ht ht.first q, s))
        × SetDone ht s q expected new
  unfolding ht_cas
  ht_cas-SetDone expected new not_removed is_new =
      let (a, e, advanced) = help_first-Advanced fuel ht stable accounts (omega arith) in
      let (s, e', done) =
        cas_tables-Done {o = a} {b = ht.first} {q = q} {expected = expected} {new = new} fuel a
          ht.first advanced.old_stable (omega arith) advanced.old_stable.inv.some_table ne
          (λ w le lt. absurd (omega arith)) not_removed (inr is_new) (λ p ne_p. refl) refl
          (Kept-refl a Every) (inl refl) (omega (arith, advanced.growth)) in
      (
        s,
        (rw (ht_cas, e)
            (ap (λ h. cas_tables fuel a ht.first q h expected new) same_hash
              ∙ e'
              ∙ ap (λ x. some (x, s)) (advanced.old_values q ne))),
        after_help ne advanced done,
      )

  -- On tables with integer keys in which no entry is being copied and whose first table has correct
  -- counters, whether a copy is under way or not: ht_cas without an expectation returns what ht_get
  -- read before, afterwards ht_get reads the new value, and what it reads of the other keys is the
  -- same as before, also when the table had to grow.
  pub get_after_set :
      (new : ℕ)
      → IsValue new
      → ht.installed + size_of (ht.tables ht.first) + 1 ≤ fuel
      → (old : ℕ) × (s : Ht) × (ht_cas fuel ht q expect_whatever new ≡ some (old, s))
        × (ht_get fuel ht q ≡ some (old, ht))
        × (ht_get fuel s q ≡ some (new, s))
        × ((p : ℕ)
            → p ≢ 0
            → p ≢ q
            → (v : ℕ) × (ht_get fuel ht p ≡ some (v, ht)) × (ht_get fuel s p ≡ some (v, s)))
  get_after_set new is_new room =
      let (s, e, done) = ht_cas-SetDone expect_whatever new (λ e. ground (arith, e)) is_new in
      let read : (p : ℕ) → ht_get fuel s p ≡ some (value s s.first p, s) =
        λ p. ht_get-value fuel s p done.stable (omega (arith, done.growth)) in
      (
        value ht ht.first q,
        s,
        e,
        ht_get-value fuel ht q stable (omega arith),
        read q ∙ ap (λ x. some (x, s)) done.now,
        λ p ne_p apart. (
          value ht ht.first p,
          ht_get-value fuel ht p stable (omega arith),
          read p ∙ ap (λ x. some (x, s)) (done.others p ne_p apart),
        ),
      )
