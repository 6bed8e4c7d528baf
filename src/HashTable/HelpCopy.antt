-- ===== src/HashTable/HelpCopy.antt =====
-- `hti_help_copy` and the step of `ht_cas` to the next table in src/map/hashtable.c.
use ssr.Base.{
  ℕ, zero, suc, ◌+◌, ◌*◌, ◌/◌, ◌%◌, ◌^◌, ◌≤◌, ◌<◌, ◌≡◌, refl, sym, ap, ◌∙◌, ◌≢◌, inl, inr, Bool,
  true, some, ◌==◌, Bool-cases, arith, ltb, u64,
}
use native.Mathlib.Nat.{div-add-mod, mul_assoc, mod-lt, one-le-pow}
use ssr.HashTable.{Ht, size_of, set_table, entries_per_copy_chunk, add_copied}
use ssr.HashTable.Copy.{copy_entries, hti_help_copy, tally_of}
use ssr.HashTable.Store.{value}
use ssr.HashTable.Kept.{account}
use ssr.HashTable.Moved.{Stable}
use ssr.HashTable.Writes.{set_table-Stable, set_table-value}
use ssr.HashTable.Help.{copied_in, Stretch, copy_entries-Stretch}

-- The accounts of table `t`: its copied entries are counted, and the scan goes on at a chunk.
pub record Accounts (ht : Ht) (t : ℕ) : Type 0 where
  pub counted : (ht.tables t).num_entries_copied ≡ u64 (copied_in (ht.tables t))
  pub aligned : (ht.tables t).copy_scan % 8 ≡ 0
  pub min_size : 4 ≤ (ht.tables t).scale
  pub max_size : (ht.tables t).scale < 63

-- A help with the copying of table `t`; `finished` says whether all of it is copied.
pub record Helped (ht s : Ht) (b t : ℕ) (finished : Bool) : Type 0 where
  pub stable : Stable s b
  pub same_values : (p : ℕ) → p ≢ 0 → value s b p ≡ value ht b p
  pub same_first : s.first ≡ ht.first
  pub accounts : Accounts s t
  pub growth : s.installed ≤ ht.installed + size_of (ht.tables t)
  pub in_range : t + 1 < s.installed
  pub finished_iff : finished ≡ ((s.tables t).num_entries_copied == size_of (s.tables t))

-- A chunk that begins at a multiple of its size stays inside a table whose size is one, too.
chunk_inside : (scan size m : ℕ) → scan % 8 ≡ 0 → size ≡ 8 * m → 0 < m → scan % size + 8 ≤ size
chunk_inside scan size m aligned e pos =
    let split : size * (scan / size) + scan % size ≡ scan = div-add-mod scan size in
    let eights : size * (scan / size) ≡ 8 * (m * (scan / size)) =
      ap (λ a. a * (scan / size)) e ∙ mul_assoc 8 m (scan / size) in
    let less : scan % size < size = mod-lt scan (omega arith) in omega (arith, split, eights, less)

eighth : (scale : ℕ) → 4 ≤ scale → (m : ℕ) × (2 ^ scale ≡ 8 * m) × (0 < m)
eighth zero le = absurd (omega arith)
eighth (suc zero) le = absurd (omega arith)
eighth (suc (suc zero)) le = absurd (omega arith)
eighth (suc (suc (suc n))) le = (2 ^ n, omega arith, one-le-pow n 2 (omega arith))

module _ {o s : Ht} {b t n left : ℕ} (accounts : Accounts o t) (stretch : Stretch o s b t n left)
    (lt : t < o.installed) (few : left ≤ size_of (o.tables t)) where
  same_account : account (s.tables t) ≡ account (o.tables t)
  same_account = stretch.kept.accounts t lt

  uncounted : (n ≡ 0) → Helped o s b t ((o.tables t).num_entries_copied == size_of (o.tables t))
  uncounted none_new = record {
    stable = stretch.stable;
    same_values = stretch.same_values;
    same_first = stretch.same_first;
    accounts = record {
      counted =
          ap (λ a. a.num_entries_copied) same_account
          ∙ accounts.counted
          ∙ ap u64 (omega (arith, none_new, stretch.counted));
      aligned = ap (λ a. a.copy_scan % 8) same_account ∙ accounts.aligned;
      min_size = omega (arith, ap (λ a. a.scale) same_account, accounts.min_size);
      max_size = omega (arith, ap (λ a. a.scale) same_account, accounts.max_size);
    };
    growth = omega (arith, stretch.growth);
    in_range = stretch.in_range;
    finished_iff = sym (ap (λ a. a.num_entries_copied == 2 ^ a.scale) same_account);
  }

  abbrev added : Ht
  added = add_copied s t n

  added_up : Helped o added b t ((added.tables t).num_entries_copied == size_of (o.tables t))
  added_up =
      let x = record (s.tables t) {
        num_entries_copied = u64 ((s.tables t).num_entries_copied + n);
      } in
      let itself : (t == t) ≡ true = ground arith in
      let range : t < s.installed = omega (arith, stretch.in_range) in
      record {
        stable = set_table-Stable t x stretch.stable refl range;
        same_values = λ p ne. set_table-value s t x b p refl ∙ stretch.same_values p ne;
        same_first = stretch.same_first;
        accounts = record {
          counted = rw itself (
              sums _ _ (copied_in (o.tables t)) (copied_in (s.tables t))
                (ap (λ a. a.num_entries_copied) same_account ∙ accounts.counted) stretch.counted);
          aligned = rw itself (ap (λ a. a.copy_scan % 8) same_account ∙ accounts.aligned);
          min_size = rw itself (omega (arith, ap (λ a. a.scale) same_account, accounts.min_size));
          max_size = rw itself (omega (arith, ap (λ a. a.scale) same_account, accounts.max_size));
        };
        growth = omega (arith, stretch.growth);
        in_range = stretch.in_range;
        finished_iff =
            rw itself (
              ap (λ a. u64 ((s.tables t).num_entries_copied + n) == 2 ^ a.scale)
                (sym same_account));
      }
    where
      sums : (num k old new : ℕ) → num ≡ u64 old → k + old ≡ new → u64 (num + k) ≡ u64 new
      sums num k old new e e' = omega arith

  -- The newly copied entries are added to the account.
  pub tally-Helped :
      (finished : Bool) × (r : Ht) × (tally_of
          (size_of (o.tables t))
          (o.tables t).num_entries_copied
          t
          (some (n, s))
        ≡ some (finished, r))
      × Helped o r b t finished
  tally-Helped = elim (Bool-cases (n == 0)) [
    | inl none_new ↦ (_, s, (rw none_new refl), uncounted (ground (arith, none_new)))
    | inr some_new ↦ (_, added, (rw some_new refl), added_up)
  ]

module _ {ht : Ht} {b t : ℕ} (fuel : ℕ) (stable : Stable ht b) (low : b ≤ t)
    (in_range : t + 1 < ht.installed) (accounts : Accounts ht t)
    (enough : ht.installed + size_of (ht.tables t) + 1 ≤ fuel + t) where
  abbrev reserved : Ht
  reserved =
      set_table ht t (record (ht.tables t) {
        copy_scan = u64 ((ht.tables t).copy_scan + entries_per_copy_chunk);
      })

  reserved-Accounts : Accounts reserved t
  reserved-Accounts =
      let itself : (t == t) ≡ true = ground arith in
      record {
        counted = rw itself accounts.counted;
        aligned = rw itself (onward (ht.tables t).copy_scan accounts.aligned);
        min_size = rw itself accounts.min_size;
        max_size = rw itself accounts.max_size;
      }
    where
      onward : (x : ℕ) → x % 8 ≡ 0 → u64 (x + entries_per_copy_chunk) % 8 ≡ 0
      onward x e = omega arith

  reserved-Stable : Stable reserved b
  reserved-Stable =
      set_table-Stable t
        (record (ht.tables t) {
          copy_scan = u64 ((ht.tables t).copy_scan + entries_per_copy_chunk);
        })
        stable refl (omega arith)

  whole_table :
      (f : Bool) × (r : Ht) × (tally_of
          (size_of (ht.tables t))
          (ht.tables t).num_entries_copied
          t
          (copy_entries (size_of (ht.tables t)) fuel ht t 0)
        ≡ some (f, r))
      × Helped ht r b t f
  whole_table =
      let (n, s, e, stretch) =
        copy_entries-Stretch {b = b} {t = t} (size_of (ht.tables t)) fuel ht 0 stable low in_range
          (omega arith) (omega arith) in
      let (f, r, e', helped) = tally-Helped accounts stretch (omega arith) (omega arith) in
      (f, r, (rw e e'), helped)

  chunk :
      (f : Bool) × (r : Ht) × (tally_of (size_of (ht.tables t)) (ht.tables t).num_entries_copied t (
          copy_entries entries_per_copy_chunk fuel reserved t
            ((ht.tables t).copy_scan % size_of (ht.tables t)))
        ≡ some (f, r))
      × Helped ht r b t f
  chunk =
      let itself : (t == t) ≡ true = ground arith in
      let x = record (ht.tables t) {
        copy_scan = u64 ((ht.tables t).copy_scan + entries_per_copy_chunk);
      } in
      let same : account (reserved.tables t) ≡ account x = rw itself refl in
      let (m, size, pos) = eighth (ht.tables t).scale accounts.min_size in
      let inside =
        chunk_inside (ht.tables t).copy_scan (size_of (ht.tables t)) m accounts.aligned size pos in
      let same_size : size_of (reserved.tables t) ≡ size_of (ht.tables t) =
        ap (λ a. 2 ^ a.scale) same in
      let (n, s, e, stretch) =
        copy_entries-Stretch {b = b} {t = t} entries_per_copy_chunk fuel reserved
          ((ht.tables t).copy_scan % size_of (ht.tables t)) reserved-Stable low in_range
          (omega (arith, inside, same_size)) (omega (arith, size, pos)) in
      let (f, r, e', helped) =
        tally-Helped reserved-Accounts stretch (omega arith)
          (omega (arith, size, pos, same_size)) in
      (
        f,
        r,
        (rw e (
            ap (λ a. tally_of (2 ^ a.scale) a.num_entries_copied t (some (n, s))) (sym same) ∙ e')),
        record {
          stable = helped.stable;
          same_values = λ p ne. helped.same_values p ne ∙ set_table-value ht t x b p refl;
          same_first = helped.same_first;
          accounts = helped.accounts;
          growth = omega (arith, helped.growth, same_size);
          in_range = helped.in_range;
          finished_iff = helped.finished_iff;
        },
      )

  -- On tables with integer keys in which no entry is being copied and whose first table has correct
  -- counters, hti_help_copy returns within the fuel, every key keeps its value, no entry is left in
  -- the middle of a copy, num_entries_copied stays the number of copied entries and copy_scan a
  -- multiple of the chunk, and the result says whether the whole table is copied.
  pub hti_help_copy-Helped :
      (f : Bool) × (r : Ht) × (hti_help_copy fuel ht t ≡ some (f, r)) × Helped ht r b t f
  unfolding hti_help_copy
  hti_help_copy-Helped =
      let hti = ht.tables t in
      elim (Bool-cases (hti.num_entries_copied == size_of hti)) [
        | inl all ↦ (
          true,
          ht,
          (rw all refl),
          record {
            stable = stable;
            same_values = λ p ne. refl;
            same_first = refl;
            accounts = accounts;
            growth = omega arith;
            in_range = in_range;
            finished_iff = sym all;
          },
        )
        | inr more ↦ rw more (elim (Bool-cases (ltb hti.copy_scan (2 ^ (hti.scale + 1)))) [
          | inl calm ↦ rw calm chunk
          | inr panic ↦ rw panic whole_table
        ])
      ]
