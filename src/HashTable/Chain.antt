-- ===== src/HashTable/Chain.antt =====
-- The tables of src/map/hashtable.c with integer keys as chains, and how the writes to them change
-- the chain.
use ssr.Base.{
  ℕ, zero, suc, ◌%◌, ◌^◌, ◌<◌, ◌≡◌, refl, ap, ◌∙◌, ◌≢◌, Bool, true, false, Option, none, some, ◌==◌,
  if◌then◌else◌, update, arith,
}
use mathlib.Core.Path.{fun_ext}
use native.Mathlib.Decide.{ℕ_discrete}
use ssr.Murmur.{murmur32_8b}
use ssr.HashTable.{
  Hti, Ht, is_tagged1, copied_value, hti_lookup, hti_alloc, probe_limit, hti_start_copy, set_table,
  set_entry_val, set_entry_key,
}
use ssr.HashTable.Probe.{
  first_fit, same_as, probe_path, hti_lookup-path, first_fit-empty, first_fit-found,
  first_fit-other_found, first_fit-other_none, first_fit-installed,
}
use ssr.HashTable.View.{View, Looks, is_found, Inv}
use ssr.HashTable.Install.{Installed}
use ssr.HashTable.Change.{Changed}
use ssr.HashTable.Grow.{Grown}

-- A table without its counters.
pub record Core : Type 0 where
  pub key : ℕ → ℕ
  pub val : ℕ → ℕ
  pub probe : ℕ
  pub scale : ℕ

-- A value that is being copied counts as copied.
abbrev pub effective : ℕ → ℕ
effective v = if is_tagged1 v then copied_value else v

abbrev pub core : Hti → Core
core hti = record { key = hti.key; val = hti.val; probe = hti.probe; scale = hti.scale }

abbrev pub look_in : Core → (q : ℕ) → Option (ℕ × Bool)
look_in c q =
    let hash = murmur32_8b q in
    first_fit c.key (same_as q) (probe_path c.probe c.scale hash (hash % 2 ^ c.scale))

abbrev view_of : (ℕ → Core) → ℕ → View
view_of cores n = record {
  look = λ t q. look_in (cores t) q;
  key = λ t i. (cores t).key i;
  val = λ t i. effective ((cores t).val i);
  installed = n;
}

abbrev pub view : Ht → View
view ht = view_of (λ t. core (ht.tables t)) ht.installed

pub hti_lookup-look :
    (hti : Hti) (q : ℕ) → hti_lookup none hti q (murmur32_8b q) ≡ look_in (core hti) q
hti_lookup-look hti q = hti_lookup-path hti q (murmur32_8b q)

pub view-Looks : (ht : Ht) → Looks (view ht)
view-Looks ht = record {
  found_key = λ t q i e.
      let c = core (ht.tables t) in
      let hash = murmur32_8b q in
      first_fit-found c.key q (probe_path c.probe c.scale hash (hash % 2 ^ c.scale)) e;
  empty_key = λ t q i e.
      let c = core (ht.tables t) in
      let hash = murmur32_8b q in
      first_fit-empty c.key q (probe_path c.probe c.scale hash (hash % 2 ^ c.scale)) e;
}

-- The counters do not matter.
pub set_table-view :
    (ht : Ht) (t : ℕ) (x : Hti) → core x ≡ core (ht.tables t) → view (set_table ht t x) ≡ view ht
set_table-view ht t x same =
    let cores : (λ w. core ((set_table ht t x).tables w)) ≡ (λ w. core (ht.tables w)) =
      fun_ext each in
    ap (λ f. view_of f ht.installed) cores
  where
    each : (w : ℕ) → core ((set_table ht t x).tables w) ≡ core (ht.tables w)
    each w = elim (ℕ_discrete t w) [
      | yes here ↦
          let e : (t == w) ≡ true = ground arith in rw e (same ∙ ap (λ a. core (ht.tables a)) here)
      | no other ↦ let e : (t == w) ≡ false = ground arith in rw e refl
    ]

pub set_entry_val-Changed :
    (ht : Ht) (t i v : ℕ) → Changed (view ht) (view (set_entry_val ht t i v)) t i (effective v)
set_entry_val-Changed ht t i v = record {
  same_number = refl;
  same_looks = λ w p. elim (ℕ_discrete t w) [
    | yes here ↦
        let e : (t == w) ≡ true = ground arith in
        rw e (ap (λ a. look_in (core (ht.tables a)) p) here)
    | no other ↦ let e : (t == w) ≡ false = ground arith in rw e refl
  ];
  same_keys = λ w k. elim (ℕ_discrete t w) [
    | yes here ↦ let e : (t == w) ≡ true = ground arith in rw e (ap (λ a. (ht.tables a).key k) here)
    | no other ↦ let e : (t == w) ≡ false = ground arith in rw e refl
  ];
  vals = λ w k. elim (ℕ_discrete t w) [
    | no other ↦ let e : (t == w) ≡ false = ground arith in rw e refl
    | yes here ↦
        let e : (t == w) ≡ true = ground arith in
        rw e (elim (ℕ_discrete i k) [
          | no apart ↦
              let e' : (i == k) ≡ false = ground arith in
              rw e' (ap (λ a. effective ((ht.tables a).val k)) here)
          | yes it ↦ let e' : (i == k) ≡ true = ground arith in rw e' refl
        ])
  ];
}

pub set_entry_key-Installed :
    {b : ℕ} (ht : Ht) (u j q : ℕ)
    → Inv (view ht) b
    → u < ht.installed
    → q ≢ 0
    → (view ht).look u q ≡ some (j, true)
    → Installed (view ht) (view (set_entry_key ht u j q)) u j q
set_entry_key-Installed ht u j q inv lt ne e =
    let empty = inv.looks.empty_key u q j e in
    let c = core (ht.tables u) in
    let path =
      λ (p : ℕ). probe_path c.probe c.scale (murmur32_8b p) (murmur32_8b p % 2 ^ c.scale) in
    let itself : (u == u) ≡ true = ground arith in
    record {
      empty = e;
      same_number = refl;
      same_vals = λ t i. elim (ℕ_discrete u t) [
        | yes here ↦
            let e' : (u == t) ≡ true = ground arith in
            rw e' (ap (λ a. effective ((ht.tables a).val i)) here)
        | no other ↦ let e' : (u == t) ≡ false = ground arith in rw e' refl
      ];
      keys = λ t i t_lt. elim (ℕ_discrete u t) [
        | yes here ↦
            let e' : (u == t) ≡ true = ground arith in
            let e'' : (t == u) ≡ true = ground arith in
            rw e' (rw e'' (ap (λ a. if j == i then q else (ht.tables a).key i) here))
        | no other ↦
            let e' : (u == t) ≡ false = ground arith in
            let e'' : (t == u) ≡ false = ground arith in rw e' (rw e'' refl)
      ];
      elsewhere = λ t p other. let e' : (u == t) ≡ false = ground arith in rw e' refl;
      now = rw itself (first_fit-installed c.key q (path q) ne e);
      other_found = λ p i f. rw itself (first_fit-other_found c.key p (path p) j q empty f);
      other_none = λ p f. rw itself (first_fit-other_none c.key p (path p) j q empty f);
      other_empty = λ p i vacant ne_p apart. rw itself (never_found u p i j q lt ne_p apart vacant);
    }
  where
    never_found :
        (u p i j q : ℕ)
        → u < ht.installed
        → p ≢ 0
        → p ≢ q
        → (view ht).look u p ≡ some (i, true)
        → is_found (look_in (core (record (ht.tables u) { key = update (ht.tables u).key j q })) p)
          ≡ false
    never_found u p i j q lt ne_p apart vacant =
        let c = core (ht.tables u) in
        let now = look_in (core (record (ht.tables u) { key = update (ht.tables u).key j q })) p in
        by_look now refl
      where
        by_look :
            (o : Option (ℕ × Bool))
            → look_in (core (record (ht.tables u) { key = update (ht.tables u).key j q })) p ≡ o
            → is_found o ≡ false
        by_look none f = refl
        by_look (some (k, true)) f = refl
        by_look (some (k, false)) f =
            let c = core (ht.tables u) in
            let hash = murmur32_8b p in
            let own : (if j == k then q else c.key k) ≡ p =
              first_fit-found (update c.key j q) p
                (probe_path c.probe c.scale hash (hash % 2 ^ c.scale)) f in
            let own' : c.key k ≡ p = ground (arith, own) in
            absurd (ground (arith, inv.reached u p k lt ne_p own', vacant))

probe_limit-pos : (scale : ℕ) → 0 < probe_limit scale
unfolding probe_limit
probe_limit-pos scale = ground arith

-- In an empty table every lookup ends at an empty entry at once.
pub empty_look : (q scale : ℕ) → (j : ℕ) × (look_in (core (hti_alloc scale)) q ≡ some (j, true))
unfolding hti_alloc
empty_look q scale = by_limit (probe_limit scale) (probe_limit-pos scale)
  where
    by_limit :
        (n : ℕ)
        → 0 < n
        → (j : ℕ) × (look_in (record { key = λ _. 0; val = λ _. 0; probe = n; scale = scale }) q
            ≡ some (j, true))
    by_limit zero pos = absurd (omega arith)
    by_limit (suc n) pos = (_, refl)

pub hti_start_copy-look :
    (ht : Ht) (t q : ℕ)
    → (j : ℕ) × ((view (hti_start_copy ht t)).look ht.installed q ≡ some (j, true))
unfolding hti_start_copy
hti_start_copy-look ht t q =
    let itself : (ht.installed == ht.installed) ≡ true = ground arith in rw itself (empty_look q _)

pub hti_start_copy-Grown : (ht : Ht) (t : ℕ) → Grown (view ht) (view (hti_start_copy ht t))
unfolding hti_start_copy
hti_start_copy-Grown ht t =
    let itself : (ht.installed == ht.installed) ≡ true = ground arith in
    let apart : (w : ℕ) → w < ht.installed → (ht.installed == w) ≡ false = λ w lt. ground arith in
    record {
      one_more = refl;
      same_looks = λ w p lt. rw (apart w lt) refl;
      same_keys = λ w k lt. rw (apart w lt) refl;
      same_vals = λ w k lt. rw (apart w lt) refl;
      new_lost = λ p. let (j, e) = hti_start_copy-look ht t p in rw e refl;
      new_keys = λ k. rw (itself, hti_alloc) refl;
      new_vals = λ k. rw (itself, hti_alloc) refl;
    }

pub hti_start_copy-old :
    (ht : Ht) (t w : ℕ) → w < ht.installed → (hti_start_copy ht t).tables w ≡ ht.tables w
unfolding hti_start_copy
hti_start_copy-old ht t w lt =
    let apart : (ht.installed == w) ≡ false = ground arith in rw apart refl

pub hti_start_copy-first : (ht : Ht) (t : ℕ) → (hti_start_copy ht t).first ≡ ht.first
unfolding hti_start_copy
hti_start_copy-first ht t = refl
