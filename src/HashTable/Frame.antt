-- ===== src/HashTable/Frame.antt =====
-- What the copying of an entry in src/map/hashtable.c leaves alone.
use native.Mathlib.Decide.{ℕ_discrete}
use ssr.Base.{
  ap, ℕ, ◌+◌, ◌≤◌, ◌<◌, ◌≡◌, refl, sym, subst, ◌∙◌, ◌≢◌, ◌⊎◌, inl, inr, Bool, true, false, none,
  ◌==◌, if◌then◌else◌, Bool-cases, arith,
}
use ssr.HashTable.{
  Hti, Ht, is_tagged1, tag1, copied_value, tombstone, set_table, hti_start_copy, hti_alloc,
}
use ssr.HashTable.Copy.{is_copied}
use ssr.HashTable.Kept.{Kept, Kept-set, Kept-more, account}

-- A value that is tagged is one that was copied: COPIED_VALUE, or the tagged TOMBSTONE in an entry
-- with a key.
abbrev pub IsSettled : (key v : ℕ) → Type 0
IsSettled key v = is_tagged1 v ≡ true → (v ≡ copied_value) ⊎ ((v ≡ tag1 tombstone) × (key ≢ 0))

pub settled_copied : {key v : ℕ} → IsSettled key v → is_tagged1 v ≡ true → is_copied v ≡ true
settled_copied {key} {v} settled e = elim (settled e) [
  | inl dead ↦ rw dead refl
  | inr (dead, _) ↦ rw dead refl
]

pub settled_plain : {key v : ℕ} → IsSettled key v → is_copied v ≡ false → is_tagged1 v ≡ false
settled_plain {key} {v} settled live = elim (Bool-cases (is_tagged1 v)) [
  | inl tagged ↦ absurd (ground (arith, settled_copied settled tagged, live))
  | inr untagged ↦ untagged
]

-- The state `ht` is one on the way from `o` while entry `i` of table `t` is copied.
pub record Frame (o ht : Ht) (t i : ℕ) : Type 0 where
  pub same_first : ht.first ≡ o.first
  pub integer_keys : ht.key_type ≡ none
  pub same_keys : (ht.tables t).key ≡ (o.tables t).key
  pub own_range : t < o.installed
  pub kept : Kept o ht (λ w k. (t ≢ w) ⊎ (i ≢ k))
  pub scales : (w : ℕ) → w < ht.installed → 4 ≤ (ht.tables w).scale
  pub settled :
      (w k : ℕ)
      → w < ht.installed
      → (t ≢ w) ⊎ (i ≢ k)
      → IsSettled ((ht.tables w).key k) ((ht.tables w).val k)

module _ {o ht : Ht} {t i : ℕ} (frame : Frame o ht t i) where
  -- Another table is written.
  pub Frame-elsewhere :
      (u : ℕ) (x : Hti)
      → t ≢ u
      → account x ≡ account (ht.tables u)
      → ((k : ℕ) → IsSettled (x.key k) (x.val k))
      → ((k : ℕ) → is_copied (x.val k) ≡ is_copied ((ht.tables u).val k))
      → Frame o (set_table ht u x) t i
  Frame-elsewhere u x other same vals copies =
      let apart : (u == t) ≡ false = ground arith in
      record {
        same_first = frame.same_first;
        integer_keys = frame.integer_keys;
        same_keys = rw apart frame.same_keys;
        own_range = frame.own_range;
        kept = Kept-set frame.kept u x same (λ k other. copies k);
        scales = λ w lt. elim (ℕ_discrete u w) [
          | yes here ↦
              let e : (u == w) ≡ true = ground arith in
              rw e (
                omega (
                  arith,
                  ap (λ c. c.scale) same,
                  frame.scales w lt,
                  ap (λ a. (ht.tables a).scale) here,
                ))
          | no there ↦ let e : (u == w) ≡ false = ground arith in rw e (frame.scales w lt)
        ];
        settled = λ w k lt ne. elim (Bool-cases (u == w)) [
          | inl here ↦ rw here (vals k)
          | inr there ↦ rw there (frame.settled w k lt ne)
        ];
      }

  -- The table of the entry is written, and of it the entry and the counter `count`.
  pub Frame-own :
      (x : Hti)
      → x.key ≡ (ht.tables t).key
      → account x ≡ account (ht.tables t)
      → ((k : ℕ) → i ≢ k → x.val k ≡ (ht.tables t).val k)
      → t < ht.installed
      → Frame o (set_table ht t x) t i
  Frame-own x key same vals in_range =
      let itself : (t == t) ≡ true = ground arith in
      record {
        same_first = frame.same_first;
        integer_keys = frame.integer_keys;
        same_keys = rw itself (key ∙ frame.same_keys);
        own_range = frame.own_range;
        kept =
            Kept-set frame.kept t x same
              (λ k other. ap is_copied (vals k (other_entry k (other frame.own_range))));
        scales = λ w lt. elim (Bool-cases (t == w)) [
          | inl here ↦ rw here (omega (arith, ap (λ c. c.scale) same, frame.scales t in_range))
          | inr there ↦ rw there (frame.scales w lt)
        ];
        settled = λ w k lt ne. elim (Bool-cases (t == w)) [
          | inl here ↦ elim ne [
            | inl apart ↦ absurd (ground (arith, here))
            | inr apart ↦ rw here (
                rw (vals k apart) (
                  subst (λ f. IsSettled (f k) ((ht.tables t).val k)) (sym key)
                    (frame.settled t k in_range (inr apart))))
          ]
          | inr there ↦ rw there (frame.settled w k lt ne)
        ];
      }
    where
      other_entry : (k : ℕ) → (t ≢ t) ⊎ (i ≢ k) → i ≢ k
      other_entry k (inl apart) = absurd (apart refl)
      other_entry k (inr apart) = apart

  -- A table is added.
  pub Frame-more : (u : ℕ) → t < ht.installed → u < ht.installed → Frame o (hti_start_copy ht u) t i
  unfolding hti_start_copy hti_alloc
  Frame-more u in_range u_in_range =
      let apart : (ht.installed == t) ≡ false = ground arith in
      record {
        same_first = frame.same_first;
        integer_keys = frame.integer_keys;
        same_keys = rw apart frame.same_keys;
        own_range = frame.own_range;
        kept = Kept-more frame.kept u;
        scales = λ w lt. elim (Bool-cases (ht.installed == w)) [
          | inl here ↦ rw here (grows _ (frame.scales u u_in_range))
          | inr there ↦ rw there (frame.scales w (ground (arith, there)))
        ];
        settled = λ w k lt ne. elim (Bool-cases (ht.installed == w)) [
          | inl here ↦ rw here (λ e. absurd (ground (arith, e)))
          | inr there ↦ rw there (frame.settled w k (ground (arith, there)) ne)
        ];
      }
    where
      grows : (b : Bool) {n : ℕ} → 4 ≤ n → 4 ≤ (if b then n + 1 else n)
      grows true le = omega arith
      grows false le = le
