-- ===== src/HashTable/View.antt =====
-- What a chain of tables of src/map/hashtable.c holds, by what a lookup finds in each of them.
use ssr.Base.{
  ℕ, zero, suc, ◌+◌, ◌-◌, ◌≤◌, ◌<◌, ◌≡◌, refl, ap, ap₂, ◌∙◌, ◌≢◌, ◌⊎◌, inl, inr, Bool, true, false,
  Option, none, some, ◌==◌, if◌then◌else◌, Bool-cases, arith,
}
use native.Mathlib.Decide.{ℕ_discrete}
use ssr.HashTable.{tombstone}
use ssr.HashTable.Copy.{is_copied}

-- Of each table, what a lookup of a key finds, the keys and the values of its entries; and the number
-- of the tables.
pub record View : Type 0 where
  pub look : ℕ → ℕ → Option (ℕ × Bool)
  pub key : ℕ → ℕ → ℕ
  pub val : ℕ → ℕ → ℕ
  pub installed : ℕ

abbrev pub plain : ℕ → ℕ
plain v = if v == tombstone then 0 else v

-- The value of a key in a table where a lookup found `o`; `rest` is what the next tables hold.
abbrev pub read : Option (ℕ × Bool) → (ℕ → ℕ) → (rest : ℕ) → ℕ
read none val rest = rest
read (some (i, true)) val rest = 0
read (some (i, false)) val rest = if is_copied (val i) then rest else plain (val i)

-- The value of a key in the `n` tables from `t` on.
abbrev pub value_from : View → (n t key : ℕ) → ℕ
value_from s zero t q = 0
value_from s (suc n) t q = read (s.look t q) (s.val t) (value_from s n (t + 1) q)

abbrev pub is_found : Option (ℕ × Bool) → Bool
is_found none = false
is_found (some (i, true)) = false
is_found (some (i, false)) = true

-- Whether a table sends a lookup on to the next one.
abbrev pub sends_on : Option (ℕ × Bool) → (ℕ → ℕ) → Bool
sends_on none val = true
sends_on (some (i, true)) val = false
sends_on (some (i, false)) val = is_copied (val i)

abbrev pub passes : View → (t q : ℕ) → Bool
passes s t q = sends_on (s.look t q) (s.val t)

-- A lookup ends at an entry with the key, or at an empty one.
pub record Looks (s : View) : Type 0 where
  pub found_key : (t q i : ℕ) → s.look t q ≡ some (i, false) → s.key t i ≡ q
  pub empty_key : (t q i : ℕ) → s.look t q ≡ some (i, true) → s.key t i ≡ 0

pub Look-cases :
    (o : Option (ℕ × Bool))
    → (o ≡ none) ⊎ (((i : ℕ) × (o ≡ some (i, true))) ⊎ ((i : ℕ) × (o ≡ some (i, false))))
Look-cases none = inl refl
Look-cases (some (i, true)) = inr (inl (i, refl))
Look-cases (some (i, false)) = inr (inr (i, refl))

-- The tables from `b` on are well formed.
pub record Inv (s : View) (b : ℕ) : Type 0 where
  pub some_table : b < s.installed
  pub looks : Looks s
  pub reached : (t q i : ℕ) → t < s.installed → q ≢ 0 → s.key t i ≡ q → s.look t q ≡ some (i, false)
  pub ordered :
      (t u q : ℕ)
      → b ≤ t
      → t < u
      → u < s.installed
      → q ≢ 0
      → is_found (s.look u q) ≡ true
      → passes s t q ≡ true
  pub last : (t i : ℕ) → t + 1 ≡ s.installed → is_copied (s.val t i) ≡ false
  pub unkeyed :
      (t i : ℕ) → t < s.installed → s.key t i ≡ 0 → is_copied (s.val t i) ≡ false → s.val t i ≡ 0

pub read-lost :
    (o : Option (ℕ × Bool)) (val : ℕ → ℕ) (rest : ℕ)
    → is_found o ≡ false
    → rest ≡ 0
    → read o val rest ≡ 0
read-lost none val rest lost gone = gone
read-lost (some (i, true)) val rest lost gone = refl
read-lost (some (i, false)) val rest lost gone = absurd (ground (arith, lost))

-- A key that no table holds has no value.
pub value_from-nowhere :
    (s : View) (n t q : ℕ)
    → ((u : ℕ) → t ≤ u → u < t + n → is_found (s.look u q) ≡ false)
    → value_from s n t q ≡ 0
value_from-nowhere s zero t q none_found = refl
value_from-nowhere s (suc n) t q none_found =
    read-lost (s.look t q) (s.val t) (value_from s n (t + 1) q)
      (none_found t (omega arith) (omega arith))
      (value_from-nowhere s n (t + 1) q (λ u le lt. none_found u (omega arith) (omega arith)))

-- After a table that does not send it on, a key is nowhere.
pub value_from-stopped :
    {s : View} {b : ℕ} (t q n : ℕ)
    → Inv s b
    → b ≤ t
    → q ≢ 0
    → t + 1 + n ≡ s.installed
    → passes s t q ≡ false
    → value_from s n (t + 1) q ≡ 0
value_from-stopped {s} t q n inv le ne e stops = value_from-nowhere s n (t + 1) q (λ u le' lt.
    elim (Bool-cases (is_found (s.look u q))) [
      | inl found ↦
          absurd (ground (arith, inv.ordered t u q le (omega arith) (omega arith) ne found))
      | inr lost ↦ lost
    ])

-- Tables that send a key on do not matter.
pub value_from-skip :
    (s : View) (n t k u q : ℕ)
    → t ≤ u
    → t + n ≡ u + k
    → ((w : ℕ) → t ≤ w → w < u → passes s w q ≡ true)
    → value_from s n t q ≡ value_from s k u q
value_from-skip s zero t k u q le e pass =
    let done : zero ≡ k = omega arith in ap (λ m. value_from s m u q) done
value_from-skip s (suc n) t k u q le e pass = elim (ℕ_discrete t u) [
  | yes same ↦ let left : suc n ≡ k = omega arith in ap₂ (λ m w. value_from s m w q) left same
  | no before ↦
      by_look (s.look t q) (pass t (omega arith) (omega arith))
      ∙ value_from-skip s n (t + 1) k u q (omega arith) (omega arith)
          (λ w le' lt. pass w (omega arith) lt)
]
  where
    by_look :
        (o : Option (ℕ × Bool))
        → sends_on o (s.val t) ≡ true
        → read o (s.val t) (value_from s n (t + 1) q) ≡ value_from s n (t + 1) q
    by_look none e = refl
    by_look (some (i, true)) e = absurd (ground (arith, e))
    by_look (some (i, false)) e = rw e refl

-- A key is read where a lookup finds it.
pub value_from-found :
    {s : View} {b : ℕ} (n q u i : ℕ)
    → Inv s b
    → b + n ≡ s.installed
    → b ≤ u
    → u < s.installed
    → q ≢ 0
    → s.look u q ≡ some (i, false)
    → is_copied (s.val u i) ≡ false
    → value_from s n b q ≡ plain (s.val u i)
value_from-found {s} {b} n q u i inv e le lt ne found live =
    let here : value_from s (suc (s.installed - u - 1)) u q ≡ plain (s.val u i) =
      rw found (rw live refl) in
    value_from-skip s n b (suc (s.installed - u - 1)) u q le (omega arith)
      (λ w le' lt'. inv.ordered w u q le' lt' lt ne (rw found refl))
    ∙ here
