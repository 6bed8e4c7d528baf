-- ===== src/HashTable/Buckets.antt =====
-- The entries that `hti_lookup` of src/map/hashtable.c compares, in closed form.
use ssr.Base.{
  ℕ, zero, suc, ◌+◌, ◌-◌, ◌*◌, ◌/◌, ◌%◌, ◌^◌, ◌≡◌, refl, ap, ap₂, ◌∙◌, none, List, [], ◌∷◌, ◌++◌,
  ltb, if◌then◌else◌, arith,
}
use native.Mathlib.Nat.{mod-add-mod}
use ssr.HashTable.{Hti, hti_lookup, get_next_ndx}
use ssr.HashTable.Probe.{first_fit, same_as, bucket_path, probe_path, hti_lookup-path}

-- The four entries of the cache line of `start`, from `start` on and round.
abbrev pub line_from : (start : ℕ) → List ℕ
line_from start =
    let line = start / 4 * 4 in
    (line + start % 4)
    ∷ (line + (start + 1) % 4)
    ∷ (line + (start + 2) % 4)
    ∷ (line + (start + 3) % 4)
    ∷ []

-- The distance of two probes: the highest `scale` bits of the hash, but not below a cache line.
abbrev pub stride : (scale hash : ℕ) → ℕ
stride scale hash = let high = hash / 2 ^ (32 - scale) in if ltb high 4 then high + 4 else high

-- `left` probes from the one with the number `i` on.
abbrev pub lines_from : (left i scale hash : ℕ) → List ℕ
lines_from zero i scale hash = []
lines_from (suc left) i scale hash =
    line_from ((hash + i * stride scale hash) % 2 ^ scale) ++ lines_from left (i + 1) scale hash

bucket_path-line_from : (start : ℕ) → bucket_path 4 start 0 ≡ line_from start
bucket_path-line_from start =
    let line : start - start % 4 ≡ start / 4 * 4 = omega arith in
    let here : start + 0 ≡ start = omega arith in rw (line, here) refl

get_next_ndx-stride :
    (i scale hash : ℕ)
    → get_next_ndx ((hash + i * stride scale hash) % 2 ^ scale) hash scale
      ≡ (hash + (i + 1) * stride scale hash) % 2 ^ scale
unfolding get_next_ndx
get_next_ndx-stride i scale hash =
    mod-add-mod (hash + i * stride scale hash) (2 ^ scale) (stride scale hash)
    ∙ ap (λ z. z % 2 ^ scale) (sum hash i (stride scale hash))
  where
    sum : (h j d : ℕ) → (h + j * d) + d ≡ h + (j + 1) * d
    sum h j d = omega arith

probe_path-lines_from :
    (left i scale hash : ℕ)
    → probe_path left scale hash ((hash + i * stride scale hash) % 2 ^ scale)
      ≡ lines_from left i scale hash
probe_path-lines_from zero i scale hash = refl
probe_path-lines_from (suc left) i scale hash =
    ap₂ (λ xs ys. xs ++ ys) (bucket_path-line_from ((hash + i * stride scale hash) % 2 ^ scale))
      (ap (λ z. probe_path left scale hash z) (get_next_ndx-stride i scale hash)
        ∙ probe_path-lines_from left (i + 1) scale hash)

-- On integer keys, hti_lookup returns the first entry that is empty or holds the key among those of
-- `probe` cache lines of four entries: the probe with the number i starts at the entry hash + i *
-- stride modulo the size of the table and goes once round its cache line, and the stride is the
-- highest `scale` bits of the hash, with 4 added if they are below 4.
pub hti_lookup-lines :
    (hti : Hti) (key hash : ℕ)
    → hti_lookup none hti key hash
      ≡ first_fit hti.key (same_as key) (lines_from hti.probe 0 hti.scale hash)
hti_lookup-lines hti key hash =
    hti_lookup-path hti key hash
    ∙ ap (λ xs. first_fit hti.key (same_as key) xs)
        (ap (λ z. probe_path hti.probe hti.scale hash (z % 2 ^ hti.scale)) (start hash)
          ∙ probe_path-lines_from hti.probe 0 hti.scale hash)
  where
    start : (h : ℕ) → h ≡ h + 0 * stride hti.scale h
    start h = omega arith
