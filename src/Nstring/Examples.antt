-- ===== src/Nstring/Examples.antt =====
-- Runs of src/datatype/nstring.c.
use ssr.Base.{ℕ, ◌<◌, ◌≡◌, ◌↔◌, arith}
use ssr.Nstring.{Nstring, ns_cmp, ns_hash, ns_dup}
use ssr.Nstring.Laws.{ns_cmp-zero, ns_dup-same}

abbrev short : Nstring
short = record { len = 2; contents = λ i. 7 }

abbrev long : Nstring
long = record { len = 3; contents = λ i. 7 }

ns_cmp-zero_example :
    (ns_cmp short long ≡ 0)
    ↔ ((short.len ≡ long.len) × ((j : ℕ) → j < short.len → short.contents j ≡ long.contents j))
ns_cmp-zero_example =
    ns_cmp-zero short long (omega arith) (omega arith) (λ j. omega arith) (λ j. omega arith)

ns_dup-same_example :
    (ns_cmp short (ns_dup (λ i. i) short) ≡ 0) × (ns_hash (ns_dup (λ i. i) short) ≡ ns_hash short)
ns_dup-same_example = ns_dup-same (λ i. i) short (omega arith)
