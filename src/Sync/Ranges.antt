-- ===== src/Sync/Ranges.antt =====
-- The blocks that the database knows of.
use contract_abstract.Prelude.{
  ◌==◌, ℕ, zero, suc, ◌+◌, ◌-◌, ◌≤◌, ◌<◌, ◌≡◌, refl, sym, subst, inl, inr, true, false, Bool-cases,
  Option, none, some, List, [], ◌∷◌, min, max, if◌then◌else◌, arith,
}
use contract_abstract.Layout.Types.{◌>>=◌}
use contract_abstract.Sync.Save.{Table}
use contract_abstract.Sync.Blocks.{
  numbers, maximum, minimum, occurs, count_distinct, BlockRange, range_of, get_block_range,
}

abbrev pub AreWithin : ℕ → ℕ → List ℕ → Type 0
AreWithin low high [] = Unit
AreWithin low high (n ∷ ns) = ((low ≤ n) × (n ≤ high)) × AreWithin low high ns

AreWithin-wider :
    (low high low₂ high₂ : ℕ) (ns : List ℕ)
    → low₂ ≤ low
    → high ≤ high₂
    → AreWithin low high ns
    → AreWithin low₂ high₂ ns
AreWithin-wider low high low₂ high₂ [] a b h = tt
AreWithin-wider low high low₂ high₂ (n ∷ ns) a b ((c, d), h) =
    ((omega arith, omega arith), AreWithin-wider low high low₂ high₂ ns a b h)

-- The extremes of a list with an element.
extremes :
    (n : ℕ) (ns : List ℕ)
    → (low : ℕ) × (high : ℕ) × (minimum (n ∷ ns) ≡ some low)
      × (maximum (n ∷ ns) ≡ some high)
      × (low ≤ high)
      × AreWithin low high (n ∷ ns)
unfolding minimum maximum
extremes n [] = (n, n, refl, refl, omega arith, ((omega arith, omega arith), tt))
extremes n (m ∷ ms) =
    let (low, high, a, b, le, h) = extremes m ms in
    (
      min n low,
      max n high,
      rw a refl,
      rw b refl,
      omega arith,
      (
        (omega arith, omega arith),
        AreWithin-wider low high (min n low) (max n high) (m ∷ ms) (omega arith) (omega arith) h,
      ),
    )

-- how many of the `k` numbers from `low` on occur
hit : ℕ → List ℕ → ℕ
hit v ns = if occurs v ns then 1 else 0

hits : ℕ → ℕ → List ℕ → ℕ
unfolding hit
hits low zero ns = 0
hits low (suc k) ns = hit (low + k) ns + hits low k ns

hit-cons : (v n : ℕ) (ns : List ℕ) → hit v ns ≤ hit v (n ∷ ns)
unfolding hit occurs
hit-cons v n ns = ground arith

hit-new : (n : ℕ) (ns : List ℕ) → occurs n ns ≡ false → suc (hit n ns) ≤ hit n (n ∷ ns)
unfolding hit occurs
hit-new n ns e = ground (arith, e)

hits-bound : (low k : ℕ) (ns : List ℕ) → hits low k ns ≤ k
unfolding hits hit
hits-bound low zero ns = omega arith
hits-bound low (suc k) ns = ground (arith, hits-bound low k ns)

hits-cons : (low k n : ℕ) (ns : List ℕ) → hits low k ns ≤ hits low k (n ∷ ns)
unfolding hits
hits-cons low zero n ns = omega arith
hits-cons low (suc k) n ns = omega (arith, hits-cons low k n ns, hit-cons (low + k) n ns)

hits-new :
    (low k n : ℕ) (ns : List ℕ)
    → low ≤ n
    → n < low + k
    → occurs n ns ≡ false
    → suc (hits low k ns) ≤ hits low k (n ∷ ns)
unfolding hits
hits-new low zero n ns a b e = absurd (omega arith)
hits-new low (suc k) n ns a b e = elim (Bool-cases (n == low + k)) [
  | inl t ↦
      let same : n ≡ low + k = ground arith in
      let new : suc (hit (low + k) ns) ≤ hit (low + k) (n ∷ ns) =
        subst (λ v. suc (hit v ns) ≤ hit v (n ∷ ns)) same (hit-new n ns e) in
      omega (arith, new, hits-cons low k n ns)
  | inr f ↦
      let less : n < low + k = ground arith in
      omega (arith, hits-new low k n ns a less e, hit-cons (low + k) n ns)
]

count_distinct-hits :
    (low high k : ℕ) (ns : List ℕ)
    → AreWithin low high ns
    → high < low + k
    → count_distinct ns ≤ hits low k ns
unfolding count_distinct
count_distinct-hits low high k [] h b = omega arith
count_distinct-hits low high k (n ∷ ns) ((c, d), h) b = elim (Bool-cases (occurs n ns)) [
  | inl t ↦ rw t (omega (arith, count_distinct-hits low high k ns h b, hits-cons low k n ns))
  | inr f ↦
      rw f (
        omega (arith, count_distinct-hits low high k ns h b, hits-new low k n ns c (omega arith) f))
]

count_distinct-positive : (n : ℕ) (ns : List ℕ) → 1 ≤ count_distinct (n ∷ ns)
unfolding count_distinct occurs
count_distinct-positive n [] = omega arith
count_distinct-positive n (m ∷ ms) = elim (Bool-cases (occurs n (m ∷ ms))) [
  | inl t ↦ rw t (count_distinct-positive m ms)
  | inr f ↦ rw f (omega arith)
]

-- What `get_block_range` returns is right for the numbers, and fits `get_latest_block_number`.
abbrev pub IsRange : List ℕ → Option BlockRange → Type 0
IsRange ns none = ns ≡ []
IsRange ns (some r) =
    AreWithin r.min_block r.max_block ns
    × ((1 ≤ r.total_blocks) × (r.total_blocks ≤ r.max_block - r.min_block + 1))

range_of-IsRange : (ns : List ℕ) → IsRange ns (range_of ns)
unfolding range_of
range_of-IsRange [] = refl
range_of-IsRange (n ∷ ns) =
    let (low, high, a, b, le, h) = extremes n ns in
    let count : count_distinct (n ∷ ns) ≤ high - low + 1 = omega (
      arith,
      le,
      count_distinct-hits low high (high - low + 1) (n ∷ ns) h (omega (arith, le)),
      hits-bound low (high - low + 1) (n ∷ ns),
    ) in
    subst
      (λ o. IsRange (n ∷ ns) (
        o >>= λ x. maximum (n ∷ ns) >>= λ y.
        some (record { min_block = x; max_block = y; total_blocks = count_distinct (n ∷ ns) })))
      (sym a)
      (subst
        (λ o. IsRange (n ∷ ns) (
          o >>= λ y.
          some (record { min_block = low; max_block = y; total_blocks = count_distinct (n ∷ ns) })))
        (sym b) (h, (count_distinct-positive n ns, count)))

-- When the query works, `get_block_range` returns None exactly for a table without block numbers;
-- else every number lies between its ends, and the count of different ones is at least one and at most the
-- number of blocks in between, the ends included.
pub get_block_range-IsRange : (table : Table) → IsRange (numbers table) (get_block_range true table)
unfolding get_block_range
get_block_range-IsRange table = range_of-IsRange (numbers table)
