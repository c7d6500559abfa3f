-- ===== src/Walker/Modes.antt =====
-- What `get_pattern_mode` decides.
use contract_abstract.Prelude.{
  ℕ, ◌≡◌, refl, ap, ◌∙◌, inl, inr, Bool, true, false, ◌&&◌, ◌||◌, Bool-cases, Option, none, some,
  List, [], ◌∷◌, length, ◌==◌, if◌then◌else◌, arith,
}
use contract_abstract.Walker.Patterns.{
  Pattern, pairs_mode, only_bit, at_bit, bits_mode, first_bit, second_bit, later_modes,
  get_pattern_mode,
}

-- every pattern has two bits
pub are_pairs : List Pattern → Bool
are_pairs [] = true
are_pairs (p ∷ ps) = length p.1 == 2 && are_pairs ps

abbrev is_single : Option ℕ → Bool
is_single none = false
is_single (some b) = true

abbrev is_bit : Option ℕ → ℕ → Bool
is_bit none expected = true
is_bit (some b) expected = b == expected

-- some pattern has one bit only
pub any_single : List Pattern → Bool
any_single [] = false
any_single (p ∷ ps) = is_single (only_bit p.1) || any_single ps

-- the patterns of one bit have the expected one
pub all_expected : (ℕ → ℕ) → List Pattern → Bool
all_expected expected [] = true
all_expected expected (p ∷ ps) = is_bit (only_bit p.1) (expected p.0) && all_expected expected ps

-- the modes in words
pub mode_of : List Pattern → ℕ
mode_of ps =
    if are_pairs ps
    then 1
    else if any_single ps && all_expected first_bit ps
    then 2
    else if any_single ps && all_expected second_bit ps
    then 3
    else 0

pairs_mode-are_pairs : (ps : List Pattern) → pairs_mode 1 ps ≡ (if are_pairs ps then 1 else 0)
unfolding pairs_mode are_pairs
pairs_mode-are_pairs [] = refl
pairs_mode-are_pairs (p ∷ ps) = ground (arith, pairs_mode-are_pairs ps)

bits_mode-found :
    (expected : ℕ → ℕ) (found : ℕ) (ps : List Pattern)
    → bits_mode expected found found ps ≡ (if all_expected expected ps then found else 0)
unfolding bits_mode all_expected
bits_mode-found expected found [] = refl
bits_mode-found expected found (p ∷ ps) =
    at_bit-found (only_bit p.1) (expected p.0) found (bits_mode expected found found ps)
      (all_expected expected ps) (bits_mode-found expected found ps)
  where
    at_bit-found :
        (o : Option ℕ) (e found rest : ℕ) (b : Bool)
        → rest ≡ (if b then found else 0)
        → at_bit o e rest rest ≡ (if is_bit o e && b then found else 0)
    at_bit-found none e found rest b h = h
    at_bit-found (some c) e found rest b h = ground (arith, h)

bits_mode-zero :
    (expected : ℕ → ℕ) (found : ℕ) (ps : List Pattern)
    → bits_mode expected found 0 ps
      ≡ (if any_single ps && all_expected expected ps then found else 0)
unfolding bits_mode all_expected any_single
bits_mode-zero expected found [] = refl
bits_mode-zero expected found (p ∷ ps) =
    at_bit-zero (only_bit p.1) (expected p.0) found (bits_mode expected found 0 ps)
      (bits_mode expected found found ps) (any_single ps) (all_expected expected ps)
      (bits_mode-zero expected found ps) (bits_mode-found expected found ps)
  where
    at_bit-zero :
        (o : Option ℕ) (e found rest next : ℕ) (a b : Bool)
        → rest ≡ (if a && b then found else 0)
        → next ≡ (if b then found else 0)
        → at_bit o e rest next ≡ (if (is_single o || a) && (is_bit o e && b) then found else 0)
    at_bit-zero none e found rest next a b h k = h
    at_bit-zero (some c) e found rest next a b h k = ground (arith, h, k)

later_modes-mode_of :
    (ps : List Pattern) → later_modes (if are_pairs ps then 1 else 0) ps ≡ mode_of ps
unfolding later_modes mode_of
later_modes-mode_of ps = elim (Bool-cases (are_pairs ps)) [
  | inl t ↦ rw t refl
  | inr f ↦ elim (Bool-cases (any_single ps && all_expected first_bit ps)) [
    | inl e ↦
        let even : bits_mode first_bit 2 0 ps ≡ 2 = rw e at (bits_mode-zero first_bit 2 ps) in
        rw (f, even, e) refl
    | inr n ↦
        let even : bits_mode first_bit 2 0 ps ≡ 0 = rw n at (bits_mode-zero first_bit 2 ps) in
        rw (f, even, n) (bits_mode-zero second_bit 3 ps)
  ]
]

-- From two patterns on, the mode is 1 when every pattern has two bits; otherwise 2, or else 3, when
-- there is a pattern of one bit and each such pattern has twice its shift, or one more, as its bit;
-- otherwise 0.
pub get_pattern_mode-mode_of :
    (p q : Pattern) (ps : List Pattern)
    → get_pattern_mode (p ∷ q ∷ ps) ≡ some (mode_of (p ∷ q ∷ ps))
unfolding get_pattern_mode pairs_mode
get_pattern_mode-mode_of p q ps =
    let patterns = p ∷ q ∷ ps in
    let first : pairs_mode 0 patterns ≡ (if are_pairs patterns then 1 else 0) =
      pairs_mode-are_pairs patterns in
    ap (λ m. some (later_modes m patterns)) first ∙ ap (λ m. some m) (later_modes-mode_of patterns)
