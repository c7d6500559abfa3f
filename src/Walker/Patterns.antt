-- ===== src/Walker/Patterns.antt =====
-- `ContractWalker.get_pattern_mode`, `format_name`, `record_function` and `record_ir`
-- (slither/tools/contract_abstract/contract/contract_walker.py). `none` is a raised exception.
use contract_abstract.Prelude.{
  ℕ, zero, suc, ◌+◌, ◌*◌, Text, codes, text_eq, Bool, true, false, ◌||◌, Option, none, some, List,
  [], ◌∷◌, length, ◌==◌, if◌then◌else◌,
}
use contract_abstract.Layout.Types.{starts_with}

-- a shift, and the bits that are 0 for it
abbrev pub Pattern : Type 0
Pattern = ℕ × List ℕ

-- The first loop. `n` is the length of `patterns[1]`, which is a pair.
unfoldable pub pairs_mode : ℕ → List Pattern → ℕ
pairs_mode mode [] = mode
pairs_mode mode (p ∷ ps) = let rest = pairs_mode 1 ps in if length p.1 == 2 then rest else 0

abbrev pub only_bit : List ℕ → Option ℕ
only_bit [] = none
only_bit (b ∷ []) = some b
only_bit (b ∷ c ∷ bs) = none

-- The other loops: patterns of one bit, which is to be the given one of its shift.
abbrev pub at_bit : Option ℕ → ℕ → ℕ → ℕ → ℕ
at_bit none expected rest next = rest
at_bit (some b) expected rest next = if b == expected then next else 0

unfoldable pub bits_mode : (ℕ → ℕ) → ℕ → ℕ → List Pattern → ℕ
bits_mode expected found mode [] = mode
bits_mode expected found mode (p ∷ ps) =
    at_bit (only_bit p.1) (expected p.0) (bits_mode expected found mode ps)
      (bits_mode expected found found ps)

abbrev pub first_bit : ℕ → ℕ
first_bit shift = shift * 2

abbrev pub second_bit : ℕ → ℕ
second_bit shift = shift * 2 + 1

-- the mode after the first loop, and what the other two make of it
unfoldable pub later_modes : ℕ → List Pattern → ℕ
unfolding bits_mode
later_modes continuous patterns =
    let even = bits_mode first_bit 2 continuous patterns in
    let odd = bits_mode second_bit 3 even patterns in
    if continuous == 1 then continuous else if even == 2 then even else odd

-- `patterns[1]` raises when there are fewer than two
unfoldable pub get_pattern_mode : List Pattern → Option ℕ
unfolding pairs_mode later_modes
get_pattern_mode [] = none
get_pattern_mode (p ∷ []) = none
get_pattern_mode (p ∷ q ∷ ps) =
    let patterns = p ∷ q ∷ ps in some (later_modes (pairs_mode 0 patterns) patterns)

-- `name.replace("set", "")`; `skip` characters of a "set" are still to be left out
unfoldable pub without_set : ℕ → Text → Text
unfolding starts_with
without_set skip [] = []
without_set (suc skip) (c ∷ cs) = without_set skip cs
without_set zero (c ∷ cs) =
    let removed = without_set 2 cs in
    let kept = without_set zero cs in
    if starts_with (codes "set") (c ∷ cs) then removed else c ∷ kept

-- `.split("(")[0]`
unfoldable pub before_bracket : Text → Text
before_bracket [] = []
before_bracket (c ∷ cs) = let rest = before_bracket cs in if c == b'(' then [] else c ∷ rest

-- the branch of a name that starts with "set"
unfoldable pub format_setter : Text → Text
unfolding without_set before_bracket
format_setter name = before_bracket (without_set zero name)

-- `record_function` and `record_ir`: whether the name is recorded already, and the new set
unfoldable pub is_recorded : Text → List Text → Bool
is_recorded name [] = false
is_recorded name (n ∷ ns) = text_eq n name || is_recorded name ns

unfoldable pub record_function : Text → List Text → List Text × Bool
unfolding is_recorded
record_function name names = if is_recorded name names then (names, true) else (name ∷ names, false)
