-- ===== src/Expr/Scan.antt =====
-- `Entity.find_next_elem` and `Entity.find_matching_bracket`
-- (slither/tools/contract_abstract/contract/entity.py).
use contract_abstract.Prelude.{
  ℕ, ◌+◌, Text, Bool, true, false, [], ◌∷◌, length, drop, ◌==◌, if◌then◌else◌,
}
use contract_abstract.Prelude.Int.{ℤ, pos, incr, decr, is_zero}
use contract_abstract.Expr.Syntax.{Result, ok, err, unmatched_bracket}

abbrev pub dot : ℕ
dot = b'.'

abbrev pub lbrack : ℕ
lbrack = b'['

abbrev pub rbrack : ℕ
rbrack = b']'

-- (is_bracket, is_dot, elem_start)
pub record Elem : Type 0 where
  pub is_brack : Bool
  pub is_dot : Bool
  pub start : ℕ

-- the `for` loop of `find_next_elem`, at position `i` of what is left of the text
unfoldable pub next_elem_loop : ℕ → Text → Elem
next_elem_loop i [] = record { is_brack = false; is_dot = false; start = i }
next_elem_loop i (c ∷ cs) =
    let rest = next_elem_loop (i + 1) cs in
    if c == lbrack
    then record { is_brack = true; is_dot = false; start = i }
    else if c == dot
    then record { is_brack = false; is_dot = true; start = i }
    else rest

-- Where the range is empty, `elem_start` is `len(expr)`.
unfoldable pub find_next_elem : Text → ℕ → Elem
unfolding next_elem_loop
find_next_elem s open_pos =
    let found = next_elem_loop open_pos (drop open_pos s) in
    record found {
      start =
          if found.is_brack then found.start else if found.is_dot then found.start else length s;
    }

-- the `for` loop of `find_matching_bracket`; a `]` may take the depth below zero
unfoldable pub matching_loop : ℕ → ℤ → Text → Result ℕ
matching_loop i depth [] = err unmatched_bracket
matching_loop i depth (c ∷ cs) =
    let deeper = matching_loop (i + 1) (incr depth) cs in
    let shallower = matching_loop (i + 1) (decr depth) cs in
    let same = matching_loop (i + 1) depth cs in
    if c == lbrack
    then deeper
    else if c == rbrack
    then (if is_zero (decr depth) then ok i else shallower)
    else same

unfoldable pub find_matching_bracket : Text → ℕ → Result ℕ
unfolding matching_loop
find_matching_bracket s open_pos = matching_loop open_pos (pos 0) (drop open_pos s)
