-- ===== src/Expr/Parse.antt =====
-- `Entity.parse_expr` and `Entity.parse_expr_internal`
-- (slither/tools/contract_abstract/contract/entity.py). Each call of the program is one unit of
-- fuel; `Expr/Total.antt` shows that the length of the text is enough.
use contract_abstract.Prelude.{
  ℕ, zero, suc, ◌+◌, Text, Bool, false, ◌||◌, ◌&&◌, [], ◌∷◌, length, drop, slice, ◌==◌,
  if◌then◌else◌,
}
use contract_abstract.Expr.Syntax.{
  Expr, Name, Child, node, str, sub, absent, present, Result, ok, err, out_of_fuel,
  invalid_expression, ◌>>=◌, index_of, field_of, name_of, is_none,
}
use contract_abstract.Expr.Scan.{Elem, dot, lbrack, find_next_elem, find_matching_bracket}

-- `expr.startswith(".")`, `expr.startswith("[")`
abbrev pub starts : ℕ → Text → Bool
starts p [] = false
starts p (c ∷ cs) = c == p

-- the three `return` lines that end `parse_expr` and both branches of `parse_expr_internal`:
-- `rest` is the parse of `expr[next_start:]`
unfoldable pub attach : Name → Elem → Result Child → Result Expr
attach name e rest =
    if e.is_brack
    then (do i ← rest; ok (node name i absent))
    else if e.is_dot
    then (do f ← rest; ok (node name absent f))
    else ok (node name absent absent)

-- `if name_entity["index"] is None and name_entity["field"] is None: name_entity = name_entity["name"]`
unfoldable pub collapse : Expr → Name
collapse e = if is_none (index_of e) && is_none (field_of e) then name_of e else sub e

unfoldable mutual
  pub parse_fuel : ℕ → Text → Result Expr
  parse_fuel zero s = out_of_fuel
  parse_fuel (suc f) s =
      let e = find_next_elem s 0 in
      let rest = parse_internal_fuel f (drop e.start s) in
      if starts dot s || starts lbrack s
      then err invalid_expression
      else attach (str (slice 0 e.start s)) e rest

  pub parse_internal_fuel : ℕ → Text → Result Child
  parse_internal_fuel zero s = out_of_fuel
  parse_internal_fuel (suc f) [] = ok absent
  parse_internal_fuel (suc f) (c ∷ cs) =
      let s = c ∷ cs in
      let e = find_next_elem s 1 in
      let rest = parse_internal_fuel f (drop e.start s) in
      let after_dot = attach (str (slice 1 e.start s)) e rest in
      let after_bracket = find_matching_bracket s 0 >>= λ closing_pos.
      parse_fuel f (slice 1 closing_pos s) >>= λ name_entity.
      let e₁ = find_next_elem s (closing_pos + 1) in
      attach (collapse name_entity) e₁ (parse_internal_fuel f (drop e₁.start s)) in
      if c == dot
      then (do x ← after_dot; ok (present x))
      else if c == lbrack
      then (do x ← after_bracket; ok (present x))
      else err invalid_expression

unfoldable pub parse_expr : Text → Result Expr
unfolding parse_fuel attach collapse
parse_expr s = parse_fuel (length s + 1) s

unfoldable pub parse_expr_internal : Text → Result Child
unfolding parse_fuel attach collapse
parse_expr_internal s = parse_internal_fuel (length s + 1) s
