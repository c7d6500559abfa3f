-- ===== src/Expr/Junk.antt =====
-- Text between the `]` of an index and the next step, which the parser drops.
use contract_abstract.Prelude.{
  ℕ, suc, ◌+◌, ◌-◌, ◌<◌, ◌≡◌, inl, inr, refl, Text, true, false, [], ◌∷◌, ◌++◌, arith, length,
  length-append,
}
use contract_abstract.Expr.Syntax.{Child, node, absent, str, ok}
use contract_abstract.Expr.Scan.{dot, lbrack, rbrack, next_elem_loop, find_next_elem}
use contract_abstract.Expr.Parse.{attach, parse_fuel, parse_internal_fuel, parse_expr}
use contract_abstract.Expr.Access.{
  Access, Steps, access, index, show, show_steps, nest, to_expr, to_child, IsPlain, IsWritten,
}
use contract_abstract.Expr.RoundTrip.{
  starts-plain, slice-name, drop-steps, read_index, parse_fuel-show, parse_internal_fuel-show,
  parse_expr-show,
}

-- The loop of `find_next_elem` stops at the bracket, whatever stands behind it.
next_elem_loop-lbrack :
    (i : ℕ) (n rest : Text)
    → IsPlain n
    → next_elem_loop i (n ++ lbrack ∷ rest)
      ≡ record { is_brack = true; is_dot = false; start = i + length n }
unfolding next_elem_loop
next_elem_loop-lbrack i [] rest p = ground arith
next_elem_loop-lbrack i (c ∷ cs) rest p = ground (arith, next_elem_loop-lbrack (i + 1) cs rest p.3)

find_next_elem-lbrack :
    (n rest : Text)
    → IsPlain n
    → find_next_elem (n ++ lbrack ∷ rest) 0
      ≡ record { is_brack = true; is_dot = false; start = 0 + length n }
unfolding find_next_elem
find_next_elem-lbrack n rest p = rw (next_elem_loop-lbrack 0 n rest p)

parse_fuel-lbrack :
    (head rest : Text) (child : Child) (f : ℕ)
    → 0 < length head
    → IsPlain head
    → parse_internal_fuel f (lbrack ∷ rest) ≡ ok child
    → parse_fuel (suc f) (head ++ lbrack ∷ rest) ≡ ok (node (str head) child absent)
unfolding parse_fuel attach
parse_fuel-lbrack head rest child f h p inner = rw (
  starts-plain head (lbrack ∷ rest) dot h p (inl refl),
  starts-plain head (lbrack ∷ rest) lbrack h p (inr refl),
  find_next_elem-lbrack head rest p,
  slice-name [] head (lbrack ∷ rest) 0 refl,
  drop-steps [] head (lbrack ∷ rest) 0 refl,
  inner,
)

-- the text of `head[a]junk` and the steps
abbrev pub with_junk : Text → Access → Text → Steps → Text
with_junk head a junk steps = head ++ lbrack ∷ (show a ++ rbrack ∷ (junk ++ show_steps steps))

with_junk-read :
    (head : Text) (a : Access) (junk : Text) (steps : Steps) (f : ℕ)
    → IsWritten (access head (index a steps))
    → IsPlain junk
    → length (show a) < f
    → length (show_steps steps) < f
    → parse_fuel (suc (suc f)) (with_junk head a junk steps)
      ≡ ok (to_expr (access head (index a steps)))
unfolding to_expr nest to_child
with_junk-read head (access b inner) junk steps f w p ha hs =
    let a = access b inner in
    parse_fuel-lbrack head (show a ++ rbrack ∷ (junk ++ show_steps steps))
      (to_child (index a steps)) (suc f) w.0 w.1
      (read_index a junk steps f w.2.0 p (parse_fuel-show a f w.2.0 ha)
        (parse_internal_fuel-show steps f w.2.1 hs))

-- Plain text between the `]` of an index and the next step is accepted and dropped: the text with
-- it parses to the dicts of the text without it.
pub parse_expr-with_junk :
    (head : Text) (a : Access) (junk : Text) (steps : Steps)
    → IsWritten (access head (index a steps))
    → IsPlain junk
    → parse_expr (with_junk head a junk steps) ≡ parse_expr (show (access head (index a steps)))
unfolding parse_expr
parse_expr-with_junk head a junk steps w p =
    let s = with_junk head a junk steps in
    let outer = length-append head (lbrack ∷ (show a ++ rbrack ∷ (junk ++ show_steps steps))) in
    let inner = length-append (show a) (rbrack ∷ (junk ++ show_steps steps)) in
    let last = length-append junk (show_steps steps) in
    let fuel : length s + 1 ≡ suc (suc (length s - 1)) = omega (arith, outer) in
    rw (parse_expr-show (access head (index a steps)) w, fuel)
      (with_junk-read head a junk steps (length s - 1) w p (omega (arith, outer, inner))
        (omega (arith, outer, inner, last)))
