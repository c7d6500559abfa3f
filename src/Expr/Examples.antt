-- ===== src/Expr/Examples.antt =====
-- Runs of the parser and the printer, and the theorems at concrete expressions.
use contract_abstract.Prelude.{◌≡◌, ◌≢◌, ◌↔◌, refl, Text, codes, [], arith}
use contract_abstract.Expr.Syntax.{
  Expr, node, str, sub, absent, present, ok, err, out_of_fuel, invalid_expression,
  unmatched_bracket,
}
use contract_abstract.Expr.Scan.{find_next_elem, find_matching_bracket}
use contract_abstract.Expr.Parse.{parse_expr}
use contract_abstract.Expr.Access.{Access, Steps, access, done, member, index, show, to_expr}
use contract_abstract.Expr.Print.{text}
use contract_abstract.Expr.RoundTrip.{parse_expr-show}
use contract_abstract.Expr.Total.{parse_expr_total}
use contract_abstract.Expr.Junk.{with_junk, parse_expr-with_junk}
use contract_abstract.Expr.Reprint.{EndsAtIndex, reprint, expr_to_string-parse_expr}

-- reserves[ids[i].key].config
abbrev inner_steps : Steps
inner_steps = index (access (codes "i") done) (member (codes "key") done)

abbrev outer_steps : Steps
outer_steps = index (access (codes "ids") inner_steps) (member (codes "config") done)

abbrev reserves : Access
reserves = access (codes "reserves") outer_steps

show-reserves : show reserves ≡ codes "reserves[ids[i].key].config"
unfolding show
show-reserves = refl

parse-member_of_index :
    parse_expr (codes "a[b].c")
    ≡ ok (
        node
          (str (codes "a"))
          (present (node (str (codes "b")) absent (present (node (str (codes "c")) absent absent))))
          absent)
unfolding parse_expr find_next_elem find_matching_bracket
parse-member_of_index = refl

parse-nested :
    parse_expr (codes "a[b.c]")
    ≡ ok (
        node
          (str (codes "a"))
          (present (
            node
              (sub (node (str (codes "b")) absent (present (node (str (codes "c")) absent absent))))
              absent
              absent))
          absent)
unfolding parse_expr find_next_elem find_matching_bracket
parse-nested = refl

parse-leading_dot : parse_expr (codes ".a") ≡ err invalid_expression
unfolding parse_expr
parse-leading_dot = refl

parse-open_bracket : parse_expr (codes "a[b") ≡ err unmatched_bracket
unfolding parse_expr find_next_elem find_matching_bracket
parse-open_bracket = refl

parse_expr-show_example : parse_expr (show reserves) ≡ ok (to_expr reserves)
parse_expr-show_example = parse_expr-show reserves (omega arith)

parse_expr_total_example : parse_expr (codes "a[[[") ≢ out_of_fuel
parse_expr_total_example = parse_expr_total (codes "a[[[")

parse_expr-with_junk_example :
    parse_expr
      (with_junk (codes "a") (access (codes "b") done) (codes "xyz") (member (codes "c") done))
    ≡ parse_expr
        (show (access (codes "a") (index (access (codes "b") done) (member (codes "c") done))))
parse_expr-with_junk_example =
    parse_expr-with_junk (codes "a") (access (codes "b") done) (codes "xyz")
      (member (codes "c") done) (omega arith) (omega arith)

-- `a[b].c`
abbrev behind_index : Steps
behind_index = index (access (codes "b") done) (member (codes "c") done)

abbrev no_repr : Expr → Text
no_repr e = []

expr_to_string-parse_expr_example :
    (reprint no_repr (show (access (codes "a") behind_index))
      ≡ ok (text (show (access (codes "a") behind_index))))
    ↔ EndsAtIndex behind_index
expr_to_string-parse_expr_example =
    expr_to_string-parse_expr no_repr (codes "a") behind_index (omega arith) tt

-- `a[b].c` comes back as `a[b.c]`
reprint-behind_index : reprint no_repr (codes "a[b].c") ≡ ok (text (codes "a[b.c]"))
unfolding parse_expr find_next_elem find_matching_bracket
    contract_abstract.Expr.Print.expr_to_string
reprint-behind_index = refl
