-- ===== src/Expr/Print.antt =====
-- `Entity.expr_to_string` (slither/tools/contract_abstract/contract/entity.py).
use contract_abstract.Prelude.{Text, [], ◌∷◌, ◌++◌}
use contract_abstract.Expr.Syntax.{Expr, Name, node, str, sub, absent, present}
use contract_abstract.Expr.Scan.{dot, lbrack, rbrack}

-- A returned `str`; the `dict` of a nested name, which is returned as it is; or the `TypeError` of
-- adding a `str` to it.
pub data Printed : Type 0 where
  text : Text → Printed
  dict : Expr → Printed
  type_error : Printed

-- `result += piece`
abbrev pub add_text : Printed → Text → Printed
add_text (text s) piece = text (s ++ piece)
add_text (dict e) piece = type_error
add_text type_error piece = type_error

abbrev pub print_name : Name → Printed
print_name (str s) = text s
print_name (sub e) = dict e

-- How an f-string shows a `dict` is Python's business.
module _ (repr : Expr → Text) where
  -- `result += f"[{index_str}]"`
  abbrev pub add_index : Printed → Printed → Printed
  add_index result (text s) = add_text result (lbrack ∷ s ++ rbrack ∷ [])
  add_index result (dict e) = add_text result (lbrack ∷ repr e ++ rbrack ∷ [])
  add_index result type_error = type_error

  -- `result += f".{field_str}"`
  abbrev pub add_field : Printed → Printed → Printed
  add_field result (text s) = add_text result (dot ∷ s)
  add_field result (dict e) = add_text result (dot ∷ repr e)
  add_field result type_error = type_error

  unfoldable pub expr_to_string : Expr → Printed
  expr_to_string (node name absent absent) = print_name name
  expr_to_string (node name (present i) absent) = add_index (print_name name) (expr_to_string i)
  expr_to_string (node name absent (present f)) = add_field (print_name name) (expr_to_string f)
  expr_to_string (node name (present i) (present f)) =
      add_field (add_index (print_name name) (expr_to_string i)) (expr_to_string f)
