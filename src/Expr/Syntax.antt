-- ===== src/Expr/Syntax.antt =====
-- The dicts {"name", "index", "field"} that `Entity.parse_expr` builds
-- (slither/tools/contract_abstract/contract/entity.py), and the outcome of a parse.
use contract_abstract.Prelude.{Text, Bool, true, false}

-- `name` is a `str`, or a dict where an index is itself an expression: `a[b.c]`.
mutual
  pub data Expr : Type 0 where
    node : Name → Child → Child → Expr

  pub data Name : Type 0 where
    str : Text → Name
    sub : Expr → Name

  -- the value at "index" or "field": `None` or a dict
  pub data Child : Type 0 where
    absent : Child
    present : Expr → Child

pub data Error : Type 0 where
  invalid_expression : Error
  unmatched_bracket : Error

-- `err` is a raised exception; `out_of_fuel` has no counterpart in the program.
pub data Result {ℓ} (A : Type ℓ) : Type ℓ where
  ok : A → Result A
  err : Error → Result A
  out_of_fuel : Result A

infixl 5 ◌>>=◌
abbrev pub ◌>>=◌ {ℓ κ} : {A : Type ℓ} {B : Type κ} → Result A → (A → Result B) → Result B
ok a >>= f = f a
err e >>= f = err e
out_of_fuel >>= f = out_of_fuel

abbrev pub index_of : Expr → Child
index_of (node n i f) = i

abbrev pub field_of : Expr → Child
field_of (node n i f) = f

abbrev pub name_of : Expr → Name
name_of (node n i f) = n

-- `child is None`
abbrev pub is_none : Child → Bool
is_none absent = true
is_none (present e) = false
