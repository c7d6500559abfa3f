-- ===== src/Parser/Irs.antt =====
-- The SlithIR operations that `SlitherIRParser.parse` tells apart, with what it reads of them
-- (slither/tools/contract_abstract/contract/slitherir_parser.py), and what it tells its caller.
-- Variables are numbers; an lvalue that may be None is an option. Operations on which the parser has
-- no effect keep their lvalue, where they have one.
use contract_abstract.Prelude.{ℕ, Text, Bool, Option, none, some, List}

pub data Ir : Type 0 where
  -- lvalue, left, right
  index_access : ℕ → ℕ → ℕ → Ir
  -- lvalue, function, arguments; also of a LibraryCall
  internal_call : Option ℕ → ℕ → List ℕ → Ir
  return_values : List ℕ → Ir
  new_structure : ℕ → List ℕ → Ir
  -- lvalue, left, right, and the name of the right one
  member_access : ℕ → ℕ → ℕ → Text → Ir
  assignment : ℕ → ℕ → Ir
  -- lvalue, left, right, `type_str`
  binary : ℕ → ℕ → ℕ → Text → Ir
  type_conversion : ℕ → ℕ → Ir
  -- lvalue, destination, whether the function is a state variable, pure or view, its full name, and
  -- `function_name`
  high_level_call : Option ℕ → ℕ → Bool → Text → Text → Ir
  condition : Ir
  solidity_call : Option ℕ → Text → Ir
  -- lvalue, tuple, index
  unpack : ℕ → ℕ → ℕ → Ir
  event_call : List ℕ → Ir
  array_length : ℕ → ℕ → Ir
  new_array : ℕ → List ℕ → Ir
  init_array_op : ℕ → List ℕ → Ir
  new_elementary_type : ℕ → Ir
  new_contract : Option ℕ → Ir
  -- lvalue, rvalue, the operator
  unary : ℕ → ℕ → Text → Ir
  code_size : ℕ → ℕ → Ir
  delete : Option ℕ → Ir
  -- lvalue, destination, function
  low_level_call : Option ℕ → ℕ → Text → Ir
  not_supported : Option ℕ → Ir

-- `ir.lvalue`, none also where there is no such attribute
unfoldable pub lvalue_of : Ir → Option ℕ
lvalue_of (index_access l a b) = some l
lvalue_of (internal_call l f as₁) = l
lvalue_of (return_values vs) = none
lvalue_of (new_structure l as₁) = some l
lvalue_of (member_access l a b name) = some l
lvalue_of (assignment l r) = some l
lvalue_of (binary l a b op) = some l
lvalue_of (type_conversion l r) = some l
lvalue_of (high_level_call l d view full name) = l
lvalue_of condition = none
lvalue_of (solidity_call l name) = l
lvalue_of (unpack l t i) = some l
lvalue_of (event_call as₁) = none
lvalue_of (array_length l v) = some l
lvalue_of (new_array l as₁) = some l
lvalue_of (init_array_op l vs) = some l
lvalue_of (new_elementary_type l) = some l
lvalue_of (new_contract l) = l
lvalue_of (unary l r op) = some l
lvalue_of (code_size l v) = some l
lvalue_of (delete l) = l
lvalue_of (low_level_call l d name) = l
lvalue_of (not_supported l) = l

-- what `parse` returns: no path; a call that the path has expanded; or the paths of the function that
-- is called, from the contexts of the arguments
pub data Parsed : Type 0 where
  goes_on : Parsed
  already_expanded : Parsed
  expands : ℕ → List ℕ → Parsed
