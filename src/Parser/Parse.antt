-- ===== src/Parser/Parse.antt =====
-- `SlitherIRParser.parse` and `contintue_internal_call`
-- (slither/tools/contract_abstract/contract/slitherir_parser.py). A parser has one operation.
use contract_abstract.Prelude.{
  ℕ, Text, Bool, true, false, Option, none, some, List, [], ◌∷◌, ◌==◌, if◌then◌else◌,
}
use contract_abstract.Parser.Memory.{Value, Memory, Effect, pure, raise, ◌>>=◌, ◌>>◌, set_pointer}
use contract_abstract.Parser.Variables.{
  Class, solidity_composed, state_variable, local_variable, constant, contract, solidity,
  enum_contract, temporary, reference, tuple, other_class, IrVariable,
}
use contract_abstract.Parser.Contexts.{deal_with_read, deal_with_write, record_write_storage}
use contract_abstract.Parser.References.{deal_with_reference}
use contract_abstract.Parser.Irs.{
  Ir, index_access, internal_call, return_values, new_structure, member_access, assignment, binary,
  type_conversion, high_level_call, condition, solidity_call, unpack, event_call, array_length,
  new_array, init_array_op, new_elementary_type, new_contract, unary, code_size, delete,
  low_level_call, not_supported, lvalue_of, Parsed, goes_on, already_expanded, expands,
}
use contract_abstract.Parser.Members.{parse_index, parse_member}
use contract_abstract.Parser.Operations.{
  listed_context, read_all, read_pointers, write_both, parse_assignment, parse_binary,
  parse_type_conversion, parse_unary, parse_length, parse_unpack, parse_new_structure,
}
use contract_abstract.Parser.Calls.{
  is_tuple, parse_low_level_call, parse_high_level_call, parse_solidity_call, parse_code_size,
  parse_new_elementary_type, parse_init_array, parse_event_call, parse_new_array,
}

-- the node behind the call in the path, where it is a StartNode: its function
abbrev pub entered : ℕ → List ℕ → Option ℕ → Effect Parsed
entered function args none = pure (expands function args)
entered function args (some started) = if started == function then pure already_expanded else raise

abbrev pub going_on : Effect (Unit {0}) → Effect Parsed
going_on act = act >>= λ done. pure goes_on

abbrev pub is_temporary : Class → Bool
is_temporary temporary = true
is_temporary tuple = false
is_temporary state_variable = false
is_temporary solidity_composed = false
is_temporary local_variable = false
is_temporary constant = false
is_temporary contract = false
is_temporary solidity = false
is_temporary enum_contract = false
is_temporary reference = false
is_temporary other_class = false

module _ (var : ℕ → IrVariable) (show : Memory → Value → Text) where
  unfoldable pub parse_operation : Ir → Option ℕ → Effect Parsed
  unfolding parse_index parse_member parse_assignment parse_binary parse_type_conversion parse_unary
      parse_length parse_unpack parse_new_structure parse_low_level_call parse_high_level_call
      parse_solidity_call parse_code_size parse_new_elementary_type parse_init_array
      parse_event_call parse_new_array
  parse_operation (index_access l a b) started = going_on (parse_index var l a b)
  parse_operation (internal_call l function args) started =
      read_pointers var args >>= λ contexts. entered function contexts started
  parse_operation (return_values vs) started = pure goes_on
  parse_operation (new_structure l args) started = going_on (parse_new_structure var l args)
  parse_operation (member_access l a b field) started = going_on (parse_member var l a b field)
  parse_operation (assignment l r) started = going_on (parse_assignment var l r)
  parse_operation (binary l a b op) started = going_on (parse_binary var l a b op)
  parse_operation (type_conversion l r) started = going_on (parse_type_conversion var l r)
  parse_operation (high_level_call l destination view full_name name) started =
      going_on (parse_high_level_call var l destination view full_name name)
  parse_operation condition started = pure goes_on
  parse_operation (solidity_call l name) started = going_on (parse_solidity_call var l name)
  parse_operation (unpack l source i) started = going_on (parse_unpack var l source i)
  parse_operation (event_call args) started = going_on (parse_event_call var args)
  parse_operation (array_length l v) started = going_on (parse_length var l v)
  parse_operation (new_array l args) started = going_on (parse_new_array var show l args)
  parse_operation (init_array_op l vs) started = going_on (parse_init_array var l vs)
  parse_operation (new_elementary_type l) started = going_on (parse_new_elementary_type var l)
  parse_operation (new_contract l) started = pure goes_on
  parse_operation (unary l r op) started = going_on (parse_unary var l r op)
  parse_operation (code_size l v) started = going_on (parse_code_size var l v)
  parse_operation (delete l) started = pure goes_on
  parse_operation (low_level_call l destination name) started =
      going_on (parse_low_level_call var l destination name)
  parse_operation (not_supported l) started = raise

  -- `parse`, with the function of the StartNode that comes next in the path, if one does
  unfoldable pub parse : Ir → Option ℕ → Effect Parsed
  unfolding record_write_storage parse_operation
  parse ir started = record_write_storage var (lvalue_of ir) >> parse_operation ir started

  -- the values that a call returned, for its lvalue
  abbrev pub returned_first : ℕ → List ℕ → Effect (Unit {0})
  returned_first lvalue [] = raise
  returned_first lvalue (v ∷ vs) = deal_with_read var v >>= λ p. set_pointer lvalue (some p)

  unfoldable pub contintue_internal_call : Option ℕ → Option (List ℕ) → Effect (Unit {0})
  unfolding deal_with_read set_pointer listed_context deal_with_write deal_with_reference
  contintue_internal_call lvalue none = pure tt
  contintue_internal_call none (some vs) = pure tt
  contintue_internal_call (some lvalue) (some vs) =
      if is_temporary (var lvalue).class
      then returned_first lvalue vs
      else (if is_tuple (var lvalue).class
          then (read_all var vs >>= listed_context >>= write_both var lvalue)
          else pure tt)
