-- ===== src/Parser/Recording.antt =====
-- The rules of Parser/Grows for Parser/Calls and for `parse` of SlitherIRParser
-- (slither/tools/contract_abstract/contract/slitherir_parser.py).
use contract_abstract.Prelude.{ℕ, Text, Bool, Option, none, some, List, [], ◌∷◌, refl}
use contract_abstract.Parser.Memory.{
  Value, nothing, str_value, set_value, list_at, CallTarget, Memory,
}
use contract_abstract.Parser.Variables.{IrVariable}
use contract_abstract.Parser.Irs.{
  Ir, index_access, internal_call, return_values, new_structure, member_access, assignment, binary,
  type_conversion, high_level_call, condition, solidity_call, unpack, event_call, array_length,
  new_array, init_array_op, new_elementary_type, new_contract, unary, code_size, delete,
  low_level_call, not_supported,
}
use contract_abstract.Parser.Calls.{
  record_call, stored_target, parse_low_level_call, parse_high_level_call, parse_solidity_call,
  parse_code_size, parse_new_elementary_type, parse_init_array, parse_event_call, text_shown,
  array_arguments, write_array, parse_new_array,
}
use contract_abstract.Parser.Parse.{entered, parse_operation, parse}
use contract_abstract.Parser.Grows.{Grows-refl, Keeps, keeping, gives, Keeps-pure}
use contract_abstract.Parser.Kept.{untouched, primitives}
use contract_abstract.Parser.Recorded.{
  deal_with_read-Keeps, deal_with_write-Keeps, record_write_storage-Keeps,
}
use contract_abstract.Parser.OperationsKept.{
  add_taints-Keeps, copy_context-Keeps, listed_context-Keeps, read_pointers-Keeps,
  parse_assignment-Keeps, parse_binary-Keeps, parse_type_conversion-Keeps, parse_unary-Keeps,
  parse_length-Keeps, parse_unpack-Keeps, parse_new_structure-Keeps,
}
use contract_abstract.Parser.MembersKept.{
  read-Keeps, write_context-Keeps, parse_index-Keeps, parse_member-Keeps,
}

record_call-Keeps :
    (target : Option CallTarget) (view : Bool) (name : Text) → Keeps (record_call target view name)
unfolding record_call Keeps
record_call-Keeps none view name m m' t e = Keeps-pure _ m m' t e
record_call-Keeps (some target) view name m m' t e =
    gives _ t m _ m' (untouched m _ refl refl (λ v h. h)) e

module _ (var : ℕ → IrVariable) where
  stored_target-Keeps : (p : Option ℕ) → Keeps (stored_target var p)
  stored_target-Keeps none = search keeping
  stored_target-Keeps (some p) = search (keeping, primitives)

  parse_low_level_call-Keeps :
      (lvalue : Option ℕ) (destination : ℕ) (name : Text)
      → Keeps (parse_low_level_call var lvalue destination name)
  unfolding parse_low_level_call
  parse_low_level_call-Keeps lvalue destination name =
      search
        (
          keeping,
          primitives,
          read-Keeps var,
          write_context-Keeps var,
          listed_context-Keeps,
          deal_with_write-Keeps var,
        )
        depth 14

  parse_high_level_call-Keeps :
      (lvalue : Option ℕ) (destination : ℕ) (view : Bool) (full_name name : Text)
      → Keeps (parse_high_level_call var lvalue destination view full_name name)
  unfolding parse_high_level_call
  parse_high_level_call-Keeps lvalue destination view full_name name =
      search
        (keeping, primitives, stored_target-Keeps, record_call-Keeps, parse_low_level_call-Keeps)
        depth 12

  parse_event_call-Keeps : (args : List ℕ) → Keeps (parse_event_call var args)
  unfolding parse_event_call
  parse_event_call-Keeps [] = search keeping
  parse_event_call-Keeps (v ∷ vs) =
      search (keeping, deal_with_read-Keeps var, parse_event_call-Keeps vs)

  parse_init_array-Keeps : (lvalue : ℕ) (vs : List ℕ) → Keeps (parse_init_array var lvalue vs)
  unfolding parse_init_array
  parse_init_array-Keeps lvalue [] = search keeping
  parse_init_array-Keeps lvalue (v ∷ vs) =
      search (keeping, read-Keeps var, copy_context-Keeps, deal_with_write-Keeps var)

  module _ (show : Memory → Value → Text) where
    text_shown-Keeps : (v : Value) → Keeps (text_shown var show v)
    unfolding Keeps
    text_shown-Keeps nothing m m' t e = Keeps-pure _ m m' t e
    text_shown-Keeps (str_value s) m m' t e = Keeps-pure _ m m' t e
    text_shown-Keeps (set_value ts) m m' t e = gives _ t m m m' (Grows-refl m) e
    text_shown-Keeps (list_at p) m m' t e = gives _ t m m m' (Grows-refl m) e

    array_arguments-Keeps :
        (vs : List ℕ) (first : Bool) (inputs storages : List Text) (so_far : Text)
        → Keeps (array_arguments var show first inputs storages so_far vs)
    unfolding array_arguments
    array_arguments-Keeps [] first inputs storages so_far = search keeping
    array_arguments-Keeps (v ∷ vs) first inputs storages so_far =
        search
          (keeping, read-Keeps var, add_taints-Keeps, text_shown-Keeps, array_arguments-Keeps vs)
          depth 12

    write_array-Keeps :
        (lvalue : ℕ) (found : List Text × List Text × Text)
        → Keeps (write_array var show lvalue found)
    write_array-Keeps lvalue (inputs, storages, so_far) = write_context-Keeps var _ _ _ _ _ _

    parse_new_array-Keeps :
        (lvalue : ℕ) (args : List ℕ) → Keeps (parse_new_array var show lvalue args)
    unfolding parse_new_array
    parse_new_array-Keeps lvalue args = search (keeping, array_arguments-Keeps, write_array-Keeps)

    entered-Keeps :
        (function : ℕ) (args : List ℕ) (started : Option ℕ) → Keeps (entered function args started)
    entered-Keeps function args none = search keeping
    entered-Keeps function args (some started) = search keeping

    ruleset operation_rules = (
      keeping, entered-Keeps, read_pointers-Keeps, parse_index-Keeps, parse_member-Keeps,
      parse_assignment-Keeps, parse_binary-Keeps, parse_type_conversion-Keeps, parse_unary-Keeps,
      parse_length-Keeps, parse_unpack-Keeps, parse_new_structure-Keeps, parse_low_level_call-Keeps,
      parse_high_level_call-Keeps, parse_event_call-Keeps, parse_init_array-Keeps,
      parse_new_array-Keeps,
    )

    parse_operation-Keeps :
        (ir : Ir) (started : Option ℕ) → Keeps (parse_operation var show ir started)
    unfolding parse_operation parse_solidity_call parse_code_size parse_new_elementary_type
    parse_operation-Keeps (index_access l a b) started = search operation_rules
    parse_operation-Keeps (internal_call l function args) started = search operation_rules
    parse_operation-Keeps (return_values vs) started = search operation_rules
    parse_operation-Keeps (new_structure l args) started = search operation_rules
    parse_operation-Keeps (member_access l a b field) started = search operation_rules
    parse_operation-Keeps (assignment l r) started = search operation_rules
    parse_operation-Keeps (binary l a b op) started = search operation_rules
    parse_operation-Keeps (type_conversion l r) started = search operation_rules
    parse_operation-Keeps (high_level_call l d view full_name name) started = search operation_rules
    parse_operation-Keeps condition started = search operation_rules
    parse_operation-Keeps (solidity_call l name) started = search (keeping, write_context-Keeps var)
    parse_operation-Keeps (unpack l source i) started = search operation_rules
    parse_operation-Keeps (event_call args) started = search operation_rules
    parse_operation-Keeps (array_length l v) started = search operation_rules
    parse_operation-Keeps (new_array l args) started = search operation_rules
    parse_operation-Keeps (init_array_op l vs) started = search operation_rules
    parse_operation-Keeps (new_elementary_type l) started =
        search (keeping, write_context-Keeps var)
    parse_operation-Keeps (new_contract l) started = search operation_rules
    parse_operation-Keeps (unary l r op) started = search operation_rules
    parse_operation-Keeps (code_size l v) started =
        search (keeping, read-Keeps var, write_context-Keeps var) depth 8
    parse_operation-Keeps (delete l) started = search operation_rules
    parse_operation-Keeps (low_level_call l d name) started = search operation_rules
    parse_operation-Keeps (not_supported l) started = search operation_rules

    pub parse-Keeps : (ir : Ir) (started : Option ℕ) → Keeps (parse var show ir started)
    unfolding parse
    parse-Keeps ir started = search (keeping, record_write_storage-Keeps var, parse_operation-Keeps)
