-- ===== src/Parser/Members.antt =====
-- The branches for Index and Member of `SlitherIRParser.parse`
-- (slither/tools/contract_abstract/contract/slitherir_parser.py).
use contract_abstract.Prelude.{
  ℕ, suc, Text, codes, text_eq, Bool, false, ◌||◌, Option, none, some, List, [], ◌∷◌, ◌++◌, ◌==◌,
  if◌then◌else◌,
}
use contract_abstract.Parser.Memory.{
  Value, nothing, str_value, set_value, list_at, Context, Effect, pure, raise, ◌>>=◌, ◌>>◌,
  or_raise, load_context, new_context, join_taints, extended, set_field_index,
}
use contract_abstract.Parser.Variables.{
  Class, solidity_composed, state_variable, local_variable, constant, contract, solidity,
  enum_contract, temporary, reference, tuple, other_class, TypeKind, elementary_type,
  structure_type, contract_type, other_user_type, other_type, IrVariable,
}
use contract_abstract.Parser.Contexts.{deal_with_read, deal_with_write, is_reference}
use contract_abstract.Parser.References.{get_index_from_structure, fields_of}
use contract_abstract.Parser.Values.{
  indexed, field_text, set_copy, suffixed, member_value, member_input_taints, member_storage_taints,
}

abbrev pub storage_indexed : Option Value → Option (Value × Value × Value)
storage_indexed none = none
storage_indexed (some v) = some (nothing, v, v)

abbrev pub input_indexed : Option Value → Option (Value × Value × Value)
input_indexed none = none
input_indexed (some v) = some (v, nothing, v)

-- what is indexed, as input, storage and value
abbrev pub index_parts : Value → Value → Value → Option (Value × Value × Value)
index_parts nothing nothing i = some (nothing, nothing, nothing)
index_parts nothing (str_value s) i = storage_indexed (indexed (str_value s) i)
index_parts nothing (set_value ts) i = none
index_parts nothing (list_at p) i = none
index_parts (str_value s) nothing i = input_indexed (indexed (str_value s) i)
index_parts (str_value s) (str_value t) i = none
index_parts (str_value s) (set_value ts) i = none
index_parts (str_value s) (list_at p) i = none
index_parts (set_value ts) storage i = none
index_parts (list_at p) storage i = none

-- a copy of the taints; of a list the code takes the item at a name that it never binds, which raises
abbrev pub index_input_taints : Value → Option Value
index_input_taints nothing = some (set_value [])
index_input_taints (set_value ts) = some (set_value ts)
index_input_taints (str_value s) = none
index_input_taints (list_at p) = none

-- those from storage get the index behind them
abbrev pub index_storage_taints : Value → Value → Option Value
index_storage_taints nothing i = some (set_value [])
index_storage_taints (set_value []) i = some (set_value [])
index_storage_taints (set_value (t ∷ ts)) (str_value i) =
    some (set_value (suffixed (codes "[" ++ i ++ codes "]") (t ∷ ts)))
index_storage_taints (set_value (t ∷ ts)) nothing = none
index_storage_taints (set_value (t ∷ ts)) (set_value us) = none
index_storage_taints (set_value (t ∷ ts)) (list_at p) = none
index_storage_taints (str_value s) i = none
index_storage_taints (list_at p) i = none

-- the last field of this name: `lvalue.context["points_to"]` is set in a loop
unfoldable pub last_index : Text → List Text → Option ℕ
last_index name [] = none
last_index name (f ∷ fs) =
    let later = last_index name fs in
    elim later [ none ↦ if text_eq f name then some 0 else none | some i ↦ some (suc i) ]

abbrev pub field_noted : ℕ → Option ℕ → Effect (Unit {0})
field_noted v none = pure tt
field_noted v (some i) = set_field_index v i

abbrev pub is_same : Option ℕ → ℕ → Bool
is_same none target = false
is_same (some origin) target = origin == target

module _ (var : ℕ → IrVariable) where
  -- a variable's context
  unfoldable pub read : ℕ → Effect Context
  unfolding deal_with_read load_context
  read v = deal_with_read var v >>= load_context

  -- a new context for an lvalue
  unfoldable pub write_context :
      Option ℕ → Value → Value → Value → Value → Value → Effect (Unit {0})
  unfolding new_context deal_with_write
  write_context lvalue input storage input_taints storage_taints value =
      new_context input storage input_taints storage_taints value >>= deal_with_write var lvalue

  abbrev pub write_parts : ℕ → Value × Value × Value → Value → Value → Effect (Unit {0})
  write_parts lvalue (input, storage, value) input_taints storage_taints =
      write_context (some lvalue) input storage input_taints storage_taints value

  -- with the context of what is indexed
  abbrev pub index_from : ℕ → ℕ → Context → Effect (Unit {0})
  index_from lvalue right l = read right >>= λ r.
      or_raise (index_parts l.input l.storage r.value) >>= λ parts.
      or_raise (index_input_taints l.input_taints) >>= λ input_taints.
      join_taints input_taints r.input_taints >>= λ all_input_taints.
      or_raise (index_storage_taints l.storage_taints r.value) >>= λ storage_taints.
      join_taints storage_taints r.storage_taints >>= λ all_storage_taints.
      write_parts lvalue parts all_input_taints all_storage_taints

  unfoldable pub parse_index : ℕ → ℕ → ℕ → Effect (Unit {0})
  unfolding read write_context join_taints
  parse_index lvalue left right = read left >>= index_from lvalue right

  -- of a contract, or of a variable that has a contract's type
  abbrev pub contract_member : ℕ → Context → Text → Effect (Unit {0})
  contract_member lvalue l field = or_raise (field_text l.input field) >>= λ input.
      or_raise (field_text l.storage field) >>= λ storage.
      or_raise (set_copy l.input_taints) >>= λ input_taints.
      or_raise (set_copy l.storage_taints) >>= λ storage_taints.
      or_raise (field_text l.value field) >>= λ value.
      write_context (some lvalue) input storage input_taints storage_taints value

  abbrev pub enum_member : ℕ → Context → Text → Effect (Unit {0})
  enum_member lvalue l field = or_raise (extended l.value (codes "." ++ field)) >>= λ value.
      write_context (some lvalue) nothing nothing l.input_taints l.storage_taints value

  -- which field of what it points to the lvalue is
  abbrev pub note_target : ℕ → Option ℕ → Text → Effect (Unit {0})
  note_target lvalue none field m = some (tt, m)
  note_target lvalue (some target) field m =
      if is_same (var lvalue).points_to_origin target || m.has_key target
      then (or_raise (fields_of (var target).kind) >>= λ fields.
            field_noted lvalue (last_index field fields))
          m
      else none

  abbrev pub note_field : ℕ → Text → Effect (Unit {0})
  note_field lvalue field =
      if is_reference var (var lvalue).class
      then note_target lvalue (var lvalue).points_to field
      else pure tt

  abbrev pub structure_member : ℕ → Context → Text → List Text → Effect (Unit {0})
  structure_member lvalue l field fields = or_raise (get_index_from_structure field fields) >>= λ i.
      member_value l.input i field >>= λ input. member_value l.storage i field >>= λ storage.
      member_input_taints l.input_taints i >>= λ input_taints.
      member_storage_taints l.storage_taints i field >>= λ storage_taints.
      member_value l.value i field >>= λ value.
      write_context (some lvalue) input storage input_taints storage_taints value
      >> note_field lvalue field

  abbrev pub typed_member : TypeKind → ℕ → ℕ → ℕ → Text → Effect (Unit {0})
  typed_member (structure_type fields) lvalue left right field =
      read left >>= λ l. structure_member lvalue l field fields
  typed_member contract_type lvalue left right field =
      read left >>= λ l. read right >>= λ r. contract_member lvalue l field
  typed_member elementary_type lvalue left right field = raise
  typed_member other_user_type lvalue left right field = raise
  typed_member other_type lvalue left right field = raise

  abbrev pub class_member : Class → ℕ → ℕ → ℕ → Text → Effect (Unit {0})
  class_member contract lvalue left right field = read left >>= λ l. contract_member lvalue l field
  class_member enum_contract lvalue left right field = read left >>= λ l. enum_member lvalue l field
  class_member solidity_composed lvalue left right field =
      typed_member (var left).kind lvalue left right field
  class_member state_variable lvalue left right field =
      typed_member (var left).kind lvalue left right field
  class_member local_variable lvalue left right field =
      typed_member (var left).kind lvalue left right field
  class_member constant lvalue left right field =
      typed_member (var left).kind lvalue left right field
  class_member solidity lvalue left right field =
      typed_member (var left).kind lvalue left right field
  class_member temporary lvalue left right field =
      typed_member (var left).kind lvalue left right field
  class_member reference lvalue left right field =
      typed_member (var left).kind lvalue left right field
  class_member tuple lvalue left right field = typed_member (var left).kind lvalue left right field
  class_member other_class lvalue left right field =
      typed_member (var left).kind lvalue left right field

  unfoldable pub parse_member : ℕ → ℕ → ℕ → Text → Effect (Unit {0})
  unfolding read write_context last_index get_index_from_structure set_field_index
  parse_member lvalue left right field = class_member (var left).class lvalue left right field
