-- ===== src/Parser/MembersKept.antt =====
-- The rules of Parser/Grows for Parser/References and Parser/Members.
use contract_abstract.Prelude.{ℕ, Text, ◌||◌, Option, none, some, List}
use contract_abstract.Parser.Memory.{
  Value, nothing, str_value, set_value, list_at, Effect, raise, ◌>>=◌, or_raise,
}
use contract_abstract.Parser.Variables.{
  Class, solidity_composed, state_variable, local_variable, constant, contract, solidity,
  enum_contract, temporary, reference, tuple, other_class, TypeKind, elementary_type,
  structure_type, contract_type, other_user_type, other_type, IrVariable,
}
use contract_abstract.Parser.Contexts.{is_reference}
use contract_abstract.Parser.References.{
  Part, rebuild, set_part, set_field, ensured, write_target, through, deal_with_reference,
  fields_of,
}
use contract_abstract.Parser.Values.{member_value, member_input_taints, member_storage_taints}
use contract_abstract.Parser.Members.{
  read, write_context, write_parts, parse_index, field_noted, is_same, note_target, note_field,
  typed_member, class_member, parse_member, last_index,
}
use contract_abstract.Parser.Grows.{Keeps, keeping, Keeps-pure, Keeps-raise, Keeps-if}
use contract_abstract.Parser.Kept.{primitives}
use contract_abstract.Parser.Recorded.{
  plain_context-Keeps, deal_with_read-Keeps, deal_with_write-Keeps,
}

rebuild-Keeps :
    (part : Part) (origin : Value) (index : ℕ) (fields : List Text) (p q : ℕ)
    → Keeps (rebuild part origin index fields p q)
unfolding rebuild
rebuild-Keeps part origin index fields p q = search (keeping, primitives) depth 10

set_part-Keeps :
    (part : Part) (index : ℕ) (fields : List Text) (p q : ℕ) (v : Value)
    → Keeps (set_part part index fields p q v)
set_part-Keeps part index fields p q nothing = search rebuild-Keeps
set_part-Keeps part index fields p q (str_value s) = search rebuild-Keeps
set_part-Keeps part index fields p q (set_value ts) = search rebuild-Keeps
set_part-Keeps part index fields p q (list_at l) = search (keeping, primitives)

pub set_field-Keeps :
    (part : Part) (index : ℕ) (fields : List Text) (p q : ℕ)
    → Keeps (set_field part index fields p q)
unfolding set_field
set_field-Keeps part index fields p q = search (keeping, primitives, set_part-Keeps)

member_value-Keeps : (v : Value) (i : ℕ) (field : Text) → Keeps (member_value v i field)
member_value-Keeps nothing i field = search keeping
member_value-Keeps (str_value s) i field = search keeping
member_value-Keeps (set_value ts) i field = search keeping
member_value-Keeps (list_at p) i field = search primitives

member_input_taints-Keeps : (v : Value) (i : ℕ) → Keeps (member_input_taints v i)
member_input_taints-Keeps nothing i = search keeping
member_input_taints-Keeps (str_value s) i = search keeping
member_input_taints-Keeps (set_value ts) i = search keeping
member_input_taints-Keeps (list_at p) i = search primitives

member_storage_taints-Keeps :
    (v : Value) (i : ℕ) (field : Text) → Keeps (member_storage_taints v i field)
member_storage_taints-Keeps nothing i field = search keeping
member_storage_taints-Keeps (str_value s) i field = search keeping
member_storage_taints-Keeps (set_value ts) i field = search keeping
member_storage_taints-Keeps (list_at p) i field = search primitives

field_noted-Keeps : (v : ℕ) (i : Option ℕ) → Keeps (field_noted v i)
field_noted-Keeps v none = search keeping
field_noted-Keeps v (some i) = search primitives

module _ (var : ℕ → IrVariable) where
  ensured-Keeps : (v : ℕ) (p : Option ℕ) → Keeps (ensured var v p)
  ensured-Keeps v none = search (keeping, primitives, plain_context-Keeps)
  ensured-Keeps v (some p) = search keeping

  write_target-Keeps :
      (target : ℕ) (index : Option ℕ) (p : ℕ) → Keeps (write_target var target index p)
  write_target-Keeps target none p = deal_with_write-Keeps var _ p
  write_target-Keeps target (some index) p =
      search (keeping, primitives, ensured-Keeps, set_field-Keeps) depth 12

  through-Keeps : (v : ℕ) (target : Option ℕ) (p : ℕ) → Keeps (through var v target p)
  unfolding Keeps
  through-Keeps v none p m = Keeps-pure _ m
  through-Keeps v (some target) p m = write_target-Keeps target (m.field_index v) p m

  pub deal_with_reference-Keeps : (v : Option ℕ) (p : ℕ) → Keeps (deal_with_reference var v p)
  unfolding deal_with_reference
  deal_with_reference-Keeps none p = search keeping
  deal_with_reference-Keeps (some v) p =
      Keeps-if (is_reference var (var v).class) _ _ (through-Keeps v _ p) (search keeping)

  pub read-Keeps : (v : ℕ) → Keeps (read var v)
  unfolding read
  read-Keeps v = search (keeping, primitives, deal_with_read-Keeps var)

  pub write_context-Keeps :
      (lvalue : Option ℕ) (i s it st v : Value) → Keeps (write_context var lvalue i s it st v)
  unfolding write_context
  write_context-Keeps lvalue i s it st v = search (keeping, primitives, deal_with_write-Keeps var)

  write_parts-Keeps :
      (lvalue : ℕ) (parts : Value × Value × Value) (it st : Value)
      → Keeps (write_parts var lvalue parts it st)
  write_parts-Keeps lvalue (i, s, v) it st = search write_context-Keeps

  pub parse_index-Keeps : (lvalue left right : ℕ) → Keeps (parse_index var lvalue left right)
  unfolding parse_index
  parse_index-Keeps lvalue left right =
      search (keeping, primitives, read-Keeps, write_parts-Keeps) depth 12

  abbrev noting : ℕ → ℕ → Text → Effect (Unit {0})
  noting target lvalue field = or_raise (fields_of (var target).kind) >>= λ fields.
      field_noted lvalue (last_index field fields)

  noting-Keeps : (target lvalue : ℕ) (field : Text) → Keeps (noting target lvalue field)
  noting-Keeps target lvalue field = search (keeping, field_noted-Keeps)

  note_target-Keeps :
      (lvalue : ℕ) (target : Option ℕ) (field : Text) → Keeps (note_target var lvalue target field)
  unfolding Keeps
  note_target-Keeps lvalue none field m = Keeps-pure _ m
  note_target-Keeps lvalue (some target) field m =
      Keeps-if (is_same (var lvalue).points_to_origin target || m.has_key target)
        (noting target lvalue field) raise (noting-Keeps target lvalue field) (Keeps-raise _) m

  note_field-Keeps : (lvalue : ℕ) (field : Text) → Keeps (note_field var lvalue field)
  note_field-Keeps lvalue field = search (keeping, note_target-Keeps)

  typed_member-Keeps :
      (kind : TypeKind) (lvalue left right : ℕ) (field : Text)
      → Keeps (typed_member var kind lvalue left right field)
  typed_member-Keeps (structure_type fields) lvalue left right field =
      search
        (
          keeping, read-Keeps, write_context-Keeps, note_field-Keeps, member_value-Keeps,
          member_input_taints-Keeps, member_storage_taints-Keeps,
        )
        depth 14
  typed_member-Keeps contract_type lvalue left right field =
      search (keeping, read-Keeps, write_context-Keeps) depth 12
  typed_member-Keeps elementary_type lvalue left right field = search keeping
  typed_member-Keeps other_user_type lvalue left right field = search keeping
  typed_member-Keeps other_type lvalue left right field = search keeping

  class_member-Keeps :
      (c : Class) (lvalue left right : ℕ) (field : Text)
      → Keeps (class_member var c lvalue left right field)
  class_member-Keeps contract lvalue left right field =
      search (keeping, read-Keeps, write_context-Keeps) depth 12
  class_member-Keeps enum_contract lvalue left right field =
      search (keeping, read-Keeps, write_context-Keeps) depth 12
  class_member-Keeps solidity_composed lvalue left right field = search typed_member-Keeps
  class_member-Keeps state_variable lvalue left right field = search typed_member-Keeps
  class_member-Keeps local_variable lvalue left right field = search typed_member-Keeps
  class_member-Keeps constant lvalue left right field = search typed_member-Keeps
  class_member-Keeps solidity lvalue left right field = search typed_member-Keeps
  class_member-Keeps temporary lvalue left right field = search typed_member-Keeps
  class_member-Keeps reference lvalue left right field = search typed_member-Keeps
  class_member-Keeps tuple lvalue left right field = search typed_member-Keeps
  class_member-Keeps other_class lvalue left right field = search typed_member-Keeps

  pub parse_member-Keeps :
      (lvalue left right : ℕ) (field : Text) → Keeps (parse_member var lvalue left right field)
  unfolding parse_member
  parse_member-Keeps lvalue left right field = search class_member-Keeps
