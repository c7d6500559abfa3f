-- ===== src/Parser/Contexts.antt =====
-- `_deal_with_read`, `_deal_with_write`, `record_storage`, `record_write_storage` and
-- `_record_constant` of SlitherIRParser
-- (slither/tools/contract_abstract/contract/slitherir_parser.py).
use contract_abstract.Prelude.{
  ℕ, Text, codes, text_eq, Bool, true, false, ◌&&◌, ◌||◌, Option, none, some, List, [], ◌∷◌, ◌++◌,
  if◌then◌else◌,
}
use contract_abstract.Sync.Etherscan.{contains}
use contract_abstract.Parser.Memory.{
  Value, nothing, str_value, set_value, ConstantEntry, Memory, Effect, pure, raise, ◌>>=◌, ◌>>◌,
  load_context, set_pointer, get_pointer, new_context, add_lvalue,
}
use contract_abstract.Parser.Variables.{
  Class, solidity_composed, state_variable, local_variable, constant, contract, solidity,
  enum_contract, temporary, reference, tuple, other_class, TypeKind, elementary_type,
  structure_type, contract_type, other_user_type, other_type, ConstantType, contract_constant,
  elementary_constant, other_constant, ConstantInfo, IrVariable,
}
use contract_abstract.Parser.Names.{names_of, add_names}

abbrev pub with_reads : Memory → Option (List Text) → Option (Unit {0} × Memory)
with_reads m none = none
with_reads m (some ns) = some (tt, record m { read_storages = add_names ns m.read_storages })

abbrev pub with_writes : Memory → Option (List Text) → Option (Unit {0} × Memory)
with_writes m none = none
with_writes m (some ns) = some (tt, record m { write_storages = add_names ns m.write_storages })

-- `record_storage` into the storages that the function reads
unfoldable pub record_read : Value → Effect (Unit {0})
unfolding names_of add_names
record_read v m = with_reads m (names_of m v)

-- and into those that it writes
unfoldable pub record_written : Value → Effect (Unit {0})
unfolding names_of add_names
record_written v m = with_writes m (names_of m v)

-- `self.walker.interfaces[name] = signatures`
unfoldable pub set_interface : Text → List Text → List (Text × List Text) → List (Text × List Text)
set_interface name signatures [] = (name, signatures) ∷ []
set_interface name signatures (i ∷ is) =
    let rest = set_interface name signatures is in
    if text_eq i.0 name then (name, signatures) ∷ is else i ∷ rest

unfoldable pub has_constant : Text → Text → List ConstantEntry → Bool
has_constant contract_name constant_name [] = false
has_constant contract_name constant_name (c ∷ cs) =
    (text_eq c.contract contract_name && text_eq c.name constant_name)
    || has_constant contract_name constant_name cs

-- an entry for a name that the contract has not got yet
unfoldable pub add_constant : ConstantInfo → Text → ℕ → Option Text → Effect (Unit {0})
unfolding has_constant
add_constant info type_name size interface m =
    let entry : ConstantEntry = record {
      contract = info.contract_name;
      name = info.constant_name;
      initial = info.constant_value;
      type_name = type_name;
      size = size;
      interface = interface;
    } in
    some (
      tt,
      if has_constant info.contract_name info.constant_name m.constants
          then m
          else record m { constants = m.constants ++ entry ∷ [] },
    )

abbrev pub typed_constant : ConstantInfo → ConstantType → Effect (Unit {0})
typed_constant info (contract_constant name signatures) m =
    add_constant info (codes "address") 160 (some name)
      (record m { interfaces = set_interface name signatures m.interfaces })
typed_constant info (elementary_constant type_name size) m = add_constant info type_name size none m
typed_constant info other_constant m = none

-- `_record_constant`, with `_filter_constant`
unfoldable pub record_constant : IrVariable → Effect (Unit {0})
unfolding contains add_constant set_interface
record_constant v m =
    if contains (codes "MASK") v.name || contains (codes "BIT_POSITION") v.name
    then some (tt, m)
    else typed_constant v.constant_info v.constant_info.constant_type m

-- a context without input and storage and without taints
unfoldable pub plain_context : Value → Effect ℕ
unfolding new_context
plain_context value = new_context nothing nothing (set_value []) (set_value []) value

abbrev pub is_location : Text → Option Text → Bool
is_location t none = false
is_location t (some l) = text_eq l t

abbrev pub is_elementary : TypeKind → Bool
is_elementary elementary_type = true
is_elementary (structure_type fs) = false
is_elementary contract_type = false
is_elementary other_user_type = false
is_elementary other_type = false

-- a variable that has no context yet
unfoldable pub initial_context : Class → IrVariable → Effect ℕ
unfolding plain_context new_context record_constant
initial_context solidity_composed v =
    new_context (str_value v.name) nothing (set_value (v.name ∷ [])) (set_value [])
      (str_value v.name)
initial_context state_variable v =
    if v.is_fixed then record_constant v >> plain_context (str_value v.name) else raise
initial_context local_variable v =
    if is_location (codes "memory") v.location
    then plain_context (str_value (codes "$unknown$"))
    else if is_location (codes "default") v.location && is_elementary v.kind
    then plain_context (str_value (codes "0"))
    else raise
initial_context constant v = plain_context (str_value v.name)
initial_context contract v = plain_context (str_value v.name)
initial_context solidity v = plain_context (str_value v.name)
initial_context enum_contract v = plain_context (str_value v.name)
initial_context temporary v = plain_context (str_value (codes "$unknown$"))
initial_context reference v = raise
initial_context tuple v = raise
initial_context other_class v = raise

module _ (var : ℕ → IrVariable) where
  abbrev pub read_pointer : ℕ → Option ℕ → Effect ℕ
  read_pointer v none = initial_context (var v).class (var v)
  read_pointer v (some p) = load_context p >>= λ c. record_read c.storage >> pure p

  -- the object that the variable has; its storage is recorded as read
  unfoldable pub deal_with_read : ℕ → Effect ℕ
  unfolding get_pointer initial_context load_context record_read
  deal_with_read v = get_pointer v >>= read_pointer v

  abbrev pub is_state : Class → Bool
  is_state state_variable = true
  is_state solidity_composed = false
  is_state local_variable = false
  is_state constant = false
  is_state contract = false
  is_state solidity = false
  is_state enum_contract = false
  is_state temporary = false
  is_state reference = false
  is_state tuple = false
  is_state other_class = false

  abbrev pub is_reference : Class → Bool
  is_reference reference = true
  is_reference state_variable = false
  is_reference solidity_composed = false
  is_reference local_variable = false
  is_reference constant = false
  is_reference contract = false
  is_reference solidity = false
  is_reference enum_contract = false
  is_reference temporary = false
  is_reference tuple = false
  is_reference other_class = false

  abbrev pub constant_written : IrVariable → Effect (Unit {0})
  constant_written v m =
      if is_state v.class && v.is_fixed then record_constant v m else some (tt, m)

  -- nothing is written for an operation without lvalue
  unfoldable pub deal_with_write : Option ℕ → ℕ → Effect (Unit {0})
  unfolding record_constant set_pointer add_lvalue
  deal_with_write none p = pure tt
  deal_with_write (some v) p = constant_written (var v) >> set_pointer v (some p) >> add_lvalue v

  -- a variable in storage, or a reference to one
  abbrev pub is_stored_at : Option ℕ → Bool
  is_stored_at none = false
  is_stored_at (some origin) =
      is_location (codes "storage") (var origin).location || (var origin).is_stored

  unfoldable pub is_storage : ℕ → Bool
  is_storage v =
      is_location (codes "storage") (var v).location
      || (is_state (var v).class && (var v).is_stored)
      || (is_reference (var v).class && is_stored_at (var v).points_to_origin)

  abbrev pub write_pointer : ℕ → Option ℕ → Effect (Unit {0})
  write_pointer v none = pure tt
  write_pointer v (some p) =
      deal_with_read v >>= λ q. load_context q >>= λ c. record_written c.storage

  -- `record_write_storage`
  unfoldable pub record_write_storage : Option ℕ → Effect (Unit {0})
  unfolding is_storage get_pointer deal_with_read load_context record_written
  record_write_storage none m = some (tt, m)
  record_write_storage (some v) m =
      if is_storage v then (get_pointer v >>= write_pointer v) m else some (tt, m)
