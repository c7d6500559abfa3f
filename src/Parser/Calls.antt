-- ===== src/Parser/Calls.antt =====
-- The branches for calls and for new objects of `SlitherIRParser.parse`
-- (slither/tools/contract_abstract/contract/slitherir_parser.py). The text that `str` gives a set or a
-- list is a parameter.
use contract_abstract.Prelude.{
  ℕ, zero, suc, Text, codes, text_eq, Bool, true, false, ◌&&◌, Option, none, some, List, [], ◌∷◌,
  ◌++◌, ◌==◌, if◌then◌else◌,
}
use contract_abstract.Parser.Memory.{
  Value, nothing, str_value, set_value, list_at, Context, CallTarget, fixed_target, storage_target,
  Memory, Effect, pure, raise, ◌>>=◌, ◌>>◌, add_name, or_raise, load_context, get_pointer,
  join_taints, extended,
}
use contract_abstract.Parser.Variables.{
  Class, solidity_composed, state_variable, local_variable, constant, contract, solidity,
  enum_contract, temporary, reference, tuple, other_class, IrVariable,
}
use contract_abstract.Parser.Contexts.{deal_with_read, deal_with_write, is_state}
use contract_abstract.Parser.Values.{add_taints, copy_context}
use contract_abstract.Parser.Members.{read, write_context}
use contract_abstract.Parser.Operations.{listed_context}

-- a call's context, once for every type of a tuple
abbrev pub repeated : ℕ → Context → List Context
repeated zero c = []
repeated (suc n) c = c ∷ repeated n c

abbrev pub is_tuple : Class → Bool
is_tuple tuple = true
is_tuple state_variable = false
is_tuple solidity_composed = false
is_tuple local_variable = false
is_tuple constant = false
is_tuple contract = false
is_tuple solidity = false
is_tuple enum_contract = false
is_tuple temporary = false
is_tuple reference = false
is_tuple other_class = false

abbrev pub same_target : CallTarget → CallTarget → Bool
same_target (fixed_target v) (fixed_target w) = v == w
same_target (storage_target s) (storage_target t) = text_eq s t
same_target (fixed_target v) (storage_target t) = false
same_target (storage_target s) (fixed_target w) = false

-- a function that reads, into the entry of what it is called on
unfoldable pub add_call :
    CallTarget → Bool → Text → List (CallTarget × List Text) → List (CallTarget × List Text)
unfolding add_name
add_call target view name [] = (target, if view then name ∷ [] else []) ∷ []
add_call target view name (c ∷ cs) =
    let rest = add_call target view name cs in
    if same_target c.0 target then (c.0, if view then add_name name c.1 else c.1) ∷ cs else c ∷ rest

unfoldable pub record_call : Option CallTarget → Bool → Text → Effect (Unit {0})
unfolding add_call
record_call none view name m = some (tt, m)
record_call (some target) view name m =
    some (tt, record m { calls = add_call target view name m.calls })

-- a str in storage, or nothing; a list or a set is not a key of a dictionary
abbrev pub call_target : Value → Option (Option CallTarget)
call_target nothing = some none
call_target (str_value s) = some (some (storage_target s))
call_target (set_value ts) = none
call_target (list_at p) = none

-- `arguments + "," + str(argument_context.value)`, without the comma before the first one
abbrev pub argument_text : Bool → Text → Text → Text
argument_text true so_far t = so_far ++ t
argument_text false so_far t = so_far ++ codes "," ++ t

abbrev pub is_tuple_in : (ℕ → IrVariable) → Option ℕ → Bool
is_tuple_in var none = false
is_tuple_in var (some l) = is_tuple (var l).class

abbrev pub width_in : (ℕ → IrVariable) → Option ℕ → ℕ
width_in var none = 0
width_in var (some l) = (var l).width

module _ (var : ℕ → IrVariable) where
  -- an immutable or constant variable, or the storage of the destination's context
  abbrev pub stored_target : Option ℕ → Effect (Option CallTarget)
  stored_target none = raise
  stored_target (some p) = load_context p >>= λ c. or_raise (call_target c.storage)

  abbrev pub find_target : ℕ → Effect (Option CallTarget)
  find_target destination =
      if is_state var (var destination).class && (var destination).is_fixed
      then pure (some (fixed_target destination))
      else (get_pointer destination >>= stored_target)

  -- the result of a call, for an lvalue that is a tuple once for each of its types
  abbrev pub write_result : Option ℕ → Context → Effect (Unit {0})
  write_result lvalue c =
      if is_tuple_in var lvalue
      then (listed_context (repeated (width_in var lvalue) c) >>= deal_with_write var lvalue)
      else write_context var lvalue c.input c.storage c.input_taints c.storage_taints c.value

  unfoldable pub parse_low_level_call : Option ℕ → ℕ → Text → Effect (Unit {0})
  unfolding read write_context join_taints listed_context deal_with_write
  parse_low_level_call lvalue destination name = read var destination >>= λ d.
      join_taints (set_value []) d.storage_taints >>= λ storage_taints.
      join_taints (set_value []) d.input_taints >>= λ input_taints.
      or_raise (extended d.value (codes "." ++ name ++ codes "()")) >>= λ value.
      write_result lvalue (record {
        input = nothing;
        storage = nothing;
        input_taints = input_taints;
        storage_taints = storage_taints;
        value = value;
      })

  -- the same with the function noted under what it is called on
  unfoldable pub parse_high_level_call : Option ℕ → ℕ → Bool → Text → Text → Effect (Unit {0})
  unfolding get_pointer load_context record_call parse_low_level_call
  parse_high_level_call lvalue destination view full_name name =
      find_target destination >>= λ target.
      record_call target view full_name >> parse_low_level_call lvalue destination name

  unfoldable pub parse_solidity_call : Option ℕ → Text → Effect (Unit {0})
  unfolding write_context
  parse_solidity_call lvalue name =
      write_context var lvalue nothing nothing (set_value []) (set_value [])
        (str_value (name ++ codes "()"))

  unfoldable pub parse_code_size : ℕ → ℕ → Effect (Unit {0})
  unfolding read write_context
  parse_code_size lvalue v = read var v >>= λ c.
      or_raise (extended c.value (codes ".codesize")) >>= λ value.
      write_context var (some lvalue) nothing nothing c.input_taints c.storage_taints value

  unfoldable pub parse_new_elementary_type : ℕ → Effect (Unit {0})
  unfolding write_context
  parse_new_elementary_type lvalue =
      write_context var (some lvalue) nothing nothing (set_value []) (set_value []) nothing

  -- a copy of the first value's context
  unfoldable pub parse_init_array : ℕ → List ℕ → Effect (Unit {0})
  unfolding read copy_context deal_with_write
  parse_init_array lvalue [] = raise
  parse_init_array lvalue (v ∷ vs) =
      read var v >>= copy_context >>= deal_with_write var (some lvalue)

  unfoldable pub parse_event_call : List ℕ → Effect (Unit {0})
  unfolding deal_with_read
  parse_event_call [] = pure tt
  parse_event_call (v ∷ vs) = deal_with_read var v >>= λ p. parse_event_call vs

  module _ (show : Memory → Value → Text) where
    abbrev pub shown : Value → Effect Text
    shown v m = some (show m v, m)

    abbrev pub text_shown : Value → Effect Text
    text_shown nothing = pure (codes "None")
    text_shown (str_value s) = pure s
    text_shown (set_value ts) = shown (set_value ts)
    text_shown (list_at p) = shown (list_at p)

    -- the arguments from some number on, the first one or not
    unfoldable pub array_arguments :
        Bool → List Text → List Text → Text → List ℕ → Effect (List Text × List Text × Text)
    unfolding read add_taints
    array_arguments first inputs storages so_far [] = pure (inputs, storages, so_far)
    array_arguments first inputs storages so_far (v ∷ vs) = read var v >>= λ c.
        add_taints storages c.storage_taints >>= λ more_storages.
        add_taints inputs c.input_taints >>= λ more_inputs. text_shown c.value >>= λ t.
        array_arguments false more_inputs more_storages (argument_text first so_far t) vs

    abbrev pub write_array : ℕ → List Text × List Text × Text → Effect (Unit {0})
    write_array lvalue (inputs, storages, so_far) =
        write_context var (some lvalue) nothing nothing (set_value inputs) (set_value storages)
          (str_value (codes "newArray(" ++ so_far ++ codes ")"))

    unfoldable pub parse_new_array : ℕ → List ℕ → Effect (Unit {0})
    unfolding array_arguments write_context
    parse_new_array lvalue args = array_arguments true [] [] [] args >>= write_array lvalue
