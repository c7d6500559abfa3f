-- ===== src/Parser/Clear.antt =====
-- `clear_context`, `clear_abstract` and `close` of SlitherIRParser
-- (slither/tools/contract_abstract/contract/slitherir_parser.py).
use contract_abstract.Prelude.{
  ℕ, Bool, false, ◌&&◌, ◌||◌, Option, none, some, List, [], ◌∷◌, ◌==◌, if◌then◌else◌,
}
use contract_abstract.Parser.Memory.{Effect, pure, raise, ◌>>◌, set_pointer}
use contract_abstract.Parser.Variables.{IrVariable}
use contract_abstract.Parser.Contexts.{is_state}
use contract_abstract.Parser.Irs.{
  Ir, index_access, internal_call, return_values, new_structure, member_access, assignment, binary,
  type_conversion, high_level_call, condition, solidity_call, unpack, event_call, array_length,
  new_array, init_array_op, new_elementary_type, new_contract, unary, code_size, delete,
  low_level_call, not_supported,
}

abbrev pub is_one_of : ℕ → List ℕ → Bool
is_one_of v [] = false
is_one_of v (w ∷ ws) = v == w || is_one_of v ws

-- the variables that `clear_context` clears, where the operation is supported
abbrev pub cleared : Ir → Option (List ℕ)
cleared (index_access l a b) = some (l ∷ [])
cleared (internal_call l f args) = some []
cleared (return_values vs) = some vs
cleared (new_structure l args) = some (l ∷ [])
cleared (member_access l a b field) = some (l ∷ [])
cleared (assignment l r) = some (l ∷ [])
cleared (binary l a b op) = some (l ∷ [])
cleared (type_conversion l r) = some (l ∷ [])
cleared (high_level_call none d view full name) = some []
cleared (high_level_call (some l) d view full name) = some (l ∷ [])
cleared condition = some []
cleared (solidity_call none name) = some []
cleared (solidity_call (some l) name) = some (l ∷ [])
cleared (unpack l t i) = some (l ∷ [])
cleared (event_call args) = some []
cleared (array_length l v) = some (l ∷ [])
cleared (new_array l args) = some (l ∷ [])
cleared (init_array_op l vs) = some (l ∷ [])
cleared (new_elementary_type l) = some (l ∷ [])
cleared (new_contract l) = some []
cleared (unary l r op) = some (l ∷ [])
cleared (code_size l v) = some (l ∷ [])
cleared (delete l) = some []
cleared (low_level_call none d name) = some []
cleared (low_level_call (some l) d name) = some (l ∷ [])
cleared (not_supported l) = none

module _ (var : ℕ → IrVariable) where
  -- a state variable of the storages keeps its context
  unfoldable pub clear_abstract : List ℕ → ℕ → Effect (Unit {0})
  unfolding set_pointer
  clear_abstract storages v m =
      if is_state var (var v).class && is_one_of v storages
      then some (tt, m)
      else set_pointer v none m

  unfoldable pub clear_all : List ℕ → List ℕ → Effect (Unit {0})
  unfolding clear_abstract
  clear_all storages [] = pure tt
  clear_all storages (v ∷ vs) = clear_abstract storages v >> clear_all storages vs

  abbrev pub clear_these : List ℕ → Option (List ℕ) → Effect (Unit {0})
  clear_these storages none = raise
  clear_these storages (some vs) = clear_all storages vs

  unfoldable pub clear_context : List ℕ → Ir → Effect (Unit {0})
  unfolding clear_all
  clear_context storages ir = clear_these storages (cleared ir)

unfoldable pub forget_all : List ℕ → Effect (Unit {0})
unfolding set_pointer
forget_all [] = pure tt
forget_all (v ∷ vs) = set_pointer v none >> forget_all vs

-- every variable that the parser wrote has no context any more
unfoldable pub close : Effect (Unit {0})
unfolding forget_all
close m = forget_all m.lvalues m
