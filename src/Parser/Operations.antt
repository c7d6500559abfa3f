-- ===== src/Parser/Operations.antt =====
-- The branches for the operations without calls of `SlitherIRParser.parse`
-- (slither/tools/contract_abstract/contract/slitherir_parser.py). The bitmaps of z3 are left out.
use contract_abstract.Prelude.{
  ℕ, Text, codes, Bool, true, false, ◌&&◌, Option, none, some, List, [], ◌∷◌, ◌++◌, ◌==◌,
  if◌then◌else◌,
}
use contract_abstract.Parser.Memory.{
  Value, nothing, str_value, set_value, list_at, Context, context_cell, Effect, pure, ◌>>=◌, ◌>>◌,
  or_raise, load_context, store, get_pointer, new_context, new_list, join_taints, item_at,
}
use contract_abstract.Parser.Variables.{IrVariable}
use contract_abstract.Parser.Contexts.{deal_with_read, deal_with_write, is_location, is_reference}
use contract_abstract.Parser.References.{
  Part, input_part, storage_part, input_taints_part, storage_taints_part, value_part, part_of,
  deal_with_reference,
}
use contract_abstract.Parser.Values.{operated, suffixed_text}
use contract_abstract.Parser.Members.{read, write_context}

-- `list.append` of every context's part
abbrev pub parts : Part → List Context → List Value
parts part [] = []
parts part (c ∷ cs) = part_of part c ∷ parts part cs

-- `AbstractContext([], [], [], [], [])`, with the parts of these contexts appended
unfoldable pub listed_context : List Context → Effect ℕ
unfolding new_list new_context
listed_context cs = new_list (parts input_part cs) >>= λ input.
    new_list (parts storage_part cs) >>= λ storage.
    new_list (parts input_taints_part cs) >>= λ input_taints.
    new_list (parts storage_taints_part cs) >>= λ storage_taints.
    new_list (parts value_part cs) >>= λ value.
    new_context input storage input_taints storage_taints value

-- `context.storage = ...` on the object of the right side, where the left one has a storage
abbrev pub overwritten : ℕ → Value → Effect (Unit {0})
overwritten p nothing = pure tt
overwritten p (str_value s) =
    load_context p >>= λ c. store p (context_cell (record c { storage = str_value s }))
overwritten p (set_value ts) =
    load_context p >>= λ c. store p (context_cell (record c { storage = set_value ts }))
overwritten p (list_at l) =
    load_context p >>= λ c. store p (context_cell (record c { storage = list_at l }))

-- `context.value = op + "(" + context.value + ")"`
abbrev pub wrapped : Text → Value → Option Value
wrapped op (str_value s) = some (str_value (op ++ codes "(" ++ s ++ codes ")"))
wrapped op nothing = some nothing
wrapped op (set_value ts) = none
wrapped op (list_at p) = none

module _ (var : ℕ → IrVariable) where
  abbrev pub read_all : List ℕ → Effect (List Context)
  read_all [] = pure []
  read_all (v ∷ vs) = read var v >>= λ c. read_all vs >>= λ cs. pure (c ∷ cs)

  abbrev pub read_pointers : List ℕ → Effect (List ℕ)
  read_pointers [] = pure []
  read_pointers (v ∷ vs) = deal_with_read var v >>= λ p. read_pointers vs >>= λ ps. pure (p ∷ ps)

  -- the same object for the lvalue and what it refers to
  abbrev pub write_both : ℕ → ℕ → Effect (Unit {0})
  write_both lvalue p =
      deal_with_write var (some lvalue) p >> deal_with_reference var (some lvalue) p

  abbrev pub points_to_storage : Option ℕ → Bool
  points_to_storage none = false
  points_to_storage (some target) = is_location (codes "storage") (var target).location

  abbrev pub overwrite_from : ℕ → ℕ → Option ℕ → Effect (Unit {0})
  overwrite_from lvalue p none = pure tt
  overwrite_from lvalue p (some q) = read var lvalue >>= λ l. overwritten p l.storage

  -- an lvalue in storage keeps its storage, which the right side's object gets
  abbrev pub keep_storage : ℕ → ℕ → Effect (Unit {0})
  keep_storage lvalue p =
      if is_location (codes "storage") (var lvalue).location
      then (get_pointer lvalue >>= overwrite_from lvalue p)
      else (if is_reference var (var lvalue).class && points_to_storage (var lvalue).points_to
          then (read var lvalue >>= λ l. overwritten p l.storage)
          else pure tt)

  unfoldable pub parse_assignment : ℕ → ℕ → Effect (Unit {0})
  unfolding deal_with_read get_pointer read load_context store deal_with_write deal_with_reference
  parse_assignment lvalue rvalue =
      deal_with_read var rvalue >>= λ p. keep_storage lvalue p >> write_both lvalue p

  abbrev pub operated_value : Value → Value → Text → Option Value
  operated_value nothing b op = some nothing
  operated_value (str_value s) nothing op = some nothing
  operated_value (str_value s) (str_value t) op = operated op (str_value s) (str_value t)
  operated_value (str_value s) (set_value ts) op = none
  operated_value (str_value s) (list_at p) op = none
  operated_value (set_value ts) nothing op = some nothing
  operated_value (set_value ts) (str_value s) op = none
  operated_value (set_value ts) (set_value us) op = none
  operated_value (set_value ts) (list_at p) op = none
  operated_value (list_at p) nothing op = some nothing
  operated_value (list_at p) (str_value s) op = none
  operated_value (list_at p) (set_value ts) op = none
  operated_value (list_at p) (list_at q) op = none

  -- `x += y` and the like, on a reference
  abbrev pub is_own : ℕ → ℕ → Bool
  is_own lvalue left = is_reference var (var lvalue).class && lvalue == left

  abbrev pub binary_value : Bool → Value → Value → Text → Option Value
  binary_value true a b op = operated op a b
  binary_value false a b op = operated_value a b op

  abbrev pub kept_if : Bool → Value → Value
  kept_if true v = v
  kept_if false v = nothing

  unfoldable pub parse_binary : ℕ → ℕ → ℕ → Text → Effect (Unit {0})
  unfolding read write_context join_taints
  parse_binary lvalue left right op = read var left >>= λ l. read var right >>= λ r.
      join_taints l.input_taints r.input_taints >>= λ input_taints.
      join_taints l.storage_taints r.storage_taints >>= λ storage_taints.
      or_raise (binary_value (is_own lvalue left) l.value r.value op) >>= λ value.
      write_context var (some lvalue) (kept_if (is_own lvalue left) l.input)
        (kept_if (is_own lvalue left) l.storage) input_taints storage_taints value

  unfoldable pub parse_type_conversion : ℕ → ℕ → Effect (Unit {0})
  unfolding deal_with_read deal_with_write
  parse_type_conversion lvalue rvalue =
      deal_with_read var rvalue >>= deal_with_write var (some lvalue)

  -- the operand's object gets the new value
  unfoldable pub parse_unary : ℕ → ℕ → Text → Effect (Unit {0})
  unfolding deal_with_read load_context store deal_with_write deal_with_reference
  parse_unary lvalue rvalue op = deal_with_read var rvalue >>= λ p. load_context p >>= λ c.
      or_raise (wrapped op c.value) >>= λ value.
      store p (context_cell (record c { value = value })) >> write_both lvalue p

  unfoldable pub parse_length : ℕ → ℕ → Effect (Unit {0})
  unfolding read write_context
  parse_length lvalue array = read var array >>= λ c.
      write_context var (some lvalue) (suffixed_text c.input (codes ".length"))
        (suffixed_text c.storage (codes ".length")) c.input_taints c.storage_taints
        (suffixed_text c.value (codes ".length"))

  -- with the context of the tuple
  abbrev pub unpack_from : ℕ → ℕ → Context → Effect (Unit {0})
  unpack_from lvalue i c = item_at c.input i >>= λ input. item_at c.storage i >>= λ storage.
      item_at c.input_taints i >>= λ input_taints. item_at c.storage_taints i >>= λ storage_taints.
      item_at c.value i >>= λ value.
      new_context input storage input_taints storage_taints value >>= write_both lvalue

  unfoldable pub parse_unpack : ℕ → ℕ → ℕ → Effect (Unit {0})
  unfolding read item_at new_context deal_with_write deal_with_reference
  parse_unpack lvalue source i = read var source >>= unpack_from lvalue i

  unfoldable pub parse_new_structure : ℕ → List ℕ → Effect (Unit {0})
  unfolding read listed_context deal_with_write
  parse_new_structure lvalue args =
      read_all args >>= listed_context >>= deal_with_write var (some lvalue)
