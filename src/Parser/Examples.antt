-- ===== src/Parser/Examples.antt =====
-- Runs of the parser at fixed inputs: a local variable in storage, one in memory, temporaries, and a
-- variable of a structure whose taints are a list.
use contract_abstract.Prelude.{
  ℕ, zero, suc, subst, Text, codes, text_eq, true, false, Option, none, some, List, [], ◌∷◌, ◌≡◌,
  ◌==◌, inl, refl, if◌then◌else◌, arith,
}
use contract_abstract.Parser.Memory.{
  Value, nothing, str_value, set_value, list_at, Context, Cell, Effect, context_cell, list_cell,
  Memory, ◌>>=◌, get_pointer, load_context, item_at,
}
use contract_abstract.Parser.Variables.{
  Class, local_variable, temporary, elementary_type, other_constant, ConstantInfo, IrVariable,
}
use contract_abstract.Parser.Names.{names_of}
use contract_abstract.Parser.Irs.{lvalue_of, internal_call, unary, assignment}
use contract_abstract.Parser.References.{value_part, part_of}
use contract_abstract.Parser.Members.{read, parse_index}
use contract_abstract.Parser.Parse.{contintue_internal_call}
use contract_abstract.Parser.Operations.{
  listed_context, parse_unary, parse_assignment, parse_unpack,
}
use contract_abstract.Parser.Calls.{parse_solidity_call}
use contract_abstract.Parser.Clear.{clear_context}
use contract_abstract.Parser.Grows.{Included, Held}
use contract_abstract.Parser.Objects.{Plain, Holds, outcome}
use contract_abstract.Parser.Walk.{
  deal_with_context_enter, PathNode, start_node, end_node, irs_node, Functions, walk_path,
}
use contract_abstract.Parser.Walking.{walk_path-recorded}
use contract_abstract.Parser.Sharing.{
  parse_unary-operand, parse_assignment-shared, parse_assignment-overwrites,
}
use contract_abstract.Parser.Entered.{IsSimple, deal_with_context_enter-apart}
use contract_abstract.Parser.Enough.{is_given, AllBelow, Ranked, names_of-given}
use mathlib.Core.List.Memᴰ
use mathlib.Core.Option.{some-injective}
use contract_abstract.Parser.Raises.{parse_index-list_taints, parse_unpack-solidity_call}
use contract_abstract.Parser.Cleared.{
  pointer_after, clear_context-cleared, clear_context-internal_call,
}
use contract_abstract.Parser.Items.{listed_context-item}

abbrev no_constant : ConstantInfo
no_constant = record {
  contract_name = [];
  constant_name = [];
  constant_type = other_constant;
  constant_value = none;
}

abbrev described : Text → Class → Text → IrVariable
described name class location = record {
  name = name;
  class = class;
  is_fixed = false;
  location = some location;
  is_stored = false;
  kind = elementary_type;
  points_to = none;
  points_to_origin = none;
  width = 0;
  constant_info = no_constant;
}

abbrev variables : ℕ → IrVariable
variables v =
    if v == 0
    then described (codes "s") local_variable (codes "storage")
    else (if v == 1
        then described (codes "x") local_variable (codes "memory")
        else described (codes "t") temporary (codes "memory"))

abbrev stored : Context
stored = record {
  input = nothing;
  storage = str_value (codes "s");
  input_taints = set_value [];
  storage_taints = set_value (codes "s" ∷ []);
  value = str_value (codes "s");
}

abbrev given_input : Context
given_input = record {
  input = str_value (codes "x");
  storage = nothing;
  input_taints = set_value (codes "x" ∷ []);
  storage_taints = set_value [];
  value = str_value (codes "x");
}

abbrev structured : Context
structured = record {
  input = str_value (codes "y");
  storage = nothing;
  input_taints = list_at 3;
  storage_taints = list_at 3;
  value = str_value (codes "y");
}

abbrev cells : ℕ → Option Cell
cells p =
    if p == 0
    then some (context_cell stored)
    else (if p == 1
        then some (context_cell given_input)
        else (if p == 2 then some (context_cell structured) else some (list_cell [])))

abbrev start : Memory
start = record {
  contexts =
      λ v. if v == 0 then some 0 else if v == 1 then some 1 else if v == 2 then some 2 else none;
  has_key = λ v. true;
  field_index = λ v. none;
  cell = cells;
  next = 4;
  read_storages = [];
  write_storages = [];
  constants = [];
  interfaces = [];
  calls = [];
  lvalues = [];
}

abbrev show_nothing : Memory → Value → Text
show_nothing m v = []

-- a function with variable 7 as its parameter; no call has paths
abbrev one_function : Functions
one_function = record { parameters = λ f. 7 ∷ []; paths_of = λ f args lvalue. some [] }

abbrev one_path : List PathNode
one_path = start_node 9 (1 ∷ []) ∷ irs_node (unary 0 0 (codes "!") ∷ []) ∷ end_node none ∷ []

abbrev walk_one : Effect (List (ℕ × List PathNode) × ℕ)
walk_one = walk_path variables show_nothing one_function ((0, one_path) ∷ []) 0 (0, one_path) false

abbrev memory_of : Option ((List (ℕ × List PathNode) × ℕ) × Memory) → Memory
memory_of none = start
memory_of (some (walked, m)) = m

walk_path-recorded_example :
    Included (memory_of (walk_one start)).write_storages (memory_of (walk_one start)).read_storages
    × Included [] (memory_of (walk_one start)).write_storages
    × Included [] (memory_of (walk_one start)).read_storages
    × Held start (memory_of (walk_one start))
unfolding walk_path lvalue_of text_eq
walk_path-recorded_example =
    walk_path-recorded variables show_nothing one_function ((0, one_path) ∷ []) 0 (0, one_path)
      false start (memory_of (walk_one start)) ((0, one_path) ∷ [], 1) refl (λ n h. h)

x-Holds : Holds start 1 1 given_input []
unfolding names_of
x-Holds = record { pointer = refl; context = refl; names = refl }

s-Holds : Holds start 0 0 stored (codes "s" ∷ [])
unfolding names_of
s-Holds = record { pointer = refl; context = refl; names = refl }

Plain-temporary : Plain variables 5
Plain-temporary = record { no_state = refl; no_reference = refl }

parse_unary-operand_example :
    outcome ((parse_unary variables 5 1 (codes "!") >>= λ t. read variables 1) start)
    ≡ some (record given_input { value = str_value (codes "!(x)") })
parse_unary-operand_example =
    parse_unary-operand variables start 5 1 1 1 given_input [] (codes "!") (codes "x")
      Plain-temporary x-Holds refl refl

given_input-IsSimple : IsSimple start 1
given_input-IsSimple = (
  given_input,
  codes "x",
  (
    refl,
    (
      record {
        flat_input = refl;
        flat_storage = refl;
        flat_input_taints = refl;
        flat_storage_taints = refl;
      },
      refl,
    ),
  ),
)

-- the first variable is handed over twice
deal_with_context_enter-apart_example :
    outcome (
      (deal_with_context_enter (7 ∷ 8 ∷ []) (1 ∷ 1 ∷ []) >>= λ t.
      parse_unary variables 5 8 (codes "!") >>= λ u. load_context 1)
        start)
    ≡ some given_input
deal_with_context_enter-apart_example =
    deal_with_context_enter-apart variables start 5 8 1 (7 ∷ 8 ∷ []) (1 ∷ 1 ∷ []) given_input
      (codes "!") ((omega arith, given_input-IsSimple), ((omega arith, given_input-IsSimple), tt))
      (Memᴰ.tail (Memᴰ.head refl)) (omega arith) refl Plain-temporary

parse_assignment-shared_example :
    outcome (
      (parse_assignment variables 5 1 >>= λ t.
      parse_unary variables 6 1 (codes "!") >>= λ u. read variables 5)
        start)
    ≡ some (record given_input { value = str_value (codes "!(x)") })
unfolding text_eq
parse_assignment-shared_example =
    parse_assignment-shared variables start 1 5 6 1 given_input [] (codes "!") (codes "x")
      Plain-temporary refl (record { no_state = refl; no_reference = refl }) x-Holds refl

parse_assignment-overwrites_example :
    outcome ((parse_assignment variables 0 1 >>= λ t. read variables 1) start)
    ≡ some (record given_input { storage = str_value (codes "s") })
unfolding text_eq
parse_assignment-overwrites_example =
    parse_assignment-overwrites variables start 0 1 1 0 given_input stored [] (codes "s" ∷ [])
      (codes "s") refl (record { no_state = refl; no_reference = refl }) x-Holds s-Holds refl

parse_index-list_taints_example : parse_index variables 5 2 1 start ≡ none
parse_index-list_taints_example =
    parse_index-list_taints variables start 5 2 1 2 3 structured refl refl (inl refl)

parse_unpack-solidity_call_example :
    (parse_solidity_call variables (some 5) (codes "abi.decode") >>= λ done.
    parse_unpack variables 6 5 0)
      start
    ≡ none
parse_unpack-solidity_call_example =
    parse_unpack-solidity_call variables start 6 5 0 (codes "abi.decode") Plain-temporary

clear_context-cleared_example :
    pointer_after 1 (clear_context variables [] (assignment 1 0) start) ≡ some none
unfolding lvalue_of
clear_context-cleared_example = clear_context-cleared variables [] (assignment 1 0) 1 start

clear_context-internal_call_example :
    outcome (
      (contintue_internal_call variables show_nothing (some 5) (some (1 ∷ [])) >>= λ t.
      clear_context variables [] (internal_call (some 5) 9 (1 ∷ [])) >>= λ u. get_pointer 5)
        start)
    ≡ some (some 1)
clear_context-internal_call_example =
    clear_context-internal_call variables show_nothing [] start 5 9 1 1 (1 ∷ []) [] given_input []
      refl x-Holds

listed_context-item_example :
    outcome (
      (listed_context (stored ∷ given_input ∷ []) >>= λ p.
      load_context p >>= λ d. item_at (part_of value_part d) 1)
        start)
    ≡ some (str_value (codes "x"))
listed_context-item_example =
    listed_context-item value_part start (stored ∷ given_input ∷ []) 1 given_input refl

-- a list with a list in it
abbrev nested : ℕ → Option Cell
nested zero = some (list_cell (list_at 1 ∷ []))
nested (suc zero) = some (list_cell (str_value (codes "s") ∷ []))
nested (suc (suc p)) = none

abbrev height : ℕ → ℕ
height zero = 1
height (suc p) = 0

nested-Ranked : Ranked nested height
unfolding AllBelow
nested-Ranked zero vs e =
    subst (λ ws. AllBelow nested height 1 ws) (some-injective _ _ e) ((omega arith, refl), tt)
nested-Ranked (suc zero) vs e =
    subst (λ ws. AllBelow nested height 0 ws) (some-injective _ _ e) (tt, tt)
nested-Ranked (suc (suc p)) vs e = cc e

names_of-given_example :
    is_given (names_of (record start { cell = nested; next = 2 }) (list_at 0)) ≡ true
names_of-given_example =
    names_of-given (record start { cell = nested; next = 2 }) height (list_at 0) nested-Ranked
      (omega arith, refl)
