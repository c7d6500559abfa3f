-- ===== src/Parser/Walk.antt =====
-- `ContractWalker.walk_path`, `enter_function`, `exit_function` and `deal_with_context_enter`
-- (slither/tools/contract_abstract/contract/contract_walker.py): a path is walked with the parser up
-- to a call that it has not expanded. A function is a number; its parameters, and the paths that
-- `get_all_paths` finds for a call of it (Walker/Paths), are arguments. `call_seen` is what `record_ir`
-- answers.
use contract_abstract.Prelude.{ℕ, ◌+◌, Text, Bool, Option, none, some, List, [], ◌∷◌, drop}
use contract_abstract.Walker.Splice.{with_child_paths}
use contract_abstract.Parser.Memory.{
  Value, Memory, Effect, pure, raise, ◌>>=◌, ◌>>◌, or_raise, load_context, set_pointer,
}
use contract_abstract.Parser.Variables.{IrVariable}
use contract_abstract.Parser.Values.{copy_context}
use contract_abstract.Parser.Irs.{
  Ir, index_access, internal_call, return_values, new_structure, member_access, assignment, binary,
  type_conversion, high_level_call, condition, solidity_call, unpack, event_call, array_length,
  new_array, init_array_op, new_elementary_type, new_contract, unary, code_size, delete,
  low_level_call, not_supported, lvalue_of, Parsed, goes_on, already_expanded, expands,
}
use contract_abstract.Parser.Parse.{parse, contintue_internal_call}

-- a Node or a RemainNode by its operations; an EndNode with the lvalue of the call, if there is a call
pub data PathNode : Type 0 where
  start_node : ℕ → List ℕ → PathNode
  end_node : Option (Option ℕ) → PathNode
  irs_node : List Ir → PathNode

-- how a node is left: with the values of a Return, where that was the last operation; or at a call,
-- with the paths of the function and the operations behind the call
pub data NodeWalked : Type 0 where
  passed : Option (List ℕ) → NodeWalked
  halted : List (List PathNode) → List Ir → NodeWalked

-- how a path is left: at its end, or at a call, with the index behind it
pub data Walked : Type 0 where
  at_end : Walked
  at_call : ℕ → List (List PathNode) → List Ir → Walked

abbrev pub return_of : Ir → Option (List ℕ)
return_of (return_values vs) = some vs
return_of (index_access l a b) = none
return_of (internal_call l f args) = none
return_of (new_structure l args) = none
return_of (member_access l a b name) = none
return_of (assignment l r) = none
return_of (binary l a b op) = none
return_of (type_conversion l r) = none
return_of (high_level_call l d view full name) = none
return_of condition = none
return_of (solidity_call l name) = none
return_of (unpack l t i) = none
return_of (event_call args) = none
return_of (array_length l v) = none
return_of (new_array l args) = none
return_of (init_array_op l vs) = none
return_of (new_elementary_type l) = none
return_of (new_contract l) = none
return_of (unary l r op) = none
return_of (code_size l v) = none
return_of (delete l) = none
return_of (low_level_call l d name) = none
return_of (not_supported l) = none

-- the StartNode behind the node
abbrev pub next_start : List PathNode → Option ℕ
next_start [] = none
next_start (start_node function args ∷ rest) = some function
next_start (end_node call ∷ rest) = none
next_start (irs_node irs ∷ rest) = none

-- `deal_with_context_enter`
unfoldable pub deal_with_context_enter : List ℕ → List ℕ → Effect (Unit {0})
unfolding load_context copy_context set_pointer
deal_with_context_enter [] args = pure tt
deal_with_context_enter (v ∷ vs) [] = raise
deal_with_context_enter (v ∷ vs) (p ∷ ps) =
    load_context p >>= copy_context >>= λ q. set_pointer v (some q) >> deal_with_context_enter vs ps

-- the node of the operations behind a call
abbrev pub remain_nodes : List Ir → List PathNode
remain_nodes [] = []
remain_nodes (ir ∷ irs) = irs_node (ir ∷ irs) ∷ []

-- the functions that a path can call: their parameters, and the paths of a call by its arguments and
-- its lvalue, none where the search for them raises
pub record Functions : Type 0 where
  pub parameters : ℕ → List ℕ
  pub paths_of : ℕ → List ℕ → Option ℕ → Option (List (List PathNode))

module _ (var : ℕ → IrVariable) (show : Memory → Value → Text) (functions : Functions) where
  abbrev pub exit_function : Option (Option ℕ) → Option (List ℕ) → Effect (Unit {0})
  exit_function none values = pure tt
  exit_function (some lvalue) none = pure tt
  exit_function (some lvalue) (some vs) = contintue_internal_call var show lvalue (some vs)

  -- a call without any path is passed
  abbrev pub on_paths : List (List PathNode) → List Ir → Effect NodeWalked → Effect NodeWalked
  on_paths [] irs rest = rest
  on_paths (child ∷ children) irs rest = pure (halted (child ∷ children) irs)

  abbrev pub on_parsed : Parsed → Ir → List Ir → Effect NodeWalked → Effect NodeWalked
  on_parsed goes_on ir irs rest = rest
  on_parsed already_expanded ir irs rest = pure (passed (return_of ir))
  on_parsed (expands function contexts) ir irs rest =
      or_raise (functions.paths_of function contexts (lvalue_of ir)) >>= λ children.
      on_paths children irs rest

  -- the operations of a node, behind one that was a Return with these values, or none
  unfoldable pub walk_irs : Option ℕ → Option (List ℕ) → List Ir → Effect NodeWalked
  unfolding parse
  walk_irs started values [] = pure (passed values)
  walk_irs started values (ir ∷ irs) = parse var show ir started >>= λ parsed.
      on_parsed parsed ir irs (walk_irs started (return_of ir) irs)

  -- the nodes from number `i` on
  abbrev pub on_node : NodeWalked → ℕ → (Option (List ℕ) → Effect Walked) → Effect Walked
  on_node (passed values) i go = go values
  on_node (halted children irs) i go = pure (at_call (i + 1) children irs)

  unfoldable pub walk_nodes : ℕ → Option (List ℕ) → List PathNode → Effect Walked
  unfolding walk_irs deal_with_context_enter contintue_internal_call
  walk_nodes i values [] = pure at_end
  walk_nodes i values (start_node function args ∷ rest) =
      deal_with_context_enter (functions.parameters function) args >> walk_nodes (i + 1) values rest
  walk_nodes i values (end_node call ∷ rest) =
      exit_function call values >> walk_nodes (i + 1) values rest
  walk_nodes i values (irs_node irs ∷ rest) = walk_irs (next_start rest) values irs >>= λ walked.
      on_node walked i λ after. walk_nodes (i + 1) after rest

  abbrev pub put_together :
      List (ℕ × List PathNode) → ℕ → List PathNode → Bool → Walked → List (ℕ × List PathNode) × ℕ
  put_together all_paths path_id path call_seen at_end = (all_paths, path_id + 1)
  put_together all_paths path_id path call_seen (at_call next children irs) =
      (with_child_paths all_paths path_id next path (remain_nodes irs) call_seen children, path_id)

  -- the new list of paths, and the path to go on with
  unfoldable pub walk_path :
      List (ℕ × List PathNode)
      → ℕ
      → ℕ × List PathNode
      → Bool
      → Effect (List (ℕ × List PathNode) × ℕ)
  unfolding walk_nodes with_child_paths
  walk_path all_paths path_id (start_index, path) call_seen =
      walk_nodes start_index none (drop start_index path) >>= λ walked.
      pure (put_together all_paths path_id path call_seen walked)
