-- ===== src/Parser/Walking.antt =====
-- The rules of Parser/Grows for `walk_path` of ContractWalker
-- (slither/tools/contract_abstract/contract/contract_walker.py).
use contract_abstract.Prelude.{ℕ, ◌+◌, Text, Bool, Option, none, some, List, [], ◌∷◌, ◌≡◌, inl, inr}
use contract_abstract.Parser.Memory.{Value, Memory, Effect}
use contract_abstract.Parser.Variables.{IrVariable}
use contract_abstract.Parser.Irs.{Ir, Parsed, goes_on, already_expanded, expands}
use contract_abstract.Parser.Parse.{returned_first, contintue_internal_call}
use contract_abstract.Parser.Walk.{
  PathNode, start_node, end_node, irs_node, NodeWalked, passed, halted, Walked, Functions,
  return_of, deal_with_context_enter, exit_function, on_paths, on_parsed, walk_irs, on_node,
  walk_nodes, walk_path,
}
use contract_abstract.Parser.Grows.{Included, Held, Grows, Keeps, keeping}
use contract_abstract.Parser.Kept.{primitives}
use contract_abstract.Parser.Recorded.{deal_with_read-Keeps}
use contract_abstract.Parser.OperationsKept.{
  listed_context-Keeps, read_all-Keeps, write_both-Keeps, copy_context-Keeps,
}
use contract_abstract.Parser.Recording.{parse-Keeps}

enter-Keeps : (vs ps : List ℕ) → Keeps (deal_with_context_enter vs ps)
unfolding deal_with_context_enter
enter-Keeps [] ps = search keeping
enter-Keeps (v ∷ vs) [] = search keeping
enter-Keeps (v ∷ vs) (p ∷ ps) =
    search (keeping, primitives, copy_context-Keeps, enter-Keeps vs ps) depth 8

module _ (var : ℕ → IrVariable) (show : Memory → Value → Text) where
  returned_first-Keeps : (lvalue : ℕ) (vs : List ℕ) → Keeps (returned_first var show lvalue vs)
  returned_first-Keeps lvalue [] = search keeping
  returned_first-Keeps lvalue (v ∷ vs) = search (keeping, primitives, deal_with_read-Keeps var)

  continue-Keeps :
      (lvalue : Option ℕ) (values : Option (List ℕ))
      → Keeps (contintue_internal_call var show lvalue values)
  unfolding contintue_internal_call
  continue-Keeps lvalue none = search keeping
  continue-Keeps none (some vs) = search keeping
  continue-Keeps (some lvalue) (some vs) =
      search
        (
          keeping,
          returned_first-Keeps,
          read_all-Keeps var,
          listed_context-Keeps,
          write_both-Keeps var,
        )
        depth 8

  module _ (functions : Functions) where
    exit-Keeps :
        (call : Option (Option ℕ)) (values : Option (List ℕ))
        → Keeps (exit_function var show functions call values)
    exit-Keeps none values = search keeping
    exit-Keeps (some lvalue) none = search keeping
    exit-Keeps (some lvalue) (some vs) = search continue-Keeps

    on_paths-Keeps :
        (children : List (List PathNode)) (irs : List Ir) (rest : Effect NodeWalked)
        → Keeps rest
        → Keeps (on_paths var show functions children irs rest)
    on_paths-Keeps [] irs rest h = h
    on_paths-Keeps (child ∷ children) irs rest h = search keeping

    on_parsed-Keeps :
        (parsed : Parsed) (ir : Ir) (irs : List Ir) (rest : Effect NodeWalked)
        → Keeps rest
        → Keeps (on_parsed var show functions parsed ir irs rest)
    on_parsed-Keeps goes_on ir irs rest h = h
    on_parsed-Keeps already_expanded ir irs rest h = search keeping
    on_parsed-Keeps (expands function contexts) ir irs rest h = search (keeping, on_paths-Keeps)

    walk_irs-Keeps :
        (started : Option ℕ) (values : Option (List ℕ)) (irs : List Ir)
        → Keeps (walk_irs var show functions started values irs)
    unfolding walk_irs
    walk_irs-Keeps started values [] = search keeping
    walk_irs-Keeps started values (ir ∷ irs) =
        search (
          keeping,
          parse-Keeps var show,
          on_parsed-Keeps,
          walk_irs-Keeps started (return_of ir) irs,
        )

    on_node-Keeps :
        (walked : NodeWalked) (i : ℕ) (go : Option (List ℕ) → Effect Walked)
        → ((values : Option (List ℕ)) → Keeps (go values))
        → Keeps (on_node var show functions walked i go)
    on_node-Keeps (passed values) i go h = h values
    on_node-Keeps (halted children irs) i go h = search keeping

    walk_nodes-Keeps :
        (nodes : List PathNode) (i : ℕ) (values : Option (List ℕ))
        → Keeps (walk_nodes var show functions i values nodes)
    unfolding walk_nodes
    walk_nodes-Keeps [] i values = search keeping
    walk_nodes-Keeps (start_node function args ∷ rest) i values =
        search (keeping, enter-Keeps, walk_nodes-Keeps rest (i + 1) values)
    walk_nodes-Keeps (end_node call ∷ rest) i values =
        search (keeping, exit-Keeps, walk_nodes-Keeps rest (i + 1) values)
    walk_nodes-Keeps (irs_node irs ∷ rest) i values =
        search (keeping, walk_irs-Keeps, on_node-Keeps, walk_nodes-Keeps rest (i + 1))

    walk_path-Keeps :
        (all_paths : List (ℕ × List PathNode)) (path_id : ℕ) (entry : ℕ × List PathNode)
        (call_seen : Bool)
        → Keeps (walk_path var show functions all_paths path_id entry call_seen)
    unfolding walk_path
    walk_path-Keeps all_paths path_id (start_index, path) call_seen =
        search (keeping, walk_nodes-Keeps)

    -- When a path is walked up to its end or to a call, and every storage recorded as written was
    -- recorded as read before, it is so afterwards, no recorded name is lost, and no variable loses
    -- its context.
    pub walk_path-recorded :
        (all_paths : List (ℕ × List PathNode)) (path_id : ℕ) (entry : ℕ × List PathNode)
        (call_seen : Bool) (m m' : Memory) (walked : List (ℕ × List PathNode) × ℕ)
        → walk_path var show functions all_paths path_id entry call_seen m ≡ some (walked, m')
        → Included m.write_storages m.read_storages
        → Included m'.write_storages m'.read_storages
          × Included m.write_storages m'.write_storages
          × Included m.read_storages m'.read_storages
          × Held m m'
    unfolding Keeps
    walk_path-recorded all_paths path_id entry call_seen m m' walked e h =
        let g : Grows m m' = walk_path-Keeps all_paths path_id entry call_seen m m' walked e in
        (
          λ n w. elim (g.recorded n w) [ inl old ↦ g.reads n (h n old) | inr r ↦ r ],
          g.writes,
          g.reads,
          g.held,
        )
