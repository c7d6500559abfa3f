-- ===== src/Walker/Paths.antt =====
-- `ContractWalker.get_all_paths` (slither/tools/contract_abstract/contract/contract_walker.py) and the
-- nodes of contract/node.py that a path holds beside those of the control-flow graph. The graph is a
-- parameter: the sons of a node, and the comparison of nodes that `in` makes. The function and the
-- call that a StartNode and an EndNode carry are left out, as the search only hands them on.
use contract_abstract.Prelude.{
  ℕ, zero, suc, Bool, false, ◌||◌, Option, none, some, List, [], ◌∷◌, ◌++◌, if◌then◌else◌,
}

-- an element of a path
pub data Item {ℓ} (N : Type ℓ) : Type ℓ where
  start_node : Item N
  visit : N → Item N
  end_node : Item N

abbrev pub Route {ℓ} : Type ℓ → Type ℓ
Route N = List (Item N)

-- `all_paths` after the search, an IndexError, or a search that the fuel has not sufficed for
pub data Search {ℓ} (A : Type ℓ) : Type ℓ where
  found : A → Search A
  raised : Search A
  searching : Search A

module _ {ℓ} {N : Type ℓ} where
  -- what one call has appended before what the next one appends
  abbrev pub and_next : Search (List (Route N)) → Search (List (Route N)) → Search (List (Route N))
  and_next (found ps) (found qs) = found (ps ++ qs)
  and_next (found ps) raised = raised
  and_next (found ps) searching = searching
  and_next raised next = raised
  and_next searching next = searching

  -- `if len(son.sons) > 0`
  abbrev pub when_sons :
      List N → Search (List (Route N)) → Search (List (Route N)) → Search (List (Route N))
  when_sons [] skipped again = skipped
  when_sons (s ∷ ss) skipped again = again

  abbrev pub second : List N → Option N
  second [] = none
  second (a ∷ []) = none
  second (a ∷ b ∷ ns) = some b

  module _ (sons : N → List N) (same : N → N → Bool) where
    -- `son in path`
    unfoldable pub on_route : N → Route N → Bool
    on_route n [] = false
    on_route n (start_node ∷ rest) = on_route n rest
    on_route n (visit m ∷ rest) = same m n || on_route n rest
    on_route n (end_node ∷ rest) = on_route n rest

    -- The loop over the sons. A son that is on the path and has sons is appended to the path, for the
    -- sons behind it too, and its second son is followed.
    module _ (follow : N → Route N → Search (List (Route N))) where
      abbrev pub leave_loop : Option N → Route N → Search (List (Route N))
      leave_loop none route = raised
      leave_loop (some n) route = follow n route

      unfoldable pub each_son : List N → Route N → Search (List (Route N))
      unfolding on_route
      each_son [] route = found []
      each_son (son ∷ rest) route =
          let longer = route ++ visit son ∷ [] in
          let new = and_next (follow son route) (each_son rest route) in
          let again = and_next (leave_loop (second (sons son)) longer) (each_son rest longer) in
          let skipped = each_son rest route in
          if on_route son route then when_sons (sons son) skipped again else new

    abbrev pub at_sons : List N → Route N → Search (List (Route N)) → Search (List (Route N))
    at_sons [] route next = found ((route ++ end_node ∷ []) ∷ [])
    at_sons (s ∷ ss) route next = next

    unfoldable pub paths_from : ℕ → N → Route N → Search (List (Route N))
    unfolding each_son
    paths_from zero node route = searching
    paths_from (suc fuel) node route =
        let here = route ++ visit node ∷ [] in
        at_sons (sons node) here (each_son (λ n r. paths_from fuel n r) (sons node) here)

    -- from `function.entry_point`, None for a function without a body
    unfoldable pub get_all_paths : ℕ → Option N → Route N → Search (List (Route N))
    unfolding paths_from
    get_all_paths fuel none route = found ((route ++ end_node ∷ []) ∷ [])
    get_all_paths fuel (some node) route = paths_from fuel node route
