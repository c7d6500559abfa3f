-- ===== src/Walker/Splice.antt =====
-- How `ContractWalker.walk_path` puts the paths of a called function into the list of paths
-- (slither/tools/contract_abstract/contract/contract_walker.py). A path stands with the index at which
-- the walk of it goes on. `call_seen` is what `record_ir` answers for the call.
use contract_abstract.Prelude.{ℕ, ◌+◌, Bool, true, false, List, [], ◌∷◌, ◌++◌, take, drop}

module _ {ℓ} {Item : Type ℓ} where
  -- `filtered_child_paths`; `child_paths` is not empty
  abbrev pub filtered_child_paths : Bool → List (List Item) → List (List Item)
  filtered_child_paths call_seen [] = []
  filtered_child_paths true (first ∷ rest) = first ∷ []
  filtered_child_paths false (first ∷ rest) = first ∷ rest

  -- the path up to the call, through the called function, and on
  abbrev pub new_path : ℕ → List Item → List Item → List Item → List Item
  new_path next_start_index path remain child =
      take next_start_index path ++ (child ++ (remain ++ drop next_start_index path))

  -- the first goes on behind the call, the others start again
  abbrev pub restarted : List (List Item) → List (ℕ × List Item)
  restarted [] = []
  restarted (p ∷ ps) = (0, p) ∷ restarted ps

  abbrev pub with_indices : ℕ → List (List Item) → List (ℕ × List Item)
  with_indices next_start_index [] = []
  with_indices next_start_index (p ∷ ps) = (next_start_index, p) ∷ restarted ps

  abbrev pub new_paths : ℕ → List Item → List Item → List (List Item) → List (List Item)
  new_paths next_start_index path remain [] = []
  new_paths next_start_index path remain (child ∷ rest) =
      new_path next_start_index path remain child ∷ new_paths next_start_index path remain rest

  -- `new_all_paths_with_index`; `remain` is the RemainNode, if any
  unfoldable pub with_child_paths :
      List (ℕ × List Item)
      → ℕ
      → ℕ
      → List Item
      → List Item
      → Bool
      → List (List Item)
      → List (ℕ × List Item)
  with_child_paths all_paths_with_index path_id next_start_index path remain call_seen child_paths =
      take path_id all_paths_with_index
      ++ (with_indices next_start_index
            (new_paths next_start_index path remain (filtered_child_paths call_seen child_paths))
          ++ drop (path_id + 1) all_paths_with_index)
