-- ===== src/Parser/Names.antt =====
-- `_recursive_add_storage` of SlitherIRParser
-- (slither/tools/contract_abstract/contract/slitherir_parser.py): the names in a storage value. The
-- recursion into lists is on fuel, twice the number of objects and one, which only a list that holds
-- itself exceeds; Python raises there too.
use contract_abstract.Prelude.{ℕ, zero, suc, ◌+◌, Text, Option, none, some, List, [], ◌∷◌, ◌++◌}
use contract_abstract.Layout.Types.{◌>>=◌}
use contract_abstract.Parser.Memory.{
  Value, nothing, str_value, set_value, list_at, Cell, Memory, as_list, add_name,
}

unfoldable mutual
  pub names_from : (ℕ → Option Cell) → ℕ → Value → Option (List Text)
  names_from cell zero v = none
  names_from cell (suc fuel) nothing = some []
  names_from cell (suc fuel) (str_value s) = some (s ∷ [])
  names_from cell (suc fuel) (set_value ts) = some []
  names_from cell (suc fuel) (list_at p) = as_list (cell p) >>= λ vs. names_in cell fuel vs

  pub names_in : (ℕ → Option Cell) → ℕ → List Value → Option (List Text)
  names_in cell fuel [] = some []
  names_in cell zero (v ∷ vs) = none
  names_in cell (suc fuel) (v ∷ vs) =
      names_from cell fuel v >>= λ ns. names_in cell (suc fuel) vs >>= λ rest. some (ns ++ rest)

-- of a storage value in a memory
unfoldable pub names_of : Memory → Value → Option (List Text)
unfolding names_from
names_of m v = names_from m.cell (suc (m.next + m.next)) v

unfoldable pub add_names : List Text → List Text → List Text
unfolding add_name
add_names [] names = names
add_names (n ∷ ns) names = add_names ns (add_name n names)
