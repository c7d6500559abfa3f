-- ===== src/Layout/Contract.antt =====
-- `SlitherCompilationUnit._compute_storage_layout` and `storage_layout_of`
-- (slither/core/compilation_unit.py). The persistent and the transient layout of a contract are
-- two calls of it, on two lists of variables.
use contract_abstract.Prelude.{Text, text_eq, Option, none, some, List, [], ◌∷◌, if◌then◌else◌}
use contract_abstract.Layout.Types.{SolType, Place, storage_size, align, advance, ◌>>=◌}

-- (canonical name, type)
abbrev pub Variable : Type 0
Variable = Text × SolType

-- the dict from the canonical name to (slot, offset in bytes), in the order of insertion
abbrev pub Places : Type 0
Places = List (Text × Place)

unfoldable pub layout_from : Place → List Variable → Option Places
layout_from p [] = some []
layout_from p ((name, t) ∷ rest) = do
  size ← storage_size t
  places ← layout_from (advance (align p size) size) rest
  some ((name, align p size) ∷ places)

unfoldable pub compute_storage_layout : List Variable → Option Places
unfolding layout_from align advance
compute_storage_layout variables = layout_from (record { slot = 0; offset = 0 }) variables

-- A missing name raises `KeyError`. Canonical names are distinct, so the first entry is the only one.
unfoldable pub storage_layout_of : Text → Places → Option Place
storage_layout_of name [] = none
storage_layout_of name ((n, p) ∷ rest) =
    if text_eq n name then some p else storage_layout_of name rest
