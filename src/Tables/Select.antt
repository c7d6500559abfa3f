-- ===== src/Tables/Select.antt =====
-- `StorageInfo.read_elements_from_table`: the WHERE clause that is built from a selector, and the
-- query. A value is `none` for None and NULL. The test of two values by an operator is the
-- database's, a parameter; a test against NULL is never true. Parameter `accepts_query` is the
-- database's check of the columns that are asked for, the conditions and the parameters: it refuses
-- an unknown column or a value of another type. `none` as an outcome is a raised exception.
use contract_abstract.Prelude.{
  ℕ, Text, codes, text_eq, Bool, true, false, not, ◌&&◌, ◌||◌, Option, none, some, List, [], ◌∷◌,
  ◌++◌, length, take, drop, if◌then◌else◌,
}
use contract_abstract.Layout.Types.{◌>>=◌}

pub data Op : Type 0 where
  gt lt ge le ne like eq : Op

-- `op in [">", "<", ">=", "<=", "!=", "LIKE"]`
unfoldable pub op_of : Text → Option Op
op_of t =
    if text_eq t (codes ">")
    then some gt
    else if text_eq t (codes "<")
    then some lt
    else if text_eq t (codes ">=")
    then some ge
    else if text_eq t (codes "<=")
    then some le
    else if text_eq t (codes "!=")
    then some ne
    else if text_eq t (codes "LIKE")
    then some like
    else none

-- A value of the selector: a dict by the first key that the code asks for, a list, or a value. An
-- "op" dict may lack its "value"; "in" and "not_in" may hold something else than a list.
pub data Criterion {ℓ} (V : Type ℓ) : Type ℓ where
  op_dict : Text → Option (Option V) → Criterion V
  range_dict : List (Option V) → Criterion V
  between_dict : List (Option V) → Criterion V
  in_dict : Option (List (Option V)) → Criterion V
  not_in_dict : Option (List (Option V)) → Criterion V
  is_null_dict : Bool → Criterion V
  is_not_null_dict : Bool → Criterion V
  other_dict : Criterion V
  listed : List (Option V) → Criterion V
  scalar : Option V → Criterion V

-- A condition of the clause, with one `%s` for an operator, two for BETWEEN and n for a list.
pub data Clause : Type 0 where
  compare_with : Op → Clause
  is_between : Clause
  is_in : ℕ → Clause
  is_not_in : ℕ → Clause
  null_test : Bool → Clause

-- the conditions, each on a column, and the parameters
abbrev pub Built {ℓ} : Type ℓ → Type ℓ
Built V = List (Text × Clause) × List (Option V)

abbrev pub one {ℓ} : {V : Type ℓ} → Text → Clause → List (Option V) → Option (Built V)
one key c ps = some ((key, c) ∷ [], ps)

module _ {ℓ} {V : Type ℓ} where
  -- the two halves of a "range", of which None is left out
  abbrev pub range_part : Text → Op → Option V → Built V
  range_part key op none = ([], [])
  range_part key op (some v) = ((key, compare_with op) ∷ [], some v ∷ [])

  -- the body of the loop: what one entry adds
  unfoldable pub criterion_of : Text → Criterion V → Option (Built V)
  unfolding op_of
  criterion_of key (op_dict t none) = none
  criterion_of key (op_dict t (some v)) = op_of t >>= λ op. one key (compare_with op) (v ∷ [])
  criterion_of key (range_dict (a ∷ b ∷ [])) =
      let low = range_part key ge a in
      let high = range_part key le b in some (low.0 ++ high.0, low.1 ++ high.1)
  criterion_of key (range_dict vs) = none
  criterion_of key (between_dict (a ∷ b ∷ [])) = one key is_between (a ∷ b ∷ [])
  criterion_of key (between_dict vs) = none
  criterion_of key (in_dict none) = none
  criterion_of key (in_dict (some [])) = none
  criterion_of key (in_dict (some (v ∷ vs))) = one key (is_in (length (v ∷ vs))) (v ∷ vs)
  criterion_of key (not_in_dict none) = none
  criterion_of key (not_in_dict (some [])) = none
  criterion_of key (not_in_dict (some (v ∷ vs))) = one key (is_not_in (length (v ∷ vs))) (v ∷ vs)
  criterion_of key (is_null_dict b) = one key (null_test b) []
  criterion_of key (is_not_null_dict b) = one key (null_test (not b)) []
  criterion_of key other_dict = none
  criterion_of key (listed []) = some ([], [])
  criterion_of key (listed (v ∷ vs)) = one key (is_in (length (v ∷ vs))) (v ∷ vs)
  criterion_of key (scalar v) = one key (compare_with eq) (v ∷ [])

  -- the loop over `selector.items()`
  unfoldable pub build_where : List (Text × Criterion V) → Option (Built V)
  unfolding criterion_of
  build_where [] = some ([], [])
  build_where (entry ∷ rest) = criterion_of entry.0 entry.1 >>= λ here.
      build_where rest >>= λ later. some (here.0 ++ later.0, here.1 ++ later.1)

module _ {ℓ} {V : Type ℓ} (test : Op → V → V → Bool) where
  abbrev pub holds : Op → Option V → Option V → Bool
  holds op none b = false
  holds op (some a) none = false
  holds op (some a) (some b) = test op a b

  abbrev pub any_equal : Option V → List (Option V) → Bool
  any_equal a [] = false
  any_equal a (v ∷ vs) = holds eq a v || any_equal a vs

  abbrev pub all_differ : Option V → List (Option V) → Bool
  all_differ a [] = true
  all_differ a (v ∷ vs) = holds ne a v && all_differ a vs

  abbrev pub null_is : Bool → Option V → Bool
  null_is b none = b
  null_is b (some a) = not b

  abbrev pub arity : Clause → ℕ
  arity (compare_with op) = 1
  arity is_between = 2
  arity (is_in n) = n
  arity (is_not_in n) = n
  arity (null_test b) = 0

  -- the condition with its parameters; no condition meets another number of them
  abbrev pub clause_holds : Clause → Option V → List (Option V) → Bool
  clause_holds (compare_with op) a (v ∷ []) = holds op a v
  clause_holds (compare_with op) a vs = false
  clause_holds is_between a (low ∷ high ∷ []) = holds ge a low && holds le a high
  clause_holds is_between a vs = false
  clause_holds (is_in n) a vs = any_equal a vs
  clause_holds (is_not_in n) a vs = all_differ a vs
  clause_holds (null_test b) a vs = null_is b a

  -- How the database reads the clause: conditions joined by AND take their parameters in order.
  unfoldable pub where_holds : List (Text × Clause) → List (Option V) → (Text → Option V) → Bool
  where_holds [] params row = true
  where_holds (c ∷ cs) params row =
      clause_holds c.1 (row c.0) (take (arity c.1) params)
      && where_holds cs (drop (arity c.1) params) row

  -- the rows that the WHERE clause leaves
  unfoldable pub rows_where :
      List (Text × Clause) → List (Option V) → List (Text → Option V) → List (Text → Option V)
  unfolding where_holds
  rows_where cs params [] = []
  rows_where cs params (row ∷ rows) =
      let rest = rows_where cs params rows in if where_holds cs params row then row ∷ rest else rest

  abbrev pub columns_of : List Text → List Text → List Text
  columns_of [] all = all
  columns_of (name ∷ names) all = name ∷ names

  abbrev pub row_dict : List Text → (Text → Option V) → List (Text × Option V)
  row_dict [] row = []
  row_dict (name ∷ names) row = (name, row name) ∷ row_dict names row

  abbrev pub row_dicts : List Text → List (Text → Option V) → List (List (Text × Option V))
  row_dicts names [] = []
  row_dicts names (row ∷ rows) = row_dict names row ∷ row_dicts names rows

  -- `all_columns` is `cursor.description`; a query that the database refuses raises
  unfoldable pub read_elements_from_table :
      (List Text → List (Text × Clause) → List (Option V) → Bool)
      → List Text
      → List (Text → Option V)
      → List Text
      → List (Text × Criterion V)
      → Option (List (List (Text × Option V)))
  unfolding build_where rows_where
  read_elements_from_table accepts_query all_columns table attribute_names selector =
      build_where selector >>= λ built.
      if accepts_query attribute_names built.0 built.1
      then some
          (row_dicts (columns_of attribute_names all_columns) (rows_where built.0 built.1 table))
      else none
