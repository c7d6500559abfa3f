-- ===== src/Tables/Meaning.antt =====
-- What a selector means, apart from SQL.
use contract_abstract.Prelude.{
  Text, Bool, true, false, not, ◌&&◌, Option, none, some, List, [], ◌∷◌, if◌then◌else◌,
}
use contract_abstract.Tables.Select.{
  Op, ge, le, eq, op_of, Criterion, op_dict, range_dict, between_dict, in_dict, not_in_dict,
  is_null_dict, is_not_null_dict, other_dict, listed, scalar, holds, any_equal, all_differ, null_is,
}

abbrev pub is_op : Option Op → Bool
is_op none = false
is_op (some op) = true

module _ {ℓ} {V : Type ℓ} where
  -- the entries that the query is built from; another one raises
  unfoldable pub is_fine : Criterion V → Bool
  unfolding op_of
  is_fine (op_dict t none) = false
  is_fine (op_dict t (some v)) = is_op (op_of t)
  is_fine (range_dict (a ∷ b ∷ [])) = true
  is_fine (range_dict vs) = false
  is_fine (between_dict (a ∷ b ∷ [])) = true
  is_fine (between_dict vs) = false
  is_fine (in_dict (some (v ∷ vs))) = true
  is_fine (in_dict vs) = false
  is_fine (not_in_dict (some (v ∷ vs))) = true
  is_fine (not_in_dict vs) = false
  is_fine other_dict = false
  is_fine c = true

  unfoldable pub all_fine : List (Text × Criterion V) → Bool
  unfolding is_fine
  all_fine [] = true
  all_fine (entry ∷ rest) = is_fine entry.1 && all_fine rest

  module _ (test : Op → V → V → Bool) where
    abbrev pub bounded : Op → Option V → Option V → Bool
    bounded op a none = true
    bounded op a (some v) = holds test op a (some v)

    abbrev pub by_op : Option Op → Option V → Option V → Bool
    by_op none a v = false
    by_op (some op) a v = holds test op a v

    -- whether the value of the column is one that the entry asks for
    unfoldable pub matches : Criterion V → Option V → Bool
    unfolding op_of
    matches (op_dict t none) a = false
    matches (op_dict t (some v)) a = by_op (op_of t) a v
    matches (range_dict (low ∷ high ∷ [])) a = bounded ge a low && bounded le a high
    matches (range_dict vs) a = false
    matches (between_dict (low ∷ high ∷ [])) a = holds test ge a low && holds test le a high
    matches (between_dict vs) a = false
    matches (in_dict none) a = false
    matches (in_dict (some vs)) a = any_equal test a vs
    matches (not_in_dict none) a = false
    matches (not_in_dict (some vs)) a = all_differ test a vs
    matches (is_null_dict b) a = null_is test b a
    matches (is_not_null_dict b) a = null_is test (not b) a
    matches other_dict a = false
    matches (listed []) a = true
    matches (listed (v ∷ vs)) a = any_equal test a (v ∷ vs)
    matches (scalar v) a = holds test eq a v

    unfoldable pub all_match : List (Text × Criterion V) → (Text → Option V) → Bool
    unfolding matches
    all_match [] row = true
    all_match (entry ∷ rest) row = matches entry.1 (row entry.0) && all_match rest row

    unfoldable pub select :
        List (Text × Criterion V) → List (Text → Option V) → List (Text → Option V)
    unfolding all_match
    select selector [] = []
    select selector (row ∷ rows) =
        let rest = select selector rows in if all_match selector row then row ∷ rest else rest
