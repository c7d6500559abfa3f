-- ===== src/Tables/Write.antt =====
-- `StorageInfo.write_elements_to_table` with `_insert_record` and `_update_record`. A table is the
-- list of its rows, a row a function from columns to values, `none` for NULL. Parameters: the
-- primary keys that the catalog gives, `same`, the database's `=` of two values, and `accepts`, its
-- check of the columns and types of a statement.
use contract_abstract.Prelude.{
  Text, text_eq, Bool, true, false, not, ◌&&◌, ◌||◌, Option, none, some, List, [], ◌∷◌, ◌++◌,
  if◌then◌else◌,
}

abbrev pub Record {ℓ} : Type ℓ → Type ℓ
Record V = Text → Option V

abbrev pub Attributes {ℓ} : Type ℓ → Type ℓ
Attributes V = List (Text × Option V)

-- `name in names`
unfoldable pub is_member : Text → List Text → Bool
is_member name [] = false
is_member name (n ∷ ns) = text_eq n name || is_member name ns

module _ {ℓ} {V : Type ℓ} where
  -- `attributes[name]`, none for a KeyError
  unfoldable pub value_of : Attributes V → Text → Option (Option V)
  value_of [] name = none
  value_of (a ∷ rest) name = if text_eq a.0 name then some a.1 else value_of rest name

  abbrev pub or_null : Option (Option V) → Option V
  or_null none = none
  or_null (some v) = v

  abbrev pub is_missing : Option (Option V) → Bool
  is_missing none = true
  is_missing (some v) = false

  -- `missing_keys` is not empty
  unfoldable pub any_missing : List Text → Attributes V → Bool
  unfolding value_of
  any_missing [] attributes = false
  any_missing (pk ∷ pks) attributes =
      is_missing (value_of attributes pk) || any_missing pks attributes

  -- the row of an INSERT: NULL in the other columns
  unfoldable pub row_of : Attributes V → Record V
  unfolding value_of
  row_of attributes name = or_null (value_of attributes name)

  unfoldable pub key_values : List Text → Record V → List (Option V)
  key_values [] row = []
  key_values (pk ∷ pks) row = row pk ∷ key_values pks row

  abbrev pub has_null : List (Option V) → Bool
  has_null [] = false
  has_null (none ∷ vs) = true
  has_null (some v ∷ vs) = has_null vs

  -- `non_pk_attributes` is empty
  unfoldable pub only_keys : List Text → Attributes V → Bool
  unfolding is_member
  only_keys pks [] = true
  only_keys pks (a ∷ rest) = is_member a.0 pks && only_keys pks rest

  abbrev pub set_to : Option (Option V) → Option V → Option V
  set_to none old = old
  set_to (some v) old = v

  -- a row after `UPDATE ... SET`, of the columns that are no primary keys
  unfoldable pub updated : List Text → Attributes V → Record V → Record V
  unfolding is_member value_of
  updated pks attributes row name =
      if is_member name pks then row name else set_to (value_of attributes name) (row name)

module _ {ℓ} {V : Type ℓ} (same : V → V → Bool) (accepts : Attributes V → Bool) where
  -- `pk = %s AND ...`; NULL is equal to nothing
  abbrev pub same_value : Option V → Option V → Bool
  same_value none b = false
  same_value (some a) none = false
  same_value (some a) (some b) = same a b

  abbrev pub same_key : List (Option V) → List (Option V) → Bool
  same_key [] [] = true
  same_key [] (b ∷ bs) = false
  same_key (a ∷ as₁) [] = false
  same_key (a ∷ as₁) (b ∷ bs) = same_value a b && same_key as₁ bs

  -- `SELECT COUNT(*) ... > 0`
  unfoldable pub exists_key : List Text → List (Option V) → List (Record V) → Bool
  unfolding key_values
  exists_key pks key [] = false
  exists_key pks key (row ∷ rows) = same_key (key_values pks row) key || exists_key pks key rows

  unfoldable pub update_rows :
      List Text → List (Option V) → Attributes V → List (Record V) → List (Record V)
  unfolding key_values updated
  update_rows pks key attributes [] = []
  update_rows pks key attributes (row ∷ rows) =
      let rest = update_rows pks key attributes rows in
      if same_key (key_values pks row) key then updated pks attributes row ∷ rest else row ∷ rest

  -- Outcomes: whether True is returned (false for an exception), and the table; an exception rolls
  -- back.
  unfoldable pub insert_record : List Text → Attributes V → List (Record V) → Bool × List (Record V)
  unfolding row_of key_values
  insert_record pks attributes table =
      if accepts attributes && not (has_null (key_values pks (row_of attributes)))
      then (true, table ++ row_of attributes ∷ [])
      else (false, table)

  unfoldable pub update_record : List Text → Attributes V → List (Record V) → Bool × List (Record V)
  unfolding only_keys update_rows row_of key_values
  update_record pks attributes table =
      if only_keys pks attributes
      then (true, table)
      else if accepts attributes
      then (true, update_rows pks (key_values pks (row_of attributes)) attributes table)
      else (false, table)

  unfoldable pub write_elements_to_table :
      List Text → Attributes V → List (Record V) → Bool × List (Record V)
  unfolding insert_record update_record exists_key any_missing
  write_elements_to_table [] attributes table = (false, table)
  write_elements_to_table (pk ∷ pks) attributes table =
      if any_missing (pk ∷ pks) attributes
      then (false, table)
      else if exists_key (pk ∷ pks) (key_values (pk ∷ pks) (row_of attributes)) table
      then update_record (pk ∷ pks) attributes table
      else insert_record (pk ∷ pks) attributes table
