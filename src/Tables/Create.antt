-- ===== src/Tables/Create.antt =====
-- The tables of a contract: `_get_struct_attributes`, `_get_mapping_attributes`,
-- `_get_array_attributes`, `create_table`, `create_table_for_mapping`, `create_table_for_array` and
-- `create_init_tables` of StorageInfo (slither/tools/contract_abstract/onchain/storage_info.py).
-- `none` is a raised exception.
use contract_abstract.Prelude.{
  ℕ, zero, suc, ◌+◌, ◌/◌, ◌%◌, Text, codes, Bool, true, false, not, ◌||◌, Option, none, some, List,
  [], ◌∷◌, ◌++◌, length, ltb, if◌then◌else◌,
}
use contract_abstract.Layout.Types.{◌>>=◌}
use contract_abstract.Layout.Meta.{
  Meta, Fields, simple, struct, static_array, dynamic_array, map, no_fields, field,
}
use contract_abstract.Tables.Columns.{
  Attribute, bigint, integer, text, varchar, add_simple_attribute,
}
use contract_abstract.Tables.Write.{is_member}

-- `str(n)`, with fuel for its digits
unfoldable pub decimal : ℕ → ℕ → Text
decimal zero n = []
decimal (suc fuel) n =
    let front = decimal fuel (n / 10) in
    if ltb n 10 then (b'0' + n) ∷ [] else front ++ (b'0' + n % 10) ∷ []

-- f"key{n}"
unfoldable pub key_name : ℕ → Text
unfolding decimal
key_name n = codes "key" ++ decimal (n + 1) n

-- The columns, and the names of the primary keys.
pub record Shape : Type 0 where
  pub attributes : List Attribute
  pub primary_keys : List Text

-- `CREATE TABLE IF NOT EXISTS`: the columns, and the primary keys, which stand at the column where
-- there is one only
pub record CreateTable : Type 0 where
  pub table_name : Text
  pub columns : List Attribute
  pub keys : List Text

-- a column that is no primary key
unfoldable pub has_meaning : List Attribute → List Text → Bool
unfolding is_member
has_meaning [] keys = false
has_meaning (a ∷ rest) keys = not (is_member a.0 keys) || has_meaning rest keys

-- the statement that is run, if any
unfoldable pub create_table : Text → Shape → Option CreateTable
unfolding has_meaning
create_table name shape =
    if has_meaning shape.attributes shape.primary_keys
    then some (record { table_name = name; columns = shape.attributes; keys = shape.primary_keys })
    else none

module _ (flag : Meta → Option Bool) where
  unfoldable pub get_struct_attributes : Fields → Text → Bool → List Attribute
  unfolding add_simple_attribute
  get_struct_attributes no_fields prefix read = []
  get_struct_attributes (field n (map k v) rest) prefix read =
      (prefix ++ n, text) ∷ get_struct_attributes rest prefix read
  get_struct_attributes (field n (struct s inner) rest) prefix read =
      get_struct_attributes inner (prefix ++ n ++ codes "__") read
      ++ get_struct_attributes rest prefix read
  get_struct_attributes (field n (static_array l e) rest) prefix read =
      (prefix ++ n, text) ∷ get_struct_attributes rest prefix read
  get_struct_attributes (field n (dynamic_array l e) rest) prefix read =
      (prefix ++ n, text) ∷ get_struct_attributes rest prefix read
  get_struct_attributes (field n (simple t size) rest) prefix read =
      add_simple_attribute flag (simple t size) n prefix read
      ++ get_struct_attributes rest prefix read

  abbrev pub add_columns : List Attribute → Shape → Shape
  add_columns more shape = record {
    attributes = shape.attributes ++ more;
    primary_keys = shape.primary_keys;
  }

  -- a further key, named by its place
  abbrev pub add_key : (Text → List Attribute) → Shape → Shape
  add_key column shape =
      let name = key_name (length shape.primary_keys + 1) in
      record {
        attributes = shape.attributes ++ column name;
        primary_keys = shape.primary_keys ++ name ∷ [];
      }

  -- of the mapping with this key and this value
  unfoldable pub get_mapping_attributes : Meta → Meta → Shape → Shape
  unfolding key_name add_simple_attribute get_struct_attributes
  get_mapping_attributes key (map k v) shape =
      get_mapping_attributes k v
        (add_key (λ name. add_simple_attribute flag key name [] true) shape)
  get_mapping_attributes key (struct s members) shape =
      add_columns (get_struct_attributes members [] true) shape
  get_mapping_attributes key (static_array l e) shape =
      add_columns (add_simple_attribute flag (static_array l e) (codes "value") [] true) shape
  get_mapping_attributes key (dynamic_array l e) shape =
      add_columns (add_simple_attribute flag (dynamic_array l e) (codes "value") [] true) shape
  get_mapping_attributes key (simple t size) shape =
      add_columns (add_simple_attribute flag (simple t size) (codes "value") [] true) shape

  -- of the array with this element type
  unfoldable pub get_array_attributes : Meta → Shape → Bool → Option Shape
  unfolding key_name add_simple_attribute get_struct_attributes
  get_array_attributes (map k v) shape read = none
  get_array_attributes (struct s members) shape read =
      some (add_columns (get_struct_attributes members [] read) shape)
  get_array_attributes (static_array l e) shape read =
      get_array_attributes e (add_key (λ name. (name, bigint) ∷ []) shape) read
  get_array_attributes (dynamic_array l e) shape read =
      get_array_attributes e (add_key (λ name. (name, bigint) ∷ []) shape) read
  get_array_attributes (simple t size) shape read =
      some (add_columns (add_simple_attribute flag (simple t size) (codes "value") [] read) shape)

  abbrev pub mapping_shape : Meta → Meta → Shape
  mapping_shape key value = get_mapping_attributes key value (record {
    attributes = add_simple_attribute flag key (codes "key1") [] true;
    primary_keys = codes "key1" ∷ [];
  })

  unfoldable pub create_table_for_mapping : Text → Meta → Meta → Option CreateTable
  unfolding create_table get_mapping_attributes
  create_table_for_mapping name key value = create_table name (mapping_shape key value)

  unfoldable pub create_table_for_array : Text → Meta → Bool → Option (Option CreateTable)
  unfolding create_table get_array_attributes
  create_table_for_array name element read =
      get_array_attributes element
        (record { attributes = (codes "key1", bigint) ∷ []; primary_keys = codes "key1" ∷ [] }) read
      >>= λ shape. some (create_table name shape)

  abbrev pub simple_table_name : Text
  simple_table_name = codes "simple_entities"

  -- One variable: the statement that is run for it, and the columns that it adds to the table of
  -- simple entities.
  unfoldable pub init_entity : Text → Meta → Option (Option CreateTable × List Attribute)
  unfolding create_table_for_mapping create_table_for_array
  init_entity name (map k v) = some (create_table_for_mapping name k v, [])
  init_entity name (struct s members) =
      some (none, get_struct_attributes members (name ++ codes "__") true)
  init_entity name (static_array l e) = create_table_for_array name e true >>= λ c. some (c, [])
  init_entity name (dynamic_array l e) = create_table_for_array name e true >>= λ c. some (c, [])
  init_entity name (simple t size) =
      some (none, add_simple_attribute flag (simple t size) name [] true)

  abbrev pub statements : Option CreateTable → List CreateTable
  statements none = []
  statements (some c) = c ∷ []

  -- The loop: the statements that are run, and the columns, none when a variable raises.
  unfoldable pub init_entities : List (Text × Meta) → List CreateTable × Option (List Attribute)
  unfolding init_entity
  init_entities [] = ([], some [])
  init_entities (entity ∷ rest) =
      let later = init_entities rest in
      elim (init_entity entity.0 entity.1) [
        | none ↦ ([], none)
        | some r ↦ (statements r.0 ++ later.0, later.1 >>= λ columns. some (r.1 ++ columns))
      ]

  -- the statements that are run, and whether the call returns
  unfoldable pub create_init_tables : List (Text × Meta) → List CreateTable × Bool
  unfolding init_entities create_table
  create_init_tables entities =
      let r = init_entities entities in
      elim r.1 [
        | none ↦ (r.0, false)
        | some columns ↦ (
          r.0
              ++ statements (
                  create_table simple_table_name (record {
                    attributes =
                        (codes "id", integer) ∷ columns
                        ++ (codes "block_number", bigint) ∷ (codes "block_hash", varchar 66) ∷ [];
                    primary_keys = codes "id" ∷ [];
                  })),
          true,
        )
      ]
