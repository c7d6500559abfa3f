-- ===== src/Tables/Examples.antt =====
-- The storage tables on small data, and the theorems at it.
use contract_abstract.Prelude.{
  ℕ, ◌*◌, ◌+◌, ◌^◌, ◌-◌, ◌≡◌, ◌↔◌, refl, ◌==◌, Text, codes, text_eq, Bool, true, false, Option,
  none, some, List, [], ◌∷◌, ◌++◌, ◌&&◌, ◌||◌, leb, ltb, arith, if◌then◌else◌,
}
use contract_abstract.Prelude.Int.{pos}
use contract_abstract.Layout.Types.{Place}
use contract_abstract.Layout.Meta.{
  Meta, Fields, simple, struct, dynamic_array, map, no_fields, field,
}
use contract_abstract.Layout.Slot.{data_type}
use contract_abstract.Tables.Select.{
  Op, gt, lt, ge, le, ne, like, eq, Criterion, Clause, op_dict, in_dict, read_elements_from_table,
}
use contract_abstract.Tables.Meaning.{all_fine}
use contract_abstract.Tables.Selected.{Reads, read_elements_from_table-select}
use contract_abstract.Tables.Write.{Attributes, write_elements_to_table}
use contract_abstract.Tables.Pinned.{Leaves, write_elements_to_table_lem}
use contract_abstract.Tables.Columns.{
  Attribute, column_of, extract_number, bits_to_numeric, int_column,
}
use contract_abstract.Tables.Create.{key_name, mapping_shape}
use contract_abstract.Tables.Fits
use contract_abstract.Tables.Fits.{IsStored, IsOfSize, int_column-Holds, int_column-greatest}
use contract_abstract.Tables.KeyColumns.{
  outer_keys, key_columns, key_names, mapping_shape-outer_keys,
}
use contract_abstract.Tables.Start.{init_syn_storage}
use contract_abstract.Tables.Wanted.{key}
use contract_abstract.Tables.Init.{Action, write, make_table, init_struct_entity}

-- numbers at the end of a type, and columns
extract_number_uint256 : extract_number (codes "uint256") ≡ some 256
unfolding extract_number
extract_number_uint256 = refl

extract_number_inside : extract_number (codes "uint8[2]") ≡ none
unfolding extract_number
extract_number_inside = refl

bits_to_numeric_256 : bits_to_numeric 256 false ≡ 78
unfolding bits_to_numeric
bits_to_numeric_256 = refl

key_name_12 : key_name 12 ≡ codes "key12"
unfolding key_name
key_name_12 = refl

int_column-greatest_example :
    Fits.Holds (int_column (some 16) false) (pos (2 ^ 16 - 1)) ↔ IsStored 16 false
int_column-greatest_example = int_column-greatest 16

-- a database of numbers
abbrev test : Op → ℕ → ℕ → Bool
test gt a b = ltb b a
test lt a b = ltb a b
test ge a b = leb b a
test le a b = leb a b
test ne a b = if a == b then false else true
test like a b = a == b
test eq a b = a == b

abbrev row : ℕ → Option ℕ → Text → Option ℕ
row id amount name =
    if text_eq name (codes "id")
    then some id
    else if text_eq name (codes "amount")
    then amount
    else none

abbrev table : List (Text → Option ℕ)
table = row 1 (some 30) ∷ row 2 none ∷ row 3 (some 10) ∷ row 4 (some 50) ∷ []

abbrev selector : List (Text × Criterion ℕ)
selector =
    (codes "amount", op_dict (codes ">") (some (some 9)))
    ∷ (codes "id", in_dict (some (some 1 ∷ some 3 ∷ [])))
    ∷ []

abbrev is_column : Text → Bool
is_column name = text_eq name (codes "id") || text_eq name (codes "amount")

abbrev are_columns : List Text → Bool
are_columns [] = true
are_columns (name ∷ names) = is_column name && are_columns names

abbrev are_tested : List (Text × Clause) → Bool
are_tested [] = true
are_tested (c ∷ cs) = is_column c.0 && are_tested cs

abbrev accepts_query : List Text → List (Text × Clause) → List (Option ℕ) → Bool
accepts_query names conditions params = are_columns names && are_tested conditions

read_elements_from_table-select_example :
    Reads test accepts_query
      (codes "id" ∷ codes "amount" ∷ [])
      table
      (codes "id" ∷ [])
      selector
      (all_fine selector)
read_elements_from_table-select_example =
    read_elements_from_table-select test accepts_query (codes "id" ∷ codes "amount" ∷ []) table
      (codes "id" ∷ []) selector

read_some_ids :
    read_elements_from_table test accepts_query
      (codes "id" ∷ codes "amount" ∷ [])
      table
      (codes "id" ∷ [])
      selector
    ≡ some (((codes "id", some 1) ∷ []) ∷ ((codes "id", some 3) ∷ []) ∷ [])
unfolding read_elements_from_table text_eq
read_some_ids = refl

read_unknown_column :
    read_elements_from_table test accepts_query
      (codes "id" ∷ codes "amount" ∷ [])
      table
      (codes "name" ∷ [])
      selector
    ≡ none
unfolding read_elements_from_table text_eq
read_unknown_column = refl

abbrev accepts : Attributes ℕ → Bool
accepts attributes = true

abbrev same : ℕ → ℕ → Bool
same a b = a == b

same_iff : (a b : ℕ) → (same a b ≡ true) ↔ (a ≡ b)
same_iff a b = ground arith

abbrev change : Attributes ℕ
change = (codes "amount", some 70) ∷ (codes "id", some 3) ∷ []

write_elements_to_table_example :
    Leaves same accepts same_iff
      (codes "id" ∷ [])
      change
      table
      (write_elements_to_table same accepts (codes "id" ∷ []) change table)
write_elements_to_table_example =
    write_elements_to_table_lem same accepts same_iff (codes "id" ∷ []) change table

abbrev flag : Meta → Option Bool
flag m = none

abbrev address : Meta
address = simple (codes "address") 20

abbrev uint256 : Meta
uint256 = simple (codes "uint256") 32

mapping_shape-outer_keys_example :
    ((values : List Attribute) × ((mapping_shape flag address (map uint256 uint256)).attributes
        ≡ (codes "key1", column_of (data_type address))
          ∷ (key_columns 2 (outer_keys address (map uint256 uint256)) ++ values)))
    × ((mapping_shape flag address (map uint256 uint256)).primary_keys
        ≡ codes "key1" ∷ key_names 2 (outer_keys address (map uint256 uint256)))
mapping_shape-outer_keys_example = mapping_shape-outer_keys flag address (map uint256 uint256)

-- a structure with an array
abbrev members : Fields
members = field (codes "owner") address (field (codes "ids") (dynamic_array none uint256) no_fields)

abbrev two_at : Place → Option ℕ
two_at p = some 2

abbrev works : Action → Bool
works action = true

-- the database refuses every row
abbrev only_tables : Action → Bool
only_tables (write name column source keys) = false
only_tables (make_table t) = true

abbrev hash_of : ℕ → ℕ
hash_of n = n * 1000

refused_filling :
    init_struct_entity only_tables flag two_at hash_of members
      (codes "simple_entities")
      []
      (record { slot = 5; offset = 0 })
      []
    ≡ ([], false)
unfolding init_struct_entity text_eq
refused_filling = refl

abbrev no_slot : Text → ℕ → ℕ → Option ℕ
no_slot type k slot = some (k + slot)

abbrev at_five : Place
at_five = record { slot = 5; offset = 0 }

-- one key of a mapping to a structure, which is filled
filled_mapping :
    (init_syn_storage works flag two_at hash_of no_slot
      ((codes "users", key 7 ∷ []) ∷ [])
      ((codes "users", (at_five, map address (struct (codes "User") members))) ∷ [])).1
    ≡ true
unfolding init_syn_storage text_eq
filled_mapping = refl

-- a variable of a simple type ends it
simple_variable :
    (init_syn_storage works flag two_at hash_of no_slot []
      ((codes "total", (at_five, uint256)) ∷ [])).1
    ≡ false
unfolding init_syn_storage
simple_variable = refl
