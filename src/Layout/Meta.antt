-- ===== src/Layout/Meta.antt =====
-- The type dicts {"dataType", "dataMeta"} of a manifest, and `Entity._get_type_structure`
-- (slither/tools/contract_abstract/contract/entity.py). `none` is a raised exception.
use contract_abstract.Prelude.{ℕ, Text, Option, none, some}
use contract_abstract.Layout.Types.{
  SolType, Elems, elementary, array, mapping, contract, enumeration, structure, function, no_elems,
  elem, elementary_storage_size, ◌>>=◌,
}

-- `simple` has the "dataType" of an elementary type and its "size" in bytes. A "dynamicArray" is
-- never written by `_get_type_structure`; its "length" may be missing.
mutual
  pub data Meta : Type 0 where
    simple : Text → ℕ → Meta
    struct : Text → Fields → Meta
    static_array : ℕ → Meta → Meta
    dynamic_array : Option ℕ → Meta → Meta
    map : Meta → Meta → Meta

  pub data Fields : Type 0 where
    no_fields : Fields
    field : Text → Meta → Fields → Fields

unfoldable mutual
  unfolding elementary_storage_size

  pub get_type_structure : SolType → Option Meta
  get_type_structure (elementary t) = do
    size ← elementary_storage_size t
    some (simple t size.bytes)
  get_type_structure (array t none) = none
  get_type_structure (array t (some n)) = do
    element ← get_type_structure t
    some (static_array n element)
  get_type_structure (mapping k v) = do
    key ← get_type_structure k
    value ← get_type_structure v
    some (map key value)
  get_type_structure contract = none
  get_type_structure (enumeration n) = none
  get_type_structure (structure name elems) = do
    fields ← get_fields elems
    some (struct name fields)
  get_type_structure function = none

  -- the loop over `elems_ordered`
  pub get_fields : Elems → Option Fields
  get_fields no_elems = some no_fields
  get_fields (elem name t rest) = do
    meta ← get_type_structure t
    fields ← get_fields rest
    some (field name meta fields)
