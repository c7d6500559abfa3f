-- ===== src/Layout/Struct.antt =====
-- `Entity.get_slot_info_for_structure` (slither/tools/contract_abstract/contract/entity.py).
use contract_abstract.Prelude.{
  ℕ, ◌+◌, ◌*◌, Text, text_eq, Option, none, some, [], ltb, if◌then◌else◌,
}
use contract_abstract.Layout.Meta.{
  Meta, Fields, simple, struct, static_array, dynamic_array, map, no_fields, field,
}

-- (slot, offset in bits, index); the index -1 of a field that is not there is `none`
pub record Found : Type 0 where
  pub slot : ℕ
  pub offset : ℕ
  pub index : Option ℕ

-- `if offset > 0: return (slot+1, 0, index) else: return (slot, 0, index)`
abbrev pub at_new_slot : ℕ → ℕ → Option ℕ → Found
at_new_slot slot offset index = record {
  slot = if ltb 0 offset then slot + 1 else slot;
  offset = 0;
  index = index;
}

-- The loop over the fields; `index` is that of the next field. A nested structure is walked for a
-- field named "", to get its size.
unfoldable pub walk_fields : Text → ℕ → ℕ → ℕ → Fields → Found
walk_fields name slot offset index no_fields = at_new_slot slot offset none
walk_fields name slot offset index (field n (struct s inner) rest) =
    let nested = walk_fields [] 0 0 0 inner in
    let later = walk_fields name (slot + nested.slot) 0 (index + 1) rest in
    if text_eq n name then at_new_slot slot offset (some index) else later
walk_fields name slot offset index (field n (static_array len e) rest) =
    let later = walk_fields name (slot + 1) 0 (index + 1) rest in
    if text_eq n name then at_new_slot slot offset (some index) else later
walk_fields name slot offset index (field n (dynamic_array len e) rest) =
    let later = walk_fields name (slot + 1) 0 (index + 1) rest in
    if text_eq n name then at_new_slot slot offset (some index) else later
walk_fields name slot offset index (field n (map k v) rest) =
    let later = walk_fields name (slot + 1) 0 (index + 1) rest in
    if text_eq n name then at_new_slot slot offset (some index) else later
walk_fields name slot offset index (field n (simple t bytes) rest) =
    let size = bytes * 8 in
    let fresh = walk_fields name (slot + 1) size (index + 1) rest in
    let packed = walk_fields name slot (offset + size) (index + 1) rest in
    if ltb 256 (size + offset)
    then (if text_eq n name
        then record { slot = slot + 1; offset = 0; index = some index }
        else fresh)
    else if text_eq n name
    then record { slot = slot; offset = offset; index = some index }
    else packed

-- The `assert` fails on another type.
unfoldable pub get_slot_info_for_structure : Meta → Text → Option Found
unfolding walk_fields
get_slot_info_for_structure (struct s fields) name = some (walk_fields name 0 0 0 fields)
get_slot_info_for_structure (simple t n) name = none
get_slot_info_for_structure (static_array n e) name = none
get_slot_info_for_structure (dynamic_array n e) name = none
get_slot_info_for_structure (map k v) name = none
