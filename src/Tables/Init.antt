-- ===== src/Tables/Init.antt =====
-- The first filling of the tables: `_init_struct_entity`, `_init_array_entity` and
-- `_init_mapping_entity` of StorageInfo
-- (slither/tools/contract_abstract/onchain/storage_info.py). A run is the list of what is done to the
-- database and whether it ends without an exception. Parameters: `works`, whether an action meets no
-- exception (its value is read from the chain, and the database takes the statement); the length
-- that is read from a slot, none when the reading raises; and `keccak` of a slot number, as a number.
use contract_abstract.Prelude.{
  ℕ, zero, suc, ◌+◌, Text, codes, Bool, true, false, Option, none, some, List, [], ◌∷◌, ◌++◌, ◌==◌,
  if◌then◌else◌,
}
use contract_abstract.Layout.Types.{Place}
use contract_abstract.Layout.Meta.{
  Meta, Fields, simple, struct, static_array, dynamic_array, map, no_fields, field,
}
use contract_abstract.Layout.Struct.{walk_fields}
use contract_abstract.Tables.Create.{
  CreateTable, create_table_for_mapping, create_table_for_array, decimal,
}

-- the number of a slot, or the value of this type that is read at a place
pub data Source : Type 0 where
  slot_number : ℕ → Source
  value_at : Place → Meta → Source

-- `write_elements_to_table(table, {column: source, **keys})`, and a statement of `create_table`
pub data Action : Type 0 where
  write : Text → Text → Source → List (Text × ℕ) → Action
  make_table : Option CreateTable → Action

abbrev pub Run : Type 0
Run = List Action × Bool

abbrev pub finished : Run
finished = ([], true)

abbrev pub stopped : Run
stopped = ([], false)

-- one run behind another that has not raised
abbrev pub followed : Run → Run → Run
followed (actions, true) next = (actions ++ next.0, next.1)
followed (actions, false) next = (actions, false)

-- an action that works, with what follows it, or one that raises
abbrev pub attempted : Bool → Action → Run → Run
attempted true action next = (action ∷ next.0, next.1)
attempted false action next = stopped

abbrev pub acts : (Action → Bool) → List Action → Run → Run
acts works [] next = next
acts works (action ∷ actions) next = attempted (works action) action (acts works actions next)

-- the length of an array, where reading it does not raise
abbrev pub with_length : Option ℕ → (ℕ → Run) → Run
with_length none body = stopped
with_length (some n) body = body n

-- `"table_" + str(value)`
unfoldable pub table_of : ℕ → Text
unfolding decimal
table_of value = codes "table_" ++ decimal (value + 1) value

-- `for i in range(n)`, from `i` on
unfoldable pub for_range : ℕ → ℕ → (ℕ → Run) → Run
for_range zero i body = finished
for_range (suc n) i body = followed (body i) (for_range n (i + 1) body)

-- `assert index != -1`
abbrev pub with_index : Option ℕ → Run → Run
with_index none run = stopped
with_index (some i) run = run

module _ (works : Action → Bool) (flag : Meta → Option Bool) (length_at : Place → Option ℕ)
    (keccak : ℕ → ℕ) where
  abbrev pub make_array : Option (Option CreateTable) → Run → Run
  make_array none next = stopped
  make_array (some c) next = acts works (make_table c ∷ []) next

  unfoldable mutual
    unfolding walk_fields for_range table_of create_table_for_mapping create_table_for_array

    -- The loop over the fields, `whole` being all of them.
    pub init_fields : Fields → Fields → Text → Text → ℕ → List (Text × ℕ) → Run
    init_fields whole no_fields table prefix base keys = finished
    init_fields whole (field n (map k v) rest) table prefix base keys =
        let found = walk_fields n 0 0 0 whole in
        let value = base + found.slot in
        with_index found.index (
          acts works
            (write table (prefix ++ n) (slot_number value) keys
              ∷ make_table (create_table_for_mapping flag (table_of value) k v)
              ∷ [])
            (init_fields whole rest table prefix base keys))
    init_fields whole (field n (struct s inner) rest) table prefix base keys =
        let found = walk_fields n 0 0 0 whole in
        with_index found.index (
          followed
            (init_fields inner inner table (prefix ++ n ++ codes "__") (base + found.slot) keys)
            (init_fields whole rest table prefix base keys))
    init_fields whole (field n (static_array l e) rest) table prefix base keys =
        let found = walk_fields n 0 0 0 whole in
        let value = base + found.slot in
        with_index found.index (
          acts works (write table (prefix ++ n) (slot_number value) keys ∷ []) (
            followed
              (make_array (create_table_for_array flag (table_of value) e true)
                (init_array e (table_of value) (record { slot = value; offset = 0 })))
              (init_fields whole rest table prefix base keys)))
    init_fields whole (field n (dynamic_array l e) rest) table prefix base keys =
        let found = walk_fields n 0 0 0 whole in
        let value = base + found.slot in
        with_index found.index (
          acts works (write table (prefix ++ n) (slot_number value) keys ∷ []) (
            followed
              (make_array (create_table_for_array flag (table_of value) e true)
                (init_array e (table_of value) (record { slot = value; offset = 0 })))
              (init_fields whole rest table prefix base keys)))
    init_fields whole (field n (simple t size) rest) table prefix base keys =
        let found = walk_fields n 0 0 0 whole in
        with_index found.index (
          acts works
            (write table (prefix ++ n)
                (value_at (record { slot = base + found.slot; offset = found.offset })
                  (simple t size))
                keys
              ∷ [])
            (init_fields whole rest table prefix base keys))

    -- of the array with this element type
    pub init_array : Meta → Text → Place → Run
    init_array (map k v) table p = stopped
    init_array (static_array l e) table p = stopped
    init_array (dynamic_array l e) table p = stopped
    init_array (struct s members) table p =
        let first = keccak p.slot in
        let all = with_length (length_at p) λ n.
          for_range n 0
            (λ i. init_fields members members table [] (first + i) ((codes "key1", i) ∷ [])) in
        if p.offset == 0 then all else stopped
    init_array (simple t size) table p =
        let first = keccak p.slot in
        let all = with_length (length_at p) λ n. for_range n 0 (λ i.
          acts works
            (write table (codes "value")
                (value_at (record { slot = first + i; offset = 0 }) (simple t size))
                ((codes "key1", i) ∷ [])
              ∷ [])
            finished) in
        if p.offset == 0 then all else stopped

  -- `_init_struct_entity`
  unfoldable pub init_struct_entity : Fields → Text → Text → Place → List (Text × ℕ) → Run
  unfolding init_fields
  init_struct_entity members table prefix base_slot keys =
      init_fields members members table prefix base_slot.slot keys
