-- ===== src/Tables/Filled.antt =====
-- The columns that are created for a structure are the columns that are filled.
use contract_abstract.Prelude.{
  ℕ, ◌+◌, ◌≡◌, refl, ◌⊎◌, inl, inr, Text, codes, Bool, true, false, Option, none, some, List, [],
  ◌∷◌, ◌++◌,
}
use contract_abstract.Layout.Types.{Place}
use contract_abstract.Layout.Meta.{
  Meta, Fields, simple, struct, static_array, dynamic_array, map, no_fields, field,
}
use contract_abstract.Layout.Struct.{walk_fields}
use contract_abstract.Layout.Slot.{data_type}
use contract_abstract.Tables.Columns.{SqlType, text, column_of, Attribute, add_simple_attribute}
use contract_abstract.Tables.Create.{
  create_table_for_mapping, create_table_for_array, get_struct_attributes,
}
use contract_abstract.Tables.Init.{
  Source, slot_number, value_at, Action, write, attempted, make_table, Run, followed, acts,
  with_index, table_of, make_array, init_fields, init_array, init_struct_entity,
}

-- the column of the table is written
abbrev pub IsFilled : Text → Text → List Action → Type 0
IsFilled table column [] = ⊥
IsFilled table column (write t c source keys ∷ rest) =
    ((t ≡ table) × (c ≡ column)) ⊎ IsFilled table column rest
IsFilled table column (make_table t ∷ rest) = IsFilled table column rest

abbrev pub AllFilled : Text → List Attribute → List Action → Type 0
AllFilled table [] actions = Unit
AllFilled table (a ∷ rest) actions = IsFilled table a.0 actions × AllFilled table rest actions

IsFilled-left :
    (table column : Text) (xs ys : List Action)
    → IsFilled table column xs
    → IsFilled table column (xs ++ ys)
IsFilled-left table column [] ys h = elim h [ ]
IsFilled-left table column (write t c source keys ∷ xs) ys (inl e) = inl e
IsFilled-left table column (write t c source keys ∷ xs) ys (inr h) =
    inr (IsFilled-left table column xs ys h)
IsFilled-left table column (make_table t ∷ xs) ys h = IsFilled-left table column xs ys h

IsFilled-right :
    (table column : Text) (xs ys : List Action)
    → IsFilled table column ys
    → IsFilled table column (xs ++ ys)
IsFilled-right table column [] ys h = h
IsFilled-right table column (write t c source keys ∷ xs) ys h =
    inr (IsFilled-right table column xs ys h)
IsFilled-right table column (make_table t ∷ xs) ys h = IsFilled-right table column xs ys h

AllFilled-left :
    (table : Text) (cs : List Attribute) (xs ys : List Action)
    → AllFilled table cs xs
    → AllFilled table cs (xs ++ ys)
AllFilled-left table [] xs ys h = tt
AllFilled-left table (c ∷ cs) xs ys (h, hs) =
    (IsFilled-left table c.0 xs ys h, AllFilled-left table cs xs ys hs)

AllFilled-right :
    (table : Text) (cs : List Attribute) (xs ys : List Action)
    → AllFilled table cs ys
    → AllFilled table cs (xs ++ ys)
AllFilled-right table [] xs ys h = tt
AllFilled-right table (c ∷ cs) xs ys (h, hs) =
    (IsFilled-right table c.0 xs ys h, AllFilled-right table cs xs ys hs)

AllFilled-append :
    (table : Text) (as₁ bs : List Attribute) (xs : List Action)
    → AllFilled table as₁ xs
    → AllFilled table bs xs
    → AllFilled table (as₁ ++ bs) xs
AllFilled-append table [] bs xs h k = k
AllFilled-append table (a ∷ as₁) bs xs (h, hs) k = (h, AllFilled-append table as₁ bs xs hs k)

-- a run that ends has filled the columns
abbrev pub Fills : Text → List Attribute → Run → Type 0
Fills table cs run = run.1 ≡ true → AllFilled table cs run.0

Fills-followed :
    (table : Text) (as₁ bs : List Attribute) (first next : Run)
    → Fills table as₁ first
    → Fills table bs next
    → Fills table (as₁ ++ bs) (followed first next)
Fills-followed table as₁ bs (xs, true) next h k e =
    AllFilled-append table as₁ bs (xs ++ next.0) (AllFilled-left table as₁ xs next.0 (h refl))
      (AllFilled-right table bs xs next.0 (k e))
Fills-followed table as₁ bs (xs, false) next h k e = cc e

-- nothing is asked of the run in front
Fills-behind :
    (table : Text) (cs : List Attribute) (first next : Run)
    → Fills table cs next
    → Fills table cs (followed first next)
Fills-behind table cs (xs, true) next k e = AllFilled-right table cs xs next.0 (k e)
Fills-behind table cs (xs, false) next k e = cc e

Fills-attempted :
    (table : Text) (cs : List Attribute) (b : Bool) (action : Action) (next : Run)
    → Fills table cs next
    → Fills table cs (attempted b action next)
Fills-attempted table cs true action next h e = AllFilled-right table cs (action ∷ []) next.0 (h e)
Fills-attempted table cs false action next h e = cc e

Fills-acts :
    (works : Action → Bool) (table : Text) (cs : List Attribute) (actions : List Action)
    (next : Run)
    → Fills table cs next
    → Fills table cs (acts works actions next)
Fills-acts works table cs [] next h = h
Fills-acts works table cs (action ∷ actions) next h =
    Fills-attempted table cs (works action) action (acts works actions next)
      (Fills-acts works table cs actions next h)

Fills-written :
    (table name : Text) (type : SqlType) (source : Source) (keys : List (Text × ℕ))
    (cs : List Attribute) (b : Bool) (next : Run)
    → Fills table cs next
    → Fills table ((name, type) ∷ cs) (attempted b (write table name source keys) next)
Fills-written table name type source keys cs true next k e =
    (inl (refl, refl), AllFilled-right table cs (write table name source keys ∷ []) next.0 (k e))
Fills-written table name type source keys cs false next k e = cc e

-- a column that is written first, and others
Fills-write :
    (works : Action → Bool) (table name : Text) (type : SqlType) (source : Source)
    (keys : List (Text × ℕ)) (cs : List Attribute) (more : List Action) (i : Option ℕ) (next : Run)
    → Fills table cs next
    → Fills table
        ((name, type) ∷ cs)
        (with_index i (acts works (write table name source keys ∷ more) next))
Fills-write works table name type source keys cs more none next k e = cc e
Fills-write works table name type source keys cs more (some i) next k e =
    Fills-written table name type source keys cs (works (write table name source keys))
      (acts works more next) (Fills-acts works table cs more next k) e

Fills-with_index :
    (table : Text) (cs : List Attribute) (i : Option ℕ) (run : Run)
    → Fills table cs run
    → Fills table cs (with_index i run)
Fills-with_index table cs none run h e = cc e
Fills-with_index table cs (some i) run h e = h e

module _ (works : Action → Bool) (flag : Meta → Option Bool) (length_at : Place → Option ℕ)
    (keccak : ℕ → ℕ) where
  pub init_fields-Fills :
      (whole members : Fields) (table prefix : Text) (base : ℕ) (keys : List (Text × ℕ))
      → Fills table
          (get_struct_attributes flag members prefix true)
          (init_fields works flag length_at keccak whole members table prefix base keys)
  unfolding init_fields get_struct_attributes add_simple_attribute
  init_fields-Fills whole no_fields table prefix base keys = λ e. tt
  init_fields-Fills whole (field n (map k v) rest) table prefix base keys =
      let found = walk_fields n 0 0 0 whole in
      let value = base + found.slot in
      Fills-write works table (prefix ++ n) text (slot_number value) keys
        (get_struct_attributes flag rest prefix true)
        (make_table (create_table_for_mapping flag (table_of value) k v) ∷ []) found.index
        (init_fields works flag length_at keccak whole rest table prefix base keys)
        (init_fields-Fills whole rest table prefix base keys)
  init_fields-Fills whole (field n (struct s inner) rest) table prefix base keys =
      let found = walk_fields n 0 0 0 whole in
      let longer = prefix ++ n ++ codes "__" in
      Fills-with_index table _ found.index _ (
        Fills-followed table (get_struct_attributes flag inner longer true)
          (get_struct_attributes flag rest prefix true)
          (init_fields works flag length_at keccak inner inner table longer (base + found.slot)
            keys)
          (init_fields works flag length_at keccak whole rest table prefix base keys)
          (init_fields-Fills inner inner table longer (base + found.slot) keys)
          (init_fields-Fills whole rest table prefix base keys))
  init_fields-Fills whole (field n (static_array l el) rest) table prefix base keys =
      let found = walk_fields n 0 0 0 whole in
      let value = base + found.slot in
      let next = init_fields works flag length_at keccak whole rest table prefix base keys in
      let made =
        make_array works flag length_at keccak
          (create_table_for_array flag (table_of value) el true)
          (init_array works flag length_at keccak el (table_of value)
            (record { slot = value; offset = 0 })) in
      Fills-write works table (prefix ++ n) text (slot_number value) keys
        (get_struct_attributes flag rest prefix true) [] found.index (followed made next)
        (Fills-behind table (get_struct_attributes flag rest prefix true) made next
          (init_fields-Fills whole rest table prefix base keys))
  init_fields-Fills whole (field n (dynamic_array l el) rest) table prefix base keys =
      let found = walk_fields n 0 0 0 whole in
      let value = base + found.slot in
      let next = init_fields works flag length_at keccak whole rest table prefix base keys in
      let made =
        make_array works flag length_at keccak
          (create_table_for_array flag (table_of value) el true)
          (init_array works flag length_at keccak el (table_of value)
            (record { slot = value; offset = 0 })) in
      Fills-write works table (prefix ++ n) text (slot_number value) keys
        (get_struct_attributes flag rest prefix true) [] found.index (followed made next)
        (Fills-behind table (get_struct_attributes flag rest prefix true) made next
          (init_fields-Fills whole rest table prefix base keys))
  init_fields-Fills whole (field n (simple t size) rest) table prefix base keys =
      let found = walk_fields n 0 0 0 whole in
      let p : Place = record { slot = base + found.slot; offset = found.offset } in
      Fills-write works table (prefix ++ n) (column_of (data_type (simple t size)))
        (value_at p (simple t size)) keys (get_struct_attributes flag rest prefix true) []
        found.index (init_fields works flag length_at keccak whole rest table prefix base keys)
        (init_fields-Fills whole rest table prefix base keys)

  -- When the filling of a structure ends without an exception, it has written every column that
  -- `_get_struct_attributes` lists for the structure under this prefix.
  pub init_struct_entity-Fills :
      (members : Fields) (table prefix : Text) (base_slot : Place) (keys : List (Text × ℕ))
      → (init_struct_entity works flag length_at keccak members table prefix base_slot keys).1
        ≡ true
      → AllFilled table
          (get_struct_attributes flag members prefix true)
          (init_struct_entity works flag length_at keccak members table prefix base_slot keys).0
  unfolding init_struct_entity
  init_struct_entity-Fills members table prefix base_slot keys =
      init_fields-Fills members members table prefix base_slot.slot keys
