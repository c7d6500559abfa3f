-- ===== src/Tables/KeyColumns.antt =====
-- The key columns of a mapping's table.
use contract_abstract.Prelude.{
  ℕ, ◌+◌, ◌≡◌, refl, sym, subst, ◌∙◌, Text, codes, Bool, true, Option, List, [], ◌∷◌, ◌++◌, length,
  length-append, append_assoc, append-nil, arith,
}
use contract_abstract.Layout.Meta.{Meta, simple, struct, static_array, dynamic_array, map}
use contract_abstract.Layout.Slot.{data_type}
use contract_abstract.Tables.Columns.{Attribute, column_of, add_simple_attribute}
use contract_abstract.Tables.Create.{
  Shape, key_name, add_key, get_mapping_attributes, mapping_shape,
}

-- The keys of the mapping and of the mappings in it, the last one left out.
abbrev pub outer_keys : Meta → Meta → List Meta
outer_keys key (map k v) = key ∷ outer_keys k v
outer_keys key (struct s members) = []
outer_keys key (static_array l e) = []
outer_keys key (dynamic_array l e) = []
outer_keys key (simple t size) = []

-- columns `key{n}`, `key{n + 1}`, ... of these types
abbrev pub key_columns : ℕ → List Meta → List Attribute
key_columns n [] = []
key_columns n (m ∷ ms) = (key_name n, column_of (data_type m)) ∷ key_columns (n + 1) ms

abbrev pub key_names : ℕ → List Meta → List Text
key_names n [] = []
key_names n (m ∷ ms) = key_name n ∷ key_names (n + 1) ms

module _ (flag : Meta → Option Bool) where
  -- The keys are added behind what is there, then the columns of the value.
  record Extends (shape : Shape) (n : ℕ) (ms : List Meta) (after : Shape) : Type 0 where
    values : List Attribute
    columns : after.attributes ≡ shape.attributes ++ (key_columns n ms ++ values)
    names : after.primary_keys ≡ shape.primary_keys ++ key_names n ms

  get_mapping_attributes-Extends :
      (key value : Meta) (shape : Shape) (n : ℕ)
      → length shape.primary_keys + 1 ≡ n
      → Extends shape n (outer_keys key value) (get_mapping_attributes flag key value shape)
  unfolding get_mapping_attributes add_simple_attribute
  get_mapping_attributes-Extends key (map k v) shape n e =
      let next = add_key flag (λ name. add_simple_attribute flag key name [] true) shape in
      let n₀ = length shape.primary_keys + 1 in
      let h =
        get_mapping_attributes-Extends k v next (n₀ + 1)
          (omega (arith, length-append shape.primary_keys (key_name n₀ ∷ []))) in
      let after = get_mapping_attributes flag k v next in
      let column : Attribute = (key_name n₀, column_of (data_type key)) in
      subst (λ m. Extends shape m (key ∷ outer_keys k v) after) e
        (record {
          values = h.values;
          columns =
              h.columns
              ∙ append_assoc shape.attributes (column ∷ [])
                  (key_columns (n₀ + 1) (outer_keys k v) ++ h.values);
          names =
              h.names
              ∙ append_assoc shape.primary_keys (key_name n₀ ∷ [])
                  (key_names (n₀ + 1) (outer_keys k v));
        })
  get_mapping_attributes-Extends key (struct s members) shape n e = record {
    values = _;
    columns = refl;
    names = sym (append-nil shape.primary_keys);
  }
  get_mapping_attributes-Extends key (static_array l el) shape n e = record {
    values = _;
    columns = refl;
    names = sym (append-nil shape.primary_keys);
  }
  get_mapping_attributes-Extends key (dynamic_array l el) shape n e = record {
    values = _;
    columns = refl;
    names = sym (append-nil shape.primary_keys);
  }
  get_mapping_attributes-Extends key (simple t size) shape n e = record {
    values = _;
    columns = refl;
    names = sym (append-nil shape.primary_keys);
  }

  -- The table of a mapping has the columns `key1`, `key2`, ... in front, which are its primary keys, in
  -- this order. Behind the first, of the type of the mapping's key, each has the type of the key before
  -- it: `key2` that of the outer mapping's key again, `key3` that of the second key.
  pub mapping_shape-outer_keys :
      (key value : Meta)
      → ((values : List Attribute) × ((mapping_shape flag key value).attributes
            ≡ (codes "key1", column_of (data_type key))
              ∷ (key_columns 2 (outer_keys key value) ++ values)))
        × ((mapping_shape flag key value).primary_keys
            ≡ codes "key1" ∷ key_names 2 (outer_keys key value))
  unfolding add_simple_attribute
  mapping_shape-outer_keys key value =
      let first : Shape = record {
        attributes = add_simple_attribute flag key (codes "key1") [] true;
        primary_keys = codes "key1" ∷ [];
      } in
      let h = get_mapping_attributes-Extends key value first 2 (omega arith) in
      ((h.values, h.columns), h.names)
