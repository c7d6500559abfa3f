-- ===== src/Tables/Start.antt =====
-- The first filling of all tables: `init_syn_storage` and `_init_mapping_entity` of StorageInfo
-- (slither/tools/contract_abstract/onchain/storage_info.py). A variable of a simple type, and a mapping
-- to one, hand a text as the type to `get_storage_value`, which raises on `type["dataMeta"]`; the test
-- of a mapping of mappings looks a name up in a text, which raises too. Keys are numbers here;
-- parameter `key_slot` is keccak of a key and a slot that are encoded by the type of the key.
use contract_abstract.Prelude.{
  ℕ, Text, codes, text_eq, Bool, Option, none, some, List, [], ◌∷◌, ◌++◌, if◌then◌else◌,
}
use contract_abstract.Layout.Types.{Place}
use contract_abstract.Layout.Meta.{Meta, simple, struct, static_array, dynamic_array, map}
use contract_abstract.Layout.Slot.{StorageMeta, data_type}
use contract_abstract.Tables.Create.{simple_table_name}
use contract_abstract.Tables.Wanted.{Key, key, keys}
use contract_abstract.Tables.Facts.{FactKeys}
use contract_abstract.Tables.Init.{
  Action, Run, finished, stopped, followed, init_array, init_struct_entity,
}

-- `self.fact_keys[entity_name]`
unfoldable pub facts_of : Text → FactKeys ℕ → Option (List (Key ℕ))
facts_of name [] = none
facts_of name (f ∷ fs) = if text_eq f.0 name then some f.1 else facts_of name fs

module _ (works : Action → Bool) (flag : Meta → Option Bool) (length_at : Place → Option ℕ)
    (keccak : ℕ → ℕ) (key_slot : Text → ℕ → ℕ → Option ℕ) where
  -- of the mapping with this value
  unfoldable pub init_mapping_entity : Meta → Text → Text → Place → List (Text × ℕ) → Run
  unfolding init_struct_entity
  init_mapping_entity (map k v) table prefix p at_keys = stopped
  init_mapping_entity (struct s members) table prefix p at_keys =
      init_struct_entity works flag length_at keccak members table prefix p at_keys
  init_mapping_entity (static_array l e) table prefix p at_keys = stopped
  init_mapping_entity (dynamic_array l e) table prefix p at_keys = stopped
  init_mapping_entity (simple t size) table prefix p at_keys = stopped

  abbrev pub at_slot : Meta → Text → ℕ → Option ℕ → Run
  at_slot value table k none = stopped
  at_slot value table k (some slot) =
      init_mapping_entity value table [] (record { slot = slot; offset = 0 })
        ((codes "key1", k) ∷ [])

  -- the loop over the keys of a mapping; a pair of keys is not encoded
  unfoldable pub init_keys : Text → Meta → Text → ℕ → List (Key ℕ) → Run
  unfolding init_mapping_entity
  init_keys key_type value table base_slot [] = finished
  init_keys key_type value table base_slot (keys a b ∷ rest) = stopped
  init_keys key_type value table base_slot (key k ∷ rest) =
      followed (at_slot value table k (key_slot key_type k base_slot))
        (init_keys key_type value table base_slot rest)

  abbrev pub init_mapping : Text → Meta → Meta → Place → Option (List (Key ℕ)) → Run
  init_mapping name k v p none = finished
  init_mapping name k (map k₂ v₂) p (some facts) = stopped
  init_mapping name k v p (some facts) = init_keys (data_type k) v name p.slot facts

  -- one variable
  unfoldable pub init_variable : FactKeys ℕ → Text → Place → Meta → Run
  unfolding facts_of init_keys init_struct_entity init_array data_type
  init_variable facts name p (map k v) = init_mapping name k v p (facts_of name facts)
  init_variable facts name p (struct s members) =
      init_struct_entity works flag length_at keccak members (simple_table_name flag)
        (name ++ codes "__") p ((codes "id", 1) ∷ [])
  init_variable facts name p (static_array l e) = init_array works flag length_at keccak e name p
  init_variable facts name p (dynamic_array l e) = init_array works flag length_at keccak e name p
  init_variable facts name p (simple t size) = stopped

  unfoldable pub init_syn_storage : FactKeys ℕ → StorageMeta → Run
  unfolding init_variable
  init_syn_storage facts [] = finished
  init_syn_storage facts (entry ∷ rest) =
      followed (init_variable facts entry.0 entry.1.0 entry.1.1) (init_syn_storage facts rest)
