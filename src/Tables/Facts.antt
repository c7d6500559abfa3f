-- ===== src/Tables/Facts.antt =====
-- `export_fact_keys_to_json` and `import_fact_keys_from_json` of StorageInfo
-- (slither/tools/contract_abstract/onchain/storage_info.py). `self.fact_keys`, a dict of sets, is a
-- list of entities with the list of their keys; None is the empty list. A file that is loaded is an
-- object of lists under "fact_keys", or lacks that field. Parameter: which values `json.dump` writes
-- (and `json.load` reads back).
use contract_abstract.Prelude.{
  Text, codes, text_eq, Bool, true, false, ◌&&◌, Option, none, some, List, [], ◌∷◌, ◌++◌,
  if◌then◌else◌,
}
use contract_abstract.Layout.Types.{◌>>=◌}
use contract_abstract.Tables.Wanted.{Key, key, keys}

-- an element of a list of the file
pub data Json {ℓ} (V : Type ℓ) : Type ℓ where
  scalar : V → Json V
  array : List V → Json V

pub data File {ℓ} (V : Type ℓ) : Type ℓ where
  -- missing, or not JSON
  unreadable : File V
  without_keys : File V
  -- "metadata" is missing or an object; the lists of "fact_keys"
  with_keys : Bool → List (Text × List (Json V)) → File V

abbrev pub FactKeys {ℓ} : Type ℓ → Type ℓ
FactKeys V = List (Text × List (Key V))

module _ {ℓ} {V : Type ℓ} where
  -- a tuple is written as an array
  abbrev pub to_json : Key V → Json V
  to_json (key v) = scalar v
  to_json (keys v w) = array (v ∷ w ∷ [])

  abbrev pub list_of : List (Key V) → List (Json V)
  list_of [] = []
  list_of (k ∷ ks) = to_json k ∷ list_of ks

  unfoldable pub serializable_fact_keys : FactKeys V → List (Text × List (Json V))
  serializable_fact_keys [] = []
  serializable_fact_keys (f ∷ fs) = (f.0, list_of f.1) ∷ serializable_fact_keys fs

  -- `set(keys_list)`; a list is not hashable
  unfoldable pub set_of : List (Json V) → Option (List (Key V))
  set_of [] = some []
  set_of (array vs ∷ rest) = none
  set_of (scalar v ∷ rest) = set_of rest >>= λ ks. some (key v ∷ ks)

  unfoldable pub converted_fact_keys : List (Text × List (Json V)) → Option (FactKeys V)
  unfolding set_of
  converted_fact_keys [] = some []
  converted_fact_keys (f ∷ fs) =
      set_of f.1 >>= λ ks. converted_fact_keys fs >>= λ rest. some ((f.0, ks) ∷ rest)

  -- `self.fact_keys[entity_name].update(keys_set)`, after a new set for a new entity
  unfoldable pub update_entity : Text → List (Key V) → FactKeys V → FactKeys V
  update_entity entity ks [] = (entity, ks) ∷ []
  update_entity entity ks (f ∷ fs) =
      let rest = update_entity entity ks fs in
      if text_eq f.0 entity then (f.0, f.1 ++ ks) ∷ fs else f ∷ rest

  unfoldable pub update_all : FactKeys V → FactKeys V → FactKeys V
  unfolding update_entity
  update_all old [] = old
  update_all old (f ∷ fs) = update_all (update_entity f.0 f.1 old) fs

  -- the branches on `merge_mode`; an unknown mode returns False
  unfoldable pub with_mode : Text → FactKeys V → FactKeys V → Option (FactKeys V)
  unfolding update_all
  with_mode merge_mode old converted =
      if text_eq merge_mode (codes "replace")
      then some converted
      else if text_eq merge_mode (codes "merge")
      then some (update_all old converted)
      else if text_eq merge_mode (codes "append")
      then some (update_all old converted)
      else none

  abbrev pub settled : FactKeys V → Bool → Option (FactKeys V) → FactKeys V × Bool
  settled old metadata none = (old, false)
  settled old metadata (some after) = (after, metadata)

  -- the new `self.fact_keys` and the result; the log of the metadata comes after the change
  unfoldable pub import_fact_keys_from_json : FactKeys V → File V → Text → FactKeys V × Bool
  unfolding converted_fact_keys with_mode
  import_fact_keys_from_json old unreadable merge_mode = (old, false)
  import_fact_keys_from_json old without_keys merge_mode = (old, false)
  import_fact_keys_from_json old (with_keys metadata lists) merge_mode =
      settled old metadata (converted_fact_keys lists >>= with_mode merge_mode old)

module _ {ℓ} {V : Type ℓ} (is_json : V → Bool) where
  abbrev pub key_is_json : Key V → Bool
  key_is_json (key v) = is_json v
  key_is_json (keys v w) = is_json v && is_json w

  unfoldable pub all_json : List (Key V) → Bool
  all_json [] = true
  all_json (k ∷ ks) = key_is_json k && all_json ks

  unfoldable pub facts_json : FactKeys V → Bool
  unfolding all_json
  facts_json [] = true
  facts_json (f ∷ fs) = all_json f.1 && facts_json fs

  -- the file when the method returns True; none is False
  unfoldable pub export_fact_keys_to_json : FactKeys V → Option (File V)
  unfolding facts_json serializable_fact_keys
  export_fact_keys_to_json facts =
      if facts_json facts then some (with_keys true (serializable_fact_keys facts)) else none
