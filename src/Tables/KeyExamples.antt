-- ===== src/Tables/KeyExamples.antt =====
-- The keys of mappings on small data, and the theorems at it.
use contract_abstract.Prelude.{
  ℕ, ◌+◌, ◌≡◌, ◌↔◌, ◌⊎◌, refl, Text, codes, text_eq, Bool, true, false, Option, some, List, [], ◌∷◌,
  ◌++◌, if◌then◌else◌,
}
use contract_abstract.Expr.Syntax.{node, str, present, absent}
use contract_abstract.Layout.Meta.{Meta, simple, map}
use contract_abstract.Layout.Slot.{StorageMeta}
use contract_abstract.Sync.Pages.{selected}
use contract_abstract.Tables.Select.{scalar}
use contract_abstract.Tables.Wanted.{
  FunctionWrites, Param, value, Key, key, keys, Call, get_all_keys_for_mapping,
}
use contract_abstract.Tables.Facts.{
  Json, scalar, File, with_keys, FactKeys, converted_fact_keys, import_fact_keys_from_json,
  facts_json, export_fact_keys_to_json,
}
use contract_abstract.Tables.Reimport.{
  Holds, all_one_level, import_fact_keys_from_json-Holds, import_fact_keys_from_json-export,
}

abbrev address : Meta
address = simple (codes "address") 20

abbrev uint256 : Meta
uint256 = simple (codes "uint256") 32

-- `transfer(to)` writes `balances[to]` and `balances[$msg_sender]`
abbrev storage_meta : StorageMeta
storage_meta = (codes "balances", (record { slot = 0; offset = 0 }, map address uint256)) ∷ []

abbrev transfer : FunctionWrites
transfer = record {
  method_id = codes "0xa9";
  parameters = codes "to" ∷ [];
  write_storages =
      node (str (codes "balances")) (present (node (str (codes "to")) absent absent)) absent
      ∷ node (str (codes "balances")) (present (node (str (codes "$msg_sender")) absent absent))
          absent
      ∷ [];
}

abbrev call_to : ℕ → Call ℕ
call_to n = record {
  is_error = 0;
  input_data = codes "0xa9" ++ n ∷ [];
  called = codes "0xa9";
  from_address = 100 + n;
}

abbrev argument_to : ℕ → Option (List (Text × Param ℕ))
argument_to n = some ((codes "to", value n) ∷ [])

abbrev decode_input : Text → Option (List (Text × Param ℕ))
decode_input t = argument_to 9

abbrev no_number : Call ℕ → Option ℕ
no_number tx = some 3

abbrev calls : List (Call ℕ)
calls = call_to 1 ∷ []

abbrev as_stored : ℕ → ℕ → List (Call ℕ) → List (Call ℕ)
as_stored limit offset txs = txs

keys_of_one_call :
    get_all_keys_for_mapping decode_input no_number as_stored storage_meta
      (transfer ∷ [])
      calls
      (some 2)
      (some 5)
    ≡ some ((codes "balances", key 9) ∷ (codes "balances", key 101) ∷ [])
unfolding get_all_keys_for_mapping text_eq selected
keys_of_one_call = refl

abbrev is_json : ℕ → Bool
is_json n = true

abbrev held : FactKeys ℕ
held = (codes "balances", key 9 ∷ []) ∷ []

abbrev two_level : FactKeys ℕ
two_level = (codes "allowed", keys 9 8 ∷ []) ∷ []

import_fact_keys_from_json-export_example :
    (file : File ℕ) × ((export_fact_keys_to_json is_json two_level ≡ some file)
      × (import_fact_keys_from_json held file (codes "replace")
          ≡ (if all_one_level two_level then (two_level, true) else (held, false))))
unfolding facts_json
import_fact_keys_from_json-export_example =
    import_fact_keys_from_json-export is_json held two_level refl

abbrev lists : List (Text × List (Json ℕ))
lists = (codes "balances", scalar 7 ∷ []) ∷ []

import_fact_keys_from_json-Holds_example :
    (after : FactKeys ℕ) × ((import_fact_keys_from_json held (with_keys true lists) (codes "merge")
        ≡ (after, true))
      × ((import_fact_keys_from_json held (with_keys true lists) (codes "append") ≡ (after, true))
          × ((entity : Text) (k : Key ℕ)
              → Holds entity k after
                ↔ (Holds entity k held ⊎ Holds entity k ((codes "balances", key 7 ∷ []) ∷ [])))))
unfolding converted_fact_keys
import_fact_keys_from_json-Holds_example =
    import_fact_keys_from_json-Holds held ((codes "balances", key 7 ∷ []) ∷ []) true lists refl
