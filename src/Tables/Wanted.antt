-- ===== src/Tables/Wanted.antt =====
-- The keys of mappings that transactions have used: `deal_with_function_write_storage` and
-- `get_all_keys_for_mapping` of StorageInfo
-- (slither/tools/contract_abstract/onchain/storage_info.py). A dict of dicts of sets is the list of
-- its entries. `none` is a raised exception. Parameters: the hash of a function's signature,
-- `decode_input`, whose failure is none, and the order in which the database gives transactions.
use contract_abstract.Prelude.{
  ℕ, Text, codes, text_eq, Bool, not, ◌&&◌, ◌||◌, Option, none, some, List, [], ◌∷◌, ◌++◌, ◌==◌,
  if◌then◌else◌,
}
use contract_abstract.Expr.Syntax.{Expr, Name, Child, node, str, sub, absent, present}
use contract_abstract.Expr.Parse.{parse_expr}
use contract_abstract.Layout.Types.{◌>>=◌}
use contract_abstract.Layout.Meta.{Meta, map}
use contract_abstract.Layout.Slot.{StorageMeta, lookup, parsed}
use contract_abstract.Sync.Pages.{get_transactions_paginated}
use contract_abstract.Tables.Write.{is_member}
use contract_abstract.Tables.Collect.{collect}

pub record FunctionWrites : Type 0 where
  pub method_id : Text
  pub parameters : List Text
  pub write_storages : List Expr

-- the name of a parameter or "$msg_sender", or two of them
pub data Index : Type 0 where
  single : Text → Index
  pair : Text → Text → Index

-- function, entity and index
pub record Wanted : Type 0 where
  pub method_id : Text
  pub entity : Text
  pub index : Index

unfoldable pub parse_all : List Text → Option (List Expr)
parse_all [] = some []
parse_all (t ∷ ts) = parsed (parse_expr t) >>= λ e. parse_all ts >>= λ es. some (e ∷ es)

-- `function_write_storage` of the manifest: signature, parameters and texts; the functions of a
-- contract have different hashes
unfoldable pub deal_with_function_write_storage :
    (Text → Text) → List (Text × (List Text × List Text)) → Option (List FunctionWrites)
unfolding parse_all
deal_with_function_write_storage hash [] = some []
deal_with_function_write_storage hash (f ∷ rest) = parse_all f.1.1 >>= λ es.
    deal_with_function_write_storage hash rest >>= λ later.
    some (record { method_id = hash f.0; parameters = f.1.0; write_storages = es } ∷ later)

abbrev pub msg_sender : Text
msg_sender = codes "$msg_sender"

-- `name in parameters or name == "$msg_sender"`
unfoldable pub is_known : List Text → Text → Bool
unfolding is_member
is_known parameters name = is_member name parameters || text_eq name msg_sender

-- the index of a mapping of mappings, from the names of the two levels
abbrev pub pair_index : List Text → Name → Child → Option (List Index)
pair_index parameters (sub e) second = some []
pair_index parameters (str a) absent = none
pair_index parameters (str a) (present (node (sub e) i f)) = some []
pair_index parameters (str a) (present (node (str b) i f)) =
    some (if is_known parameters a && is_known parameters b then pair a b ∷ [] else [])

-- of a mapping: a name, or a name that is an expression by a name
abbrev pub single_index : List Text → Name → List Index
single_index parameters (str a) = if is_known parameters a then single a ∷ [] else []
single_index parameters (sub (node (str a) i f)) =
    if is_known parameters a then single a ∷ [] else []
single_index parameters (sub (node (sub e) i f)) = []

-- the type of a variable and the index of a write to it
abbrev pub indices_of : List Text → Meta → Child → Option (List Index)
indices_of parameters (map k (map k₂ (map k₃ v))) index = none
indices_of parameters (map k (map k₂ v)) absent = none
indices_of parameters (map k (map k₂ v)) (present (node name i f)) = pair_index parameters name i
indices_of parameters (map k v) absent = some []
indices_of parameters (map k v) (present (node name i f)) = some (single_index parameters name)
indices_of parameters m index = some []

abbrev pub wanted_of : Text → Text → List Index → List Wanted
wanted_of method_id entity [] = []
wanted_of method_id entity (i ∷ is) =
    record { method_id = method_id; entity = entity; index = i } ∷ wanted_of method_id entity is

-- one `write_storage`; a name that is not in the manifest is passed over
unfoldable pub wanted_by_write : StorageMeta → Text → List Text → Expr → Option (List Wanted)
unfolding lookup is_known
wanted_by_write meta method_id parameters (node (sub e) index f) = none
wanted_by_write meta method_id parameters (node (str name) index f) =
    elim (lookup meta (str name)) [
      | none ↦ some []
      | some entry ↦
          indices_of parameters entry.1 index >>= λ is. some (wanted_of method_id name is)
    ]

-- what one function may write
unfoldable pub wanted_by_function : StorageMeta → FunctionWrites → Option (List Wanted)
unfolding wanted_by_write collect
wanted_by_function meta f = collect (wanted_by_write meta f.method_id f.parameters) f.write_storages

-- `all_keys`
unfoldable pub all_keys : StorageMeta → List FunctionWrites → Option (List Wanted)
unfolding wanted_by_function collect
all_keys meta functions = collect (wanted_by_function meta) functions

-- a decoded argument: a value, or a list of them
pub data Param {ℓ} (V : Type ℓ) : Type ℓ where
  value : V → Param V
  values : List V → Param V

pub data Key {ℓ} (V : Type ℓ) : Type ℓ where
  key : V → Key V
  keys : V → V → Key V

-- what is read of a stored transaction
pub record Call {ℓ} (V : Type ℓ) : Type ℓ where
  pub is_error : ℕ
  pub input_data : Text
  pub called : Text
  pub from_address : V

module _ {ℓ} {V : Type ℓ} where
  abbrev pub values_of : Param V → List V
  values_of (value v) = v ∷ []
  values_of (values vs) = vs

  unfoldable pub param_of : List (Text × Param V) → Text → Option (Param V)
  param_of [] name = none
  param_of (p ∷ ps) name = if text_eq p.0 name then some p.1 else param_of ps name

  -- the values that a name of an index stands for; without decoded arguments only the sender is
  -- known
  unfoldable pub named_values : Option (List (Text × Param V)) → V → Text → Option (List V)
  unfolding param_of
  named_values params sender name =
      let argument = params >>= λ ps. param_of ps name >>= λ p. some (values_of p) in
      if text_eq name msg_sender then some (sender ∷ []) else argument

  abbrev pub with_second : V → List V → List (Key V)
  with_second a [] = []
  with_second a (b ∷ bs) = keys a b ∷ with_second a bs

  abbrev pub all_pairs : List V → List V → List (Key V)
  all_pairs [] bs = []
  all_pairs (a ∷ as₁) bs = with_second a bs ++ all_pairs as₁ bs

  abbrev pub all_single : List V → List (Key V)
  all_single [] = []
  all_single (a ∷ as₁) = key a ∷ all_single as₁

  unfoldable pub keys_at : Option (List (Text × Param V)) → V → Index → Option (List (Key V))
  unfolding named_values
  keys_at params sender (single a) = named_values params sender a >>= λ vs. some (all_single vs)
  keys_at params sender (pair a b) = named_values params sender a >>= λ vs.
      named_values params sender b >>= λ ws. some (all_pairs vs ws)

  abbrev pub for_entity : Text → List (Key V) → List (Text × Key V)
  for_entity entity [] = []
  for_entity entity (k ∷ ks) = (entity, k) ∷ for_entity entity ks

  -- one entry of `all_keys` for a call
  unfoldable pub keys_wanted :
      Text → V → Option (List (Text × Param V)) → Wanted → Option (List (Text × Key V))
  unfolding keys_at
  keys_wanted called sender params w =
      let here = keys_at params sender w.index >>= λ ks. some (for_entity w.entity ks) in
      if text_eq w.method_id called then here else some []

  module _ (decode_input : Text → Option (List (Text × Param V))) where
    -- `is_error == 0` and an input that is not empty
    unfoldable pub is_call : Call V → Bool
    is_call tx =
        tx.is_error == 0
        && not (text_eq tx.input_data [])
        && not (text_eq tx.input_data (codes "0x"))

    -- the keys that one transaction uses, of those that are wanted
    unfoldable pub keys_of_call : List Wanted → Call V → Option (List (Text × Key V))
    unfolding keys_wanted is_call collect
    keys_of_call wanted tx =
        let here =
          collect (keys_wanted tx.called tx.from_address (decode_input tx.input_data)) wanted in
        if is_call tx then here else some []

    unfoldable pub keys_of_page : List Wanted → List (Call V) → Option (List (Text × Key V))
    unfolding keys_of_call collect
    keys_of_page wanted txs = collect (keys_of_call wanted) txs

    -- `fact_keys`, from the stored transactions
    unfoldable pub get_all_keys_for_mapping :
        (Call V → Option ℕ)
        → (ℕ → ℕ → List (Call V) → List (Call V))
        → StorageMeta
        → List FunctionWrites
        → List (Call V)
        → Option ℕ
        → Option ℕ
        → Option (List (Text × Key V))
    unfolding all_keys keys_of_page collect get_transactions_paginated
    get_all_keys_for_mapping block_number order_by meta functions rows creation_block latest_block =
        all_keys meta functions >>= λ wanted.
        get_transactions_paginated block_number order_by rows creation_block latest_block 10000 none
        >>= λ pages. collect (keys_of_page wanted) pages
