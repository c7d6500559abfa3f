-- ===== src/Layout/Slot.antt =====
-- `Entity.get_storage_slot_info`, `get_storage_slot_info_from_expr`, `get_field_from_name` and
-- `get_field_from_expr` (slither/tools/contract_abstract/contract/entity.py): the slot and the type
-- of a storage expression. `none` is a raised exception. Parameters: Python's `int`, `coerce_type`
-- of read_storage, `keccak` of a slot number, and `keccak` of the ABI encoding of a key and a slot,
-- the hashes as numbers.
use contract_abstract.Prelude.{
  ℕ, zero, suc, ◌+◌, ◌*◌, Text, codes, text_eq, Bool, true, false, Option, none, some, List, [],
  ◌∷◌, ◌⊎◌, inl, inr, ltb, if◌then◌else◌,
}
use contract_abstract.Prelude.Int.{ℤ, pos, negsuc}
use contract_abstract.Expr.Syntax.{
  Expr, Name, Child, name_of, node, str, sub, absent, present, Result, ok, err, out_of_fuel,
}
use contract_abstract.Expr.Parse.{parse_expr}
use contract_abstract.Layout.Types.{Place, ◌>>=◌}
use contract_abstract.Layout.Meta.{
  Meta, Fields, simple, struct, static_array, dynamic_array, map, no_fields, field,
}
use contract_abstract.Layout.Struct.{Found, walk_fields}
use contract_abstract.Sync.Etherscan.{contains}

-- `meta["dataType"]`
unfoldable pub data_type : Meta → Text
data_type (simple t size) = t
data_type (struct s members) = codes "struct"
data_type (static_array n e) = codes "staticArray"
data_type (dynamic_array n e) = codes "dynamicArray"
data_type (map k v) = codes "mapping"

-- `meta["dataMeta"]["fields"][index]["type"]`
unfoldable pub field_type : Fields → ℕ → Option Meta
field_type no_fields i = none
field_type (field name m rest) zero = some m
field_type (field name m rest) (suc i) = field_type rest i

-- `base_slot += 1` behind a slot that has been begun
abbrev pub base_slot_of : Place → ℕ
base_slot_of p = if ltb 0 p.offset then p.slot + 1 else p.slot

-- `child["name"]`
abbrev pub child_name : Child → Option Name
child_name absent = none
child_name (present (node n i f)) = some n

-- `index` is not -1, and what is found there; no field has a dict for a name
unfoldable pub find_field : Fields → Name → Option (Found × Meta)
unfolding walk_fields field_type
find_field members (sub e) = none
find_field members (str name) =
    let found = walk_fields name 0 0 0 members in
    found.index >>= λ i. field_type members i >>= λ m. some (found, m)

-- `0 <= array_index < length`
unfoldable pub in_range : ℤ → Option ℕ → Option ℕ
in_range (negsuc n) length = none
in_range (pos n) none = none
in_range (pos n) (some length) = if ltb n length then some n else none

-- what the mapping's key type is asserted to be
abbrev pub is_key_type : Meta → Bool
is_key_type (simple t size) = true
is_key_type (struct s members) = false
is_key_type (static_array n e) = false
is_key_type (dynamic_array n e) = false
is_key_type (map k v) = false

module _ {ℓ} {Key : Type ℓ} (int : Name → Option ℤ) (coerce_type : Text → Name ⊎ ℤ → Option Key)
    (keccak : ℕ → ℕ) (keccak_encode : Text → Key → ℕ → Option ℕ) where
  -- `if "int" in key_type: key = int(key)`, then `coerce_type`
  unfoldable pub key_of : Text → Name → Option Key
  unfolding contains
  key_of key_type key =
      let number = int key >>= λ n. coerce_type key_type (inr n) in
      if contains (codes "int") key_type then number else coerce_type key_type (inl key)

  -- The slot behind an element of an array: a structure's is followed further.
  unfoldable mutual
    unfolding find_field walk_fields data_type key_of in_range

    pub get_storage_slot_info_from_expr : Expr → Place → Meta → Option (Place × Meta)
    get_storage_slot_info_from_expr (node n index f) p (simple t size) = some (p, simple t size)
    get_storage_slot_info_from_expr (node n index f) p (struct s members) = child_name f >>= λ name.
        find_field members name >>= λ r.
        slot_of_child f (record { slot = base_slot_of p + r.0.slot; offset = r.0.offset }) r.1
    get_storage_slot_info_from_expr (node n index f) p (static_array length element) =
        child_name index >>= λ name. int name >>= λ z.
        in_range z (some length) >>= λ i. slot_of_element index i (keccak (base_slot_of p)) element
    get_storage_slot_info_from_expr (node n index f) p (dynamic_array length element) =
        child_name index >>= λ name. int name >>= λ z.
        in_range z length >>= λ i. slot_of_element index i (keccak (base_slot_of p)) element
    get_storage_slot_info_from_expr (node n index f) p (map k v) = child_name index >>= λ name.
        (if is_key_type k then key_of (data_type k) name else none) >>= λ key.
        keccak_encode (data_type k) key (base_slot_of p) >>= λ slot.
        slot_of_child index (record { slot = slot; offset = 0 }) v

    pub slot_of_child : Child → Place → Meta → Option (Place × Meta)
    slot_of_child absent p m = none
    slot_of_child (present e) p m = get_storage_slot_info_from_expr e p m

    pub slot_of_element : Child → ℕ → ℕ → Meta → Option (Place × Meta)
    slot_of_element index i first (simple t size) =
        some (record { slot = first + i; offset = 0 }, simple t size)
    slot_of_element absent i first (struct s members) = none
    slot_of_element (present e) i first (struct s members) =
        let struct_slot = (walk_fields [] 0 0 0 members).slot in
        let p : Place = record { slot = first + i * struct_slot; offset = 0 } in
        get_storage_slot_info_from_expr e p (struct s members)
    slot_of_element index i first (static_array n e) = none
    slot_of_element index i first (dynamic_array n e) = none
    slot_of_element index i first (map k v) = none

-- The first field of that name; `none` when the loop finds none and the function returns `None`.
unfoldable pub named_field : Fields → Name → Option Meta
named_field no_fields n = none
named_field (field name m rest) (sub e) = none
named_field (field name m rest) (str n) =
    if text_eq name n then some m else named_field rest (str n)

-- `none` is an exception, `some none` the value `None`
unfoldable mutual
  unfolding named_field

  pub get_field_from_expr : Child → Meta → Option (Option Meta)
  get_field_from_expr absent m = some (some m)
  get_field_from_expr (present e) m = field_from e m

  pub field_from : Expr → Meta → Option (Option Meta)
  field_from (node n index f) (map k v) = behind_index index k v
  field_from (node n index f) (struct s members) = behind_field f s members
  field_from (node n index f) (static_array length e) = none
  field_from (node n index f) (dynamic_array length e) = none
  field_from (node n index f) (simple t size) = some (some (simple t size))

  pub behind_index : Child → Meta → Meta → Option (Option Meta)
  behind_index absent k v = some (some (map k v))
  behind_index (present e) k v = field_from e v

  pub behind_field : Child → Text → Fields → Option (Option Meta)
  behind_field absent s members = some (some (struct s members))
  behind_field (present e) s members = elim (named_field members (name_of e)) [
    | none ↦ some none
    | some m ↦ field_from e m
  ]

-- `self.storage_meta`: what is known of each variable, by its name; "storageInfo" is the place.
abbrev pub StorageMeta : Type 0
StorageMeta = List (Text × (Place × Meta))

-- `storage_meta[name]`, after the test that the name is in it
unfoldable pub lookup : StorageMeta → Name → Option (Place × Meta)
lookup [] name = none
lookup (entry ∷ rest) (sub e) = none
lookup (entry ∷ rest) (str name) =
    if text_eq entry.0 name then some entry.1 else lookup rest (str name)

-- the parse, whose exceptions are raised on
abbrev pub parsed : Result Expr → Option Expr
parsed (ok e) = some e
parsed (err x) = none
parsed out_of_fuel = none

unfoldable pub get_field_from_name : Text → StorageMeta → Option (Option Meta)
unfolding lookup get_field_from_expr
get_field_from_name name meta = parsed (parse_expr name) >>= λ e.
    lookup meta (name_of e) >>= λ entry. get_field_from_expr (present e) entry.1

module _ {ℓ} {Key : Type ℓ} (int : Name → Option ℤ) (coerce_type : Text → Name ⊎ ℤ → Option Key)
    (keccak : ℕ → ℕ) (keccak_encode : Text → Key → ℕ → Option ℕ) where
  unfoldable pub get_storage_slot_info : Text → StorageMeta → Option (Place × Meta)
  unfolding lookup get_storage_slot_info_from_expr
  get_storage_slot_info storage storage_meta = parsed (parse_expr storage) >>= λ e.
      lookup storage_meta (name_of e) >>= λ entry.
      get_storage_slot_info_from_expr int coerce_type keccak keccak_encode e entry.0 entry.1
