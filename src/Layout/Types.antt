-- ===== src/Layout/Types.antt =====
-- Solidity types and their size in storage: `storage_size` of the classes in
-- slither/core/solidity_types/. A property that raises is `none`.
use contract_abstract.Prelude.{
  ◌≡◌, refl, ℕ, zero, suc, ◌+◌, ◌-◌, ◌*◌, ◌/◌, Text, codes, text_eq, Bool, true, false, ◌&&◌, ◌||◌,
  Option, none, some, [], ◌∷◌, drop, leb, ltb, ◌==◌, not, if◌then◌else◌,
}

infixl 5 ◌>>=◌
abbrev pub ◌>>=◌ {ℓ κ} : {A : Type ℓ} {B : Type κ} → Option A → (A → Option B) → Option B
none >>= f = none
some a >>= f = f a

-- `some` comes out of a chain only through `some`.
pub chain {ℓ κ μ} :
    {A : Type ℓ} {B : Type κ} {P : Type μ} {f : A → Option B} {b : B} (o : Option A)
    → ((a : A) → o ≡ some a → f a ≡ some b → P)
    → (o >>= f) ≡ some b
    → P
chain none k e = cc e
chain (some a) k e = k a refl e

-- `s.startswith(p)`
unfoldable pub starts_with : Text → Text → Bool
starts_with [] s = true
starts_with (c ∷ p) [] = false
starts_with (c ∷ p) (d ∷ s) = c == d && starts_with p s

-- `int(s)` of a text of decimal digits; any other text raises `ValueError`
unfoldable pub to_int : ℕ → Text → Option ℕ
to_int n [] = some n
to_int n (c ∷ cs) =
    let rest = to_int (n * 10 + (c - b'0')) cs in if leb b'0' c && leb c b'9' then rest else none

abbrev int_of : Text → Option ℕ
int_of [] = none
int_of (c ∷ cs) = to_int 0 (c ∷ cs)

-- `ElementaryType.size`, in bits
unfoldable pub elementary_size : Text → Option ℕ
unfolding starts_with to_int text_eq
elementary_size t =
    if starts_with (codes "uint") t
    then int_of (drop 4 t)
    else if starts_with (codes "int") t
    then int_of (drop 3 t)
    else if text_eq t (codes "bool")
    then some 8
    else if text_eq t (codes "address")
    then some 160
    else if starts_with (codes "bytes") t && not (text_eq t (codes "bytes"))
    then (do n ← int_of (drop 5 t); some (n * 8))
    else none

-- (size in bytes, the variable begins a new slot)
pub record Size : Type 0 where
  pub bytes : ℕ
  pub new_slot : Bool

-- `ElementaryType.storage_size`
unfoldable pub elementary_storage_size : Text → Option Size
unfolding elementary_size
elementary_storage_size t =
    if text_eq t (codes "string") || text_eq t (codes "bytes")
    then some (record { bytes = 32; new_slot = true })
    else do bits ← elementary_size t; some (record { bytes = bits / 8; new_slot = false })

-- `array` holds the length of a fixed array, and `none` for a dynamic one.
mutual
  pub data SolType : Type 0 where
    elementary : Text → SolType
    array : SolType → Option ℕ → SolType
    mapping : SolType → SolType → SolType
    contract : SolType
    enumeration : ℕ → SolType
    structure : Text → Elems → SolType
    function : SolType

  -- `Structure.elems_ordered`: names and types
  pub data Elems : Type 0 where
    no_elems : Elems
    elem : Text → SolType → Elems → Elems

-- `math.ceil(size / 32)`
abbrev pub slots_of : ℕ → ℕ
slots_of size = (size + 31) / 32

-- the slot and the byte in it where the next variable may begin
pub record Place : Type 0 where
  pub slot : ℕ
  pub offset : ℕ

-- the head of the loop body: where a variable of this size is put
unfoldable pub align : Place → Size → Place
align p size =
    if size.new_slot
    then (if ltb 0 p.offset then record { slot = p.slot + 1; offset = 0 } else p)
    else if ltb 32 (size.bytes + p.offset)
    then record { slot = p.slot + 1; offset = 0 }
    else p

-- the end of the loop body: what the variable takes
unfoldable pub advance : Place → Size → Place
advance p size =
    if size.new_slot
    then record { slot = p.slot + slots_of size.bytes; offset = p.offset }
    else record { slot = p.slot; offset = p.offset + size.bytes }

-- `if offset > 0: slot += 1`
abbrev pub whole_slots : Place → ℕ
whole_slots p = if ltb 0 p.offset then p.slot + 1 else p.slot

-- `int(math.ceil(math.log2(n) / 8))` for a number of values that Solidity allows, at most 256;
-- `math.log2(0)` raises
unfoldable pub enum_storage_size : ℕ → Option Size
enum_storage_size zero = none
enum_storage_size (suc zero) = some (record { bytes = 0; new_slot = false })
enum_storage_size (suc (suc n)) = some (record { bytes = 1; new_slot = false })

unfoldable mutual
  unfolding elementary_storage_size enum_storage_size align advance

  pub storage_size : SolType → Option Size
  storage_size (elementary t) = elementary_storage_size t
  storage_size (array t none) = some (record { bytes = 32; new_slot = true })
  storage_size (array t (some n)) = do
    e ← storage_size t
    some (record { bytes = e.bytes * n; new_slot = true })
  storage_size (mapping k v) = some (record { bytes = 32; new_slot = true })
  storage_size contract = some (record { bytes = 20; new_slot = false })
  storage_size (enumeration n) = enum_storage_size n
  storage_size (structure name fields) = do
    p ← walk_elems (record { slot = 0; offset = 0 }) fields
    some (record { bytes = whole_slots p * 32; new_slot = true })
  storage_size function = some (record { bytes = 24; new_slot = false })

  -- the loop over `elems_ordered`
  pub walk_elems : Place → Elems → Option Place
  walk_elems p no_elems = some p
  walk_elems p (elem name t rest) = do
    size ← storage_size t
    walk_elems (advance (align p size) size) rest
