-- ===== src/Tables/Columns.antt =====
-- The column that a storage variable gets: `_add_simple_attribute`, `extract_number` and
-- `bits_to_numeric` of StorageInfo (slither/tools/contract_abstract/onchain/storage_info.py).
-- `bitmap` is None throughout, as in the code.
use contract_abstract.Prelude.{
  ℕ, zero, suc, ◌+◌, ◌-◌, ◌*◌, ◌^◌, Text, codes, Bool, true, not, ◌&&◌, Option, none, some, List,
  [], ◌∷◌, ◌++◌, leb, if◌then◌else◌,
}
use contract_abstract.Sync.Etherscan.{contains}
use contract_abstract.Layout.Meta.{Meta}
use contract_abstract.Layout.Slot.{data_type}

pub data SqlType : Type 0 where
  smallint integer bigint boolean text : SqlType
  numeric : ℕ → SqlType
  varchar : ℕ → SqlType

-- the name of a column and its type
abbrev pub Attribute : Type 0
Attribute = Text × SqlType

abbrev is_digit : ℕ → Bool
is_digit c = leb b'0' c && leb c b'9'

abbrev number_so_far : Option ℕ → ℕ
number_so_far none = 0
number_so_far (some n) = n

-- the digits at the end of what has been read, and what follows
unfoldable pub digits_to_end : Option ℕ → Text → Option ℕ
digits_to_end n [] = n
digits_to_end n (c ∷ cs) =
    digits_to_end (if is_digit c then some (number_so_far n * 10 + (c - b'0')) else none) cs

-- `re.search(r'(\d+)$', s)`
unfoldable pub extract_number : Text → Option ℕ
unfolding digits_to_end
extract_number s = digits_to_end none s

-- the first `m` from here on with 2 ^ n ≤ 10 ^ m; `fuel` bounds the search
unfoldable pub ceil_log10 : ℕ → ℕ → ℕ → ℕ
ceil_log10 zero n m = m
ceil_log10 (suc fuel) n m =
    let rest = ceil_log10 fuel n (m + 1) in if leb (2 ^ n) (10 ^ m) then m else rest

-- `math.ceil(n * math.log10(2))`, `n` without the sign bit
unfoldable pub bits_to_numeric : ℕ → Bool → ℕ
unfolding ceil_log10
bits_to_numeric size signed = let n = if signed then size - 1 else size in ceil_log10 n n 0

-- the column of an integer type with this number of bits in its name
unfoldable pub int_column : Option ℕ → Bool → SqlType
unfolding bits_to_numeric
int_column none signed = numeric (bits_to_numeric 256 signed)
int_column (some size) signed =
    if leb size 16
    then smallint
    else if leb size 32
    then integer
    else if leb size 64
    then bigint
    else numeric (bits_to_numeric size signed)

unfoldable pub column_of : Text → SqlType
unfolding int_column extract_number contains
column_of element_type =
    if contains (codes "int") element_type
    then int_column (extract_number element_type) (not (contains (codes "u") element_type))
    else if contains (codes "bool") element_type
    then boolean
    else if contains (codes "address") element_type
    then varchar 42
    else text

-- `flag` is "read" of the dict, where there is one
module _ (flag : Meta → Option Bool) where
  abbrev pub flagged : Option Bool → Text → Bool
  flagged none name = contains (codes "key") name
  flagged (some b) name = b

  -- what is appended to `attributes`
  unfoldable pub add_simple_attribute : Meta → Text → Text → Bool → List Attribute
  unfolding column_of data_type
  add_simple_attribute element name prefix read =
      let stored = if read then true else flagged (flag element) name in
      if stored then (prefix ++ name, column_of (data_type element)) ∷ [] else []
