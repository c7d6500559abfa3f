-- ===== src/Sync/Blocks.antt =====
-- The blocks that the database and the API know of: `get_latest_block_number`, `get_block_range`,
-- `get_etherscan_latest_block`, `get_contract_creation_tx` and `get_contract_creation_block` of
-- slither/tools/contract_abstract/onchain/transaction_info.py, and the start of `main` in
-- transaction_service.py that rests on them. A query that fails is `works = false`.
use contract_abstract.Prelude.{
  ℕ, suc, Text, codes, text_eq, Bool, true, false, Option, none, some, List, [], ◌∷◌, min, max,
  ◌==◌, if◌then◌else◌,
}
use contract_abstract.Layout.Types.{◌>>=◌}
use contract_abstract.Sync.Etherscan.{Answer}
use contract_abstract.Sync.Save.{TxRow, Tx, Table}
use contract_abstract.Sync.Service.{Ending, synchronize}

-- the block numbers that are not NULL
unfoldable pub numbers : Table → List ℕ
numbers [] = []
numbers (row ∷ rows) = elim row.block_number [ none ↦ numbers rows | some n ↦ n ∷ numbers rows ]

-- MAX, MIN and COUNT(DISTINCT)
unfoldable pub maximum : List ℕ → Option ℕ
maximum [] = none
maximum (n ∷ ns) = elim (maximum ns) [ none ↦ some n | some m ↦ some (max n m) ]

unfoldable pub minimum : List ℕ → Option ℕ
minimum [] = none
minimum (n ∷ ns) = elim (minimum ns) [ none ↦ some n | some m ↦ some (min n m) ]

unfoldable pub occurs : ℕ → List ℕ → Bool
occurs n [] = false
occurs n (m ∷ ms) = if n == m then true else occurs n ms

unfoldable pub count_distinct : List ℕ → ℕ
unfolding occurs
count_distinct [] = 0
count_distinct (n ∷ ns) = if occurs n ns then count_distinct ns else suc (count_distinct ns)

abbrev pub or_zero : Option ℕ → ℕ
or_zero none = 0
or_zero (some n) = n

unfoldable pub get_latest_block_number : Bool → Table → Option ℕ
unfolding numbers maximum
get_latest_block_number works table =
    if works then some (or_zero (maximum (numbers table))) else none

pub record BlockRange : Type 0 where
  pub min_block : ℕ
  pub max_block : ℕ
  pub total_blocks : ℕ

unfoldable pub range_of : List ℕ → Option BlockRange
unfolding minimum maximum count_distinct
range_of ns = minimum ns >>= λ low. maximum ns >>= λ high.
    some (record { min_block = low; max_block = high; total_blocks = count_distinct ns })

unfoldable pub get_block_range : Bool → Table → Option BlockRange
unfolding numbers range_of
get_block_range works table = if works then range_of (numbers table) else none

-- An answer of the API: an exception of `requests` or of the decoder, or its "status" and "result".
pub data Response {ℓ} (A : Type ℓ) : Type ℓ where
  failed : Response A
  response : Text → Option A → Response A

-- `int` of a text, to the base 16 and to the base 10; `none` is a `ValueError`
module _ (int16 int10 : Text → Option ℕ) where
  unfoldable pub get_etherscan_latest_block : Response Text → Option ℕ
  get_etherscan_latest_block failed = none
  get_etherscan_latest_block (response status none) = none
  get_etherscan_latest_block (response status (some [])) = none
  get_etherscan_latest_block (response status (some (c ∷ cs))) = int16 (c ∷ cs)

  -- the first entry of the list, its "blockNumber"
  unfoldable pub get_contract_creation_tx : Response (List (Option Text)) → Option (Option Text)
  get_contract_creation_tx failed = none
  get_contract_creation_tx (response status none) = none
  get_contract_creation_tx (response status (some [])) = none
  get_contract_creation_tx (response status (some (info ∷ infos))) =
      if text_eq status (codes "1") then some info else none

  abbrev pub block_of : Option Text → Option ℕ
  block_of none = none
  block_of (some []) = none
  block_of (some (c ∷ cs)) = int10 (c ∷ cs)

  -- `contract_creation_block` is set to None at first and never again
  unfoldable pub get_contract_creation_block : Option ℕ → Response (List (Option Text)) → Option ℕ
  unfolding get_contract_creation_tx
  get_contract_creation_block (some block) answer = some block
  get_contract_creation_block none answer = get_contract_creation_tx answer >>= block_of

  -- `main` up to the end of the catch-up; `none` where it returns before
  unfoldable pub start_main :
      (Text → Option ℕ)
      → (TxRow → Bool)
      → (ℕ → ℕ → List (Answer Tx))
      → (ℕ → ℕ → List (Answer Tx))
      → Bool
      → Response Text
      → Response (List (Option Text))
      → Table
      → Option (Ending × Table)
  unfolding get_latest_block_number get_etherscan_latest_block get_contract_creation_block
  start_main int accepts txlist txlistinternal works latest creation table =
      get_latest_block_number works table >>= λ local_latest_block.
      get_etherscan_latest_block latest >>= λ etherscan_latest_block.
      get_contract_creation_block none creation >>= λ deployment_block. some (
        synchronize int accepts txlist txlistinternal local_latest_block deployment_block
          etherscan_latest_block table)
