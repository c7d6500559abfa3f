-- ===== src/Sync/Pages.antt =====
-- `TransactionInfo.get_transactions_from_db`, `get_transactions_paginated`,
-- `get_total_transaction_count` and `get_transactions_by_batch`
-- (slither/tools/contract_abstract/onchain/transaction_info.py). The table is the list of its rows.
-- Parameter `order_by` is what the database makes of the selected rows for the clause
-- `ORDER BY block_number DESC, transaction_index DESC` in a query with this LIMIT and OFFSET; it may
-- put ties otherwise in another query. Callbacks are for logging, and an exception in one is caught.
use contract_abstract.Prelude.{
  ℕ, zero, suc, ◌+◌, ◌-◌, ◌*◌, Bool, true, false, ◌&&◌, Option, none, some, List, [], ◌∷◌, min,
  length, take, drop, leb, ltb, ◌==◌, if◌then◌else◌,
}

-- `min(limit, 10000) if limit else 10000`
unfoldable pub page_size_of : ℕ → ℕ
page_size_of limit = if limit == 0 then 10000 else min limit 10000

-- `if max_pages and page > max_pages`
unfoldable pub past_last : Option ℕ → ℕ → Bool
past_last none page = false
past_last (some zero) page = false
past_last (some (suc m)) page = ltb (suc m) page

-- `if start_block: AND block_number >= start_block`; no row without a number passes
unfoldable pub from_start : Option ℕ → Option ℕ → Bool
from_start none number = true
from_start (some zero) number = true
from_start (some (suc start)) none = false
from_start (some (suc start)) (some number) = leb (suc start) number

-- `if end_block: AND block_number <= end_block`
unfoldable pub to_end : Option ℕ → Option ℕ → Bool
to_end none number = true
to_end (some zero) number = true
to_end (some (suc last)) none = false
to_end (some (suc last)) (some number) = leb number (suc last)

module _ {ℓ} {Row : Type ℓ} (block_number : Row → Option ℕ) where
  -- the WHERE clause
  unfoldable pub selected : Option ℕ → Option ℕ → List Row → List Row
  unfolding from_start to_end
  selected start_block end_block [] = []
  selected start_block end_block (row ∷ rows) =
      let rest = selected start_block end_block rows in
      if from_start start_block (block_number row) && to_end end_block (block_number row)
      then row ∷ rest
      else rest

  unfoldable pub get_transactions_from_db :
      (ℕ → ℕ → List Row → List Row) → List Row → Option ℕ → Option ℕ → ℕ → ℕ → List Row
  unfolding page_size_of
  get_transactions_from_db order_by rows start_block end_block limit page =
      let size = page_size_of limit in
      let offset = (page - 1) * page_size_of limit in
      take size (drop offset (order_by size offset (selected start_block end_block rows)))

  unfoldable pub get_total_transaction_count : List Row → Option ℕ → Option ℕ → ℕ
  get_total_transaction_count rows start_block end_block =
      length (selected start_block end_block rows)

-- an empty page ends the generator, another is yielded before what follows
abbrev pub yielded {ℓ} :
    {Row : Type ℓ} → List Row → Option (List (List Row)) → Option (List (List Row))
yielded [] rest = some []
yielded (row ∷ more) none = none
yielded (row ∷ more) (some pages) = some ((row ∷ more) ∷ pages)

module _ {ℓ} {Row : Type ℓ} where
  -- The pages that the generator yields from `page` on, `get` being the query; `fuel` bounds the
  -- rounds.
  unfoldable pub pages_from : ℕ → Option ℕ → (ℕ → List Row) → ℕ → Option (List (List Row))
  pages_from zero last get page = none
  pages_from (suc fuel) last get page =
      let rest = pages_from fuel last get (page + 1) in
      if past_last last page then some [] else yielded (get page) rest

module _ {ℓ} {Row : Type ℓ} (block_number : Row → Option ℕ)
    (order_by : ℕ → ℕ → List Row → List Row) where
  unfoldable pub get_transactions_paginated :
      List Row → Option ℕ → Option ℕ → ℕ → Option ℕ → Option (List (List Row))
  unfolding pages_from past_last get_transactions_from_db
  get_transactions_paginated rows start_block end_block page_size max_pages =
      pages_from (length rows + 1) max_pages
        (get_transactions_from_db block_number order_by rows start_block end_block page_size) 1

  -- the same loop without a last page
  unfoldable pub get_transactions_by_batch :
      List Row → Option ℕ → Option ℕ → ℕ → Option (List (List Row))
  unfolding pages_from past_last get_transactions_from_db
  get_transactions_by_batch rows start_block end_block batch_size =
      pages_from (length rows + 1) none
        (get_transactions_from_db block_number order_by rows start_block end_block batch_size) 1
