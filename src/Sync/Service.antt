-- ===== src/Sync/Service.antt =====
-- The catch-up loop of `main` (slither/tools/contract_abstract/transaction_service.py): windows of
-- 5000 blocks are fetched from the API and saved, from the latest block in the database on. What
-- the API answers for a window is a parameter, for "txlist" and for "txlistinternal".
use contract_abstract.Prelude.{
  ℕ, zero, suc, ◌+◌, Text, Bool, Option, none, some, List, [], ◌∷◌, min, max, ltb, if◌then◌else◌,
}
use contract_abstract.Sync.Etherscan.{
  Answer, Fetched, returned, raised, waiting, get_transactions_from_etherscan,
}
use contract_abstract.Sync.Save.{TxRow, Tx, Table, save_transactions_to_db}

-- how the loop, or one window of it, ends
pub data Ending : Type 0 where
  done : Ending
  error : Ending
  pending : Ending
  out_of_fuel : Ending

abbrev pub every_batch_block : ℕ
every_batch_block = 5000

abbrev pub ending : Option ℕ → Ending
ending none = error
ending (some count) = done

-- a window that is done is followed by the rest
abbrev pub and_then : Ending × Table → (Table → Ending × Table) → Ending × Table
and_then (done, table) rest = rest table
and_then (error, table) rest = (error, table)
and_then (pending, table) rest = (pending, table)
and_then (out_of_fuel, table) rest = (out_of_fuel, table)

-- `max(local_latest_block, deployment_block)`
unfoldable pub start_block_of : ℕ → ℕ → ℕ
start_block_of local_latest_block deployment_block = max local_latest_block deployment_block

module _ (int : Text → Option ℕ) (accepts : TxRow → Bool)
    (txlist txlistinternal : ℕ → ℕ → List (Answer Tx)) where
  -- `if txs: save_transactions_to_db(txs)`
  unfoldable pub save_fetched : Fetched Tx → Table → Ending × Table
  save_fetched (returned []) table = (done, table)
  save_fetched (returned (tx ∷ txs)) table =
      let (count, after) = save_transactions_to_db int accepts (tx ∷ txs) table in
      (ending count, after)
  save_fetched raised table = (error, table)
  save_fetched waiting table = (pending, table)

  -- the blocks from `i` to `j`, both included
  unfoldable pub sync_range : ℕ → ℕ → Table → Ending × Table
  unfolding save_fetched
  sync_range i j table =
      save_fetched (get_transactions_from_etherscan (txlist i j) (txlistinternal i j)) table

  -- `for i in range(start_block, end_block, every_batch_block)`
  unfoldable pub catch_up : ℕ → ℕ → ℕ → Table → Ending × Table
  catch_up zero i end_block table = (out_of_fuel, table)
  catch_up (suc fuel) i end_block table =
      let rest =
        and_then (sync_range i (min (i + every_batch_block) end_block) table)
          (λ after. catch_up fuel (i + every_batch_block) end_block after) in
      if ltb i end_block then rest else (done, table)

  -- the whole catch-up of `main`; a round moves on by at least a block
  unfoldable pub synchronize : ℕ → ℕ → ℕ → Table → Ending × Table
  unfolding catch_up sync_range start_block_of
  synchronize local_latest_block deployment_block etherscan_latest_block table =
      catch_up (etherscan_latest_block + 1) (start_block_of local_latest_block deployment_block)
        etherscan_latest_block table
