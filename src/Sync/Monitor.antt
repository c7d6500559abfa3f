-- ===== src/Sync/Monitor.antt =====
-- The loop of `main` that waits for new blocks
-- (slither/tools/contract_abstract/transaction_service.py). A round is what the API answers in it:
-- the latest block, none when it cannot be had, and the listings for a window of blocks.
use contract_abstract.Prelude.{
  ℕ, ◌+◌, Text, Bool, Option, none, some, List, [], ◌∷◌, ltb, leb, if◌then◌else◌,
}
use contract_abstract.Sync.Etherscan.{Answer, get_transactions_from_etherscan}
use contract_abstract.Sync.Save.{TxRow, Tx, Table}
use contract_abstract.Sync.Service.{Ending, done, error, pending, out_of_fuel, save_fetched}

pub record Round : Type 0 where
  pub latest : Option ℕ
  pub txlist : ℕ → ℕ → List (Answer Tx)
  pub txlistinternal : ℕ → ℕ → List (Answer Tx)

-- in the loop; after a `break`; or inside a call that waits for an answer that is not there
pub data Phase : Type 0 where
  running : Phase
  exited : Phase
  hanging : Phase

pub record Watch : Type 0 where
  pub consecutive_errors : ℕ
  pub end_block : ℕ
  pub table : Table
  pub phase : Phase

abbrev pub watching : ℕ → ℕ → Table → Phase → Watch
watching errors end_block table phase = record {
  consecutive_errors = errors;
  end_block = end_block;
  table = table;
  phase = phase;
}

abbrev pub max_consecutive_errors : ℕ
max_consecutive_errors = 5

-- `end_block` moves only if the window is saved; an exception goes on with the next round
abbrev pub after_sync : ℕ → ℕ → Ending × Table → Watch
after_sync end_block latest (done, table) = record {
  consecutive_errors = 0;
  end_block = latest;
  table = table;
  phase = running;
}
after_sync end_block latest (error, table) = record {
  consecutive_errors = 0;
  end_block = end_block;
  table = table;
  phase = running;
}
after_sync end_block latest (pending, table) = record {
  consecutive_errors = 0;
  end_block = end_block;
  table = table;
  phase = hanging;
}
after_sync end_block latest (out_of_fuel, table) = record {
  consecutive_errors = 0;
  end_block = end_block;
  table = table;
  phase = hanging;
}

module _ (int : Text → Option ℕ) (accepts : TxRow → Bool) where
  -- what a round with this latest block makes of the state
  unfoldable pub on_latest : Option ℕ → Round → Watch → Watch
  on_latest none round w =
      let errors = w.consecutive_errors + 1 in
      record {
        consecutive_errors = errors;
        end_block = w.end_block;
        table = w.table;
        phase = if leb max_consecutive_errors errors then exited else running;
      }
  on_latest (some latest) round w =
      let listing =
        get_transactions_from_etherscan (round.txlist w.end_block latest)
          (round.txlistinternal w.end_block latest) in
      if ltb w.end_block latest
      then after_sync w.end_block latest
          (save_fetched int accepts round.txlist round.txlistinternal listing w.table)
      else record {
        consecutive_errors = 0;
        end_block = w.end_block;
        table = w.table;
        phase = running;
      }

  abbrev pub in_phase : Phase → Watch → Watch → Watch
  in_phase running w next = next
  in_phase exited w next = w
  in_phase hanging w next = w

  unfoldable pub monitor : List Round → Watch → Watch
  unfolding on_latest
  monitor [] w = w
  monitor (round ∷ rounds) w = in_phase w.phase w (monitor rounds (on_latest round.latest round w))

  -- `main` behind the catch-up: an exception in it ends the program
  abbrev pub follow : List Round → ℕ → Ending × Table → Option Watch
  follow rounds end_block (done, table) = some (monitor rounds (watching 0 end_block table running))
  follow rounds end_block (error, table) = none
  follow rounds end_block (pending, table) = none
  follow rounds end_block (out_of_fuel, table) = none
