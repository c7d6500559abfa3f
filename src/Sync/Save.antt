-- ===== src/Sync/Save.antt =====
-- `TransactionInfo.save_transactions_to_db` and `save_single_transaction`
-- (slither/tools/contract_abstract/onchain/transaction_info.py) with the statement that they run,
-- `INSERT ... ON CONFLICT (hash) DO NOTHING`, on the table as a list of rows. `int` is Python's
-- conversion of a text to a natural number and `accepts` the database's check of the column types;
-- both may refuse. A transaction is its dict, `tx.get`.
use contract_abstract.Prelude.{
  ℕ, ◌+◌, Text, codes, text_eq, Bool, true, false, ◌||◌, Option, none, some, List, [], ◌∷◌, ◌++◌,
  ltb, if◌then◌else◌,
}
use contract_abstract.Layout.Types.{◌>>=◌}

pub record TxRow : Type 0 where
  block_hash : Option Text
  pub block_number : Option ℕ
  time_stamp : Option ℕ
  pub hash : Option Text
  nonce : Option ℕ
  transaction_index : Option ℕ
  from_address : Option Text
  to_address : Option Text
  value : Option Text
  gas : Option ℕ
  gas_price : Option ℕ
  input_data : Option Text
  method_id : Option Text
  function_name : Option Text
  contract_address : Option Text
  cumulative_gas_used : Option ℕ
  tx_receipt_status : Option ℕ
  gas_used : Option ℕ
  confirmations : Option ℕ
  is_error : Option ℕ

abbrev pub Tx : Type 0
Tx = Text → Option Text

abbrev pub Table : Type 0
Table = List TxRow

-- `hash` is the primary key
unfoldable pub has_hash : Text → Table → Bool
has_hash h [] = false
has_hash h (row ∷ rows) = elim row.hash [
  | none ↦ has_hash h rows
  | some h₂ ↦ text_eq h h₂ || has_hash h rows
]

-- the statement for a row with this key, which the column types allow or not
unfoldable pub put : Option Text → Bool → TxRow → Table → Option (ℕ × Table)
put none allowed row table = none
put (some h) false row table = none
put (some h) true row table =
    if has_hash h table then some (0, table) else some (1, table ++ row ∷ [])

-- Commit or roll back: the count, or none for an exception, and the table that is left.
unfoldable pub commit : Table → Option (ℕ × Table) → Option ℕ × Table
commit table none = (none, table)
commit table (some (count, after)) = (some count, after)

module _ (int : Text → Option ℕ) (accepts : TxRow → Bool) where
  -- `int(tx.get(key, 0)) if tx.get(key) else None`
  unfoldable pub int_field : Option Text → Option (Option ℕ)
  int_field none = some none
  int_field (some []) = some none
  int_field (some (c ∷ cs)) = int (c ∷ cs) >>= λ n. some (some n)

  -- the tuple `values`
  unfoldable pub to_row : Tx → Option TxRow
  unfolding int_field
  to_row tx = int_field (tx (codes "blockNumber")) >>= λ block_number.
      int_field (tx (codes "timeStamp")) >>= λ time_stamp.
      int_field (tx (codes "nonce")) >>= λ nonce.
      int_field (tx (codes "transactionIndex")) >>= λ transaction_index.
      int_field (tx (codes "gas")) >>= λ gas. int_field (tx (codes "gasPrice")) >>= λ gas_price.
      int_field (tx (codes "cumulativeGasUsed")) >>= λ cumulative_gas_used.
      int_field (tx (codes "txreceipt_status")) >>= λ tx_receipt_status.
      int_field (tx (codes "gasUsed")) >>= λ gas_used.
      int_field (tx (codes "confirmations")) >>= λ confirmations.
      int_field (tx (codes "isError")) >>= λ is_error. some (record {
        block_hash = tx (codes "blockHash");
        block_number = block_number;
        time_stamp = time_stamp;
        hash = tx (codes "hash");
        nonce = nonce;
        transaction_index = transaction_index;
        from_address = tx (codes "from");
        to_address = tx (codes "to");
        value = tx (codes "value");
        gas = gas;
        gas_price = gas_price;
        input_data = tx (codes "input");
        method_id = tx (codes "methodId");
        function_name = tx (codes "functionName");
        contract_address = tx (codes "contractAddress");
        cumulative_gas_used = cumulative_gas_used;
        tx_receipt_status = tx_receipt_status;
        gas_used = gas_used;
        confirmations = confirmations;
        is_error = is_error;
      })

  -- `cursor.execute(insert_sql, values)`: `cursor.rowcount` and the table; no row is without a key
  unfoldable pub insert : TxRow → Table → Option (ℕ × Table)
  unfolding put
  insert row table = put row.hash (accepts row) row table

  unfoldable pub insert_all : List Tx → ℕ → Table → Option (ℕ × Table)
  insert_all [] saved_count table = some (saved_count, table)
  insert_all (tx ∷ txs) saved_count table =
      to_row tx >>= λ row. insert row table >>= λ r. insert_all txs (saved_count + r.0) r.1

  unfoldable pub save_transactions_to_db : List Tx → Table → Option ℕ × Table
  unfolding insert_all commit
  save_transactions_to_db transactions table = commit table (insert_all transactions 0 table)

  unfoldable pub save_single_transaction : Tx → Table → Option Bool × Table
  unfolding save_transactions_to_db
  save_single_transaction transaction table =
      let (count, after) = save_transactions_to_db (transaction ∷ []) table in
      (count >>= λ n. some (ltb 0 n), after)
