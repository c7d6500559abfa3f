-- ===== src/Sync/CaughtUp.antt =====
-- What the catch-up loop of the transaction service reaches.
use contract_abstract.Prelude.{
  ℕ, zero, suc, ◌+◌, ◌-◌, ◌≤◌, ◌<◌, ◌≡◌, refl, sym, ap, subst, ◌∙◌, inl, inr, Text, Bool,
  Bool-cases, Option, none, some, List, [], ◌∷◌, ◌++◌, append_assoc, append-nil, min, leb, ltb,
  arith, leb→le,
}
use contract_abstract.Sync.Etherscan.{
  Answer, Fetched, returned, raised, waiting, get_transactions_from_etherscan,
}
use contract_abstract.Sync.Save.{TxRow, Tx, Table, save_transactions_to_db}
use contract_abstract.Sync.Saved.{AllStored, AllStored-before, Outcome, save_transactions_to_db_lem}
use contract_abstract.Sync.Service.{
  Ending, done, error, pending, out_of_fuel, every_batch_block, ending, and_then, start_block_of,
  save_fetched, sync_range, catch_up, synchronize,
}

-- The rows of the first table come first in the second.
abbrev pub IsKept : Table → Table → Type 0
IsKept table after = (new : Table) × (after ≡ table ++ new)

pub IsKept-trans : (a b c : Table) → IsKept a b → IsKept b c → IsKept a c
IsKept-trans a b c (m, e) (n, f) = (m ++ n, f ∙ (ap (λ t. t ++ n) e ∙ append_assoc a m n))

module _ (int : Text → Option ℕ) (accepts : TxRow → Bool)
    (txlist txlistinternal : ℕ → ℕ → List (Answer Tx)) where
  -- Block `b` lies in a window, ends included, for which the API's listing was read to its end, and every listed transaction has its key in the table.
  pub record Covered (b : ℕ) (table : Table) : Type 0 where
    pub first : ℕ
    pub last : ℕ
    pub after_first : first ≤ b
    pub before_last : b ≤ last
    pub txs : List Tx
    pub listing :
        get_transactions_from_etherscan (txlist first last) (txlistinternal first last)
        ≡ returned txs
    pub stored : AllStored int accepts txs table

  pub Covered-kept :
      (b : ℕ) (table after : Table) → IsKept table after → Covered b table → Covered b after
  Covered-kept b table after (new, e) c = record {
    first = c.first;
    last = c.last;
    after_first = c.after_first;
    before_last = c.before_last;
    txs = c.txs;
    listing = c.listing;
    stored =
        subst (AllStored int accepts c.txs) (sym e)
          (AllStored-before int accepts c.txs table new c.stored);
  }

  abbrev pub Window : Fetched Tx → Table → Ending × Table → Type 0
  Window f table (done, after) =
      IsKept table after
      × ((txs : List Tx) × ((f ≡ returned txs) × AllStored int accepts txs after))
  Window f table (error, after) = IsKept table after
  Window f table (pending, after) = IsKept table after
  Window f table (out_of_fuel, after) = ⊥

  saved-Window :
      (txs : List Tx) (table : Table) (r : Option ℕ × Table)
      → Outcome int accepts txs table r
      → Window (returned txs) table (ending r.0, r.1)
  saved-Window txs table (none, after) e = ([], e ∙ sym (append-nil table))
  saved-Window txs table (some n, after) s = ((s.new, s.appended), (txs, (refl, s.stored)))

  pub save_fetched-Window :
      (f : Fetched Tx) (table : Table)
      → Window f table (save_fetched int accepts txlist txlistinternal f table)
  unfolding save_fetched
  save_fetched-Window (returned []) table = (([], sym (append-nil table)), ([], (refl, tt)))
  save_fetched-Window (returned (tx ∷ txs)) table =
      saved-Window (tx ∷ txs) table (save_transactions_to_db int accepts (tx ∷ txs) table)
        (save_transactions_to_db_lem int accepts (tx ∷ txs) table)
  save_fetched-Window raised table = ([], sym (append-nil table))
  save_fetched-Window waiting table = ([], sym (append-nil table))

  -- Rows stay; and a loop that is done has covered every block.
  abbrev pub Reaches : ℕ → ℕ → Table → Ending × Table → Type 0
  Reaches i end_block table (done, after) =
      IsKept table after × ((b : ℕ) → i ≤ b → b ≤ end_block → i < end_block → Covered b after)
  Reaches i end_block table (error, after) = IsKept table after
  Reaches i end_block table (pending, after) = IsKept table after
  Reaches i end_block table (out_of_fuel, after) = ⊥

  module _ (i end_block : ℕ) (table : Table) where
    abbrev current : Fetched Tx
    current =
        let j = min (i + every_batch_block) end_block in
        get_transactions_from_etherscan (txlist i j) (txlistinternal i j)

    extend :
        (after : Table) (r : Ending × Table)
        → Window current table (done, after)
        → Reaches (i + every_batch_block) end_block after r
        → Reaches i end_block table r
    extend after (done, last) (kept, (txs, (l, s))) (more, rest) = (
      IsKept-trans table after last kept more,
      λ b low high lt. elim (Bool-cases (leb b (i + every_batch_block))) [
        | inl e ↦ Covered-kept b after last more (record {
          first = i;
          last = min (i + every_batch_block) end_block;
          after_first = low;
          before_last = omega (arith, leb→le b (i + every_batch_block) e);
          txs = txs;
          listing = l;
          stored = s;
        })
        | inr e ↦
            let far : i + every_batch_block < b = ground (arith, e) in
            rest b (omega (arith, far)) high (omega (arith, far))
      ],
    )
    extend after (error, last) (kept, s) more = IsKept-trans table after last kept more
    extend after (pending, last) (kept, s) more = IsKept-trans table after last kept more
    extend after (out_of_fuel, last) (kept, s) more = more

    and_then-Reaches :
        (r : Ending × Table) (rest : Table → Ending × Table)
        → Window current table r
        → ((after : Table) → Reaches (i + every_batch_block) end_block after (rest after))
        → Reaches i end_block table (and_then r rest)
    and_then-Reaches (done, after) rest w h = extend after (rest after) w (h after)
    and_then-Reaches (error, after) rest w h = w
    and_then-Reaches (pending, after) rest w h = w
    and_then-Reaches (out_of_fuel, after) rest w h = w

  catch_up-Reaches :
      (fuel i end_block : ℕ) (table : Table)
      → end_block - i < fuel
      → Reaches i end_block table
          (catch_up int accepts txlist txlistinternal fuel i end_block table)
  unfolding catch_up sync_range
  catch_up-Reaches zero i end_block table h = absurd (omega arith)
  catch_up-Reaches (suc fuel) i end_block table h = elim (Bool-cases (ltb i end_block)) [
    | inl e ↦
        let j = min (i + every_batch_block) end_block in
        let go =
          and_then-Reaches i end_block table
            (sync_range int accepts txlist txlistinternal i j table)
            (λ after.
              catch_up int accepts txlist txlistinternal fuel (i + every_batch_block) end_block
                after)
            (save_fetched-Window (get_transactions_from_etherscan (txlist i j) (txlistinternal i j))
              table)
            (λ after.
              catch_up-Reaches fuel (i + every_batch_block) end_block after (ground (arith, e))) in
        rw e go
    | inr e ↦ rw e (([], sym (append-nil table)), λ b low high lt. absurd (ground arith))
  ]

  -- The catch-up of the service always ends (the fuel suffices), and no row in the table is lost. If it ends
  -- without an error, every block from the start block, the later of the latest block in the
  -- database and the contract's creation, to the latest block is covered, when there is a block to do.
  pub synchronize_lem :
      (local_latest_block deployment_block etherscan_latest_block : ℕ) (table : Table)
      → Reaches (start_block_of local_latest_block deployment_block) etherscan_latest_block table (
          synchronize int accepts txlist txlistinternal local_latest_block deployment_block
            etherscan_latest_block table)
  unfolding synchronize
  synchronize_lem local_latest_block deployment_block etherscan_latest_block table =
      catch_up-Reaches (etherscan_latest_block + 1)
        (start_block_of local_latest_block deployment_block) etherscan_latest_block table
        (omega arith)
