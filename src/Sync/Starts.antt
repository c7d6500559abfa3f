-- ===== src/Sync/Starts.antt =====
-- Where a start of the service leads: `main` of
-- slither/tools/contract_abstract/onchain/transaction_service.py up to the end of the catch-up.
use contract_abstract.Prelude.{
  ℕ, ◌≤◌, ◌≡◌, ◌≢◌, ◌⊎◌, Text, codes, Bool, true, false, Option, none, some, List, [], ◌∷◌,
}
use contract_abstract.Sync.Etherscan.{Answer}
use contract_abstract.Sync.Save.{TxRow, Tx, Table}
use contract_abstract.Sync.Service.{Ending}
use contract_abstract.Sync.CaughtUp.{Reaches}
use contract_abstract.Sync.Blocks.{Response, response}
use contract_abstract.Sync.Latest.{IsLatest}

-- the answer names the latest block
abbrev pub NamesLatest : (Text → Option ℕ) → Response Text → ℕ → Type 0
NamesLatest int16 latest e =
    (status : Text) × (t : Text) × ((latest ≡ response status (some t))
      × ((t ≢ []) × (int16 t ≡ some e)))

-- the answer is a success, and its first entry names the block of the creation
abbrev pub NamesCreation : (Text → Option ℕ) → Response (List (Option Text)) → ℕ → Type 0
NamesCreation int10 creation d =
    (t : Text) × (rest : List (Option Text)) × ((creation
        ≡ response (codes "1") (some (some t ∷ rest)))
      × ((t ≢ []) × (int10 t ≡ some d)))

module _ (int16 int10 int : Text → Option ℕ) (accepts : TxRow → Bool)
    (txlist txlistinternal : ℕ → ℕ → List (Answer Tx)) (works : Bool) (latest : Response Text)
    (creation : Response (List (Option Text))) (table : Table) where
  -- What a start comes to: a return before the catch-up, or the end of a catch-up.
  abbrev pub Starts : Option (Ending × Table) → Type 0
  Starts none =
      (works ≡ false)
      ⊎ (((e : ℕ) → NamesLatest int16 latest e → ⊥)
          ⊎ ((d : ℕ) → NamesCreation int10 creation d → ⊥))
  Starts (some r) =
      (l : ℕ) × (e : ℕ) × (d : ℕ) × (s : ℕ) × ((works ≡ true)
        × (IsLatest table l
            × (NamesLatest int16 latest e
                × (NamesCreation int10 creation d
                    × (((l ≤ s) × (d ≤ s))
                        × (((s ≡ l) ⊎ (s ≡ d))
                            × Reaches int accepts txlist txlistinternal s e table r))))))
