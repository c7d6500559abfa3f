-- ===== src/Sync/Examples.antt =====
-- Following a contract on small data, and the theorems at it.
use contract_abstract.Prelude.{
  if◌then◌else◌, ℕ, ◌≡◌, refl, Text, codes, text_eq, Bool, true, false, Option, none, some, List,
  [], ◌∷◌, length,
}
use contract_abstract.Sync.Etherscan.{
  get_transactions_from_etherscan, lower, contains, Answer, listed, refused, returned, fetch,
}
use contract_abstract.Sync.OnePage.{AllFirst, IsShort, fetch_one_page}
use mathlib.Core.List.{Permᴰ}
use mathlib.Core.List.Permᴰ
use contract_abstract.Sync.Order.{AreDescending}
use contract_abstract.Sync.Pages.{
  page_size_of, selected, get_transactions_paginated, get_transactions_by_batch,
}
use contract_abstract.Sync.Complete.{Yields, get_transactions_paginated_complete}
use contract_abstract.Sync.Save.{
  TxRow, Tx, Table, to_row, insert, has_hash, save_transactions_to_db,
}
use contract_abstract.Sync.Saved.{Outcome, save_transactions_to_db_lem}
use contract_abstract.Sync.Service.{save_fetched, start_block_of, synchronize}
use contract_abstract.Sync.Connect.{connected, connect_db}
use contract_abstract.Sync.Monitor.{Round, running, watching, monitor}
use contract_abstract.Sync.Followed.{Follows, monitor-Follows}
use contract_abstract.Sync.Blocks.{get_block_range, Response, response}
use contract_abstract.Sync.Starts.{Starts}
use contract_abstract.Sync.CaughtUp.{Reaches, synchronize_lem}

abbrev limited : Answer ℕ
limited = refused (codes "Max rate limit reached")

fetch-limited : fetch (limited ∷ listed (7 ∷ 8 ∷ []) ∷ []) ≡ (1 ∷ 1 ∷ [], returned (7 ∷ 8 ∷ []))
unfolding fetch
fetch-limited = refl

fetch_one_page_example :
    AllFirst (fetch (limited ∷ listed (7 ∷ 8 ∷ []) ∷ [])).0
    × IsShort (fetch (limited ∷ listed (7 ∷ 8 ∷ []) ∷ [])).1
fetch_one_page_example = fetch_one_page (limited ∷ listed (7 ∷ 8 ∷ []) ∷ [])

-- rows that are their own block numbers
abbrev blocks : List ℕ
blocks = 9 ∷ 8 ∷ 7 ∷ 6 ∷ 5 ∷ []

-- a database that leaves rows as they lie; the table lies in descending order
abbrev as_stored : ℕ → ℕ → List ℕ → List ℕ
as_stored limit offset rows = rows

paginated-blocks :
    get_transactions_paginated some as_stored blocks (some 6) (some 8) 2 none
    ≡ some ((8 ∷ 7 ∷ []) ∷ (6 ∷ []) ∷ [])
unfolding get_transactions_paginated selected
paginated-blocks = refl

get_transactions_paginated_complete_example :
    (ordered : List ℕ) × (Permᴰ ordered (selected some (some 6) (some 8) blocks)
      × (AreDescending some some ordered
          × (Yields
                (page_size_of 2)
                ordered
                (get_transactions_paginated some as_stored blocks (some 6) (some 8) 2 none)
              × (get_transactions_by_batch some as_stored blocks (some 6) (some 8) 2
                  ≡ get_transactions_paginated some as_stored blocks (some 6) (some 8) 2 none))))
unfolding selected
get_transactions_paginated_complete_example =
    get_transactions_paginated_complete some some as_stored blocks (some 6) (some 8) 2
      (λ limit offset. (Permᴰ.refl (8 ∷ 7 ∷ 6 ∷ []), ((refl, (refl, tt)), ((refl, tt), (tt, tt)))))
      ((refl, (refl, tt)), ((refl, tt), (tt, tt)))

-- a transaction with the hash `h` and no other field
abbrev with_hash : Text → Tx
with_hash h key = elim (text_eq key (codes "hash")) [ true ↦ some h | false ↦ none ]

abbrev int : Text → Option ℕ
int s = some (length s)

abbrev accepts : TxRow → Bool
accepts row = true

-- an internal transaction has the hash of the transaction that it belongs to
abbrev txs : List Tx
txs = with_hash (codes "0xa") ∷ with_hash (codes "0xb") ∷ with_hash (codes "0xa") ∷ []

abbrev saved : Table
saved = (save_transactions_to_db int accepts txs []).1

save_transactions_to_db_lem_example :
    Outcome int accepts txs [] (save_transactions_to_db int accepts txs [])
save_transactions_to_db_lem_example = save_transactions_to_db_lem int accepts txs []

abbrev txlist : ℕ → ℕ → List (Answer Tx)
txlist first last = listed txs ∷ []

abbrev txlistinternal : ℕ → ℕ → List (Answer Tx)
txlistinternal first last = refused (codes "No transactions found") ∷ []

synchronize_lem_example :
    Reaches int accepts txlist txlistinternal
      (start_block_of 0 12)
      8000
      []
      (synchronize int accepts txlist txlistinternal 0 12 8000 [])
synchronize_lem_example = synchronize_lem int accepts txlist txlistinternal 0 12 8000 []

-- a database that is missing under its mixed-case name
abbrev missing : List (Option Text)
missing = some (codes "database \"Eth\" does not exist") ∷ none ∷ []

connect_db-missing : connect_db (codes "Eth") missing ≡ record {
  tried = codes "Eth" ∷ codes "eth" ∷ [];
  slept = [];
  database = codes "eth";
  connection = connected;
}
unfolding connect_db contains lower text_eq
connect_db-missing = refl

abbrev quiet : Round
quiet = record { latest = none; txlist = txlist; txlistinternal = txlistinternal }

abbrev found : Round
found = record { latest = some 8002; txlist = txlist; txlistinternal = txlistinternal }

abbrev rounds : List Round
rounds = quiet ∷ found ∷ quiet ∷ []

monitor-Follows_example :
    Follows int accepts rounds
      (watching 0 8000 [] running)
      (monitor int accepts rounds (watching 0 8000 [] running))
monitor-Follows_example = monitor-Follows int accepts rounds (watching 0 8000 [] running)

monitor-rounds : (monitor int accepts rounds (watching 0 8000 [] running)).end_block ≡ 8002
unfolding monitor get_transactions_from_etherscan save_fetched save_transactions_to_db contains
    lower text_eq to_row insert has_hash
monitor-rounds = refl

-- a transaction with a hash and a block number; `int` counts the digits
abbrev mined : Text → Text → Tx
mined h b key =
    if text_eq key (codes "hash")
    then some h
    else if text_eq key (codes "blockNumber")
    then some b
    else none

abbrev chain_table : Table
chain_table =
    (save_transactions_to_db int accepts
      (mined (codes "0xa") (codes "11") ∷ mined (codes "0xb") (codes "1111") ∷ []) []).1

range-chain_table :
    get_block_range true chain_table
    ≡ some (record { min_block = 2; max_block = 4; total_blocks = 2 })
unfolding get_block_range save_transactions_to_db text_eq to_row insert has_hash
range-chain_table = refl

abbrev latest_answer : Response Text
latest_answer = response [] (some (codes "0x1f40"))

abbrev creation_answer : Response (List (Option Text))
creation_answer = response (codes "1") (some (some (codes "123") ∷ []))
