-- ===== src/Sync/Etherscan.antt =====
-- `TransactionInfo._get_transactions` and `get_transactions_from_etherscan`
-- (slither/tools/contract_abstract/onchain/transaction_info.py). The answers of the API come as a
-- list, one for each request; a run that has used them up is `waiting`.
use contract_abstract.Prelude.{
  ℕ, ◌+◌, Text, codes, Bool, ◌&&◌, ◌||◌, List, [], ◌∷◌, ◌++◌, length, leb, ltb, ◌==◌, if◌then◌else◌,
}
use contract_abstract.Layout.Types.{starts_with}

-- `s.lower()` on the letters A to Z
abbrev lower_code : ℕ → ℕ
lower_code c = if leb b'A' c && leb c b'Z' then c + 32 else c

unfoldable pub lower : Text → Text
lower [] = []
lower (c ∷ cs) = lower_code c ∷ lower cs

-- `p in s`
unfoldable pub contains : Text → Text → Bool
unfolding starts_with
contains p [] = starts_with p []
contains p (c ∷ cs) = starts_with p (c ∷ cs) || contains p cs

-- What a request comes to: an exception of `requests` or of the JSON decoder, an answer with status
-- "1" and a list or something else as its result, or an answer with another status and a message.
pub data Answer {ℓ} (Tx : Type ℓ) : Type ℓ where
  exception : Answer Tx
  listed : List Tx → Answer Tx
  not_a_list : Answer Tx
  refused : Text → Answer Tx

pub data Fetched {ℓ} (Tx : Type ℓ) : Type ℓ where
  returned : List Tx → Fetched Tx
  raised : Fetched Tx
  waiting : Fetched Tx

-- `offset` and `max_pages`
abbrev pub page_limit : ℕ
page_limit = 10000

abbrev pub max_pages : ℕ
max_pages = 100

-- what the loop does next
pub data Next {ℓ} (Tx : Type ℓ) : Type ℓ where
  stop : List Tx → Next Tx
  fail : Next Tx
  next_page : List Tx → Next Tx
  retry : Next Tx

module _ {ℓ} {Tx : Type ℓ} where
  -- One round of the loop body. Every exception that is raised in it is raised again by a handler.
  unfoldable pub on_answer : List Tx → Answer Tx → Next Tx
  unfolding lower contains
  on_answer all exception = fail
  on_answer all not_a_list = fail
  on_answer all (listed result) =
      if length result == 0
      then stop all
      else if ltb (length result) page_limit
      then stop (all ++ result)
      else if leb page_limit (length result)
      then fail
      else next_page (all ++ result)
  on_answer all (refused message) =
      if contains (codes "rate limit") (lower message)
      then retry
      else if contains (codes "invalid api key") (lower message)
      then fail
      else if contains (codes "no transactions found") (lower message)
      then stop all
      else fail

  -- the request for `page` is made before what follows
  abbrev pub asked : ℕ → List ℕ × Fetched Tx → List ℕ × Fetched Tx
  asked page rest = (page ∷ rest.0, rest.1)

  abbrev pub resume :
      ℕ → List Tx → (ℕ → List Tx → List ℕ × Fetched Tx) → Next Tx → List ℕ × Fetched Tx
  resume page all go (stop txs) = (page ∷ [], returned txs)
  resume page all go fail = (page ∷ [], raised)
  resume page all go (next_page txs) = asked page (go (page + 1) txs)
  resume page all go retry = asked page (go page all)

  -- `while page <= max_pages`: the pages that were asked for, and how the call ends
  unfoldable pub get_transactions : ℕ → List Tx → List (Answer Tx) → List ℕ × Fetched Tx
  get_transactions page all [] = ([], if leb page max_pages then waiting else returned all)
  get_transactions page all (answer ∷ answers) =
      let round =
        resume page all (λ p txs. get_transactions p txs answers) (on_answer all answer) in
      if leb page max_pages then round else ([], returned all)

  -- `_get_transactions(...)`: the loop from page 1
  unfoldable pub fetch : List (Answer Tx) → List ℕ × Fetched Tx
  unfolding get_transactions on_answer
  fetch = get_transactions 1 []

  -- `get_transactions_from_etherscan`: "txlist", then "txlistinternal"; an exception of either call
  -- is raised again
  unfoldable pub get_transactions_from_etherscan : List (Answer Tx) → List (Answer Tx) → Fetched Tx
  unfolding fetch
  get_transactions_from_etherscan normal internal = elim (fetch normal).1 [
    | returned txs ↦ elim (fetch internal).1 [
      | returned more ↦ returned (txs ++ more)
      | raised ↦ raised
      | waiting ↦ waiting
    ]
    | raised ↦ raised
    | waiting ↦ waiting
  ]
