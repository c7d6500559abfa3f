-- ===== src/Sync/Connect.antt =====
-- `TransactionInfo.connect_db` (slither/tools/contract_abstract/onchain/transaction_info.py). What
-- the calls of `psycopg2.connect` come to is a list, one answer for each: connected, or the message
-- of an `OperationalError`; another exception is raised again and is not modelled.
use contract_abstract.Prelude.{
  ℕ, zero, suc, ◌-◌, ◌*◌, Text, codes, text_eq, Bool, ◌&&◌, Option, none, some, List, [], ◌∷◌, ltb,
  if◌then◌else◌,
}
use contract_abstract.Sync.Etherscan.{lower, contains}

-- Waiting for an answer that is not in the list; or past the last round of the loop, with no
-- connection and no exception.
pub data Connection : Type 0 where
  connected : Connection
  raised : Connection
  waiting : Connection
  fell_through : Connection

-- the names that were tried, the seconds slept, the name in the configuration, and the end
pub record Connecting : Type 0 where
  pub tried : List Text
  pub slept : List ℕ
  pub database : Text
  pub connection : Connection

abbrev pub ends : Text → Connection → Connecting
ends name c = record { tried = []; slept = []; database = name; connection = c }

abbrev pub after_trying : Text → Connecting → Connecting
after_trying name r = record {
  tried = name ∷ r.tried;
  slept = r.slept;
  database = r.database;
  connection = r.connection;
}

abbrev pub after_sleeping : ℕ → Connecting → Connecting
after_sleeping n r = record {
  tried = r.tried;
  slept = n ∷ r.slept;
  database = r.database;
  connection = r.connection;
}

-- the second try, under the name in small letters
unfoldable pub connect_lowercase : Text → List (Option Text) → Connecting
connect_lowercase name [] = ends name waiting
connect_lowercase name (none ∷ answers) = after_trying (lower name) (ends (lower name) connected)
connect_lowercase name (some message ∷ answers) = after_trying (lower name) (ends name raised)

abbrev pub max_retries : ℕ
max_retries = 3

-- `for attempt in range(max_retries)`: `left` rounds are left
-- The handler: what follows by the message, `more` being `attempt < max_retries - 1`.
unfoldable pub on_error : Text → Text → Bool → Connecting → Connecting → Connecting
on_error name error_msg more lowercase again =
    if contains (codes "database") error_msg && contains (codes "does not exist") error_msg
    then (if text_eq name (lower name) then ends name raised else lowercase)
    else if contains (codes "authentication failed") error_msg
    then ends name raised
    else if contains (codes "connection refused") error_msg
    then ends name raised
    else if more
    then again
    else ends name raised

-- `for attempt in range(max_retries)`: `left` rounds are left
unfoldable pub connect_from : ℕ → ℕ → Text → List (Option Text) → Connecting
unfolding on_error
connect_from zero retry_delay name answers = ends name fell_through
connect_from (suc left) retry_delay name [] = ends name waiting
connect_from (suc left) retry_delay name (none ∷ answers) = after_trying name (ends name connected)
connect_from (suc left) retry_delay name (some message ∷ answers) =
    let attempt = max_retries - suc left in
    let again = connect_from left (retry_delay * 2) name answers in
    after_trying name (
      on_error name (lower message) (ltb attempt (max_retries - 1)) (connect_lowercase name answers)
        (after_sleeping retry_delay again))

unfoldable pub connect_db : Text → List (Option Text) → Connecting
unfolding connect_from connect_lowercase
connect_db name answers = connect_from max_retries 2 name answers
