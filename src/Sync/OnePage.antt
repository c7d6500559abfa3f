-- ===== src/Sync/OnePage.antt =====
-- `_get_transactions` asks for the first page only.
use contract_abstract.Prelude.{
  ℕ, ◌<◌, ◌≡◌, refl, Text, codes, true, List, [], ◌∷◌, ◌++◌, arith, length,
}
use contract_abstract.Sync.Etherscan.{
  lower, contains, Answer, exception, listed, not_a_list, refused, Fetched, returned, raised,
  waiting, page_limit, resume, Next, stop, fail, next_page, retry, on_answer, get_transactions,
  fetch,
}

abbrev pub AllFirst : List ℕ → Type 0
AllFirst [] = Unit
AllFirst (p ∷ ps) = (p ≡ 1) × AllFirst ps

-- Fewer than a full page, if anything.
abbrev pub IsShort {ℓ} : {Tx : Type ℓ} → Fetched Tx → Type 0
IsShort (returned txs) = length txs < page_limit
IsShort raised = Unit
IsShort waiting = Unit

module _ {ℓ} {Tx : Type ℓ} where
  abbrev Fine : Next Tx → Type 0
  Fine (stop txs) = length txs < page_limit
  Fine fail = Unit
  Fine (next_page txs) = ⊥
  Fine retry = Unit

  -- A full page is an error, so no second page is asked for.
  on_answer-Fine : (answer : Answer Tx) → Fine (on_answer [] answer)
  unfolding on_answer
  on_answer-Fine exception = tt
  on_answer-Fine not_a_list = tt
  on_answer-Fine (listed result) = ground arith
  on_answer-Fine (refused message) = ground arith

  resume-first :
      (go : ℕ → List Tx → List ℕ × Fetched Tx) (next : Next Tx)
      → Fine next
      → AllFirst (go 1 []).0 × IsShort (go 1 []).1
      → AllFirst (resume 1 [] go next).0 × IsShort (resume 1 [] go next).1
  resume-first go (stop txs) f h = ((refl, tt), f)
  resume-first go fail f h = ((refl, tt), tt)
  resume-first go (next_page txs) f h = elim f [ ]
  resume-first go retry f h = ((refl, h.0), h.1)

  get_transactions-first :
      (answers : List (Answer Tx))
      → AllFirst (get_transactions 1 [] answers).0 × IsShort (get_transactions 1 [] answers).1
  unfolding get_transactions
  get_transactions-first [] = (tt, tt)
  get_transactions-first (answer ∷ answers) =
      resume-first (λ p txs. get_transactions p txs answers) (on_answer [] answer)
        (on_answer-Fine answer) (get_transactions-first answers)

  -- Whatever the API answers, only the first page is ever asked for, and what is returned is less
  -- than a full page: a full page is an error.
  pub fetch_one_page :
      (answers : List (Answer Tx)) → AllFirst (fetch answers).0 × IsShort (fetch answers).1
  unfolding fetch
  fetch_one_page answers = get_transactions-first answers

  -- the answers that make the loop ask again
  abbrev pub AllRateLimited : List (Answer Tx) → Type 0
  AllRateLimited [] = Unit
  AllRateLimited (exception ∷ answers) = ⊥
  AllRateLimited (listed txs ∷ answers) = ⊥
  AllRateLimited (not_a_list ∷ answers) = ⊥
  AllRateLimited (refused message ∷ answers) =
      (contains (codes "rate limit") (lower message) ≡ true) × AllRateLimited answers

  on_answer-rate_limited :
      (all : List Tx) (message : Text)
      → contains (codes "rate limit") (lower message) ≡ true
      → on_answer all (refused message) ≡ retry
  unfolding on_answer
  on_answer-rate_limited all message h = rw h

  -- Rate limiting only delays a call: with any number of such answers in front it ends as it would
  -- have ended without them.
  pub fetch-rate_limited :
      (before after : List (Answer Tx))
      → AllRateLimited before
      → (fetch (before ++ after)).1 ≡ (fetch after).1
  unfolding fetch
  fetch-rate_limited [] after h = refl
  fetch-rate_limited (exception ∷ before) after h = elim h [ ]
  fetch-rate_limited (listed txs ∷ before) after h = elim h [ ]
  fetch-rate_limited (not_a_list ∷ before) after h = elim h [ ]
  fetch-rate_limited (refused message ∷ before) after h =
      rw (on_answer-rate_limited [] message h.0) (fetch-rate_limited before after h.1)
