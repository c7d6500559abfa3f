-- ===== src/Proof/Store.antt =====
-- `StorageProof.save_trie_to_database`, `load_trie_from_database`, `get_trie_info_from_database` and
-- `delete_trie_from_database` (slither/tools/contract_abstract/onchain/storage_proof.py). The table
-- `storage_tries` is the list of its rows, with at most one for a contract and a block; the
-- statements are assumed to work. Parameters: `HexaryTrie` of py-trie with the attributes `db` and
-- `root_hash`, `pickle.dumps` and `pickle.loads`, and `encode_hex`.
use contract_abstract.Prelude.{
  ℕ, Text, text_eq, Bool, true, false, ◌&&◌, Option, none, some, List, [], ◌∷◌, ◌==◌, if◌then◌else◌,
}
use contract_abstract.Sync.Connect.{Connecting, connect_db}

-- `StorageProof.connect_db` is the code of `TransactionInfo.connect_db` over again.
unfoldable pub connect_trie_db : Text → List (Option Text) → Connecting
unfolding connect_db
connect_trie_db name answers = connect_db name answers

pub record TrieRow {ℓ} (Bytes : Type ℓ) : Type ℓ where
  pub contract_address : Text
  pub block_number : ℕ
  pub trie_data : Bytes
  pub trie_root_hash : Text

module _ {ℓ} {Bytes : Type ℓ} where
  -- `contract_address = %s AND block_number = %s`
  unfoldable pub is_for : Text → ℕ → TrieRow Bytes → Bool
  is_for address block row = text_eq row.contract_address address && row.block_number == block

  -- SELECT ... WHERE ..., the first row
  unfoldable pub fetchone : Text → ℕ → List (TrieRow Bytes) → Option (TrieRow Bytes)
  unfolding is_for
  fetchone address block [] = none
  fetchone address block (row ∷ rows) =
      if is_for address block row then some row else fetchone address block rows

  -- INSERT ... ON CONFLICT (contract_address, block_number) DO UPDATE
  unfoldable pub upsert : TrieRow Bytes → List (TrieRow Bytes) → List (TrieRow Bytes)
  unfolding is_for
  upsert new [] = new ∷ []
  upsert new (row ∷ rows) =
      let rest = upsert new rows in
      if is_for new.contract_address new.block_number row then new ∷ rows else row ∷ rest

  -- DELETE ... WHERE ...
  unfoldable pub delete_from : Text → ℕ → List (TrieRow Bytes) → List (TrieRow Bytes)
  unfolding is_for
  delete_from address block [] = []
  delete_from address block (row ∷ rows) =
      let rest = delete_from address block rows in
      if is_for address block row then rest else row ∷ rest

  -- `if result`
  abbrev pub is_found : Option (TrieRow Bytes) → Bool
  is_found none = false
  is_found (some row) = true

  abbrev pub root_of : Option (TrieRow Bytes) → Option Text
  root_of none = none
  root_of (some row) = some row.trie_root_hash

  -- the answer is whether a row was deleted
  unfoldable pub delete_trie_from_database :
      Text → ℕ → List (TrieRow Bytes) → Bool × List (TrieRow Bytes)
  unfolding fetchone delete_from
  delete_trie_from_database address block rows =
      (is_found (fetchone address block rows), delete_from address block rows)

  unfoldable pub get_trie_info_from_database : Text → ℕ → List (TrieRow Bytes) → Option Text
  unfolding fetchone
  get_trie_info_from_database address block rows = elim (fetchone address block rows) [
    | none ↦ none
    | some row ↦ some row.trie_root_hash
  ]

module _ {ℓ κ μ ν} {Trie : Type ℓ} {Db : Type κ} {Root : Type μ} {Bytes : Type ν}
    (hexary_trie : Db → Trie) (db : Trie → Db) (root_hash : Trie → Root) (dumps : Db → Bytes)
    (loads : Bytes → Db) (encode_hex : Root → Text) where
  unfoldable pub save_trie_to_database :
      Text → ℕ → Trie → List (TrieRow Bytes) → List (TrieRow Bytes)
  unfolding upsert
  save_trie_to_database address block trie rows =
      upsert
        (record {
          contract_address = address;
          block_number = block;
          trie_data = dumps (db trie);
          trie_root_hash = encode_hex (root_hash trie);
        })
        rows

  -- `HexaryTrie(pickle.loads(result['trie_data']))`
  abbrev pub trie_of : Option (TrieRow Bytes) → Option Trie
  trie_of none = none
  trie_of (some row) = some (hexary_trie (loads row.trie_data))

  -- the new `self.trie`; `none` where there is no row and False is returned
  unfoldable pub load_trie_from_database : Text → ℕ → List (TrieRow Bytes) → Option Trie
  unfolding fetchone
  load_trie_from_database address block rows = trie_of (fetchone address block rows)
