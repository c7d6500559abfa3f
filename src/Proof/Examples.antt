-- ===== src/Proof/Examples.antt =====
-- A small table of tries, and the theorems at it. A trie here is a list of nodes and a number for
-- its root, 0 for the empty trie.
use contract_abstract.Prelude.{Option, true, ℕ, ◌≡◌, refl, Text, codes, none, some, List, [], ◌∷◌}
use contract_abstract.Proof.Slots.{
  Slot, slot_int, slot_text, no_value, Library, rjust_32, update_storage, get_value_from_trie,
  generate_proof_for_slot, verify_proof, get_storage_with_proof, compare_with_onchain,
  batch_get_storage_with_proofs,
}
use contract_abstract.Proof.Unread.{get_value_from_trie_lem}
use contract_abstract.Proof.Store.{
  TrieRow, get_trie_info_from_database, save_trie_to_database, load_trie_from_database,
}
use contract_abstract.Proof.Reload.{Documented, load_trie_from_database-save}

abbrev Nodes : Type 0
Nodes = List ℕ

abbrev open_trie : Nodes → Nodes × ℕ
open_trie nodes = (nodes, 0)

abbrev nodes_of : Nodes × ℕ → Nodes
nodes_of t = t.0

abbrev root_of_trie : Nodes × ℕ → ℕ
root_of_trie t = t.1

abbrev same : Nodes → Nodes
same nodes = nodes

abbrev hex : ℕ → Text
hex n = n ∷ []

open_trie-Documented : Documented open_trie nodes_of root_of_trie same same hex 0
open_trie-Documented = record { loads-dumps = λ d. refl; root_hash-hexary_trie = λ d. refl }

abbrev trie : Nodes × ℕ
trie = (4 ∷ 5 ∷ [], 77)

abbrev saved : List (TrieRow Nodes)
saved =
    save_trie_to_database open_trie nodes_of root_of_trie same same hex (codes "0xa") 100 trie []

load_trie_from_database-save_example :
    (load_trie_from_database open_trie nodes_of root_of_trie same same hex (codes "0xa") 100 saved
      ≡ some (4 ∷ 5 ∷ [], 0))
    × ((root_of_trie (open_trie (nodes_of trie)) ≡ 0)
        × (get_trie_info_from_database (codes "0xa") 100 saved ≡ some (77 ∷ [])))
load_trie_from_database-save_example =
    load_trie_from_database-save open_trie nodes_of root_of_trie same same hex 0 (codes "0xa") 100
      trie [] open_trie-Documented

-- libraries as they are documented, on a trie that is the list of its pairs
abbrev accepted : Slot → Option (List ℕ)
accepted (slot_int n) = some (n ∷ [])
accepted (slot_text t) = none

abbrev as_written : List ℕ → Option (List ℕ)
as_written b = some b

abbrev first_value : List (List ℕ × List ℕ) → Option (List ℕ)
first_value [] = none
first_value (pair ∷ rest) = some pair.1

abbrev pairs_library : Library (List (List ℕ × List ℕ)) (List ℕ)
pairs_library = record {
  to_bytes = accepted;
  keccak = λ b. b;
  hex = λ n. n ∷ [];
  int_of_hex = λ t. some 5;
  rlp_encode = λ b. b;
  rlp_decode = as_written;
  encode_hex = λ b. b;
  decode_hex = as_written;
  root_hash = λ t. [];
  delete = λ t k. t;
  set = λ t k v. (k, v) ∷ t;
  get = λ t k. some (first_value t);
  get_proof = λ t k. some [];
  encode_node = as_written;
  check_proof = λ t r k v nodes. some true;
}

refuses : (t : Text) → pairs_library.to_bytes (slot_text t) ≡ none
refuses t = refl

get_value_from_trie_example :
    (get_value_from_trie pairs_library [] (slot_int 3) ≡ none)
    × ((generate_proof_for_slot pairs_library [] (slot_int 3) ≡ none)
        × ((verify_proof pairs_library [] (slot_int 3) no_value [] [] ≡ none)
            × ((get_storage_with_proof pairs_library [] (slot_int 3) ≡ none)
                × ((compare_with_onchain pairs_library accepted accepted [] (slot_int 3) ≡ none)
                    × (batch_get_storage_with_proofs pairs_library [] (slot_int 3 ∷ slot_int 4 ∷ [])
                        ≡ none)))))
get_value_from_trie_example =
    get_value_from_trie_lem pairs_library refuses accepted accepted [] (slot_int 3)
      (slot_int 4 ∷ []) no_value [] []

updated_slot :
    update_storage pairs_library [] (slot_int 3) (codes "0x5")
    ≡ some ((rjust_32 (3 ∷ []), rjust_32 (5 ∷ [])) ∷ [])
unfolding update_storage
updated_slot = refl
