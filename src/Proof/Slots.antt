-- ===== src/Proof/Slots.antt =====
-- Single slots in the local trie: `update_storage`, `get_value_from_trie`, `generate_proof_for_slot`,
-- `verify_proof`, `get_storage_with_proof`, `compare_with_onchain` and `batch_get_storage_with_proofs`
-- of StorageProof (slither/tools/contract_abstract/onchain/storage_proof.py). Byte strings are lists of
-- numbers, `none` as an outcome is a raised exception. Parameters: the library functions that the
-- record `Library` lists, and what the node answers.
use contract_abstract.Prelude.{
  ℕ, zero, suc, ◌-◌, Text, Bool, true, false, Option, none, some, List, [], ◌∷◌, ◌++◌, length, ◌==◌,
  if◌then◌else◌,
}
use contract_abstract.Layout.Types.{◌>>=◌}

abbrev pub Bytes : Type 0
Bytes = List ℕ

-- a slot is an int or a hex string
pub data Slot : Type 0 where
  slot_int : ℕ → Slot
  slot_text : Text → Slot

-- an expected value: None, bytes or a hex string
pub data Expected : Type 0 where
  no_value : Expected
  raw : Bytes → Expected
  in_hex : Text → Expected

pub record Library {ℓ} (Trie : Type ℓ) (Node : Type 0) : Type ℓ where
  pub to_bytes : Slot → Option Bytes
  pub keccak : Bytes → Bytes
  pub hex : ℕ → Text
  pub int_of_hex : Text → Option ℕ
  pub rlp_encode : Bytes → Bytes
  pub rlp_decode : Bytes → Option Bytes
  pub encode_hex : Bytes → Text
  pub decode_hex : Text → Option Bytes
  pub root_hash : Trie → Bytes
  pub delete : Trie → Bytes → Trie
  pub set : Trie → Bytes → Bytes → Trie
  pub get : Trie → Bytes → Option (Option Bytes)
  pub get_proof : Trie → Bytes → Option (List Node)
  pub encode_node : Node → Option Text
  pub check_proof : Trie → Bytes → Bytes → Option Bytes → List Bytes → Option Bool

pub record ProofInfo : Type 0 where
  pub slot : Slot
  pub hex_key : Text
  pub hex_value : Option Text
  pub proof : List Text
  pub root : Text

pub record StorageWithProof : Type 0 where
  pub slot : Slot
  pub value : Option Text
  pub proof : List Text
  pub root : Text
  pub verified : Bool

pub record Comparison {ℓ} (Answer : Type ℓ) : Type ℓ where
  pub slot : Slot
  pub local_value : Option Text
  pub onchain_value : Text
  pub values_match : Bool
  pub onchain_proof : Answer

abbrev pub zeros : ℕ → Bytes
zeros zero = []
zeros (suc n) = 0 ∷ zeros n

-- `.rjust(32, b"\x00")`
unfoldable pub rjust_32 : Bytes → Bytes
rjust_32 b = zeros (32 - length b) ++ b

-- `a == b` of two byte strings
unfoldable pub bytes_eq : Bytes → Bytes → Bool
bytes_eq [] [] = true
bytes_eq [] (b ∷ bs) = false
bytes_eq (a ∷ as₁) [] = false
bytes_eq (a ∷ as₁) (b ∷ bs) = let rest = bytes_eq as₁ bs in if a == b then rest else false

-- an exception in the `try` block gives `fallback`
abbrev pub caught {ℓ} : {A : Type ℓ} → A → Option A → A
caught fallback none = fallback
caught fallback (some a) = a

-- None stays None
abbrev pub decoded : (Bytes → Option Bytes) → Option Bytes → Option (Option Bytes)
decoded decode none = some none
decoded decode (some b) = decode b >>= λ v. some (some v)

abbrev pub in_text : (Bytes → Text) → Option Bytes → Option Text
in_text encode none = none
in_text encode (some b) = some (encode b)

-- `encode_hex(p) for p in proof`, `decode_hex(p) for p in proof`
unfoldable pub each {ℓ κ} : {A : Type ℓ} {B : Type κ} → (A → Option B) → List A → Option (List B)
each f [] = some []
each f (a ∷ as₁) = f a >>= λ b. each f as₁ >>= λ bs. some (b ∷ bs)

module _ {ℓ} {Trie : Type ℓ} {Node : Type 0} (library : Library Trie Node) where
  -- `if isinstance(slot, int): slot = hex(slot)`
  abbrev pub as_text : Slot → Slot
  as_text (slot_int n) = slot_text (library.hex n)
  as_text (slot_text t) = slot_text t

  unfoldable pub trie_key : Slot → Option Bytes
  unfolding rjust_32
  trie_key slot = library.to_bytes slot >>= λ b. some (library.keccak (rjust_32 b))

  unfoldable pub update_storage : Trie → Slot → Text → Option Trie
  unfolding trie_key rjust_32
  update_storage trie slot value_hex = trie_key slot >>= λ k. library.int_of_hex value_hex >>= λ v.
      let written = library.to_bytes (slot_int v) >>= λ b.
      some (library.set trie k (library.rlp_encode (rjust_32 b))) in
      if v == 0 then some (library.delete trie k) else written

  unfoldable pub get_value_from_trie : Trie → Slot → Option (Option Bytes)
  unfolding trie_key
  get_value_from_trie trie slot = trie_key (as_text slot) >>= λ k.
      some (caught none (library.get trie k >>= decoded library.rlp_decode))

  unfoldable pub generate_proof_for_slot : Trie → Slot → Option (Option ProofInfo)
  unfolding trie_key get_value_from_trie each
  generate_proof_for_slot trie slot = trie_key (as_text slot) >>= λ k. some (
      caught none (
        library.get_proof trie k >>= λ nodes. get_value_from_trie trie (as_text slot) >>= λ v.
        each library.encode_node nodes >>= λ proof. some (
          some (record {
            slot = as_text slot;
            hex_key = library.encode_hex k;
            hex_value = in_text library.encode_hex v;
            proof = proof;
            root = library.encode_hex (library.root_hash trie);
          }))))

  -- `if isinstance(value, str): value = decode_hex(value)`
  abbrev pub raw_value : Expected → Option (Option Bytes)
  raw_value no_value = some none
  raw_value (raw b) = some (some b)
  raw_value (in_hex t) = library.decode_hex t >>= λ b. some (some b)

  abbrev pub encoded : Option Bytes → Option Bytes
  encoded none = none
  encoded (some b) = some (library.rlp_encode b)

  unfoldable pub verify_proof : Trie → Slot → Expected → List Text → Text → Option Bool
  unfolding trie_key each
  verify_proof trie slot value proof root_hash = raw_value value >>= λ v.
      trie_key (as_text slot) >>= λ k. some (
        caught false (
          each library.decode_hex proof >>= λ nodes. library.decode_hex root_hash >>= λ root.
          library.check_proof trie root k (encoded v) nodes))

  abbrev pub expected : Option Bytes → Expected
  expected none = no_value
  expected (some b) = raw b

  abbrev pub with_verdict :
      Trie → Slot → Option Bytes → Option ProofInfo → Option (Option StorageWithProof)
  with_verdict trie slot v none = some none
  with_verdict trie slot v (some info) =
      verify_proof trie slot (expected v) info.proof info.root >>= λ ok. some (
        some (record {
          slot = slot;
          value = in_text library.encode_hex v;
          proof = info.proof;
          root = info.root;
          verified = ok;
        }))

  unfoldable pub get_storage_with_proof : Trie → Slot → Option (Option StorageWithProof)
  unfolding get_value_from_trie generate_proof_for_slot verify_proof
  get_storage_with_proof trie slot = get_value_from_trie trie (as_text slot) >>= λ v.
      generate_proof_for_slot trie (as_text slot) >>= λ info.
      with_verdict trie (as_text slot) v info

  abbrev pub same_value_as : Option Bytes → Bytes → Bool
  same_value_as none b = false
  same_value_as (some a) b = bytes_eq a b

  -- the node's answers for the slot: the value and the proof
  unfoldable pub compare_with_onchain {κ} :
      {Answer : Type κ}
      → (Slot → Option Bytes)
      → (Slot → Option Answer)
      → Trie
      → Slot
      → Option (Comparison Answer)
  unfolding get_value_from_trie bytes_eq
  compare_with_onchain get_storage_value get_storage_proof trie slot =
      get_value_from_trie trie (as_text slot) >>= λ v.
      get_storage_value (as_text slot) >>= λ onchain. get_storage_proof (as_text slot) >>= λ answer.
      some (record {
        slot = as_text slot;
        local_value = in_text library.encode_hex v;
        onchain_value = library.encode_hex onchain;
        values_match = same_value_as v onchain;
        onchain_proof = answer;
      })

  -- none in the list is the entry with an "error"
  unfoldable pub batch_get_storage_with_proofs :
      Trie → List Slot → Option (List (Option StorageWithProof))
  unfolding get_storage_with_proof each
  batch_get_storage_with_proofs trie slots = each (get_storage_with_proof trie) slots
