-- ===== src/Proof/Unread.antt =====
-- What becomes of slots that are read by their text.
use contract_abstract.Prelude.{◌≡◌, refl, Text, Option, none, some, List, ◌∷◌}
use contract_abstract.Proof.Slots.{
  Bytes, Slot, slot_int, slot_text, Expected, Library, as_text, trie_key, raw_value,
  get_value_from_trie, generate_proof_for_slot, verify_proof, get_storage_with_proof,
  compare_with_onchain, batch_get_storage_with_proofs, each,
}

module _ {ℓ} {Trie : Type ℓ} {Node : Type 0} (library : Library Trie Node)
    (refuses : (t : Text) → library.to_bytes (slot_text t) ≡ none) where
  trie_key-as_text : (slot : Slot) → trie_key library (as_text library slot) ≡ none
  unfolding trie_key
  trie_key-as_text (slot_int n) = rw (refuses (library.hex n)) refl
  trie_key-as_text (slot_text t) = rw (refuses t) refl

  get_value_from_trie-raises :
      (trie : Trie) (slot : Slot) → get_value_from_trie library trie slot ≡ none
  unfolding get_value_from_trie
  get_value_from_trie-raises trie slot = rw (trie_key-as_text slot) refl

  generate_proof_for_slot-raises :
      (trie : Trie) (slot : Slot) → generate_proof_for_slot library trie slot ≡ none
  unfolding generate_proof_for_slot
  generate_proof_for_slot-raises trie slot = rw (trie_key-as_text slot) refl

  verify_proof-raises :
      (trie : Trie) (slot : Slot) (value : Option (Option Bytes)) (expected : Expected)
      (proof : List Text) (root : Text)
      → raw_value library expected ≡ value
      → verify_proof library trie slot expected proof root ≡ none
  unfolding verify_proof
  verify_proof-raises trie slot none expected proof root e = rw e refl
  verify_proof-raises trie slot (some v) expected proof root e = rw (e, trie_key-as_text slot) refl

  get_storage_with_proof-raises :
      (trie : Trie) (slot : Slot) → get_storage_with_proof library trie slot ≡ none
  unfolding get_storage_with_proof
  get_storage_with_proof-raises trie slot =
      rw (get_value_from_trie-raises trie (as_text library slot)) refl

  -- The int of a slot is made a hex text before `to_bytes` reads it. Where `to_bytes` refuses texts, as
  -- that of eth_utils does, reading any slot, proving it, verifying a proof of it and comparing it
  -- with the chain raise, and so does a batch with a slot in it.
  pub get_value_from_trie_lem :
      {Answer : Type 0} (value_of : Slot → Option Bytes) (proof_of : Slot → Option Answer)
      (trie : Trie) (slot : Slot) (slots : List Slot) (expected : Expected) (proof : List Text)
      (root : Text)
      → (get_value_from_trie library trie slot ≡ none)
        × ((generate_proof_for_slot library trie slot ≡ none)
            × ((verify_proof library trie slot expected proof root ≡ none)
                × ((get_storage_with_proof library trie slot ≡ none)
                    × ((compare_with_onchain library value_of proof_of trie slot ≡ none)
                        × (batch_get_storage_with_proofs library trie (slot ∷ slots) ≡ none)))))
  unfolding compare_with_onchain batch_get_storage_with_proofs each
  get_value_from_trie_lem value_of proof_of trie slot slots expected proof root = (
    get_value_from_trie-raises trie slot,
    (
      generate_proof_for_slot-raises trie slot,
      (
        verify_proof-raises trie slot (raw_value library expected) expected proof root refl,
        (
          get_storage_with_proof-raises trie slot,
          (
            rw (get_value_from_trie-raises trie (as_text library slot)) refl,
            rw (get_storage_with_proof-raises trie slot) refl,
          ),
        ),
      ),
    ),
  )
