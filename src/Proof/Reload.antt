-- ===== src/Proof/Reload.antt =====
-- What is read back from the table of tries.
use contract_abstract.Prelude.{
  ℕ, ◌≡◌, refl, ap, ◌∙◌, Text, text_eq, text_eq_refl, text_eq_iff, true, false, ◌&&◌, none, some,
  List, [], ◌∷◌, ◌==◌, ==_refl, arith, Bool-cases, inl, inr,
}
use contract_abstract.Proof.Store.{
  is_found, root_of, trie_of, TrieRow, is_for, fetchone, upsert, delete_from,
  delete_trie_from_database, get_trie_info_from_database, save_trie_to_database,
  load_trie_from_database,
}

module _ {ν} {Bytes : Type ν} where
  is_for_self : (new : TrieRow Bytes) → is_for new.contract_address new.block_number new ≡ true
  unfolding is_for
  is_for_self new = rw (text_eq_refl new.contract_address, ==_refl new.block_number) refl

  fetchone-upsert :
      (new : TrieRow Bytes) (rows : List (TrieRow Bytes))
      → fetchone new.contract_address new.block_number (upsert new rows) ≡ some new
  unfolding fetchone upsert
  fetchone-upsert new [] = rw (is_for_self new) refl
  fetchone-upsert new (row ∷ rows) =
      elim (Bool-cases (is_for new.contract_address new.block_number row)) [
        | inl e ↦ rw (e, is_for_self new) refl
        | inr e ↦ rw (e, e) (fetchone-upsert new rows)
      ]

  fetchone-delete_from :
      (address : Text) (block : ℕ) (rows : List (TrieRow Bytes))
      → fetchone address block (delete_from address block rows) ≡ none
  unfolding fetchone delete_from
  fetchone-delete_from address block [] = refl
  fetchone-delete_from address block (row ∷ rows) = elim (Bool-cases (is_for address block row)) [
    | inl e ↦ rw e (fetchone-delete_from address block rows)
    | inr e ↦ rw (e, e) (fetchone-delete_from address block rows)
  ]

  -- A row for another contract or block is not for this one.
  is_for_other :
      (address : Text) (block : ℕ) (new row : TrieRow Bytes)
      → is_for new.contract_address new.block_number row ≡ true
      → is_for address block new ≡ false
      → is_for address block row ≡ false
  unfolding is_for
  is_for_other address block new row e f =
      let address_eq : row.contract_address ≡ new.contract_address =
        ground (arith, e, text_eq_iff row.contract_address new.contract_address) in
      let block_eq : row.block_number ≡ new.block_number = ground (arith, e) in
      let moved : is_for address block row ≡ is_for address block new =
        rw (address_eq, block_eq) refl in
      moved ∙ f

  fetchone-upsert_other :
      (address : Text) (block : ℕ) (new : TrieRow Bytes) (rows : List (TrieRow Bytes))
      → is_for address block new ≡ false
      → fetchone address block (upsert new rows) ≡ fetchone address block rows
  unfolding fetchone upsert
  fetchone-upsert_other address block new [] f = rw f refl
  fetchone-upsert_other address block new (row ∷ rows) f =
      elim (Bool-cases (is_for new.contract_address new.block_number row)) [
        | inl e ↦ rw (e, f, is_for_other address block new row e f) refl
        | inr e ↦ rw e (elim (Bool-cases (is_for address block row)) [
          | inl g ↦ rw g refl
          | inr g ↦ rw g (fetchone-upsert_other address block new rows f)
        ])
      ]

  -- After a deletion there is nothing to load or to delete again.
  pub delete_trie_from_database_lem :
      (address : Text) (block : ℕ) (rows : List (TrieRow Bytes))
      → (get_trie_info_from_database address block (delete_trie_from_database address block rows).1
          ≡ none)
        × ((delete_trie_from_database address block
              (delete_trie_from_database address block rows).1).0
            ≡ false)
  unfolding delete_trie_from_database get_trie_info_from_database
  delete_trie_from_database_lem address block rows =
      let gone = fetchone-delete_from address block rows in (ap root_of gone, ap is_found gone)

module _ {ℓ κ μ ν} {Trie : Type ℓ} {Db : Type κ} {Root : Type μ} {Bytes : Type ν}
    (hexary_trie : Db → Trie) (db : Trie → Db) (root_hash : Trie → Root) (dumps : Db → Bytes)
    (loads : Bytes → Db) (encode_hex : Root → Text) where
  -- `pickle` gives back what it was given. A `HexaryTrie` that is made from a store alone has the root of
  -- the empty trie.
  pub record Documented (blank : Root) : Type (κ ⊔ μ) where
    pub loads-dumps : (d : Db) → loads (dumps d) ≡ d
    pub root_hash-hexary_trie : (d : Db) → root_hash (hexary_trie d) ≡ blank

  -- After a trie is saved, its root is recorded for the contract and the block; but what is loaded back
  -- has the saved nodes under the root of the empty trie.
  pub load_trie_from_database-save :
      (blank : Root) (address : Text) (block : ℕ) (trie : Trie) (rows : List (TrieRow Bytes))
      → Documented blank
      → let after =
          save_trie_to_database hexary_trie db root_hash dumps loads encode_hex address block trie
            rows in
        (load_trie_from_database hexary_trie db root_hash dumps loads encode_hex address block after
          ≡ some (hexary_trie (db trie)))
        × ((root_hash (hexary_trie (db trie)) ≡ blank)
            × (get_trie_info_from_database address block after
                ≡ some (encode_hex (root_hash trie))))
  unfolding load_trie_from_database save_trie_to_database get_trie_info_from_database
  load_trie_from_database-save blank address block trie rows h =
      let new : TrieRow Bytes = record {
        contract_address = address;
        block_number = block;
        trie_data = dumps (db trie);
        trie_root_hash = encode_hex (root_hash trie);
      } in
      let found = fetchone-upsert new rows in
      let read = trie_of hexary_trie db root_hash dumps loads encode_hex in
      (
        ap read found ∙ ap (λ d. some (hexary_trie d)) (h.loads-dumps (db trie)),
        (h.root_hash-hexary_trie (db trie), ap root_of found),
      )

  -- Saving leaves what is loaded for another contract or another block as it was.
  pub load_trie_from_database-save_other :
      (address address₂ : Text) (block block₂ : ℕ) (trie : Trie) (rows : List (TrieRow Bytes))
      → (text_eq address address₂ && block == block₂) ≡ false
      → load_trie_from_database hexary_trie db root_hash dumps loads encode_hex address₂ block₂ (
          save_trie_to_database hexary_trie db root_hash dumps loads encode_hex address block trie
            rows)
        ≡ load_trie_from_database hexary_trie db root_hash dumps loads encode_hex address₂ block₂
            rows
  unfolding load_trie_from_database save_trie_to_database is_for
  load_trie_from_database-save_other address address₂ block block₂ trie rows h =
      ap (trie_of hexary_trie db root_hash dumps loads encode_hex) (
        fetchone-upsert_other address₂ block₂
          (record {
            contract_address = address;
            block_number = block;
            trie_data = dumps (db trie);
            trie_root_hash = encode_hex (root_hash trie);
          })
          rows h)
