-- ===== src/Tables/Written.antt =====
-- A table as a function from keys to rows, and `write_elements_to_table` as a change to it.
use contract_abstract.Prelude.{
  ◌≡◌, ◌↔◌, refl, sym, ap, subst, ◌∙◌, Text, Bool, true, false, not, ◌&&◌, Option, none, some, List,
  [], ◌∷◌, ◌++◌, if◌then◌else◌, Bool-cases, Option-cases, inl, inr, arith,
}
use contract_abstract.Tables.Write.{
  Record, Attributes, any_missing, row_of, key_values, has_null, only_keys, updated, same_value,
  same_key, exists_key, update_rows, insert_record, update_record, write_elements_to_table,
}
use contract_abstract.Tables.Updated.{
  own_names-AllMembers, key_values-updated, updated-only_keys, merged,
}

module _ {ℓ} {V : Type ℓ} (same : V → V → Bool) (accepts : Attributes V → Bool) where
  -- the row of a key
  pub find : List Text → List (Option V) → List (Record V) → Option (Record V)
  unfolding key_values
  find pks key [] = none
  find pks key (row ∷ rows) =
      if same_key same accepts (key_values pks row) key then some row else find pks key rows

  -- The table reads as before, but at the key of the attributes, where a row is changed in the columns
  -- that are given, or is new.
  abbrev pub IsWritten : List Text → Attributes V → List (Record V) → List (Record V) → Type ℓ
  IsWritten pks attributes table after =
      (key : List (Option V))
      → find pks key after ≡ (
          if same_key same accepts (key_values pks (row_of attributes)) key
          then merged pks attributes (find pks key table)
          else find pks key table)

  module _ (same_iff : (a b : V) → (same a b ≡ true) ↔ (a ≡ b)) where
    same_value-eq : (a b : Option V) → same_value same accepts a b ≡ true → a ≡ b
    same_value-eq none b e = cc e
    same_value-eq (some a) none e = cc e
    same_value-eq (some a) (some b) e = ap (λ v. some v) ((same_iff a b).0 e)

    pub same_key-eq : (a b : List (Option V)) → same_key same accepts a b ≡ true → a ≡ b
    same_key-eq [] [] e = refl
    same_key-eq [] (b ∷ bs) e = cc e
    same_key-eq (a ∷ as₁) [] e = cc e
    same_key-eq (a ∷ as₁) (b ∷ bs) e =
        let head = same_value-eq a b (ground (arith, e)) in
        let tail = same_key-eq as₁ bs (ground (arith, e)) in rw (head, tail) refl

    find-exists_key :
        (pks : List Text) (key : List (Option V)) (table : List (Record V))
        → exists_key same accepts pks key table ≡ true
        → (row : Record V) × (find pks key table ≡ some row)
    unfolding exists_key find
    find-exists_key pks key [] e = cc e
    find-exists_key pks key (row ∷ rows) e =
        elim (Bool-cases (same_key same accepts (key_values pks row) key)) [
          | inl t ↦ (row, rw t refl)
          | inr f ↦ let (r, h) = find-exists_key pks key rows (ground (arith, e, f)) in (r, rw f h)
        ]

    find-not_exists_key :
        (pks : List Text) (key : List (Option V)) (table : List (Record V))
        → exists_key same accepts pks key table ≡ false
        → find pks key table ≡ none
    unfolding exists_key find
    find-not_exists_key pks key [] e = refl
    find-not_exists_key pks key (row ∷ rows) e =
        let f : same_key same accepts (key_values pks row) key ≡ false = ground (arith, e) in
        rw f (find-not_exists_key pks key rows (ground (arith, e)))

    find-append :
        (pks : List Text) (key : List (Option V)) (table : List (Record V)) (row : Record V)
        → find pks key (table ++ row ∷ []) ≡ (elim (find pks key table) [
          | none ↦ if same_key same accepts (key_values pks row) key then some row else none
          | some r ↦ some r
        ])
    unfolding find
    find-append pks key [] row = refl
    find-append pks key (first ∷ table) row =
        elim (Bool-cases (same_key same accepts (key_values pks first) key)) [
          | inl t ↦ rw t refl
          | inr f ↦ rw f (find-append pks key table row)
        ]

    -- what `UPDATE` does to what a key finds
    abbrev changed : List Text → Attributes V → Option (Record V) → Option (Record V)
    changed pks attributes none = none
    changed pks attributes (some row) = some (updated pks attributes row)

    find-update_rows :
        (pks : List Text) (k key : List (Option V)) (attributes : Attributes V)
        (table : List (Record V))
        → find pks key (update_rows same accepts pks k attributes table) ≡ (
            if same_key same accepts k key
            then changed pks attributes (find pks key table)
            else find pks key table)
    unfolding find update_rows
    find-update_rows pks k key attributes [] = ground arith
    find-update_rows pks k key attributes (row ∷ rows) =
        let later = find-update_rows pks k key attributes rows in
        elim (Bool-cases (same_key same accepts (key_values pks row) k)) [
          | inl t ↦
              let own : key_values pks row ≡ k = same_key-eq (key_values pks row) k t in
              let kept : key_values pks (updated pks attributes row) ≡ k =
                key_values-updated pks pks attributes row (own_names-AllMembers pks) ∙ own in
              elim (Bool-cases (same_key same accepts k key)) [
                | inl hit ↦ rw (t, kept, own, hit) refl
                | inr miss ↦ rw (t, kept, own, miss) (rw miss at later)
              ]
          | inr f ↦ elim (Bool-cases (same_key same accepts (key_values pks row) key)) [
            | inl hit ↦ elim (Bool-cases (same_key same accepts k key)) [
              | inl both ↦ cc (f, hit, same_key-eq k key both)
              | inr miss ↦ rw (f, hit, miss) refl
            ]
            | inr miss ↦ rw (f, miss) later
          ]
        ]

    update-IsWritten :
        (pks : List Text) (attributes : Attributes V) (table : List (Record V))
        → exists_key same accepts pks (key_values pks (row_of attributes)) table ≡ true
        → IsWritten pks attributes table
            (update_rows same accepts pks (key_values pks (row_of attributes)) attributes table)
    update-IsWritten pks attributes table there key =
        let k = key_values pks (row_of attributes) in
        let (r, found) = find-exists_key pks k table there in
        elim (Bool-cases (same_key same accepts k key)) [
          | inl hit ↦
              let at_key : find pks key table ≡ some r =
                subst (λ x. find pks x table ≡ some r) (same_key-eq k key hit) found in
              find-update_rows pks k key attributes table ∙ rw (hit, at_key) refl
          | inr miss ↦ find-update_rows pks k key attributes table ∙ rw miss refl
        ]

    insert-IsWritten :
        (pks : List Text) (attributes : Attributes V) (table : List (Record V))
        → exists_key same accepts pks (key_values pks (row_of attributes)) table ≡ false
        → IsWritten pks attributes table (table ++ row_of attributes ∷ [])
    insert-IsWritten pks attributes table new key =
        let k = key_values pks (row_of attributes) in
        elim (Bool-cases (same_key same accepts k key)) [
          | inl hit ↦
              let at_key : find pks key table ≡ none =
                subst (λ x. find pks x table ≡ none) (same_key-eq k key hit)
                  (find-not_exists_key pks k table new) in
              find-append pks key table (row_of attributes) ∙ rw (at_key, hit) refl
          | inr miss ↦
              find-append pks key table (row_of attributes)
              ∙ elim (Option-cases (find pks key table)) [
                | inl e ↦ rw (e, miss) refl
                | inr (r, e) ↦ rw (e, miss) refl
              ]
        ]

    keys-IsWritten :
        (pks : List Text) (attributes : Attributes V) (table : List (Record V))
        → exists_key same accepts pks (key_values pks (row_of attributes)) table ≡ true
        → only_keys pks attributes ≡ true
        → IsWritten pks attributes table table
    keys-IsWritten pks attributes table there only key =
        let k = key_values pks (row_of attributes) in
        let (r, found) = find-exists_key pks k table there in
        elim (Bool-cases (same_key same accepts k key)) [
          | inl hit ↦
              let at_key : find pks key table ≡ some r =
                subst (λ x. find pks x table ≡ some r) (same_key-eq k key hit) found in
              rw (hit, at_key) (ap (λ x. some x) (sym (updated-only_keys pks attributes r only)))
          | inr miss ↦ rw miss refl
        ]

    abbrev pub Outcome :
        List Text → Attributes V → List (Record V) → Bool × List (Record V) → Type ℓ
    Outcome pks attributes table (true, after) = IsWritten pks attributes table after
    Outcome pks attributes table (false, after) = after ≡ table

    insert-Outcome :
        (pks : List Text) (attributes : Attributes V) (table : List (Record V))
        → exists_key same accepts pks (key_values pks (row_of attributes)) table ≡ false
        → Outcome pks attributes table (insert_record same accepts pks attributes table)
    unfolding insert_record
    insert-Outcome pks attributes table new =
        elim (Bool-cases
          (accepts attributes && not (has_null (key_values pks (row_of attributes))))) [
            | inl a ↦ rw a (insert-IsWritten pks attributes table new)
            | inr a ↦ rw a refl
          ]

    update-Outcome :
        (pks : List Text) (attributes : Attributes V) (table : List (Record V))
        → exists_key same accepts pks (key_values pks (row_of attributes)) table ≡ true
        → Outcome pks attributes table (update_record same accepts pks attributes table)
    unfolding update_record
    update-Outcome pks attributes table there = elim (Bool-cases (only_keys pks attributes)) [
      | inl only ↦ rw only (keys-IsWritten pks attributes table there only)
      | inr more ↦ elim (Bool-cases (accepts attributes)) [
        | inl a ↦ rw (more, a) (update-IsWritten pks attributes table there)
        | inr a ↦ rw (more, a) refl
      ]
    ]

    pub write_elements_to_table-Outcome :
        (pks : List Text) (attributes : Attributes V) (table : List (Record V))
        → Outcome pks attributes table (write_elements_to_table same accepts pks attributes table)
    unfolding write_elements_to_table
    write_elements_to_table-Outcome [] attributes table = refl
    write_elements_to_table-Outcome (pk ∷ pks) attributes table =
        elim (Bool-cases (any_missing (pk ∷ pks) attributes)) [
          | inl m ↦ rw m refl
          | inr m ↦
              let k = key_values (pk ∷ pks) (row_of attributes) in
              elim (Bool-cases (exists_key same accepts (pk ∷ pks) k table)) [
                | inl e ↦ rw (m, e) (update-Outcome (pk ∷ pks) attributes table e)
                | inr e ↦ rw (m, e) (insert-Outcome (pk ∷ pks) attributes table e)
              ]
        ]
