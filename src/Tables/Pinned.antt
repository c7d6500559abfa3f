-- ===== src/Tables/Pinned.antt =====
-- What `StorageInfo.write_elements_to_table` leaves in a table, said of the attributes and of the
-- rows alone.
use contract_abstract.Prelude.{
  ◌≡◌, ◌≢◌, ◌↔◌, refl, sym, subst, ◌∙◌, Text, Bool, true, false, Option, none, some, List, [], ◌∷◌,
  Bool-cases, inl, inr, arith,
}
use contract_abstract.Tables.Write.{
  Record, Attributes, any_missing, row_of, key_values, has_null, only_keys, same_key, exists_key,
  insert_record, update_record, write_elements_to_table,
}
use contract_abstract.Tables.Updated.{merged}
use contract_abstract.Tables.Written.{find, Outcome, same_key-eq, write_elements_to_table-Outcome}
use contract_abstract.Tables.Given.{AreKeys, keys-AreKeys, AreKeys-values, IsRowOf, merged-IsRowOf}

module _ {V : Type 0} (same : V → V → Bool) (accepts : Attributes V → Bool)
    (same_iff : (a b : V) → (same a b ≡ true) ↔ (a ≡ b)) where
  -- what a call leaves
  abbrev pub Leaves : List Text → Attributes V → List (Record V) → Bool × List (Record V) → Type 0
  Leaves pks attributes table (true, after) =
      (k : List (Option V)) × (AreKeys pks attributes k
        × (IsRowOf pks attributes (find same accepts pks k table) (find same accepts pks k after)
            × ((key : List (Option V))
                → key ≢ k
                → find same accepts pks key after ≡ find same accepts pks key table)))
  Leaves pks attributes table (false, after) =
      (after ≡ table)
      × ((k : List (Option V)) → pks ≢ [] → AreKeys pks attributes k → accepts attributes ≡ false)

  same_key-no_null : (a b : List (Option V)) → same_key same accepts a b ≡ true → has_null b ≡ false
  same_key-no_null [] [] e = refl
  same_key-no_null [] (b ∷ bs) e = cc e
  same_key-no_null (a ∷ as₁) [] e = cc e
  same_key-no_null (none ∷ as₁) (b ∷ bs) e = absurd (cc e)
  same_key-no_null (some a ∷ as₁) (none ∷ bs) e = cc e
  same_key-no_null (some a ∷ as₁) (some b ∷ bs) e = same_key-no_null as₁ bs (ground (arith, e))

  same_key_refl : (k : List (Option V)) → has_null k ≡ false → same_key same accepts k k ≡ true
  same_key_refl [] n = refl
  same_key_refl (none ∷ k) n = cc n
  same_key_refl (some v ∷ k) n = rw ((same_iff v v).1 refl) (same_key_refl k n)

  exists_key-no_null :
      (pks : List Text) (k : List (Option V)) (table : List (Record V))
      → exists_key same accepts pks k table ≡ true
      → has_null k ≡ false
  unfolding exists_key
  exists_key-no_null pks k [] e = cc e
  exists_key-no_null pks k (row ∷ rows) e =
      elim (Bool-cases (same_key same accepts (key_values pks row) k)) [
        | inl t ↦ same_key-no_null (key_values pks row) k t
        | inr f ↦ exists_key-no_null pks k rows (rw f at e)
      ]

  null_raises :
      (pk : Text) (pks : List Text) (attributes : Attributes V) (table : List (Record V))
      → any_missing (pk ∷ pks) attributes ≡ false
      → exists_key same accepts (pk ∷ pks) (key_values (pk ∷ pks) (row_of attributes)) table ≡ false
      → has_null (key_values (pk ∷ pks) (row_of attributes)) ≡ true
      → (write_elements_to_table same accepts (pk ∷ pks) attributes table).0 ≡ false
  unfolding write_elements_to_table insert_record
  null_raises pk pks attributes table m f n = elim (Bool-cases (accepts attributes)) [
    | inl a ↦ rw (m, f, a, n) refl
    | inr a ↦ rw (m, f, a) refl
  ]

  -- a call that returns was given every primary key, and no NULL
  returned :
      (pks : List Text) (attributes : Attributes V) (table : List (Record V))
      → (write_elements_to_table same accepts pks attributes table).0 ≡ true
      → (any_missing pks attributes ≡ false)
        × (has_null (key_values pks (row_of attributes)) ≡ false)
  unfolding write_elements_to_table insert_record
  returned [] attributes table e = cc e
  returned (pk ∷ pks) attributes table e = elim (Bool-cases (any_missing (pk ∷ pks) attributes)) [
    | inl m ↦ cc (rw m at e)
    | inr m ↦
        let k = key_values (pk ∷ pks) (row_of attributes) in
        elim (Bool-cases (exists_key same accepts (pk ∷ pks) k table)) [
          | inl t ↦ (m, exists_key-no_null (pk ∷ pks) k table t)
          | inr f ↦ elim (Bool-cases (has_null k)) [
            | inl n ↦ absurd (cc (null_raises pk pks attributes table m f n, e))
            | inr n ↦ (m, n)
          ]
        ]
  ]

  accepted :
      (pks : List Text) (attributes : Attributes V) (table : List (Record V))
      → pks ≢ []
      → any_missing pks attributes ≡ false
      → has_null (key_values pks (row_of attributes)) ≡ false
      → accepts attributes ≡ true
      → (write_elements_to_table same accepts pks attributes table).0 ≡ true
  unfolding write_elements_to_table insert_record update_record
  accepted [] attributes table p m n a = absurd (p refl)
  accepted (pk ∷ pks) attributes table p m n a =
      let k = key_values (pk ∷ pks) (row_of attributes) in
      elim (Bool-cases (exists_key same accepts (pk ∷ pks) k table)) [
        | inl e ↦ elim (Bool-cases (only_keys (pk ∷ pks) attributes)) [
          | inl only ↦ rw (m, e, only) refl
          | inr more ↦ rw (m, e, more, a) refl
        ]
        | inr e ↦ rw (m, e, a, n) refl
      ]

  leaves :
      (pks : List Text) (attributes : Attributes V) (table : List (Record V))
      (r : Bool × List (Record V))
      → Outcome same accepts same_iff pks attributes table r
      → (r.0 ≡ true
          → (any_missing pks attributes ≡ false)
            × (has_null (key_values pks (row_of attributes)) ≡ false))
      → (pks ≢ []
          → any_missing pks attributes ≡ false
          → has_null (key_values pks (row_of attributes)) ≡ false
          → accepts attributes ≡ true
          → r.0 ≡ true)
      → Leaves pks attributes table r
  leaves pks attributes table (true, after) out back there =
      let k = key_values pks (row_of attributes) in
      let (m, n) = back refl in
      let at_key : find same accepts pks k after
          ≡ merged pks attributes (find same accepts pks k table) =
        out k ∙ rw (same_key_refl k n) refl in
      (
        k,
        (
          keys-AreKeys pks attributes m n,
          (
            subst (IsRowOf pks attributes (find same accepts pks k table)) (sym at_key)
                (merged-IsRowOf pks attributes (find same accepts pks k table)),
            λ key other. elim (Bool-cases (same_key same accepts k key)) [
              | inl hit ↦ absurd (other (sym (same_key-eq same accepts same_iff k key hit)))
              | inr miss ↦ out key ∙ rw miss refl
            ],
          ),
        ),
      )
  leaves pks attributes table (false, after) out back there = (
    out,
    λ k some_key keys. elim (Bool-cases (accepts attributes)) [
      | inl a ↦ let ((m, n), e) = AreKeys-values pks attributes k keys in cc (there some_key m n a)
      | inr a ↦ a
    ],
  )

  -- A call that raises leaves the table as it was, and where there are primary keys and the
  -- attributes give all of them, without NULL, the database refused the attributes. After a call
  -- that returns, the attributes give all primary keys, without NULL; the table reads as before at
  -- every other key, and at theirs it has a row: the row that was there, with the given columns
  -- that are no primary keys changed and every other column kept, or a new row with the given
  -- columns and NULL elsewhere.
  pub write_elements_to_table_lem :
      (pks : List Text) (attributes : Attributes V) (table : List (Record V))
      → Leaves pks attributes table (write_elements_to_table same accepts pks attributes table)
  write_elements_to_table_lem pks attributes table =
      leaves pks attributes table (write_elements_to_table same accepts pks attributes table)
        (write_elements_to_table-Outcome same accepts same_iff pks attributes table)
        (returned pks attributes table) (accepted pks attributes table)
