-- ===== src/Tables/Selected.antt =====
-- The query that is built from a selector selects what the selector means.
use contract_abstract.Prelude.{
  ◌≡◌, refl, subst, Text, Bool, true, false, ◌&&◌, Option, none, some, List, [], ◌∷◌, ◌++◌, length,
  take-length_append, drop-length_append, if◌then◌else◌, Option-cases, inl, inr,
}
use mathlib.Core.Option.{some-injective}
use contract_abstract.Tables.Meaning.{is_fine, all_fine, matches, all_match, select}
use contract_abstract.Layout.Types.{◌>>=◌, chain}
use contract_abstract.Tables.Select.{
  Op, ge, le, op_of, Criterion, op_dict, range_dict, between_dict, in_dict, not_in_dict,
  is_null_dict, is_not_null_dict, other_dict, listed, scalar, Clause, Built, range_part,
  criterion_of, build_where, holds, where_holds, rows_where, columns_of, row_dicts,
  read_elements_from_table,
}

and_assoc : (a b c : Bool) → (a && (b && c)) ≡ ((a && b) && c)
and_assoc true b c = refl
and_assoc false b c = refl

and_true : (a : Bool) → (a && true) ≡ a
and_true true = refl
and_true false = refl

module _ {ℓ} {V : Type ℓ} where
  module _ (test : Op → V → V → Bool) where
    -- The conditions in front of others say the same as the entry.
    abbrev Adds : Text → Criterion V → Built V → Type ℓ
    Adds key c b =
        (cs : List (Text × Clause)) (ps : List (Option V)) (row : Text → Option V)
        → where_holds test (b.0 ++ cs) (b.1 ++ ps) row
          ≡ (matches test c (row key) && where_holds test cs ps row)

    given :
        (key : Text) (c : Criterion V) (b₀ b : Built V)
        → some b₀ ≡ some b
        → Adds key c b₀
        → Adds key c b
    given key c b₀ b e h = subst (Adds key c) (some-injective b₀ b e) h

    range-Adds :
        (key : Text) (x y : Option V)
        → Adds key (range_dict (x ∷ y ∷ [])) (
          (range_part key ge x).0 ++ (range_part key le y).0,
          (range_part key ge x).1 ++ (range_part key le y).1,
        )
    unfolding matches where_holds
    range-Adds key none none cs ps row = refl
    range-Adds key none (some y) cs ps row = refl
    range-Adds key (some x) none cs ps row = rw (and_true (holds test ge (row key) (some x))) refl
    range-Adds key (some x) (some y) cs ps row =
        and_assoc (holds test ge (row key) (some x)) (holds test le (row key) (some y))
          (where_holds test cs ps row)

    criterion_of-Adds :
        (key : Text) (c : Criterion V) (b : Built V) → criterion_of key c ≡ some b → Adds key c b
    unfolding criterion_of matches where_holds
    criterion_of-Adds key (op_dict t none) b e = cc e
    criterion_of-Adds key (op_dict t (some v)) b e =
        chain (op_of t)
          (λ op at e₁. given key (op_dict t (some v)) _ b e₁ (λ cs ps row. rw at refl)) e
    criterion_of-Adds key (scalar v) b e = given key (scalar v) _ b e (λ cs ps row. refl)
    criterion_of-Adds key (is_null_dict x) b e =
        given key (is_null_dict x) _ b e (λ cs ps row. refl)
    criterion_of-Adds key (is_not_null_dict x) b e =
        given key (is_not_null_dict x) _ b e (λ cs ps row. refl)
    criterion_of-Adds key other_dict b e = cc e
    criterion_of-Adds key (listed []) b e = given key (listed []) _ b e (λ cs ps row. refl)
    criterion_of-Adds key (listed (v ∷ vs)) b e = given key (listed (v ∷ vs)) _ b e (λ cs ps row.
        rw (take-length_append (length vs) vs ps refl, drop-length_append (length vs) vs ps refl)
          refl)
    criterion_of-Adds key (in_dict none) b e = cc e
    criterion_of-Adds key (in_dict (some [])) b e = cc e
    criterion_of-Adds key (in_dict (some (v ∷ vs))) b e =
        given key (in_dict (some (v ∷ vs))) _ b e (λ cs ps row.
          rw (take-length_append (length vs) vs ps refl, drop-length_append (length vs) vs ps refl)
            refl)
    criterion_of-Adds key (not_in_dict none) b e = cc e
    criterion_of-Adds key (not_in_dict (some [])) b e = cc e
    criterion_of-Adds key (not_in_dict (some (v ∷ vs))) b e =
        given key (not_in_dict (some (v ∷ vs))) _ b e (λ cs ps row.
          rw (take-length_append (length vs) vs ps refl, drop-length_append (length vs) vs ps refl)
            refl)
    criterion_of-Adds key (range_dict []) b e = cc e
    criterion_of-Adds key (range_dict (x ∷ [])) b e = cc e
    criterion_of-Adds key (range_dict (x ∷ y ∷ [])) b e =
        given key (range_dict (x ∷ y ∷ [])) _ b e (range-Adds key x y)
    criterion_of-Adds key (range_dict (x ∷ y ∷ z ∷ vs)) b e = cc e
    criterion_of-Adds key (between_dict []) b e = cc e
    criterion_of-Adds key (between_dict (x ∷ [])) b e = cc e
    criterion_of-Adds key (between_dict (x ∷ y ∷ [])) b e =
        given key (between_dict (x ∷ y ∷ [])) _ b e (λ cs ps row. refl)
    criterion_of-Adds key (between_dict (x ∷ y ∷ z ∷ vs)) b e = cc e

    where_holds-build_where :
        (selector : List (Text × Criterion V)) (b : Built V) (row : Text → Option V)
        → build_where selector ≡ some b
        → where_holds test b.0 b.1 row ≡ all_match test selector row
    unfolding build_where all_match where_holds
    where_holds-build_where [] b row e =
        subst (λ b. where_holds test b.0 b.1 row ≡ true) (some-injective _ b e) refl
    where_holds-build_where (entry ∷ rest) b row e =
        chain (criterion_of entry.0 entry.1)
          (λ here first e₁.
            chain (build_where rest)
              (λ later second e₂.
                subst
                  (λ b.
                    where_holds test b.0 b.1 row
                    ≡ (matches test entry.1 (row entry.0) && all_match test rest row))
                  (some-injective _ b e₂)
                  (rw (← where_holds-build_where rest later row second)
                    (criterion_of-Adds entry.0 entry.1 here first later.0 later.1 row)))
              e₁)
          e

    rows_where-select :
        (selector : List (Text × Criterion V)) (b : Built V) (table : List (Text → Option V))
        → build_where selector ≡ some b
        → rows_where test b.0 b.1 table ≡ select test selector table
    unfolding rows_where select
    rows_where-select selector b [] e = refl
    rows_where-select selector b (row ∷ rows) e =
        rw (where_holds-build_where selector b row e, rows_where-select selector b rows e) refl

  abbrev Fits : Bool → Option (Built V) → Type ℓ
  Fits true o = (b : Built V) × (o ≡ some b)
  Fits false o = o ≡ none

  criterion_of-Fits : (key : Text) (c : Criterion V) → Fits (is_fine c) (criterion_of key c)
  unfolding criterion_of is_fine
  criterion_of-Fits key (op_dict t none) = refl
  criterion_of-Fits key (op_dict t (some v)) = elim (Option-cases (op_of t)) [
    | inl e ↦ rw e refl
    | inr (op, e) ↦ rw e (_, refl)
  ]
  criterion_of-Fits key (scalar v) = (_, refl)
  criterion_of-Fits key (is_null_dict x) = (_, refl)
  criterion_of-Fits key (is_not_null_dict x) = (_, refl)
  criterion_of-Fits key other_dict = refl
  criterion_of-Fits key (listed []) = (_, refl)
  criterion_of-Fits key (listed (v ∷ vs)) = (_, refl)
  criterion_of-Fits key (in_dict none) = refl
  criterion_of-Fits key (in_dict (some [])) = refl
  criterion_of-Fits key (in_dict (some (v ∷ vs))) = (_, refl)
  criterion_of-Fits key (not_in_dict none) = refl
  criterion_of-Fits key (not_in_dict (some [])) = refl
  criterion_of-Fits key (not_in_dict (some (v ∷ vs))) = (_, refl)
  criterion_of-Fits key (range_dict []) = refl
  criterion_of-Fits key (range_dict (x ∷ [])) = refl
  criterion_of-Fits key (range_dict (x ∷ y ∷ [])) = (_, refl)
  criterion_of-Fits key (range_dict (x ∷ y ∷ z ∷ vs)) = refl
  criterion_of-Fits key (between_dict []) = refl
  criterion_of-Fits key (between_dict (x ∷ [])) = refl
  criterion_of-Fits key (between_dict (x ∷ y ∷ [])) = (_, refl)
  criterion_of-Fits key (between_dict (x ∷ y ∷ z ∷ vs)) = refl

  and-Fits :
      (p q : Bool) (o r : Option (Built V))
      → Fits p o
      → Fits q r
      → Fits (p && q) (o >>= λ here. r >>= λ later. some (here.0 ++ later.0, here.1 ++ later.1))
  and-Fits false q o r e h = rw e refl
  and-Fits true false o r (b, e) h = rw (e, h) refl
  and-Fits true true o r (b, e) (c, h) = rw (e, h) (_, refl)

  build_where-Fits :
      (selector : List (Text × Criterion V)) → Fits (all_fine selector) (build_where selector)
  unfolding build_where all_fine
  build_where-Fits [] = (_, refl)
  build_where-Fits (entry ∷ rest) =
      and-Fits (is_fine entry.1) (all_fine rest) (criterion_of entry.0 entry.1) (build_where rest)
        (criterion_of-Fits entry.0 entry.1) (build_where-Fits rest)

  module _ (test : Op → V → V → Bool)
      (accepts_query : List Text → List (Text × Clause) → List (Option V) → Bool) where
    -- what a reading with well-formed entries does, and one without
    abbrev pub Reads :
        List Text → List (Text → Option V) → List Text → List (Text × Criterion V) → Bool → Type ℓ
    Reads all_columns table names selector false =
        read_elements_from_table test accepts_query all_columns table names selector ≡ none
    Reads all_columns table names selector true =
        (built : Built V) × ((build_where selector ≡ some built)
          × (read_elements_from_table test accepts_query all_columns table names selector ≡ (
              if accepts_query names built.0 built.1
              then some
                  (row_dicts test (columns_of test names all_columns) (select test selector table))
              else none)))

    read-Fits :
        (all_columns : List Text) (table : List (Text → Option V)) (names : List Text)
        (selector : List (Text × Criterion V)) (fine : Bool)
        → Fits fine (build_where selector)
        → Reads all_columns table names selector fine
    unfolding read_elements_from_table
    read-Fits all_columns table names selector false e = rw e refl
    read-Fits all_columns table names selector true (b, e) =
        (b, (e, rw (e, rows_where-select test selector b table e) refl))

    -- `read_elements_from_table` raises when an entry of the selector is malformed. Otherwise a query
    -- is built; when the database refuses it, the call raises too, and when not, the call returns
    -- the rows that match every entry, in the order of the table, with the asked columns, all of
    -- them when none is named.
    pub read_elements_from_table-select :
        (all_columns : List Text) (table : List (Text → Option V)) (names : List Text)
        (selector : List (Text × Criterion V))
        → Reads all_columns table names selector (all_fine selector)
    read_elements_from_table-select all_columns table names selector =
        read-Fits all_columns table names selector (all_fine selector) (build_where-Fits selector)
