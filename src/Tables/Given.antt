-- ===== src/Tables/Given.antt =====
-- The attributes of a call of `StorageInfo.write_elements_to_table` as a relation, and the rows and
-- keys that hold what they give.
use mathlib.Core.List.{Memᴰ}
use mathlib.Core.List.Memᴰ
use mathlib.Core.Option.{some-injective}
use contract_abstract.Prelude.{
  ◌≡◌, ◌≢◌, ◌⊎◌, refl, sym, Text, text_eq, text_eq_iff, true, false, Option, none, some, List, [],
  ◌∷◌, Bool-cases, Option-cases, inl, inr, arith,
}
use contract_abstract.Tables.Write.{
  Record, Attributes, is_member, value_of, any_missing, row_of, key_values, has_null, updated,
}
use contract_abstract.Tables.Updated.{merged}

is_member-Mem : (name : Text) (pks : List Text) → is_member name pks ≡ true → Memᴰ name pks
unfolding is_member
is_member-Mem name [] e = cc e
is_member-Mem name (pk ∷ pks) e = elim (Bool-cases (text_eq pk name)) [
  | inl t ↦ Memᴰ.head (sym ((text_eq_iff pk name).0 t))
  | inr f ↦ Memᴰ.tail (is_member-Mem name pks (rw f at e))
]

Mem-is_member : (name : Text) (pks : List Text) → Memᴰ name pks → is_member name pks ≡ true
unfolding is_member
Mem-is_member name [] m = absurd (Memᴰ.not-nil m)
Mem-is_member name (pk ∷ pks) (Memᴰ.head e) = rw ((text_eq_iff pk name).1 (sym e)) refl
Mem-is_member name (pk ∷ pks) (Memᴰ.tail m) =
    let later = Mem-is_member name pks m in ground (arith, later)

module _ {V : Type 0} where
  -- the attributes give the column this value
  abbrev pub Given : Text → Option V → Attributes V → Type 0
  Given name v [] = ⊥
  Given name v (a ∷ rest) = ((a.0 ≡ name) × (a.1 ≡ v)) ⊎ ((a.0 ≢ name) × Given name v rest)

  -- The attributes give the primary keys these values, and no NULL.
  abbrev pub AreKeys : List Text → Attributes V → List (Option V) → Type 0
  AreKeys [] attributes [] = Unit
  AreKeys [] attributes (v ∷ vs) = ⊥
  AreKeys (pk ∷ pks) attributes [] = ⊥
  AreKeys (pk ∷ pks) attributes (v ∷ vs) =
      (Given pk v attributes × (v ≢ none)) × AreKeys pks attributes vs

  pub Given-value_of :
      (attributes : Attributes V) (name : Text) (v : Option V)
      → Given name v attributes
      → value_of attributes name ≡ some v
  unfolding value_of
  Given-value_of [] name v h = elim h [ ]
  Given-value_of (a ∷ rest) name v (inl (e, f)) =
      let t : text_eq a.0 name ≡ true = (text_eq_iff a.0 name).1 e in rw (t, f) refl
  Given-value_of (a ∷ rest) name v (inr (n, h)) = elim (Bool-cases (text_eq a.0 name)) [
    | inl t ↦ absurd (n ((text_eq_iff a.0 name).0 t))
    | inr f ↦ rw f (Given-value_of rest name v h)
  ]

  pub value_of-Given :
      (attributes : Attributes V) (name : Text) (v : Option V)
      → value_of attributes name ≡ some v
      → Given name v attributes
  unfolding value_of
  value_of-Given [] name v e = cc e
  value_of-Given (a ∷ rest) name v e = elim (Bool-cases (text_eq a.0 name)) [
    | inl t ↦ inl ((text_eq_iff a.0 name).0 t, some-injective a.1 v (rw t at e))
    | inr f ↦ inr (
      λ same. absurd (cc (f, (text_eq_iff a.0 name).1 same)),
      value_of-Given rest name v (rw f at e),
    )
  ]

  -- the keys of the attributes, as the code computes them
  pub keys-AreKeys :
      (pks : List Text) (attributes : Attributes V)
      → any_missing pks attributes ≡ false
      → has_null (key_values pks (row_of attributes)) ≡ false
      → AreKeys pks attributes (key_values pks (row_of attributes))
  unfolding any_missing key_values row_of
  keys-AreKeys [] attributes m n = tt
  keys-AreKeys (pk ∷ pks) attributes m n = elim (Option-cases (value_of attributes pk)) [
    | inl e ↦ cc (m, e)
    | inr (none, e) ↦ cc (rw e at n)
    | inr (some v, e) ↦ rw e (
      (value_of-Given attributes pk (some v) e, λ null. cc null),
      keys-AreKeys pks attributes (rw e at m) (rw e at n),
    )
  ]

  pub AreKeys-values :
      (pks : List Text) (attributes : Attributes V) (k : List (Option V))
      → AreKeys pks attributes k
      → ((any_missing pks attributes ≡ false)
          × (has_null (key_values pks (row_of attributes)) ≡ false))
        × (key_values pks (row_of attributes) ≡ k)
  unfolding any_missing key_values row_of
  AreKeys-values [] attributes [] h = ((refl, refl), refl)
  AreKeys-values [] attributes (v ∷ k) h = elim h [ ]
  AreKeys-values (pk ∷ pks) attributes [] h = elim h [ ]
  AreKeys-values (pk ∷ pks) attributes (none ∷ k) ((g, n), h) = absurd (n refl)
  AreKeys-values (pk ∷ pks) attributes (some v ∷ k) ((g, n), h) =
      let ((m, full), same) = AreKeys-values pks attributes k h in
      let e = Given-value_of attributes pk (some v) g in ((rw e m, rw e full), rw (e, same) refl)

  -- What a row holds of the attributes: in a new row other columns are NULL, in an old one they and
  -- the primary keys are kept.
  abbrev pub IsRowOf : List Text → Attributes V → Option (Record V) → Option (Record V) → Type 0
  IsRowOf pks attributes old none = ⊥
  IsRowOf pks attributes none (some new) =
      (name : Text)
      → ((v : Option V) → Given name v attributes → new name ≡ v)
        × (((v : Option V) → Given name v attributes → ⊥) → new name ≡ none)
  IsRowOf pks attributes (some old) (some new) =
      (name : Text)
      → ((v : Option V) → ¬ Memᴰ name pks → Given name v attributes → new name ≡ v)
        × (((v : Option V) → ¬ Memᴰ name pks → Given name v attributes → ⊥) → new name ≡ old name)

  pub merged-IsRowOf :
      (pks : List Text) (attributes : Attributes V) (old : Option (Record V))
      → IsRowOf pks attributes old (merged pks attributes old)
  unfolding row_of updated
  merged-IsRowOf pks attributes none = λ name. (
    λ v g. rw (Given-value_of attributes name v g) refl,
    λ n. elim (Option-cases (value_of attributes name)) [
      | inl e ↦ rw e refl
      | inr (v, e) ↦ absurd (n v (value_of-Given attributes name v e))
    ],
  )
  merged-IsRowOf pks attributes (some old) = λ name. elim (Bool-cases (is_member name pks)) [
    | inl t ↦ (λ v other g. absurd (other (is_member-Mem name pks t)), λ n. rw t refl)
    | inr f ↦
        let other : ¬ Memᴰ name pks = λ m. absurd (cc (f, Mem-is_member name pks m)) in
        (
          λ v o g. rw (f, Given-value_of attributes name v g) refl,
          λ n. elim (Option-cases (value_of attributes name)) [
            | inl e ↦ rw (f, e) refl
            | inr (v, e) ↦ absurd (n v other (value_of-Given attributes name v e))
          ],
        )
  ]
