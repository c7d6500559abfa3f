-- ===== src/Tables/Updated.antt =====
-- What an UPDATE leaves of a row.
use contract_abstract.Prelude.{
  ◌≡◌, refl, subst, Text, text_eq, text_eq_iff, text_eq_refl, true, Option, none, some, List, [],
  ◌∷◌, Bool-cases, Option-cases, inl, inr, arith,
}
use mathlib.Core.Path.{fun_ext}
use contract_abstract.Tables.Write.{
  Record, Attributes, is_member, value_of, row_of, key_values, only_keys, updated,
}

abbrev pub AllMembers : List Text → List Text → Type 0
AllMembers [] ns = Unit
AllMembers (q ∷ qs) ns = (is_member q ns ≡ true) × AllMembers qs ns

AllMembers-cons : (n : Text) (qs ns : List Text) → AllMembers qs ns → AllMembers qs (n ∷ ns)
unfolding is_member
AllMembers-cons n [] ns h = tt
AllMembers-cons n (q ∷ qs) ns (e, h) = (ground (arith, e), AllMembers-cons n qs ns h)

pub own_names-AllMembers : (ns : List Text) → AllMembers ns ns
unfolding is_member
own_names-AllMembers [] = tt
own_names-AllMembers (n ∷ ns) =
    (rw (text_eq_refl n) refl, AllMembers-cons n ns ns (own_names-AllMembers ns))

module _ {ℓ} {V : Type ℓ} where
  -- An UPDATE leaves the key.
  pub key_values-updated :
      (pks qs : List Text) (attributes : Attributes V) (row : Record V)
      → AllMembers qs pks
      → key_values qs (updated pks attributes row) ≡ key_values qs row
  unfolding key_values updated
  key_values-updated pks [] attributes row h = refl
  key_values-updated pks (q ∷ qs) attributes row (e, h) =
      rw (e, key_values-updated pks qs attributes row h) refl

  only_keys-is_member :
      (pks : List Text) (attributes : Attributes V) (name : Text) (v : Option V)
      → only_keys pks attributes ≡ true
      → value_of attributes name ≡ some v
      → is_member name pks ≡ true
  unfolding only_keys value_of
  only_keys-is_member pks [] name v h e = cc e
  only_keys-is_member pks (a ∷ rest) name v h e = elim (Bool-cases (text_eq a.0 name)) [
    | inl t ↦ subst (λ n. is_member n pks ≡ true) ((text_eq_iff a.0 name).0 t) (ground (arith, h))
    | inr f ↦ only_keys-is_member pks rest name v (ground (arith, h)) (rw f at e)
  ]

  -- Without other columns there is nothing to set.
  pub updated-only_keys :
      (pks : List Text) (attributes : Attributes V) (row : Record V)
      → only_keys pks attributes ≡ true
      → updated pks attributes row ≡ row
  unfolding updated
  updated-only_keys pks attributes row h = fun_ext λ name. elim (Bool-cases (is_member name pks)) [
    | inl m ↦ rw m refl
    | inr m ↦ elim (Option-cases (value_of attributes name)) [
      | inl n ↦ rw (m, n) refl
      | inr (v, e) ↦ cc (m, only_keys-is_member pks attributes name v h e)
    ]
  ]

  abbrev pub merged : List Text → Attributes V → Option (Record V) → Option (Record V)
  merged pks attributes none = some (row_of attributes)
  merged pks attributes (some row) = some (updated pks attributes row)
