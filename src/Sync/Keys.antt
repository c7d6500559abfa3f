-- ===== src/Sync/Keys.antt =====
-- The keys of the rows in a table of transactions.
use contract_abstract.Prelude.{
  ◌≡◌, refl, Text, text_eq, text_eq_iff, text_eq_refl, true, false, ◌||◌, some, [], ◌∷◌, ◌++◌,
  arith, Option-cases, inl, inr,
}
use contract_abstract.Sync.Save.{TxRow, Table, has_hash}

-- Every row has a key that no later row has.
abbrev pub IsKeyed : Table → Type 0
IsKeyed [] = Unit
IsKeyed (row ∷ rows) =
    ((h : Text) × ((row.hash ≡ some h) × (has_hash h rows ≡ false))) × IsKeyed rows

pub has_hash-append : (h : Text) (t u : Table) → has_hash h (t ++ u) ≡ has_hash h t || has_hash h u
unfolding has_hash
has_hash-append h [] u = refl
has_hash-append h (row ∷ t) u = elim (Option-cases row.hash) [
  | inl e ↦ rw e (has_hash-append h t u)
  | inr (h₂, e) ↦ rw (e, has_hash-append h t u) (ground arith)
]

pub has_hash-before : (h : Text) (t u : Table) → has_hash h t ≡ true → has_hash h (t ++ u) ≡ true
has_hash-before h t u e = rw (has_hash-append h t u, e) refl

pub has_hash-key : (h : Text) (row : TxRow) → row.hash ≡ some h → has_hash h (row ∷ []) ≡ true
unfolding has_hash
has_hash-key h row e = rw (e, text_eq_refl h) refl

text_eq_sym : (a b : Text) → text_eq a b ≡ false → text_eq b a ≡ false
text_eq_sym a b e = ground (arith, text_eq_iff a b, text_eq_iff b a, e)

-- A key that differs from a row's is not that row's.
other_key :
    (h h₂ : Text) (row : TxRow) (t : Table)
    → row.hash ≡ some h₂
    → has_hash h (row ∷ t) ≡ false
    → (text_eq h h₂ ≡ false) × (has_hash h t ≡ false)
unfolding has_hash
other_key h h₂ row t e f =
    let g : text_eq h h₂ || has_hash h t ≡ false = rw e at f in ground (arith, g)

pub IsKeyed-append :
    (h : Text) (row : TxRow) (t : Table)
    → row.hash ≡ some h
    → has_hash h t ≡ false
    → IsKeyed t
    → IsKeyed (t ++ row ∷ [])
unfolding has_hash
IsKeyed-append h row [] e f k = ((h, (e, refl)), tt)
IsKeyed-append h row (first ∷ t) e f ((h₂, (e₂, f₂)), k) =
    let (ne, rest) = other_key h h₂ first t e₂ f in
    let alone : has_hash h₂ (row ∷ []) ≡ false = rw (e, text_eq_sym h h₂ ne) refl in
    (
      (h₂, (e₂, rw (has_hash-append h₂ t (row ∷ []), f₂, alone) refl)),
      IsKeyed-append h row t e rest k,
    )
