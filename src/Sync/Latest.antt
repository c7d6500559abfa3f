-- ===== src/Sync/Latest.antt =====
-- The greatest block number of the table of transactions, which `get_latest_block_number` queries
-- (slither/tools/contract_abstract/onchain/transaction_info.py).
use mathlib.Core.List.{Memᴰ}
use mathlib.Core.List.Memᴰ
use mathlib.Core.Option.{some-injective}
use contract_abstract.Prelude.{
  ℕ, ◌≤◌, ◌≡◌, refl, ap, sym, subst, ◌∙◌, ◌⊎◌, inl, inr, Bool-cases, Option-cases, none, some, List,
  [], ◌∷◌, max, leb, arith,
}
use contract_abstract.Sync.Save.{TxRow, Table}
use contract_abstract.Sync.Blocks.{numbers, maximum, or_zero}

-- the greatest block number in the table, 0 when it has none
abbrev pub IsLatest : Table → ℕ → Type 0
IsLatest table l =
    ((row : TxRow) (n : ℕ) → Memᴰ row table → row.block_number ≡ some n → n ≤ l)
    × (((row : TxRow) × (Memᴰ row table × (row.block_number ≡ some l))) ⊎ (l ≡ 0))

IsLatest-cons :
    (row : TxRow) (rows : Table) (n l : ℕ)
    → row.block_number ≡ some n
    → IsLatest rows l
    → IsLatest (row ∷ rows) (max n l)
IsLatest-cons row rows n l e (h, k) = (
  λ r m there is. bound r m there is,
  elim (Bool-cases (leb l n)) [
    | inl t ↦
        let same : n ≡ max n l = ground (arith, t) in inl (row, (Memᴰ.head refl, e ∙ ap some same))
    | inr f ↦
        let same : l ≡ max n l = ground (arith, f) in
        subst (λ x. ((r : TxRow) × (Memᴰ r (row ∷ rows) × (r.block_number ≡ some x))) ⊎ (x ≡ 0))
          same (later k)
  ],
)
  where
    bound : (r : TxRow) (m : ℕ) → Memᴰ r (row ∷ rows) → r.block_number ≡ some m → m ≤ max n l
    bound r m (Memᴰ.head q) is =
        let same : m ≡ n = some-injective m n (sym is ∙ ap (λ x. x.block_number) q ∙ e) in
        omega (arith, same)
    bound r m (Memᴰ.tail there) is = let low = h r m there is in omega (arith, low)

    later :
        ((r : TxRow) × (Memᴰ r rows × (r.block_number ≡ some l))) ⊎ (l ≡ 0)
        → ((r : TxRow) × (Memᴰ r (row ∷ rows) × (r.block_number ≡ some l))) ⊎ (l ≡ 0)
    later (inl (r, (m, is))) = inl (r, (Memᴰ.tail m, is))
    later (inr z) = inr z

IsLatest-skip :
    (row : TxRow) (rows : Table) (l : ℕ)
    → row.block_number ≡ none
    → IsLatest rows l
    → IsLatest (row ∷ rows) l
IsLatest-skip row rows l e (h, k) = (
  λ r m there is. bound r m there is,
  elim k [ inl (r, (m, is)) ↦ inl (r, (Memᴰ.tail m, is)) | inr z ↦ inr z ],
)
  where
    bound : (r : TxRow) (m : ℕ) → Memᴰ r (row ∷ rows) → r.block_number ≡ some m → m ≤ l
    bound r m (Memᴰ.head q) is = absurd (cc (sym is ∙ ap (λ x. x.block_number) q ∙ e))
    bound r m (Memᴰ.tail there) is = h r m there is

maximum-cons : (n : ℕ) (ns : List ℕ) → or_zero (maximum (n ∷ ns)) ≡ max n (or_zero (maximum ns))
unfolding maximum
maximum-cons n ns = elim (Option-cases (maximum ns)) [
  | inl e ↦ rw e (omega arith)
  | inr (m, e) ↦ rw e refl
]

maximum-skip :
    (row : TxRow) (rows : Table)
    → row.block_number ≡ none
    → or_zero (maximum (numbers (row ∷ rows))) ≡ or_zero (maximum (numbers rows))
unfolding numbers
maximum-skip row rows e = rw e refl

maximum-row :
    (row : TxRow) (rows : Table) (n : ℕ)
    → row.block_number ≡ some n
    → or_zero (maximum (numbers (row ∷ rows))) ≡ max n (or_zero (maximum (numbers rows)))
unfolding numbers
maximum-row row rows n e = rw e (maximum-cons n (numbers rows))

pub numbers-IsLatest : (table : Table) → IsLatest table (or_zero (maximum (numbers table)))
unfolding numbers maximum
numbers-IsLatest [] = (λ row n m e. absurd (Memᴰ.not-nil m), inr refl)
numbers-IsLatest (row ∷ rows) =
    let before = numbers-IsLatest rows in
    elim (Option-cases row.block_number) [
      | inl e ↦
          subst (IsLatest (row ∷ rows)) (sym (maximum-skip row rows e))
            (IsLatest-skip row rows _ e before)
      | inr (n, e) ↦
          subst (IsLatest (row ∷ rows)) (sym (maximum-row row rows n e))
            (IsLatest-cons row rows n _ e before)
    ]
