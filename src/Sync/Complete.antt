-- ===== src/Sync/Complete.antt =====
-- Pagination yields every selected row once, in descending order.
use contract_abstract.Prelude.{
  ℕ, zero, suc, ◌+◌, ◌-◌, ◌*◌, ◌≤◌, ◌<◌, ◌≡◌, refl, sym, ap, subst, ◌∙◌, Option, none, some, List,
  [], ◌∷◌, ◌++◌, arith, length, take, drop, length-take, length-drop, take-append-drop,
}
use mathlib.Core.List.{Permᴰ}
use contract_abstract.Sync.Order.{
  AreDistinct, AreDescending, IsOrderOf, length-Perm, IsOrderOf-AreDescending, IsOrderOf-eq,
}
use contract_abstract.Sync.Pages.{
  page_size_of, past_last, selected, get_transactions_from_db, yielded, pages_from,
  get_transactions_paginated, get_transactions_by_batch,
}

pub page_size_of-positive : (limit : ℕ) → 1 ≤ page_size_of limit
unfolding page_size_of
page_size_of-positive limit = ground arith

pub page_size_of-bound : (limit : ℕ) → page_size_of limit ≤ 10000
unfolding page_size_of
page_size_of-bound limit = ground arith

module _ {ℓ} {Row : Type ℓ} where
  abbrev pub concat : List (List Row) → List Row
  concat [] = []
  concat (page ∷ pages) = page ++ concat pages

  -- no page is empty or longer than `n`
  abbrev pub AreBounded : ℕ → List (List Row) → Type 0
  AreBounded n [] = Unit
  AreBounded n (page ∷ pages) = ((1 ≤ length page) × (length page ≤ n)) × AreBounded n pages

  -- The generator ends, after pages of 1 to `n` rows that together are `rows`.
  abbrev pub Yields : ℕ → List Row → Option (List (List Row)) → Type ℓ
  Yields n rows result =
      (pages : List (List Row)) × ((result ≡ some pages)
        × ((concat pages ≡ rows) × AreBounded n pages))

  drop-nil : (n : ℕ) → drop {A = Row} n [] ≡ []
  drop-nil zero = refl
  drop-nil (suc n) = refl

  drop-drop : (m n : ℕ) (rows : List Row) → drop m (drop n rows) ≡ drop (n + m) rows
  drop-drop m zero rows = ap (λ i. drop i rows) (omega arith)
  drop-drop m (suc n) [] = drop-nil m ∙ sym (drop-nil (suc n + m))
  drop-drop m (suc n) (row ∷ rows) =
      let e : suc n + m ≡ suc (n + m) = omega arith in rw e (drop-drop m n rows)

  yielded-Yields :
      (n : ℕ) (page rest_rows rows : List Row) (rest : Option (List (List Row)))
      → page ++ rest_rows ≡ rows
      → length page ≤ n
      → (length page ≡ 0 → rest_rows ≡ [])
      → (1 ≤ length page → Yields n rest_rows rest)
      → Yields n rows (yielded page rest)
  yielded-Yields n [] rest_rows rows rest e b h k = ([], (refl, (sym (h refl) ∙ e, tt)))
  yielded-Yields n (row ∷ more) rest_rows rows rest e b h k =
      let (pages, (r, (c, ok))) = k (omega arith) in
      ((row ∷ more) ∷ pages, (rw r refl, (ap (λ t. row ∷ more ++ t) c ∙ e, ((omega arith, b), ok))))

  length-zero : (rows : List Row) → length rows ≡ 0 → rows ≡ []
  length-zero [] h = refl
  length-zero (row ∷ rows) h = absurd (omega arith)

  -- The rounds from the page that starts at row `at` on, when the query cuts pages of `n` rows.
  pages_from-Yields :
      (fuel n k : ℕ) (rows : List Row) (get : ℕ → List Row)
      → 1 ≤ n
      → ((p : ℕ) → get p ≡ take n (drop ((p - 1) * n) rows))
      → length rows - k * n < fuel
      → Yields n (drop (k * n) rows) (pages_from fuel none get (k + 1))
  unfolding pages_from past_last
  pages_from-Yields zero n k rows get a g h = absurd (omega arith)
  pages_from-Yields (suc fuel) n k rows get a g h =
      let here = drop (k * n) rows in
      let back : k + 1 - 1 ≡ k = omega arith in
      let at : (k + 1) * n ≡ k * n + n = omega arith in
      let next : drop n here ≡ drop ((k + 1) * n) rows = rw at (drop-drop n (k * n) rows) in
      let page : get (k + 1) ≡ take n here = rw (g (k + 1), back) refl in
      rw page (
        yielded-Yields n (take n here) (drop n here) here (pages_from fuel none get (k + 1 + 1))
          (take-append-drop n here) (omega (arith, length-take n here))
          (λ e. length-zero (drop n here) (omega (arith, length-take n here, length-drop n here)))
          (λ e. rw next (
            pages_from-Yields fuel n (k + 1) rows get a g
              (omega (arith, at, length-take n here, length-drop (k * n) rows)))))

module _ {ℓ} {Row : Type ℓ} (block_number transaction_index : Row → Option ℕ) where
  length-selected :
      (start_block end_block : Option ℕ) (rows : List Row)
      → length (selected block_number start_block end_block rows) ≤ length rows
  unfolding selected
  length-selected start_block end_block [] = omega arith
  length-selected start_block end_block (row ∷ rows) =
      ground (arith, length-selected start_block end_block rows)

  -- The database orders the selected rows, in every query, as the clause ORDER BY promises. When no
  -- two selected rows have the same block number and index, the generator without a last page ends
  -- within the fuel; its pages hold 1 to `page_size` rows each, and one after the other they are the
  -- selected rows, each once, in descending order of block number and index. The batches are the
  -- same pages.
  pub get_transactions_paginated_complete :
      (order_by : ℕ → ℕ → List Row → List Row) (rows : List Row) (start_block end_block : Option ℕ)
      (page_size : ℕ)
      → ((limit offset : ℕ)
          → IsOrderOf block_number transaction_index
              (selected block_number start_block end_block rows)
              (order_by limit offset (selected block_number start_block end_block rows)))
      → AreDistinct block_number transaction_index
          (selected block_number start_block end_block rows)
      → (ordered : List Row) × (Permᴰ ordered (selected block_number start_block end_block rows)
          × (AreDescending block_number transaction_index ordered
              × (Yields (page_size_of page_size) ordered (
                    get_transactions_paginated block_number order_by rows start_block end_block
                      page_size none)
                  × (get_transactions_by_batch block_number order_by rows start_block end_block
                        page_size
                      ≡ get_transactions_paginated block_number order_by rows start_block end_block
                          page_size none))))
  unfolding get_transactions_paginated get_transactions_by_batch get_transactions_from_db
  get_transactions_paginated_complete order_by rows start_block end_block page_size orders
        distinct =
      let n = page_size_of page_size in
      let found = selected block_number start_block end_block rows in
      let ordered = order_by n 0 found in
      let (same, o) = orders n 0 in
      let start : 0 * n ≡ 0 = omega arith in
      let first : 0 + 1 ≡ 1 = omega arith in
      let get =
        get_transactions_from_db block_number order_by rows start_block end_block page_size in
      let bound : length ordered - 0 * n < length rows + 1 =
        omega (arith, start, length-selected start_block end_block rows, length-Perm _ _ same) in
      let one_order : (l i : ℕ) → order_by l i found ≡ ordered = λ l i.
        IsOrderOf-eq block_number transaction_index found (order_by l i found) ordered distinct
          (orders l i) (same, o) in
      let h =
        pages_from-Yields (length rows + 1) n 0 ordered get (page_size_of-positive page_size)
          (λ p. ap (λ xs. take n (drop ((p - 1) * n) xs)) (one_order n ((p - 1) * n))) bound in
      (
        ordered,
        (
          same,
          (
            IsOrderOf-AreDescending block_number transaction_index found ordered distinct (same, o),
            (
              subst (λ k. Yields n ordered (pages_from (length rows + 1) none get k)) first
                  (subst
                    (λ k. Yields n (drop k ordered) (pages_from (length rows + 1) none get (0 + 1)))
                    start h),
              refl,
            ),
          ),
        ),
      )
