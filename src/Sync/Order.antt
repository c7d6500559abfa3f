-- ===== src/Sync/Order.antt =====
-- `ORDER BY block_number DESC, transaction_index DESC` of the queries of TransactionInfo
-- (slither/tools/contract_abstract/onchain/transaction_info.py), as PostgreSQL documents it: NULL
-- comes first, and rows with the same numbers come in any order.
use mathlib.Core.List.{Memᴰ, Permᴰ}
use mathlib.Core.List.Memᴰ
use mathlib.Core.List.Permᴰ
use contract_abstract.Prelude.{
  ℕ, suc, ◌≡◌, refl, sym, ap, subst, ◌∙◌, Bool, true, false, ◌&&◌, ◌||◌, Option, none, some, List,
  [], ◌∷◌, length, ltb, ◌==◌, arith,
}

module _ {ℓ} {A : Type ℓ} where
  abbrev pub AllOf : (A → Type 0) → List A → Type 0
  AllOf P [] = Unit
  AllOf P (x ∷ xs) = P x × AllOf P xs

  -- an earlier element and a later one
  abbrev pub Pairs : (A → A → Type 0) → List A → Type 0
  Pairs R [] = Unit
  Pairs R (x ∷ xs) = AllOf (R x) xs × Pairs R xs

  pub AllOf-Mem : (P : A → Type 0) (xs : List A) (x : A) → AllOf P xs → Memᴰ x xs → P x
  AllOf-Mem P [] x h m = absurd (Memᴰ.not-nil m)
  AllOf-Mem P (y ∷ ys) x (h, hs) (Memᴰ.head e) = subst P (sym e) h
  AllOf-Mem P (y ∷ ys) x (h, hs) (Memᴰ.tail m) = AllOf-Mem P ys x hs m

  AllOf-Perm : (P : A → Type 0) (xs ys : List A) → Permᴰ xs ys → AllOf P xs → AllOf P ys
  AllOf-Perm P _ _ Permᴰ.nil h = h
  AllOf-Perm P _ _ (Permᴰ.cons e p) (h, hs) = (subst P e h, AllOf-Perm P _ _ p hs)
  AllOf-Perm P _ _ (Permᴰ.swap e f) (h, (k, hs)) = (subst P f k, (subst P e h, hs))
  AllOf-Perm P _ _ (Permᴰ.trans p q) h = AllOf-Perm P _ _ q (AllOf-Perm P _ _ p h)

  pub Pairs-Perm :
      (R : A → A → Type 0) (xs ys : List A)
      → ((x y : A) → R x y → R y x)
      → Permᴰ xs ys
      → Pairs R xs
      → Pairs R ys
  Pairs-Perm R _ _ s Permᴰ.nil h = h
  Pairs-Perm R _ _ s (Permᴰ.cons {l₂ = l₂} e p) (h, hs) =
      (subst (λ x. AllOf (R x) l₂) e (AllOf-Perm (R _) _ _ p h), Pairs-Perm R _ _ s p hs)
  Pairs-Perm R _ _ s (Permᴰ.swap {a = a} {b = b} {b' = b'} {l = l} e f) ((xy, xs), (ys, hs)) = (
    (subst (λ y. R y b') f (subst (λ x. R b x) e (s a b xy)), subst (λ y. AllOf (R y) l) f ys),
    (subst (λ x. AllOf (R x) l) e xs, hs),
  )
  Pairs-Perm R _ _ s (Permᴰ.trans p q) h = Pairs-Perm R _ _ s q (Pairs-Perm R _ _ s p h)

  pub Mem-Perm : (xs ys : List A) (x : A) → Permᴰ xs ys → Memᴰ x xs → Memᴰ x ys
  Mem-Perm _ _ x Permᴰ.nil m = m
  Mem-Perm _ _ x (Permᴰ.cons e p) (Memᴰ.head f) = Memᴰ.head (f ∙ e)
  Mem-Perm _ _ x (Permᴰ.cons e p) (Memᴰ.tail m) = Memᴰ.tail (Mem-Perm _ _ x p m)
  Mem-Perm _ _ x (Permᴰ.swap e f) (Memᴰ.head g) = Memᴰ.tail (Memᴰ.head (g ∙ e))
  Mem-Perm _ _ x (Permᴰ.swap e f) (Memᴰ.tail (Memᴰ.head g)) = Memᴰ.head (g ∙ f)
  Mem-Perm _ _ x (Permᴰ.swap e f) (Memᴰ.tail (Memᴰ.tail m)) = Memᴰ.tail (Memᴰ.tail m)
  Mem-Perm _ _ x (Permᴰ.trans p q) m = Mem-Perm _ _ x q (Mem-Perm _ _ x p m)

  pub length-Perm : (xs ys : List A) → Permᴰ xs ys → length xs ≡ length ys
  length-Perm _ _ Permᴰ.nil = refl
  length-Perm _ _ (Permᴰ.cons e p) = ap suc (length-Perm _ _ p)
  length-Perm _ _ (Permᴰ.swap e f) = refl
  length-Perm _ _ (Permᴰ.trans p q) = length-Perm _ _ p ∙ length-Perm _ _ q

abbrev comes_first : Option ℕ → Option ℕ → Bool
comes_first none none = false
comes_first none (some b) = true
comes_first (some a) none = false
comes_first (some a) (some b) = ltb b a

abbrev ties : Option ℕ → Option ℕ → Bool
ties none none = true
ties none (some b) = false
ties (some a) none = false
ties (some a) (some b) = a == b

ties_sym : (a b : Option ℕ) → ties a b ≡ ties b a
ties_sym none none = refl
ties_sym none (some b) = refl
ties_sym (some a) none = refl
ties_sym (some a) (some b) = ground arith

trichotomy : (a b : Option ℕ) → (comes_first a b || (comes_first b a || ties a b)) ≡ true
trichotomy none none = refl
trichotomy none (some b) = refl
trichotomy (some a) none = refl
trichotomy (some a) (some b) = ground arith

asymmetry :
    (a b : Option ℕ)
    → ((comes_first a b && (comes_first b a || ties b a)) || (ties a b && comes_first b a)) ≡ false
asymmetry none none = refl
asymmetry none (some b) = refl
asymmetry (some a) none = refl
asymmetry (some a) (some b) = ground arith

module _ {ℓ} {Row : Type ℓ} (block_number transaction_index : Row → Option ℕ) where
  -- whether the order puts one row before another
  abbrev pub before : Row → Row → Bool
  before a b =
      comes_first (block_number a) (block_number b)
      || (ties (block_number a) (block_number b)
          && comes_first (transaction_index a) (transaction_index b))

  abbrev pub is_tie : Row → Row → Bool
  is_tie a b =
      ties (block_number a) (block_number b) && ties (transaction_index a) (transaction_index b)

  -- no two of the rows have the same block number and the same index
  abbrev pub AreDistinct : List Row → Type 0
  AreDistinct = Pairs λ a b. is_tie a b ≡ false

  -- every row comes before the later ones
  abbrev pub AreDescending : List Row → Type 0
  AreDescending = Pairs λ a b. before a b ≡ true

  -- What the clause promises: the same rows, none before an earlier one.
  abbrev pub IsOrderOf : List Row → List Row → Type ℓ
  IsOrderOf rows ordered = Permᴰ ordered rows × Pairs (λ a b. before b a ≡ false) ordered

  is_tie-sym : (a b : Row) → is_tie a b ≡ false → is_tie b a ≡ false
  is_tie-sym a b h =
      rw
        (
          ties_sym (block_number b) (block_number a),
          ties_sym (transaction_index b) (transaction_index a),
        )
        h

  before-strict : (a b : Row) → before b a ≡ false → is_tie a b ≡ false → before a b ≡ true
  before-strict a b h t =
      let x = trichotomy (block_number a) (block_number b) in
      let y = trichotomy (transaction_index a) (transaction_index b) in
      let s = ties_sym (block_number a) (block_number b) in ground (arith, h, t, x, y, s)

  before-asym : (a b : Row) → before a b ≡ true → before b a ≡ true → ⊥
  before-asym a b h k =
      let x = asymmetry (block_number a) (block_number b) in
      let y = asymmetry (transaction_index a) (transaction_index b) in
      let s = ties_sym (block_number a) (block_number b) in ground (arith, h, k, x, y, s)

  strictly :
      (row : Row) (rows : List Row)
      → AllOf (λ b. before b row ≡ false) rows
      → AllOf (λ b. is_tie row b ≡ false) rows
      → AllOf (λ b. before row b ≡ true) rows
  strictly row [] h t = tt
  strictly row (b ∷ rows) (h, hs) (t, ts) = (before-strict row b h t, strictly row rows hs ts)

  strictly_all :
      (rows : List Row)
      → Pairs (λ a b. before b a ≡ false) rows
      → AreDistinct rows
      → AreDescending rows
  strictly_all [] h t = tt
  strictly_all (row ∷ rows) (h, hs) (t, ts) = (strictly row rows h t, strictly_all rows hs ts)

  -- rows without ties come in descending order
  pub IsOrderOf-AreDescending :
      (rows ordered : List Row) → AreDistinct rows → IsOrderOf rows ordered → AreDescending ordered
  IsOrderOf-AreDescending rows ordered d (p, o) =
      strictly_all ordered o (Pairs-Perm _ rows ordered is_tie-sym (Permᴰ.symm p) d)

  same_head :
      (a b : Row) (as₁ bs : List Row)
      → AllOf (λ c. before a c ≡ true) as₁
      → AllOf (λ c. before b c ≡ true) bs
      → Memᴰ a (b ∷ bs)
      → Memᴰ b (a ∷ as₁)
      → a ≡ b
  same_head a b as₁ bs h k (Memᴰ.head e) n = e
  same_head a b as₁ bs h k (Memᴰ.tail m) (Memᴰ.head e) = sym e
  same_head a b as₁ bs h k (Memᴰ.tail m) (Memᴰ.tail n) =
      absurd (before-asym a b (AllOf-Mem _ as₁ b h n) (AllOf-Mem _ bs a k m))

  in_tail :
      (a b x : Row) (as₁ bs : List Row)
      → AllOf (λ c. before a c ≡ true) as₁
      → a ≡ b
      → Memᴰ x as₁
      → Memᴰ x (b ∷ bs)
      → Memᴰ x bs
  in_tail a b x as₁ bs h e m (Memᴰ.tail n) = n
  in_tail a b x as₁ bs h e m (Memᴰ.head f) =
      let hit = subst (λ c. before a c ≡ true) (f ∙ sym e) (AllOf-Mem _ as₁ x h m) in
      absurd (before-asym a a hit hit)

  -- Two descending lists of the same rows are one list.
  pub AreDescending-eq :
      (xs ys : List Row)
      → AreDescending xs
      → AreDescending ys
      → ((x : Row) → Memᴰ x xs → Memᴰ x ys)
      → ((x : Row) → Memᴰ x ys → Memᴰ x xs)
      → xs ≡ ys
  AreDescending-eq [] [] h k f g = refl
  AreDescending-eq [] (b ∷ bs) h k f g = absurd (Memᴰ.not-nil (g b (Memᴰ.head refl)))
  AreDescending-eq (a ∷ as₁) [] h k f g = absurd (Memᴰ.not-nil (f a (Memᴰ.head refl)))
  AreDescending-eq (a ∷ as₁) (b ∷ bs) (h, hs) (k, ks) f g =
      let e = same_head a b as₁ bs h k (f a (Memᴰ.head refl)) (g b (Memᴰ.head refl)) in
      let tails =
        AreDescending-eq as₁ bs hs ks (λ x m. in_tail a b x as₁ bs h e m (f x (Memᴰ.tail m)))
          (λ x m. in_tail b a x bs as₁ k (sym e) m (g x (Memᴰ.tail m))) in
      ap (λ x. x ∷ as₁) e ∙ ap (λ l. b ∷ l) tails

  -- Without ties there is only one order.
  pub IsOrderOf-eq :
      (rows xs ys : List Row) → AreDistinct rows → IsOrderOf rows xs → IsOrderOf rows ys → xs ≡ ys
  IsOrderOf-eq rows xs ys d (p, o) (q, r) =
      AreDescending-eq xs ys (IsOrderOf-AreDescending rows xs d (p, o))
        (IsOrderOf-AreDescending rows ys d (q, r))
        (λ x m. Mem-Perm rows ys x (Permᴰ.symm q) (Mem-Perm xs rows x p m))
        (λ x m. Mem-Perm rows xs x (Permᴰ.symm p) (Mem-Perm ys rows x q m))
