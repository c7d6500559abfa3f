-- ===== src/Parser/Enough.antt =====
-- The fuel of `_recursive_add_storage` of SlitherIRParser
-- (slither/tools/contract_abstract/contract/slitherir_parser.py) where no list holds itself.
use contract_abstract.Prelude.{
  ℕ, zero, suc, ◌+◌, ◌<◌, Text, Bool, true, false, Option, none, some, List, [], ◌∷◌, ◌++◌, ◌≡◌,
  refl, arith,
}
use contract_abstract.Layout.Types.{◌>>=◌}
use contract_abstract.Parser.Memory.{
  Value, nothing, str_value, set_value, list_at, Cell, Memory, as_list,
}
use contract_abstract.Parser.Names.{names_from, names_in, names_of}

abbrev pub is_given : {A : Type 0} → Option A → Bool
is_given none = false
is_given (some a) = true

module _ (cell : ℕ → Option Cell) (rank : ℕ → ℕ) where
  -- a list among the items of a list of this rank is there, and of a smaller rank
  abbrev pub Below : ℕ → Value → Type 0
  Below r nothing = Unit
  Below r (str_value s) = Unit
  Below r (set_value ts) = Unit
  Below r (list_at q) = (rank q < r) × (is_given (as_list (cell q)) ≡ true)

  unfoldable pub AllBelow : ℕ → List Value → Type 0
  AllBelow r [] = Unit
  AllBelow r (v ∷ vs) = Below r v × AllBelow r vs

  -- no list holds itself, however far down
  abbrev pub Ranked : Type 0
  Ranked = (p : ℕ) (vs : List Value) → as_list (cell p) ≡ some vs → AllBelow (rank p) vs

  list_given :
      (h : List Value → Option (List Text)) (o : Option (List Value))
      → is_given o ≡ true
      → ((vs : List Value) → o ≡ some vs → is_given (h vs) ≡ true)
      → is_given (o >>= h) ≡ true
  list_given h none e k = cc e
  list_given h (some vs) e k = k vs refl

  both_given :
      (a b : Option (List Text))
      → is_given a ≡ true
      → is_given b ≡ true
      → is_given (a >>= λ ns. b >>= λ rest. some (ns ++ rest)) ≡ true
  both_given none b e f = cc e
  both_given (some ns) none e f = cc f
  both_given (some ns) (some rest) e f = refl

  smaller : (k r f : ℕ) → k < r → r + r < suc f → k + k + 1 < f
  smaller k r f h e = omega arith

  unsuc : (r f : ℕ) → r + r + 1 < suc f → r + r < f
  unsuc r f h = omega arith

  mutual
    unfolding names_from AllBelow

    names_from-given :
        (ranked : Ranked) (fuel r : ℕ) (v : Value)
        → r + r < fuel
        → Below r v
        → is_given (names_from cell fuel v) ≡ true
    names_from-given ranked zero r v e b = ground arith
    names_from-given ranked (suc f) r nothing e b = refl
    names_from-given ranked (suc f) r (str_value s) e b = refl
    names_from-given ranked (suc f) r (set_value ts) e b = refl
    names_from-given ranked (suc f) r (list_at p) e b =
        list_given (names_in cell f) (as_list (cell p)) b.1
          (λ vs h. names_in-given ranked f (rank p) vs (smaller (rank p) r f b.0 e) (ranked p vs h))

    names_in-given :
        (ranked : Ranked) (fuel r : ℕ) (vs : List Value)
        → r + r + 1 < fuel
        → AllBelow r vs
        → is_given (names_in cell fuel vs) ≡ true
    names_in-given ranked fuel r [] e b = refl
    names_in-given ranked zero r (v ∷ vs) e b = ground arith
    names_in-given ranked (suc f) r (v ∷ vs) e b =
        both_given (names_from cell f v) (names_in cell (suc f) vs)
          (names_from-given ranked f r v (unsuc r f e) b.0)
          (names_in-given ranked (suc f) r vs e b.1)

-- Where every list has a rank above the ranks of the lists in it, which are all there, the names of a
-- value are found if it is no list, or a list that is there of a rank below the number of objects.
pub names_of-given :
    (m : Memory) (rank : ℕ → ℕ) (v : Value)
    → Ranked m.cell rank
    → Below m.cell rank m.next v
    → is_given (names_of m v) ≡ true
unfolding names_of
names_of-given m rank v ranked b =
    names_from-given m.cell rank ranked (suc (m.next + m.next)) m.next v (omega arith) b
