-- ===== src/Parser/NamesAgree.antt =====
-- `_recursive_add_storage` of SlitherIRParser on two memories
-- (slither/tools/contract_abstract/contract/slitherir_parser.py).
use contract_abstract.Prelude.{ℕ, zero, suc, Option, none, some, List, [], ◌∷◌, ◌≡◌, refl, ap, ◌∙◌}
use contract_abstract.Layout.Types.{◌>>=◌}
use contract_abstract.Parser.Memory.{Value, nothing, str_value, set_value, list_at, Cell, as_list}
use contract_abstract.Parser.Names.{names_from, names_in}

chain_agree :
    {A B : Type 0} (h k : A → Option B) (o : Option A)
    → ((a : A) → h a ≡ k a)
    → (o >>= h) ≡ (o >>= k)
chain_agree h k none e = refl
chain_agree h k (some a) e = e a

-- where the lists are the same, so are the names
mutual
  unfolding names_from

  pub names_from-agree :
      (f g : ℕ → Option Cell) (same : (q : ℕ) → as_list (f q) ≡ as_list (g q)) (fuel : ℕ)
      (v : Value)
      → names_from f fuel v ≡ names_from g fuel v
  names_from-agree f g same zero v = refl
  names_from-agree f g same (suc fuel) nothing = refl
  names_from-agree f g same (suc fuel) (str_value s) = refl
  names_from-agree f g same (suc fuel) (set_value ts) = refl
  names_from-agree f g same (suc fuel) (list_at p) =
      chain_agree (names_in f fuel) (names_in g fuel) (as_list (f p)) (names_in-agree f g same fuel)
      ∙ ap (λ o. o >>= λ vs. names_in g fuel vs) (same p)

  names_in-agree :
      (f g : ℕ → Option Cell) (same : (q : ℕ) → as_list (f q) ≡ as_list (g q)) (fuel : ℕ)
      (vs : List Value)
      → names_in f fuel vs ≡ names_in g fuel vs
  names_in-agree f g same fuel [] = refl
  names_in-agree f g same zero (v ∷ vs) = refl
  names_in-agree f g same (suc fuel) (v ∷ vs) =
      rw (names_from-agree f g same fuel v, names_in-agree f g same (suc fuel) vs)
