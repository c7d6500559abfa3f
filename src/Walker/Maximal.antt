-- ===== src/Walker/Maximal.antt =====
-- The walks of a graph that end at a node without sons.
use contract_abstract.Prelude.{◌≡◌, List, [], ◌∷◌}
use mathlib.Core.List.{Memᴰ}
use contract_abstract.Walker.Paths.{visit, Route}

module _ {ℓ} {N : Type ℓ} where
  abbrev pub visits : List N → Route N
  visits [] = []
  visits (n ∷ ns) = visit n ∷ visits ns

  -- from node to son, as far as there are sons
  pub data IsMaximal (sons : N → List N) : N → List N → Type ℓ where
    last : {n : N} → sons n ≡ [] → IsMaximal sons n (n ∷ [])
    step :
        {n s : N} {ns : List N} → Memᴰ s (sons n) → IsMaximal sons s ns → IsMaximal sons n (n ∷ ns)
