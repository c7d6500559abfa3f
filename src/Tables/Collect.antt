-- ===== src/Tables/Collect.antt =====
-- A loop that adds what each element gives, and stops at the first exception (none).
use contract_abstract.Prelude.{Option, some, List, [], ◌∷◌, ◌++◌}
use contract_abstract.Layout.Types.{◌>>=◌}

module _ {ℓ κ} {A : Type ℓ} {B : Type κ} where
  unfoldable pub collect : (A → Option (List B)) → List A → Option (List B)
  collect f [] = some []
  collect f (a ∷ as₁) = f a >>= λ first. collect f as₁ >>= λ later. some (first ++ later)
