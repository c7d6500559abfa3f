-- ===== src/Walker/Examples.antt =====
-- Small control-flow graphs, and the theorems at them. Nodes are numbers.
use contract_abstract.Prelude.{
  true, subst, ℕ, zero, suc, ◌-◌, ◌<◌, ◌≤◌, ◌≡◌, ◌≢◌, ◌↔◌, refl, codes, Bool, ◌==◌, some, List, [],
  ◌∷◌, arith,
}
use mathlib.Core.Option.{some-injective}
use mathlib.Core.List.{Memᴰ}
use mathlib.Core.List.Memᴰ
use contract_abstract.Walker.Paths.{
  start_node, visit, end_node, found, raised, searching, second, get_all_paths,
}
use contract_abstract.Walker.Acyclic.{Finds, get_all_paths-IsMaximal}
use contract_abstract.Walker.Loops.{get_all_paths-ends}
use contract_abstract.Walker.Splice.{with_child_paths}
use contract_abstract.Walker.Patterns.{get_pattern_mode, format_setter}
use contract_abstract.Walker.Modes.{mode_of, get_pattern_mode-mode_of}

abbrev same : ℕ → ℕ → Bool
same a b = a == b

same_iff : (a b : ℕ) → (same a b ≡ true) ↔ (a ≡ b)
same_iff a b = ground arith

-- an `if` without `else`
abbrev if_sons : ℕ → List ℕ
if_sons zero = 1 ∷ 2 ∷ []
if_sons (suc zero) = 2 ∷ []
if_sons (suc (suc n)) = []

abbrev if_rank : ℕ → ℕ
if_rank n = 2 - n

if_falls : (n s : ℕ) → Memᴰ s (if_sons n) → if_rank s < if_rank n
if_falls zero s (Memᴰ.head e) = omega (arith, e)
if_falls zero s (Memᴰ.tail (Memᴰ.head e)) = omega (arith, e)
if_falls zero s (Memᴰ.tail (Memᴰ.tail m)) = absurd (Memᴰ.not-nil m)
if_falls (suc zero) s (Memᴰ.head e) = omega (arith, e)
if_falls (suc zero) s (Memᴰ.tail m) = absurd (Memᴰ.not-nil m)
if_falls (suc (suc n)) s m = absurd (Memᴰ.not-nil m)

get_all_paths-IsMaximal_example :
    Finds if_sons same same_iff if_rank if_falls 0
      (start_node ∷ [])
      (get_all_paths if_sons same 3 (some 0) (start_node ∷ []))
get_all_paths-IsMaximal_example =
    get_all_paths-IsMaximal if_sons same same_iff if_rank if_falls 3 0 (omega arith)

-- a `while`: 1 is the condition, 2 the body, 3 the end
abbrev while_sons : ℕ → List ℕ
while_sons zero = 1 ∷ []
while_sons (suc zero) = 2 ∷ 3 ∷ []
while_sons (suc (suc zero)) = 1 ∷ []
while_sons (suc (suc (suc n))) = []

abbrev while_rank : ℕ → ℕ
while_rank zero = 1
while_rank (suc zero) = 1
while_rank (suc (suc zero)) = 1
while_rank (suc (suc (suc n))) = 0

while_bound : (n : ℕ) → while_rank n ≤ 1
while_bound zero = omega arith
while_bound (suc zero) = omega arith
while_bound (suc (suc zero)) = omega arith
while_bound (suc (suc (suc n))) = omega arith

abbrev while_nodes : List ℕ
while_nodes = 0 ∷ 1 ∷ 2 ∷ 3 ∷ []

while_inside : (n s : ℕ) → Memᴰ s (while_sons n) → Memᴰ s while_nodes
while_inside zero s (Memᴰ.head e) = Memᴰ.tail (Memᴰ.head e)
while_inside zero s (Memᴰ.tail m) = absurd (Memᴰ.not-nil m)
while_inside (suc zero) s m = Memᴰ.tail (Memᴰ.tail m)
while_inside (suc (suc zero)) s (Memᴰ.head e) = Memᴰ.tail (Memᴰ.head e)
while_inside (suc (suc zero)) s (Memᴰ.tail m) = absurd (Memᴰ.not-nil m)
while_inside (suc (suc (suc n))) s m = absurd (Memᴰ.not-nil m)

-- the condition is the only node with a second son, the end
second_while : (s b : ℕ) → second (while_sons s) ≡ some b → while_rank b ≡ 0
second_while zero b e = cc e
second_while (suc zero) b e = subst (λ x. while_rank x ≡ 0) (some-injective 3 b e) refl
second_while (suc (suc zero)) b e = cc e
second_while (suc (suc (suc n))) b e = cc e

while_leaves :
    (n s b : ℕ)
    → Memᴰ s (while_sons n)
    → second (while_sons s) ≡ some b
    → while_rank b < while_rank n
while_leaves zero s b m e = omega (arith, second_while s b e)
while_leaves (suc zero) s b m e = omega (arith, second_while s b e)
while_leaves (suc (suc zero)) s b m e = omega (arith, second_while s b e)
while_leaves (suc (suc (suc n))) s b m e = absurd (Memᴰ.not-nil m)

get_all_paths-ends_example : get_all_paths while_sons same 10 (some 0) (start_node ∷ []) ≢ searching
get_all_paths-ends_example =
    get_all_paths-ends while_sons same same_iff while_nodes while_rank 1 while_bound while_inside
      while_leaves 10 0 (omega arith)

while_paths :
    get_all_paths while_sons same 10 (some 0) (start_node ∷ [])
    ≡ found (
        (start_node ∷ visit 0 ∷ visit 1 ∷ visit 2 ∷ visit 1 ∷ visit 3 ∷ end_node ∷ [])
        ∷ (start_node ∷ visit 0 ∷ visit 1 ∷ visit 3 ∷ end_node ∷ [])
        ∷ [])
unfolding get_all_paths
while_paths = refl

-- a `do`: 1 is the body, 2 the condition, 3 the end
abbrev do_sons : ℕ → List ℕ
do_sons zero = 1 ∷ []
do_sons (suc zero) = 2 ∷ []
do_sons (suc (suc zero)) = 1 ∷ 3 ∷ []
do_sons (suc (suc (suc n))) = []

do_raises : get_all_paths do_sons same 10 (some 0) (start_node ∷ []) ≡ raised
unfolding get_all_paths
do_raises = refl

-- two shifts, one bit each
get_pattern_mode-mode_of_example :
    get_pattern_mode ((0, 1 ∷ []) ∷ (1, 3 ∷ []) ∷ [])
    ≡ some (mode_of ((0, 1 ∷ []) ∷ (1, 3 ∷ []) ∷ []))
get_pattern_mode-mode_of_example = get_pattern_mode-mode_of (0, 1 ∷ []) (1, 3 ∷ []) []

second_bits : get_pattern_mode ((0, 1 ∷ []) ∷ (1, 3 ∷ []) ∷ []) ≡ some 3
unfolding get_pattern_mode
second_bits = refl

asset_setter : format_setter (codes "setAssetPaused(uint256)") ≡ codes "AsPaused"
unfolding format_setter
asset_setter = refl

-- the call at index 1 is replaced by the one path 7 of its function, and the second path stays
spliced :
    with_child_paths {Item = ℕ}
      ((0, 5 ∷ 6 ∷ 8 ∷ []) ∷ (0, 9 ∷ []) ∷ [])
      0
      2
      (5 ∷ 6 ∷ 8 ∷ [])
      []
      true
      ((7 ∷ []) ∷ (4 ∷ []) ∷ [])
    ≡ (2, 5 ∷ 6 ∷ 7 ∷ 8 ∷ []) ∷ (0, 9 ∷ []) ∷ []
unfolding with_child_paths
spliced = refl
