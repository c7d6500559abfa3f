-- ===== src/Parser/Items.antt =====
-- The lists of the context that NewStructure and `contintue_internal_call` of SlitherIRParser put
-- together (slither/tools/contract_abstract/contract/slitherir_parser.py).
use contract_abstract.Prelude.{
  ℕ, zero, suc, Option, none, some, List, [], ◌∷◌, ◌≡◌, refl, ap, get_elem?, arith,
}
use contract_abstract.Parser.Memory.{
  list_at, Context, Cell, context_cell, list_cell, Memory, ◌>>=◌, put_at, alloc, load_context,
  load_list, new_context, new_list, item_at,
}
use contract_abstract.Parser.References.{
  Part, input_part, storage_part, input_taints_part, storage_taints_part, value_part, part_of,
}
use contract_abstract.Parser.Operations.{parts, listed_context}
use contract_abstract.Parser.Grows.{given}
use contract_abstract.Parser.Objects.{outcome}

-- the number of a part's list, from the first address that is free
abbrev place : Part → ℕ → ℕ
place input_part n = n
place storage_part n = suc n
place input_taints_part n = suc (suc n)
place storage_taints_part n = suc (suc (suc n))
place value_part n = suc (suc (suc (suc n)))

abbrev lists_of : ℕ → Context
lists_of n = record {
  input = list_at n;
  storage = list_at (suc n);
  input_taints = list_at (suc (suc n));
  storage_taints = list_at (suc (suc (suc n)));
  value = list_at (suc (suc (suc (suc n))));
}

abbrev listed_cells : (ℕ → Option Cell) → ℕ → List Context → ℕ → Option Cell
listed_cells f n cs =
    put_at
      (put_at
        (put_at
          (put_at
            (put_at (put_at f n (some (list_cell (parts input_part cs)))) (suc n)
              (some (list_cell (parts storage_part cs))))
            (suc (suc n)) (some (list_cell (parts input_taints_part cs))))
          (suc (suc (suc n))) (some (list_cell (parts storage_taints_part cs))))
        (suc (suc (suc (suc n)))) (some (list_cell (parts value_part cs))))
      (suc (suc (suc (suc (suc n))))) (some (context_cell (lists_of n)))

listed-outcome :
    (m : Memory) (cs : List Context)
    → listed_context cs m
      ≡ given (suc (suc (suc (suc (suc m.next))))) (record m {
        cell = listed_cells m.cell m.next cs;
        next = suc (suc (suc (suc (suc (suc m.next)))));
      })
unfolding listed_context new_list new_context alloc
listed-outcome m cs = refl

listed_at :
    (part : Part) (f : ℕ → Option Cell) (n : ℕ) (cs : List Context)
    → listed_cells f n cs (place part n) ≡ some (list_cell (parts part cs))
listed_at input_part f n cs = ground arith
listed_at storage_part f n cs = ground arith
listed_at input_taints_part f n cs = ground arith
listed_at storage_taints_part f n cs = ground arith
listed_at value_part f n cs = ground arith

context_at :
    (f : ℕ → Option Cell) (n : ℕ) (cs : List Context)
    → listed_cells f n cs (suc (suc (suc (suc (suc n))))) ≡ some (context_cell (lists_of n))
context_at f n cs = ground arith

part_listed : (part : Part) (n : ℕ) → part_of part (lists_of n) ≡ list_at (place part n)
part_listed input_part n = refl
part_listed storage_part n = refl
part_listed input_taints_part n = refl
part_listed storage_taints_part n = refl
part_listed value_part n = refl

parts-get :
    (part : Part) (cs : List Context) (i : ℕ) (c : Context)
    → get_elem? cs i ≡ some c
    → get_elem? (parts part cs) i ≡ some (part_of part c)
parts-get part [] i c e = cc e
parts-get part (d ∷ cs) zero c e =
    ap (λ o. elim o [ none ↦ none | some x ↦ some (part_of part x) ]) e
parts-get part (d ∷ cs) (suc i) c e = parts-get part cs i c e

-- Of every part of the context that is put together from these, item number `i` is what the `i`-th of
-- them has for the part.
pub listed_context-item :
    (part : Part) (m : Memory) (cs : List Context) (i : ℕ) (c : Context)
    → get_elem? cs i ≡ some c
    → outcome ((listed_context cs >>= λ p. load_context p >>= λ d. item_at (part_of part d) i) m)
      ≡ some (part_of part c)
unfolding load_context item_at load_list outcome
listed_context-item part m cs i c e = simp (
  listed-outcome m cs,
  context_at m.cell m.next cs,
  part_listed part m.next,
  listed_at part m.cell m.next cs,
  parts-get part cs i c e,
)
