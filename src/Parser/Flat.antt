-- ===== src/Parser/Flat.antt =====
-- Copies of contexts without lists, as `deal_with_context_enter` of ContractWalker makes them
-- (slither/tools/contract_abstract/contract/contract_walker.py).
use contract_abstract.Prelude.{ℕ, suc, Text, Bool, true, false, some, List, [], ◌∷◌, ◌≡◌, refl}
use contract_abstract.Parser.Memory.{
  Value, nothing, str_value, set_value, list_at, Context, context_cell, Memory, put_at, as_context,
  load_context, set_pointer, new_context, alloc,
}
use contract_abstract.Parser.Names.{names_of}
use contract_abstract.Parser.Values.{copy_value, copy_context}
use contract_abstract.Parser.Walk.{deal_with_context_enter}
use contract_abstract.Parser.Grows.{given}

abbrev pub is_list : Value → Bool
is_list nothing = false
is_list (str_value s) = false
is_list (set_value ts) = false
is_list (list_at p) = true

-- a context without lists
pub record Flat (c : Context) : Type 0 where
  pub flat_input : is_list c.input ≡ false
  pub flat_storage : is_list c.storage ≡ false
  pub flat_input_taints : is_list c.input_taints ≡ false
  pub flat_storage_taints : is_list c.storage_taints ≡ false

copy_flat :
    (fuel : ℕ) (v : Value) (m : Memory) → is_list v ≡ false → copy_value (suc fuel) v m ≡ given v m
unfolding copy_value
copy_flat fuel nothing m h = refl
copy_flat fuel (str_value s) m h = refl
copy_flat fuel (set_value ts) m h = refl
copy_flat fuel (list_at p) m h = cc h

-- the names in a value that is no list
abbrev pub own_names : Value → List Text
own_names nothing = []
own_names (str_value s) = s ∷ []
own_names (set_value ts) = []
own_names (list_at p) = []

pub flat_names : (m : Memory) (v : Value) → is_list v ≡ false → names_of m v ≡ some (own_names v)
unfolding names_of
flat_names m nothing h = refl
flat_names m (str_value s) h = refl
flat_names m (set_value ts) h = refl
flat_names m (list_at p) h = cc h

-- after the copy, for a parameter
abbrev pub copied : Memory → ℕ → Context → Memory
copied m v c = record m {
  cell = put_at m.cell m.next (some (context_cell c));
  next = suc m.next;
  contexts = put_at m.contexts v (some m.next);
  has_key = put_at m.has_key v true;
}

pub enter-step :
    (m : Memory) (v p : ℕ) (vs ps : List ℕ) (c : Context) (s : Text)
    → as_context (m.cell p) ≡ some c
    → Flat c
    → c.value ≡ str_value s
    → deal_with_context_enter (v ∷ vs) (p ∷ ps) m
      ≡ deal_with_context_enter vs ps (copied m v (record c { value = str_value s }))
unfolding deal_with_context_enter load_context copy_context new_context alloc set_pointer
enter-step m v p vs ps c s h f e =
    simp (h, copy_flat, f.flat_input, f.flat_storage, f.flat_input_taints, f.flat_storage_taints, e)
