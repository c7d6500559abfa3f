-- ===== src/Parser/Values.antt =====
-- How the operations of SlitherIRParser put values together
-- (slither/tools/contract_abstract/contract/slitherir_parser.py), and `AbstractContext.copy`
-- (slither/tools/contract_abstract/contract/context.py). None as an outcome is a raised exception. A
-- str or a set that is indexed, and a str among the taints, do not come up and raise here.
use contract_abstract.Prelude.{
  ℕ, zero, suc, ◌+◌, Text, codes, Option, none, some, List, [], ◌∷◌, ◌++◌,
}
use contract_abstract.Parser.Memory.{
  Value, nothing, str_value, set_value, list_at, Context, Effect, pure, raise, ◌>>=◌, union,
  or_raise, load_list, new_list, new_context, item_at,
}

-- `f"{a}[{i}]"`, by `+`
abbrev pub indexed : Value → Value → Option Value
indexed (str_value s) (str_value i) = some (str_value (s ++ codes "[" ++ i ++ codes "]"))
indexed v i = none

-- `"(" + a + ")" + op + "(" + b + ")"`
abbrev pub operated : Text → Value → Value → Option Value
operated op (str_value a) (str_value b) =
    some (str_value (codes "(" ++ a ++ codes ")" ++ op ++ codes "(" ++ b ++ codes ")"))
operated op a b = none

-- a str with the field behind it, None stays None, anything else raises
abbrev pub field_text : Value → Text → Option Value
field_text nothing field = some nothing
field_text (str_value s) field = some (str_value (s ++ codes "." ++ field))
field_text (set_value ts) field = none
field_text (list_at p) field = none

-- a copy of a set
abbrev pub set_copy : Value → Option Value
set_copy (set_value ts) = some (set_value ts)
set_copy nothing = none
set_copy (str_value s) = none
set_copy (list_at p) = none

-- `{t + suffix for t in ts}`
unfoldable pub suffixed : Text → List Text → List Text
suffixed suffix [] = []
suffixed suffix (t ∷ ts) = (t ++ suffix) ∷ suffixed suffix ts

-- a str with a suffix, None for anything else
abbrev pub suffixed_text : Value → Text → Value
suffixed_text (str_value s) suffix = str_value (s ++ suffix)
suffixed_text nothing suffix = nothing
suffixed_text (set_value ts) suffix = nothing
suffixed_text (list_at p) suffix = nothing

-- the part of a structure for its field number `i`: of a list the item, else the str with the field
abbrev pub member_value : Value → ℕ → Text → Effect Value
member_value nothing i field = pure nothing
member_value (str_value s) i field = pure (str_value (s ++ codes "." ++ field))
member_value (set_value ts) i field = raise
member_value (list_at p) i field = item_at (list_at p) i

-- the taints of the field; those from storage get the field behind them
abbrev pub member_input_taints : Value → ℕ → Effect Value
member_input_taints nothing i = pure (set_value [])
member_input_taints (set_value ts) i = pure (set_value ts)
member_input_taints (str_value s) i = raise
member_input_taints (list_at p) i = item_at (list_at p) i

abbrev pub member_storage_taints : Value → ℕ → Text → Effect Value
member_storage_taints nothing i field = pure (set_value [])
member_storage_taints (set_value ts) i field = pure (set_value (suffixed (codes "." ++ field) ts))
member_storage_taints (str_value s) i field = raise
member_storage_taints (list_at p) i field = item_at (list_at p) i

-- a set and an argument's taints, a set or a list of sets
abbrev pub add_items : List Text → List Value → Option (List Text)
add_items ts [] = some ts
add_items ts (set_value us ∷ rest) = add_items (union ts us) rest
add_items ts (nothing ∷ rest) = none
add_items ts (str_value s ∷ rest) = none
add_items ts (list_at p ∷ rest) = none

unfoldable pub add_taints : List Text → Value → Effect (List Text)
unfolding union load_list
add_taints ts (set_value us) = pure (union ts us)
add_taints ts (list_at p) = load_list p >>= λ vs. or_raise (add_items ts vs)
add_taints ts nothing = raise
add_taints ts (str_value s) = raise

-- `copy.deepcopy`, on fuel as `_recursive_add_storage`
unfoldable mutual
  unfolding load_list new_list

  pub copy_value : ℕ → Value → Effect Value
  copy_value zero v m = none
  copy_value (suc fuel) nothing m = some (nothing, m)
  copy_value (suc fuel) (str_value s) m = some (str_value s, m)
  copy_value (suc fuel) (set_value ts) m = some (set_value ts, m)
  copy_value (suc fuel) (list_at p) m = (load_list p >>= copy_values fuel >>= new_list) m

  pub copy_values : ℕ → List Value → Effect (List Value)
  copy_values fuel [] m = some ([], m)
  copy_values zero (v ∷ vs) m = none
  copy_values (suc fuel) (v ∷ vs) m =
      (copy_value fuel v >>= λ w. copy_values (suc fuel) vs >>= λ ws. pure (w ∷ ws)) m

unfoldable pub copy_context : Context → Effect ℕ
unfolding copy_value new_context
copy_context c m =
    let fuel = suc (m.next + m.next) in
    (copy_value fuel c.input >>= λ input. copy_value fuel c.storage >>= λ storage.
    copy_value fuel c.input_taints >>= λ input_taints.
    copy_value fuel c.storage_taints >>= λ storage_taints. copy_value fuel c.value >>= λ value.
    new_context input storage input_taints storage_taints value)
      m
