-- ===== src/Parser/References.antt =====
-- `_deal_with_reference` and `get_index_from_structure` of SlitherIRParser
-- (slither/tools/contract_abstract/contract/slitherir_parser.py). The five parts of a context are
-- treated one after the other; the context that is written may be the one that is written to.
use contract_abstract.Prelude.{
  ℕ, zero, suc, ◌+◌, Text, codes, text_eq, Option, none, some, List, [], ◌∷◌, ◌++◌, ◌==◌,
  if◌then◌else◌,
}
use contract_abstract.Parser.Memory.{
  Value, nothing, str_value, set_value, list_at, Context, context_cell, list_cell, Effect, pure,
  ◌>>=◌, ◌>>◌, alloc, or_raise, load_context, load_list, store, set_pointer, get_pointer, extended,
}
use contract_abstract.Parser.Variables.{
  TypeKind, elementary_type, structure_type, contract_type, other_user_type, other_type, IrVariable,
}
use contract_abstract.Parser.Contexts.{plain_context, deal_with_write, is_reference}

-- the index of the first field of this name, raised without one
unfoldable pub get_index_from_structure : Text → List Text → Option ℕ
get_index_from_structure name [] = none
get_index_from_structure name (f ∷ fs) =
    let later = get_index_from_structure name fs in
    if text_eq f name then some 0 else elim later [ none ↦ none | some i ↦ some (suc i) ]

-- the five attributes of a context
pub data Part : Type 0 where
  input_part storage_part input_taints_part storage_taints_part value_part : Part

abbrev pub part_of : Part → Context → Value
part_of input_part c = c.input
part_of storage_part c = c.storage
part_of input_taints_part c = c.input_taints
part_of storage_taints_part c = c.storage_taints
part_of value_part c = c.value

abbrev pub with_part : Part → Value → Context → Context
with_part input_part v c = record c { input = v }
with_part storage_part v c = record c { storage = v }
with_part input_taints_part v c = record c { input_taints = v }
with_part storage_taints_part v c = record c { storage_taints = v }
with_part value_part v c = record c { value = v }

-- what another field gets of a part that was not a list: the taints themselves, or the str with the
-- field behind it
abbrev pub spread : Part → Value → Text → Option Value
spread input_part v field = extended v (codes "." ++ field)
spread storage_part v field = extended v (codes "." ++ field)
spread input_taints_part v field = some v
spread storage_taints_part v field = some v
spread value_part v field = extended v (codes "." ++ field)

abbrev pub append_item : Option Value → Option (List Value) → Option (List Value)
append_item none rest = none
append_item (some v) none = none
append_item (some v) (some vs) = some (v ∷ vs)

-- the loop over the fields, from number `i` on
unfoldable pub spread_items : Part → Value → Value → ℕ → ℕ → List Text → Option (List Value)
spread_items part origin given index i [] = some []
spread_items part origin given index i (f ∷ fs) =
    let rest = spread_items part origin given index (i + 1) fs in
    append_item (if i == index then some given else spread part origin f) rest

-- None for the other fields; for the storage taints the code has no branch for them
abbrev pub blank : Part → List Value → List Value
blank storage_taints_part rest = rest
blank input_part rest = nothing ∷ rest
blank storage_part rest = nothing ∷ rest
blank input_taints_part rest = nothing ∷ rest
blank value_part rest = nothing ∷ rest

unfoldable pub blank_items : Part → Value → ℕ → ℕ → List Text → List Value
blank_items part given index i [] = []
blank_items part given index i (f ∷ fs) =
    let rest = blank_items part given index (i + 1) fs in
    if i == index then given ∷ rest else blank part rest

-- `l[i] = v`
unfoldable pub set_nth : ℕ → Value → List Value → Option (List Value)
set_nth i v [] = none
set_nth zero v (w ∷ ws) = some (v ∷ ws)
set_nth (suc i) v (w ∷ ws) = append_item (some w) (set_nth i v ws)

abbrev pub build : Part → Value → Value → ℕ → List Text → Option (List Value)
build part nothing given index fields = some (blank_items part given index 0 fields)
build part (str_value s) given index fields = spread_items part (str_value s) given index 0 fields
build part (set_value ts) given index fields = spread_items part (set_value ts) given index 0 fields
build part (list_at l) given index fields = spread_items part (list_at l) given index 0 fields

-- `points_to_context.part = []`, then the loop that fills it
unfoldable pub rebuild : Part → Value → ℕ → List Text → ℕ → ℕ → Effect (Unit {0})
unfolding alloc load_context store blank_items spread_items
rebuild part origin index fields p q = alloc (list_cell []) >>= λ l. load_context q >>= λ c.
    store q (context_cell (with_part part (list_at l) c))
    >> (load_context p >>= λ d.
        or_raise (build part origin (part_of part d) index fields) >>= λ vs. store l (list_cell vs))

abbrev pub set_part : Part → ℕ → List Text → ℕ → ℕ → Value → Effect (Unit {0})
set_part part index fields p q nothing = rebuild part nothing index fields p q
set_part part index fields p q (str_value s) = rebuild part (str_value s) index fields p q
set_part part index fields p q (set_value ts) = rebuild part (set_value ts) index fields p q
set_part part index fields p q (list_at l) = load_context p >>= λ d. load_list l >>= λ vs.
    or_raise (set_nth index (part_of part d) vs) >>= λ ws. store l (list_cell ws)

unfoldable pub set_field : Part → ℕ → List Text → ℕ → ℕ → Effect (Unit {0})
unfolding load_context load_list store rebuild set_nth
set_field part index fields p q =
    load_context q >>= λ c. set_part part index fields p q (part_of part c)

abbrev pub fields_of : TypeKind → Option (List Text)
fields_of (structure_type fs) = some fs
fields_of elementary_type = none
fields_of contract_type = none
fields_of other_user_type = none
fields_of other_type = none

module _ (var : ℕ → IrVariable) where
  -- a context for a variable without one
  abbrev pub ensured : ℕ → Option ℕ → Effect ℕ
  ensured v (some q) = pure q
  ensured v none = plain_context nothing >>= λ q. set_pointer v (some q) >> pure q

  abbrev pub write_fields : ℕ → ℕ → ℕ → List Text → Effect (Unit {0})
  write_fields v p index fields = get_pointer v >>= ensured v >>= λ q.
      set_field input_part index fields p q
      >> set_field storage_part index fields p q
      >> set_field input_taints_part index fields p q
      >> set_field storage_taints_part index fields p q
      >> set_field value_part index fields p q

  abbrev pub write_target : ℕ → Option ℕ → ℕ → Effect (Unit {0})
  write_target target none p = deal_with_write var (some target) p
  write_target target (some index) p =
      or_raise (fields_of (var target).kind) >>= λ fields. write_fields target p index fields

  abbrev pub through : ℕ → Option ℕ → ℕ → Effect (Unit {0})
  through v none p m = some (tt, m)
  through v (some target) p m = write_target target (m.field_index v) p m

  -- what a reference points to, or the field of it, gets the context too
  unfoldable pub deal_with_reference : Option ℕ → ℕ → Effect (Unit {0})
  unfolding deal_with_write plain_context set_pointer get_pointer set_field
  deal_with_reference none p m = some (tt, m)
  deal_with_reference (some v) p m =
      if is_reference var (var v).class then through v (var v).points_to p m else some (tt, m)
