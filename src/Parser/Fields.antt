-- ===== src/Parser/Fields.antt =====
-- The fields of structures in `get_index_from_structure`, `_deal_with_reference` and the branch for
-- Member of SlitherIRParser (slither/tools/contract_abstract/contract/slitherir_parser.py).
use contract_abstract.Prelude.{
  ℕ, zero, suc, ◌+◌, Text, text_eq, text_eq_iff, true, false, Option, none, some, List, [], ◌∷◌,
  ◌≡◌, refl, sym, ap, subst, get_elem?, length, ◌==◌, if◌then◌else◌, arith,
}
use mathlib.Core.Option.{some-injective}
use contract_abstract.Parser.Memory.{Value, is_in}
use contract_abstract.Parser.References.{
  get_index_from_structure, Part, spread, append_item, spread_items,
}
use contract_abstract.Parser.Members.{last_index}

-- no name twice
unfoldable pub Distinct : List Text → Type 0
Distinct [] = Unit
Distinct (f ∷ fs) = (is_in f fs ≡ false) × Distinct fs

last_index-absent :
    (f name : Text) (fs : List Text)
    → text_eq f name ≡ true
    → is_in f fs ≡ false
    → last_index name fs ≡ none
unfolding last_index is_in
last_index-absent f name [] e h = refl
last_index-absent f name (g ∷ gs) e h = ground (
  arith,
  last_index-absent f name gs e,
  (text_eq_iff f name).0,
  ap (λ x. text_eq g x) ((text_eq_iff f name).0 e),
)

-- Where the fields of a structure have different names, the field of this name that a reference is
-- noted for, which is the last one, is the one that is read, which is the first.
pub last_index-first :
    (name : Text) (fields : List Text)
    → Distinct fields
    → last_index name fields ≡ get_index_from_structure name fields
unfolding Distinct last_index get_index_from_structure
last_index-first name [] d = refl
last_index-first name (f ∷ fs) d =
    ground (arith, last_index-first name fs d.1, last_index-absent f name fs)

-- An index that is found is below the number of fields, the field there has the name, and no field
-- before it has.
pub get_index_from_structure-first :
    (name : Text) (fields : List Text) (i : ℕ)
    → get_index_from_structure name fields ≡ some i
    → get_elem? fields i ≡ some name
unfolding get_index_from_structure
get_index_from_structure-first name [] i e = cc e
get_index_from_structure-first name (f ∷ fs) zero e = ground (arith, (text_eq_iff f name).0)
get_index_from_structure-first name (f ∷ fs) (suc i) e =
    ground (arith, get_index_from_structure-first name fs i)

-- what a write to field number `index` leaves at number `i`
abbrev pub field_of : Part → Value → Value → ℕ → ℕ → Text → Option Value
field_of part origin given index i f = if i == index then some given else spread part origin f

append_item-inv :
    {P : Type 0} (o : Option Value) (r : Option (List Value)) (vs : List Value)
    → append_item o r ≡ some vs
    → ((w : Value) (ws : List Value) → o ≡ some w → r ≡ some ws → vs ≡ w ∷ ws → P)
    → P
append_item-inv none r vs e k = cc e
append_item-inv (some w) none vs e k = cc e
append_item-inv (some w) (some ws) vs e k = k w ws refl refl (sym (some-injective _ _ e))

-- the items of this list are those that a write leaves, from number `i` on
abbrev pub Filled : Part → Value → Value → ℕ → ℕ → List Text → List Value → Type 0
Filled part origin given index i fields vs =
    (length vs ≡ length fields)
    × ((j : ℕ) (f : Text)
        → get_elem? fields j ≡ some f
        → get_elem? vs j ≡ field_of part origin given index (i + j) f)

zero_added : (i : ℕ) → i ≡ i + 0
zero_added i = omega arith

suc_added : (i j : ℕ) → i + 1 + j ≡ i + suc j
suc_added i j = omega arith

Filled-item :
    (part : Part) (origin given : Value) (index i : ℕ) (f : Text) (fs : List Text) (w : Value)
    (ws : List Value)
    → field_of part origin given index i f ≡ some w
    → Filled part origin given index (i + 1) fs ws
    → (j : ℕ) (g : Text) → get_elem? (f ∷ fs) j ≡ some g
    → get_elem? (w ∷ ws) j ≡ field_of part origin given index (i + j) g
Filled-item part origin given index i f fs w ws e ih zero g h =
    subst (λ k. some w ≡ field_of part origin given index k g) (zero_added i)
      (subst (λ x. some w ≡ field_of part origin given index i x) (some-injective _ _ h) (sym e))
Filled-item part origin given index i f fs w ws e ih (suc j) g h =
    subst (λ k. get_elem? ws j ≡ field_of part origin given index k g) (suc_added i j) (ih.1 j g h)

cons_from :
    (part : Part) (origin given : Value) (index i : ℕ) (f : Text) (fs : List Text) (w : Value)
    (ws vs : List Value)
    → field_of part origin given index i f ≡ some w
    → vs ≡ w ∷ ws
    → Filled part origin given index (i + 1) fs ws
    → Filled part origin given index i (f ∷ fs) vs
cons_from part origin given index i f fs w ws vs e ev ih =
    subst (λ us. Filled part origin given index i (f ∷ fs) us) (sym ev)
      (ap suc ih.0, Filled-item part origin given index i f fs w ws e ih)

spread_items-from :
    (part : Part) (origin given : Value) (index i : ℕ) (fields : List Text) (vs : List Value)
    → spread_items part origin given index i fields ≡ some vs
    → (length vs ≡ length fields)
      × ((j : ℕ) (f : Text)
          → get_elem? fields j ≡ some f
          → get_elem? vs j ≡ field_of part origin given index (i + j) f)
unfolding spread_items
spread_items-from part origin given index i [] vs e =
    subst
      (λ ws.
        (length ws ≡ 0)
        × ((j : ℕ) (f : Text)
            → get_elem? {A = Text} [] j ≡ some f
            → get_elem? ws j ≡ field_of part origin given index (i + j) f))
      (some-injective _ _ e) (refl, λ j f h. cc h)
spread_items-from part origin given index i (f ∷ fs) vs e =
    append_item-inv _ _ vs e λ w ws eo er ev.
      cons_from part origin given index i f fs w ws vs eo ev
        (spread_items-from part origin given index (i + 1) fs ws er)

-- The list that a write to one field of a structure leaves, where the part was not a list before, has
-- an item for each field: what is written for the field, and for another one what stood there, with
-- the field behind it unless these are taints.
pub spread_items-fields :
    (part : Part) (origin given : Value) (index : ℕ) (fields : List Text) (vs : List Value)
    → spread_items part origin given index 0 fields ≡ some vs
    → Filled part origin given index 0 fields vs
spread_items-fields part origin given index fields vs e =
    spread_items-from part origin given index 0 fields vs e
