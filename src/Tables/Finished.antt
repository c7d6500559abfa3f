-- ===== src/Tables/Finished.antt =====
-- Which structures `_init_struct_entity` fills without an exception.
use contract_abstract.Prelude.{
  ℕ, zero, suc, ◌+◌, ◌*◌, ◌≡◌, refl, sym, subst, inl, inr, Text, text_eq, text_eq_refl, codes, Bool,
  true, false, Option, none, some, List, [], ◌∷◌, ◌++◌, ◌&&◌, ◌||◌, Bool-cases, ltb, if◌then◌else◌,
  arith,
}
use contract_abstract.Layout.Types.{Place, ◌>>=◌}
use contract_abstract.Layout.Meta.{
  Meta, Fields, simple, struct, static_array, dynamic_array, map, no_fields, field,
}
use contract_abstract.Layout.Struct.{Found, walk_fields}
use contract_abstract.Tables.Create.{
  Shape, create_table, create_table_for_array, get_array_attributes,
}
use contract_abstract.Tables.Init.{
  Action, make_table, write, acts, with_length, finished, Run, followed, for_range, with_index,
  make_array, init_fields, init_array,
}

unfoldable mutual
  -- no array in it holds arrays or mappings
  pub is_flat : Fields → Bool
  is_flat no_fields = true
  is_flat (field n (map k v) rest) = is_flat rest
  is_flat (field n (struct s inner) rest) = is_flat inner && is_flat rest
  is_flat (field n (static_array l e) rest) = is_flat_element e && is_flat rest
  is_flat (field n (dynamic_array l e) rest) = is_flat_element e && is_flat rest
  is_flat (field n (simple t size) rest) = is_flat rest

  is_flat_element : Meta → Bool
  is_flat_element (map k v) = false
  is_flat_element (static_array l e) = false
  is_flat_element (dynamic_array l e) = false
  is_flat_element (struct s members) = is_flat members
  is_flat_element (simple t size) = true

abbrev has_name : Text → Fields → Bool
has_name name no_fields = false
has_name name (field n m rest) = text_eq n name || has_name name rest

abbrev HasAll : Fields → Fields → Type 0
HasAll whole no_fields = Unit
HasAll whole (field n m rest) = (has_name n whole ≡ true) × HasAll whole rest

HasAll-field :
    (n : Text) (m : Meta) (whole members : Fields)
    → HasAll whole members
    → HasAll (field n m whole) members
HasAll-field n m whole no_fields h = tt
HasAll-field n m whole (field k l rest) (e, h) = (ground (arith, e), HasAll-field n m whole rest h)

own_fields-HasAll : (whole : Fields) → HasAll whole whole
own_fields-HasAll no_fields = tt
own_fields-HasAll (field n m rest) =
    (rw (text_eq_refl n) refl, HasAll-field n m rest rest (own_fields-HasAll rest))

abbrev IsThere : Option ℕ → Type 0
IsThere o = (i : ℕ) × (o ≡ some i)

-- the two outcomes at a field
IsThere-if :
    (b : Bool) (slot offset index : ℕ) (later : Found)
    → (b ≡ false → IsThere later.index)
    → IsThere
        (if b then record { slot = slot; offset = offset; index = some index } else later).index
IsThere-if true slot offset index later h = (index, refl)
IsThere-if false slot offset index later h = h refl

walk_fields-IsThere :
    (name : Text) (whole : Fields) (slot offset index : ℕ)
    → has_name name whole ≡ true
    → IsThere (walk_fields name slot offset index whole).index
unfolding walk_fields
walk_fields-IsThere name no_fields slot offset index h = cc h
walk_fields-IsThere name (field n (struct s inner) rest) slot offset index h =
    IsThere-if (text_eq n name) _ _ index _
      (λ f. walk_fields-IsThere name rest _ _ (index + 1) (ground (arith, h, f)))
walk_fields-IsThere name (field n (static_array l e) rest) slot offset index h =
    IsThere-if (text_eq n name) _ _ index _
      (λ f. walk_fields-IsThere name rest _ _ (index + 1) (ground (arith, h, f)))
walk_fields-IsThere name (field n (dynamic_array l e) rest) slot offset index h =
    IsThere-if (text_eq n name) _ _ index _
      (λ f. walk_fields-IsThere name rest _ _ (index + 1) (ground (arith, h, f)))
walk_fields-IsThere name (field n (map k v) rest) slot offset index h =
    IsThere-if (text_eq n name) _ _ index _
      (λ f. walk_fields-IsThere name rest _ _ (index + 1) (ground (arith, h, f)))
walk_fields-IsThere name (field n (simple t bytes) rest) slot offset index h =
    elim (Bool-cases (ltb 256 (bytes * 8 + offset))) [
      | inl big ↦ rw big (
          IsThere-if (text_eq n name) _ _ index _
            (λ f. walk_fields-IsThere name rest _ _ (index + 1) (ground (arith, h, f))))
      | inr fits ↦ rw fits (
          IsThere-if (text_eq n name) _ _ index _
            (λ f. walk_fields-IsThere name rest _ _ (index + 1) (ground (arith, h, f))))
    ]

both : (a b : Bool) → (a && b) ≡ true → (a ≡ true) × (b ≡ true)
both true b h = (refl, h)
both false b h = cc h

followed-finished :
    (first next : Run) → first.1 ≡ true → next.1 ≡ true → (followed first next).1 ≡ true
followed-finished (xs, true) next h k = k
followed-finished (xs, false) next h k = cc h

with_index-finished :
    (i : Option ℕ) (run : Run) → IsThere i → run.1 ≡ true → (with_index i run).1 ≡ true
with_index-finished none run (i, e) h = cc e
with_index-finished (some j) run there h = h

acts-finished :
    (works : Action → Bool) (actions : List Action) (next : Run)
    → ((action : Action) → works action ≡ true)
    → next.1 ≡ true
    → (acts works actions next).1 ≡ true
acts-finished works [] next all h = h
acts-finished works (action ∷ actions) next all h =
    rw (all action) (acts-finished works actions next all h)

with_length-finished :
    (o : Option ℕ) (body : ℕ → Run)
    → IsThere o
    → ((n : ℕ) → (body n).1 ≡ true)
    → (with_length o body).1 ≡ true
with_length-finished none body (i, e) h = cc e
with_length-finished (some n) body there h = h n

for_range-finished :
    (n i : ℕ) (body : ℕ → Run) → ((j : ℕ) → (body j).1 ≡ true) → (for_range n i body).1 ≡ true
unfolding for_range
for_range-finished zero i body h = refl
for_range-finished (suc n) i body h =
    followed-finished (body i) (for_range n (i + 1) body) (h i)
      (for_range-finished n (i + 1) body h)

module _ (works : Action → Bool) (flag : Meta → Option Bool) (length_at : Place → Option ℕ)
    (keccak : ℕ → ℕ) where
  get_array_attributes-flat :
      (element : Meta) (shape : Shape)
      → is_flat_element element ≡ true
      → (after : Shape) × (get_array_attributes flag element shape true ≡ some after)
  unfolding get_array_attributes is_flat_element
  get_array_attributes-flat (map k v) shape h = cc h
  get_array_attributes-flat (static_array l e) shape h = cc h
  get_array_attributes-flat (dynamic_array l e) shape h = cc h
  get_array_attributes-flat (struct s members) shape h = (_, refl)
  get_array_attributes-flat (simple t size) shape h = (_, refl)

  module _ (all_work : (action : Action) → works action ≡ true)
      (lengths : (p : Place) → IsThere (length_at p)) where
    make_array-finished :
        (name : Text) (element : Meta) (next : Run)
        → is_flat_element element ≡ true
        → next.1 ≡ true
        → (make_array works flag length_at keccak
            (create_table_for_array flag name element true)
            next).1
          ≡ true
    unfolding create_table_for_array
    make_array-finished name element next h k =
        let (after, e) = get_array_attributes-flat element _ h in
        subst
          (λ o.
            (make_array works flag length_at keccak (o >>= λ shape. some (create_table name shape))
              next).1
            ≡ true)
          (sym e) (acts-finished works (make_table _ ∷ []) next all_work k)

    mutual
      unfolding init_fields is_flat

      init_fields-finished :
          (whole members : Fields) (table prefix : Text) (base : ℕ) (keys : List (Text × ℕ))
          → HasAll whole members
          → is_flat members ≡ true
          → (init_fields works flag length_at keccak whole members table prefix base keys).1 ≡ true
      init_fields-finished whole no_fields table prefix base keys a h = refl
      init_fields-finished whole (field n (map k v) rest) table prefix base keys (e, a) h =
          with_index-finished _ _ (walk_fields-IsThere n whole 0 0 0 e) (
            acts-finished works (write _ _ _ _ ∷ make_table _ ∷ []) _ all_work
              (init_fields-finished whole rest table prefix base keys a h))
      init_fields-finished whole (field n (struct s inner) rest) table prefix base keys (e, a) h =
          let (g₁, g) = both (is_flat inner) (is_flat rest) h in
          with_index-finished _ _ (walk_fields-IsThere n whole 0 0 0 e) (
            followed-finished _ _
              (init_fields-finished inner inner table (prefix ++ n ++ codes "__") _ keys
                (own_fields-HasAll inner) g₁)
              (init_fields-finished whole rest table prefix base keys a g))
      init_fields-finished whole (field n (static_array l el) rest) table prefix base keys (e, a)
            h =
          let (flat, g) = both (is_flat_element el) (is_flat rest) h in
          with_index-finished _ _ (walk_fields-IsThere n whole 0 0 0 e) (
            acts-finished works (write _ _ _ _ ∷ []) _ all_work (
              followed-finished _ _
                (make_array-finished _ el _ flat (init_array-finished el _ _ flat))
                (init_fields-finished whole rest table prefix base keys a g)))
      init_fields-finished whole (field n (dynamic_array l el) rest) table prefix base keys (e, a)
            h =
          let (flat, g) = both (is_flat_element el) (is_flat rest) h in
          with_index-finished _ _ (walk_fields-IsThere n whole 0 0 0 e) (
            acts-finished works (write _ _ _ _ ∷ []) _ all_work (
              followed-finished _ _
                (make_array-finished _ el _ flat (init_array-finished el _ _ flat))
                (init_fields-finished whole rest table prefix base keys a g)))
      init_fields-finished whole (field n (simple t size) rest) table prefix base keys (e, a) h =
          with_index-finished _ _ (walk_fields-IsThere n whole 0 0 0 e) (
            acts-finished works (write _ _ _ _ ∷ []) _ all_work
              (init_fields-finished whole rest table prefix base keys a h))

      init_array-finished :
          (element : Meta) (table : Text) (slot : ℕ)
          → is_flat_element element ≡ true
          → (init_array works flag length_at keccak element table
              (record { slot = slot; offset = 0 })).1
            ≡ true
      init_array-finished (map k v) table slot h = cc h
      init_array-finished (static_array l e) table slot h = cc h
      init_array-finished (dynamic_array l e) table slot h = cc h
      init_array-finished (struct s members) table slot h =
          with_length-finished _ _ (lengths _) λ count.
            for_range-finished count 0 _
              (λ i. init_fields-finished members members table [] _ _ (own_fields-HasAll members) h)
      init_array-finished (simple t size) table slot h =
          with_length-finished _ _ (lengths _) λ count.
            for_range-finished count 0 _
              (λ i. acts-finished works (write _ _ _ _ ∷ []) finished all_work refl)
