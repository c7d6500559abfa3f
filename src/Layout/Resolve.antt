-- ===== src/Layout/Resolve.antt =====
-- The two resolvers of storage expressions name the same type.
use contract_abstract.Prelude.{
  ℕ, suc, ◌+◌, ◌*◌, ◌≡◌, refl, sym, ap, subst, ◌∙◌, Text, text_eq, Option, none, some, [], ◌∷◌, ◌⊎◌,
  inl, inr, ltb, if◌then◌else◌, arith, Bool-cases,
}
use contract_abstract.Prelude.Int.{ℤ}
use mathlib.Core.Option.{some-injective}
use contract_abstract.Expr.Syntax.{Expr, Name, name_of, node, str, sub, absent, present}
use contract_abstract.Layout.Types.{Place, chain}
use contract_abstract.Expr.Parse.{parse_expr}
use contract_abstract.Layout.Meta.{
  Meta, Fields, simple, struct, static_array, dynamic_array, map, no_fields, field,
}
use contract_abstract.Layout.Struct.{Found, at_new_slot, walk_fields}
use contract_abstract.Layout.Slot.{
  StorageMeta, lookup, parsed, get_field_from_name, get_storage_slot_info, field_type, find_field,
  get_storage_slot_info_from_expr, named_field, get_field_from_expr, field_from, key_of, data_type,
  is_key_type, base_slot_of,
}

-- No array anywhere: `get_field_from_expr` refuses them.
abbrev mutual
  pub NoArrays : Meta → Type 0
  NoArrays (simple t size) = Unit
  NoArrays (struct s members) = NoneArrays members
  NoArrays (static_array n e) = ⊥
  NoArrays (dynamic_array n e) = ⊥
  NoArrays (map k v) = NoArrays v

  pub NoneArrays : Fields → Type 0
  NoneArrays no_fields = Unit
  NoneArrays (field n m rest) = NoArrays m × NoneArrays rest

abbrev Named : Text → ℕ → Fields → ℕ → Type 0
Named name index members k =
    (j : ℕ) × (k ≡ index + j) × (field_type members j ≡ named_field members (str name))

Named-cons :
    (name n : Text) (m : Meta) (rest : Fields) (index k : ℕ) (here later : Found)
    → here.index ≡ some index
    → (later.index ≡ some k → Named name (index + 1) rest k)
    → (if text_eq n name then here else later).index ≡ some k
    → Named name index (field n m rest) k
unfolding named_field field_type
Named-cons name n m rest index k here later h l e = elim (Bool-cases (text_eq n name)) [
  | inl t ↦
      let e₁ : here.index ≡ some k = rw t at e in
      let same = some-injective index k (sym h ∙ e₁) in (0, omega (arith, same), rw t refl)
  | inr f ↦
      let e₁ : later.index ≡ some k = rw f at e in
      let (j, d, r) = l e₁ in (suc j, omega (arith, d), rw f r)
]

-- The walk finds the first field of the name, `index` fields behind where it begins.
walk_fields-Named :
    (name : Text) (slot offset index : ℕ) (members : Fields) (k : ℕ)
    → (walk_fields name slot offset index members).index ≡ some k
    → Named name index members k
unfolding walk_fields
walk_fields-Named name slot offset index no_fields k e = cc e
walk_fields-Named name slot offset index (field n (simple t bytes) rest) k e =
    let size = bytes * 8 in
    elim (Bool-cases (ltb 256 (size + offset))) [
      | inl wide ↦
          Named-cons name n (simple t bytes) rest index k
            (record { slot = slot + 1; offset = 0; index = some index })
            (walk_fields name (slot + 1) size (index + 1) rest) refl
            (walk_fields-Named name (slot + 1) size (index + 1) rest k) (rw wide at e)
      | inr fits ↦
          Named-cons name n (simple t bytes) rest index k
            (record { slot = slot; offset = offset; index = some index })
            (walk_fields name slot (offset + size) (index + 1) rest) refl
            (walk_fields-Named name slot (offset + size) (index + 1) rest k) (rw fits at e)
    ]
walk_fields-Named name slot offset index (field n (struct s inner) rest) k e =
    let next = slot + (walk_fields [] 0 0 0 inner).slot in
    Named-cons name n (struct s inner) rest index k (at_new_slot slot offset (some index))
      (walk_fields name next 0 (index + 1) rest) refl
      (walk_fields-Named name next 0 (index + 1) rest k) e
walk_fields-Named name slot offset index (field n (static_array l el) rest) k e =
    Named-cons name n (static_array l el) rest index k (at_new_slot slot offset (some index))
      (walk_fields name (slot + 1) 0 (index + 1) rest) refl
      (walk_fields-Named name (slot + 1) 0 (index + 1) rest k) e
walk_fields-Named name slot offset index (field n (dynamic_array l el) rest) k e =
    Named-cons name n (dynamic_array l el) rest index k (at_new_slot slot offset (some index))
      (walk_fields name (slot + 1) 0 (index + 1) rest) refl
      (walk_fields-Named name (slot + 1) 0 (index + 1) rest k) e
walk_fields-Named name slot offset index (field n (map a b) rest) k e =
    Named-cons name n (map a b) rest index k (at_new_slot slot offset (some index))
      (walk_fields name (slot + 1) 0 (index + 1) rest) refl
      (walk_fields-Named name (slot + 1) 0 (index + 1) rest k) e

named_field-find_field :
    (members : Fields) (name : Name) (r : Found × Meta)
    → find_field members name ≡ some r
    → named_field members name ≡ some r.1
unfolding find_field
named_field-find_field members (sub e) r h = cc h
named_field-find_field members (str name) r h =
    chain (walk_fields name 0 0 0 members).index
      (λ i at. chain (field_type members i) (λ m typed e.
        let (j, d, first) = walk_fields-Named name 0 0 0 members i at in
        let same : i ≡ j = omega (arith, d) in
        sym first
        ∙ (ap (field_type members) (sym same)
            ∙ (typed ∙ ap (λ t. some t.1) (some-injective _ r e)))))
      h

named_field-NoArrays :
    (members : Fields) (name : Name) (m : Meta)
    → NoneArrays members
    → named_field members name ≡ some m
    → NoArrays m
unfolding named_field
named_field-NoArrays no_fields name m h e = cc e
named_field-NoArrays (field n first rest) (sub x) m h e = cc e
named_field-NoArrays (field n first rest) (str name) m (h, hs) e =
    elim (Bool-cases (text_eq n name)) [
      | inl t ↦
          let e₁ : some first ≡ some m = rw t at e in subst NoArrays (some-injective first m e₁) h
      | inr f ↦
          let e₁ : named_field rest (str name) ≡ some m = rw f at e in
          named_field-NoArrays rest (str name) m hs e₁
    ]

module _ {ℓ} {Key : Type ℓ} (int : Name → Option ℤ) (coerce_type : Text → Name ⊎ ℤ → Option Key)
    (keccak : ℕ → ℕ) (keccak_encode : Text → Key → ℕ → Option ℕ) where
  resolvers_agree :
      (e : Expr) (p : Place) (m : Meta) (r : Place × Meta)
      → NoArrays m
      → get_storage_slot_info_from_expr int coerce_type keccak keccak_encode e p m ≡ some r
      → get_field_from_expr (present e) m ≡ some (some r.1)
  unfolding get_storage_slot_info_from_expr get_field_from_expr
  resolvers_agree (node n index f) p (simple t size) r h e =
      ap (λ s. some (some s.1)) (some-injective _ r e)
  resolvers_agree (node n index absent) p (struct s members) r h e = cc e
  resolvers_agree (node n index (present (node name i f))) p (struct s members) r h e =
      chain (find_field members name)
        (λ found at more.
          let named = named_field-find_field members name found at in
          let family : Option Meta → Type 0 = λ o.
            Path (Option (Option Meta))
              (elim o [ none ↦ some none | some m ↦ field_from (node name i f) m ])
              (some (some r.1)) in
          subst family (sym named) (
            resolvers_agree (node name i f)
              (record { slot = base_slot_of p + found.0.slot; offset = found.0.offset }) found.1 r
              (named_field-NoArrays members name found.1 h named) more))
        e
  resolvers_agree (node n absent f) p (map k v) r h e = cc e
  resolvers_agree (node n (present (node name i g)) f) p (map k v) r h e =
      chain
        (if is_key_type k
          then key_of int coerce_type keccak keccak_encode (data_type k) name
          else none)
        (λ key coerced more.
          chain (keccak_encode (data_type k) key (base_slot_of p))
            (λ slot hashed last.
              resolvers_agree (node name i g) (record { slot = slot; offset = 0 }) v r h last)
            more)
        e
  resolvers_agree (node n index f) p (static_array l el) r h e = elim h [ ]
  resolvers_agree (node n index f) p (dynamic_array l el) r h e = elim h [ ]

  abbrev pub NoneHasArrays : StorageMeta → Type 0
  NoneHasArrays [] = Unit
  NoneHasArrays (entry ∷ rest) = NoArrays entry.1.1 × NoneHasArrays rest

  lookup-NoArrays :
      (meta : StorageMeta) (name : Name) (entry : Place × Meta)
      → NoneHasArrays meta
      → lookup meta name ≡ some entry
      → NoArrays entry.1
  unfolding lookup
  lookup-NoArrays [] name entry h e = cc e
  lookup-NoArrays (first ∷ rest) (sub x) entry h e = cc e
  lookup-NoArrays (first ∷ rest) (str name) entry (h, hs) e =
      elim (Bool-cases (text_eq first.0 name)) [
        | inl t ↦
            let e₁ : some first.1 ≡ some entry = rw t at e in
            subst (λ x. NoArrays x.1) (some-injective first.1 entry e₁) h
        | inr f ↦
            let e₁ : lookup rest (str name) ≡ some entry = rw f at e in
            lookup-NoArrays rest (str name) entry hs e₁
      ]

  -- Where no variable has an array in its type: if the text of an expression has a slot, by
  -- `get_storage_slot_info`, then `get_field_from_name` gives it a type, the one that comes with the slot.
  pub get_field_from_name-get_storage_slot_info :
      (text : Text) (meta : StorageMeta) (r : Place × Meta)
      → NoneHasArrays meta
      → get_storage_slot_info int coerce_type keccak keccak_encode text meta ≡ some r
      → get_field_from_name text meta ≡ some (some r.1)
  unfolding get_storage_slot_info get_field_from_name
  get_field_from_name-get_storage_slot_info text meta r h =
      chain (parsed (parse_expr text)) (λ e read.
        chain (lookup meta (name_of e)) (λ entry there last.
          rw (read, there)
            (resolvers_agree e entry.0 entry.1 r (lookup-NoArrays meta (name_of e) entry h there)
              last)))
