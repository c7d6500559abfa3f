-- ===== src/Parser/Recorded.antt =====
-- The rules of Parser/Grows for `_deal_with_read`, `_deal_with_write` and `record_write_storage` of
-- SlitherIRParser (slither/tools/contract_abstract/contract/slitherir_parser.py).
use contract_abstract.Prelude.{
  ℕ, Text, codes, Bool, true, false, ◌||◌, Option, none, some, List, ◌≡◌, refl, sym, ◌∙◌, inl, inr,
  if◌then◌else◌,
}
use contract_abstract.Sync.Etherscan.{contains}
use contract_abstract.Parser.Memory.{
  Value, Context, Memory, pure, ◌>>=◌, as_context, load_context, get_pointer,
}
use contract_abstract.Parser.Variables.{
  Class, solidity_composed, state_variable, local_variable, constant, contract, solidity,
  enum_contract, temporary, reference, tuple, other_class, ConstantType, contract_constant,
  elementary_constant, other_constant, ConstantInfo, IrVariable,
}
use contract_abstract.Parser.Names.{names_of, add_names}
use contract_abstract.Parser.Contexts.{
  with_reads, record_read, record_written, has_constant, add_constant, typed_constant,
  record_constant, plain_context, initial_context, read_pointer, deal_with_read, constant_written,
  deal_with_write, is_storage, write_pointer, record_write_storage,
}
use contract_abstract.Parser.Grows.{
  Grows, Grows-refl, Grows-trans, Keeps, keeping, given, gives, Keeps-pure, Keeps-if,
  is_in-add_names, add_names-all, add_names_inv,
}
use contract_abstract.Parser.Kept.{untouched, primitives, new_context-Keeps}

read_with : (m m' : Memory) (o : Option (List Text)) → with_reads m o ≡ some (tt, m') → Grows m m'
read_with m m' none e = cc e
read_with m m' (some ns) e =
    gives _ _ m _ m'
      (record {
        reads = λ n h. is_in-add_names n ns m.read_storages h;
        writes = λ n h. h;
        held = λ v h. h;
        recorded = λ n h. inl h;
      })
      e

pub record_read-Keeps : (v : Value) → Keeps (record_read v)
unfolding Keeps record_read
record_read-Keeps v m m' a e = read_with m m' (names_of m v) e

-- under a condition
by_case : (b : Bool) (m m₁ m₂ : Memory) → Grows m m₁ → Grows m m₂ → Grows m (if b then m₁ else m₂)
by_case true m m₁ m₂ g h = g
by_case false m m₁ m₂ g h = h

add_constant-Keeps :
    (info : ConstantInfo) (type_name : Text) (size : ℕ) (interface : Option Text)
    → Keeps (add_constant info type_name size interface)
unfolding Keeps add_constant
add_constant-Keeps info type_name size interface m m' a e =
    gives _ a m _ m'
      (by_case (has_constant info.contract_name info.constant_name m.constants) m m _ (Grows-refl m)
        (untouched m _ refl refl (λ v h. h)))
      e

typed_constant-Keeps : (info : ConstantInfo) (t : ConstantType) → Keeps (typed_constant info t)
unfolding Keeps
typed_constant-Keeps info (contract_constant name signatures) m m' a e =
    Grows-trans m _ m' (untouched m _ refl refl (λ v h. h))
      (add_constant-Keeps info (codes "address") 160 (some name) _ m' a e)
typed_constant-Keeps info (elementary_constant type_name size) m m' a e =
    add_constant-Keeps info type_name size none m m' a e
typed_constant-Keeps info other_constant m m' a e = cc e

record_constant-Keeps : (v : IrVariable) → Keeps (record_constant v)
unfolding record_constant
record_constant-Keeps v =
    Keeps-if (contains (codes "MASK") v.name || contains (codes "BIT_POSITION") v.name) (pure tt)
      (typed_constant v.constant_info v.constant_info.constant_type) (Keeps-pure tt)
      (typed_constant-Keeps v.constant_info v.constant_info.constant_type)

pub plain_context-Keeps : (v : Value) → Keeps (plain_context v)
unfolding plain_context
plain_context-Keeps v = new_context-Keeps _ _ _ _ _

ruleset context_rules =
    (keeping, primitives, record_constant-Keeps, plain_context-Keeps, record_read-Keeps)

initial_context-Keeps : (c : Class) (v : IrVariable) → Keeps (initial_context c v)
unfolding initial_context
initial_context-Keeps solidity_composed v = search context_rules
initial_context-Keeps state_variable v = search context_rules
initial_context-Keeps local_variable v = search context_rules
initial_context-Keeps constant v = search context_rules
initial_context-Keeps contract v = search context_rules
initial_context-Keeps solidity v = search context_rules
initial_context-Keeps enum_contract v = search context_rules
initial_context-Keeps temporary v = search context_rules
initial_context-Keeps reference v = search context_rules
initial_context-Keeps tuple v = search context_rules
initial_context-Keeps other_class v = search context_rules

recorded_both :
    (m : Memory) (ns : List Text)
    → Grows m (record m {
      read_storages = add_names ns m.read_storages;
      write_storages = add_names ns m.write_storages;
    })
recorded_both m ns = record {
  reads = λ n h. is_in-add_names n ns m.read_storages h;
  writes = λ n h. is_in-add_names n ns m.write_storages h;
  held = λ v h. h;
  recorded = λ n h. elim (add_names_inv n ns m.write_storages h) [
    | inl old ↦ inl old
    | inr new ↦ inr (add_names-all n ns m.read_storages new)
  ];
}

module _ (var : ℕ → IrVariable) where
  read_pointer-Keeps : (v : ℕ) (p : Option ℕ) → Keeps (read_pointer var v p)
  read_pointer-Keeps v none = initial_context-Keeps _ _
  read_pointer-Keeps v (some p) = search context_rules

  pub deal_with_read-Keeps : (v : ℕ) → Keeps (deal_with_read var v)
  unfolding deal_with_read
  deal_with_read-Keeps v = search (context_rules, read_pointer-Keeps v)

  constant_written-Keeps : (v : IrVariable) → Keeps (constant_written var v)
  constant_written-Keeps v = search context_rules

  pub deal_with_write-Keeps : (v : Option ℕ) (p : ℕ) → Keeps (deal_with_write var v p)
  unfolding deal_with_write
  deal_with_write-Keeps none p = search context_rules
  deal_with_write-Keeps (some v) p = search (context_rules, constant_written-Keeps)

  write_pointer-names :
      (m : Memory) (v p : ℕ) (c : Context) (ns : List Text)
      → m.contexts v ≡ some p
      → as_context (m.cell p) ≡ some c
      → names_of m c.storage ≡ some ns
      → write_pointer var v (some p) m
        ≡ given tt (record m {
          read_storages = add_names ns m.read_storages;
          write_storages = add_names ns m.write_storages;
        })
  unfolding deal_with_read get_pointer load_context record_read record_written names_of
  write_pointer-names m v p c ns ep ec en = simp (ep, ec, en)

  write_pointer-raises :
      (m : Memory) (v p : ℕ)
      → m.contexts v ≡ some p
      → as_context (m.cell p) ≡ none
      → write_pointer var v (some p) m ≡ none
  unfolding deal_with_read get_pointer load_context record_read record_written names_of
  write_pointer-raises m v p ep ec = simp (ep, ec)

  write_pointer-unnamed :
      (m : Memory) (v p : ℕ) (c : Context)
      → m.contexts v ≡ some p
      → as_context (m.cell p) ≡ some c
      → names_of m c.storage ≡ none
      → write_pointer var v (some p) m ≡ none
  unfolding deal_with_read get_pointer load_context record_read record_written names_of
  write_pointer-unnamed m v p c ep ec en = simp (ep, ec, en)

  -- the names that are written are recorded as read before
  write_pointer-Grows :
      (m m' : Memory) (v p : ℕ) (t : Unit {0})
      → m.contexts v ≡ some p
      → write_pointer var v (some p) m ≡ some (t, m')
      → Grows m m'
  write_pointer-Grows m m' v p t ep e = of_cell (as_context (m.cell p)) refl
    where
      of_names :
          (c : Context)
          → as_context (m.cell p) ≡ some c
          → (o : Option (List Text)) → names_of m c.storage ≡ o
          → Grows m m'
      of_names c ec none en = cc (e, write_pointer-unnamed m v p c ep ec en)
      of_names c ec (some ns) en =
          gives _ t m _ m' (recorded_both m ns) (sym (write_pointer-names m v p c ns ep ec en) ∙ e)

      of_cell : (o : Option Context) → as_context (m.cell p) ≡ o → Grows m m'
      of_cell none ec = cc (e, write_pointer-raises m v p ep ec)
      of_cell (some c) ec = of_names c ec (names_of m c.storage) refl

  pointer_written :
      (m m' : Memory) (v : ℕ) (t : Unit {0}) (o : Option ℕ)
      → m.contexts v ≡ o
      → write_pointer var v o m ≡ some (t, m')
      → Grows m m'
  pointer_written m m' v t none ep e = gives _ t m m m' (Grows-refl m) e
  pointer_written m m' v t (some p) ep e = write_pointer-Grows m m' v p t ep e

  storage_written-Keeps : (v : ℕ) → Keeps (get_pointer v >>= write_pointer var v)
  unfolding Keeps get_pointer
  storage_written-Keeps v m m' t e = pointer_written m m' v t (m.contexts v) refl e

  pub record_write_storage-Keeps : (v : Option ℕ) → Keeps (record_write_storage var v)
  unfolding record_write_storage
  record_write_storage-Keeps none = Keeps-pure _
  record_write_storage-Keeps (some v) =
      Keeps-if (is_storage var v) _ _ (storage_written-Keeps v) (Keeps-pure _)
