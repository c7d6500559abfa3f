-- ===== src/Parser/Raises.antt =====
-- Index and Unpack of `SlitherIRParser.parse` on contexts that other operations leave
-- (slither/tools/contract_abstract/contract/slitherir_parser.py).
use contract_abstract.Prelude.{
  ℕ, suc, Text, codes, Option, none, some, List, [], ◌≡◌, ◌⊎◌, inl, inr, refl, ap, ◌∙◌, ◌++◌,
}
use contract_abstract.Parser.Memory.{
  nothing, str_value, set_value, list_at, Context, context_cell, Memory, Effect, then_do, ◌>>=◌,
  put_at, or_raise, as_context, load_context, get_pointer, set_pointer, add_lvalue, new_context,
  alloc, item_at, join_taints,
}
use contract_abstract.Parser.Variables.{IrVariable}
use contract_abstract.Parser.Names.{names_of}
use contract_abstract.Parser.Contexts.{record_read, deal_with_read, deal_with_write}
use contract_abstract.Parser.Members.{
  read, write_context, index_from, index_parts, index_input_taints, index_storage_taints,
  parse_index,
}
use contract_abstract.Parser.Operations.{unpack_from, parse_unpack}
use contract_abstract.Parser.Calls.{parse_solidity_call}
use contract_abstract.Parser.Grows.{given}
use contract_abstract.Parser.Objects.{put_at-same, Plain, reading, writing, read-Holds}

-- an action that raises in any memory
unfoldable Raises : {A : Type 0} → Effect A → Type 0
Raises act = (m : Memory) → act m ≡ none

then_do-Raises :
    {A B : Type 0} (o : Option (A × Memory)) (f : A → Effect B)
    → ((a : A) → Raises (f a))
    → then_do o f ≡ none
unfolding Raises
then_do-Raises none f h = refl
then_do-Raises (some (a, m)) f h = h a m

bind-Raises :
    {A B : Type 0} (act : Effect A) (f : A → Effect B)
    → ((a : A) → Raises (f a))
    → Raises (act >>= f)
unfolding Raises
bind-Raises act f h m = then_do-Raises (act m) f h

or_raise-Raises :
    {A B : Type 0} (o : Option A) (f : A → Effect B) → o ≡ none → Raises (or_raise o >>= f)
unfolding Raises
or_raise-Raises none f e m = refl
or_raise-Raises (some a) f e m = cc e

-- taints that Index raises on
abbrev pub HasListTaints : Context → ℕ → Type 0
HasListTaints c q = (c.input_taints ≡ list_at q) ⊎ (c.storage_taints ≡ list_at q)

-- the context that a Solidity call leaves
abbrev call_context : Text → Context
call_context name = record {
  input = nothing;
  storage = nothing;
  input_taints = set_value [];
  storage_taints = set_value [];
  value = str_value (name ++ codes "()");
}

abbrev called : Memory → Text → Memory
called m name = record m {
  cell = put_at m.cell m.next (some (context_cell (call_context name)));
  next = suc m.next;
}

module _ (var : ℕ → IrVariable) where
  read-unnamed :
      (m : Memory) (v p : ℕ) (c : Context)
      → m.contexts v ≡ some p
      → as_context (m.cell p) ≡ some c
      → names_of m c.storage ≡ none
      → read var v m ≡ none
  unfolding read deal_with_read get_pointer load_context record_read
  read-unnamed m v p c ep ec en = simp (ep, ec, en)

  -- an object that is read gives itself, or the reading raises
  read_then-Raises :
      {B : Type 0} (m : Memory) (v p : ℕ) (c : Context) (f : Context → Effect B)
      → m.contexts v ≡ some p
      → as_context (m.cell p) ≡ some c
      → Raises (f c)
      → (read var v >>= f) m ≡ none
  unfolding Raises
  read_then-Raises m v p c f ep ec h = of_names (names_of m c.storage) refl
    where
      of_names : (o : Option (List Text)) → names_of m c.storage ≡ o → (read var v >>= f) m ≡ none
      of_names none en = ap (λ o. then_do o f) (read-unnamed m v p c ep ec en)
      of_names (some ns) en =
          ap (λ o. then_do o f)
            (read-Holds var m v p c ns (record { pointer = ep; context = ec; names = en }))
          ∙ h (reading m ns)

  rest-Raises :
      (lvalue right : ℕ) (l : Context) (q : ℕ)
      → HasListTaints l q
      → Raises (index_from var lvalue right l)
  rest-Raises lvalue right l q (inl e) = bind-Raises (read var right) _ λ r.
      bind-Raises (or_raise (index_parts l.input l.storage r.value)) _
        λ parts. or_raise-Raises (index_input_taints l.input_taints) _ (ap index_input_taints e)
  rest-Raises lvalue right l q (inr e) = bind-Raises (read var right) _ λ r.
      bind-Raises (or_raise (index_parts l.input l.storage r.value)) _ λ parts.
        bind-Raises (or_raise (index_input_taints l.input_taints)) _ λ input_taints.
          bind-Raises (join_taints input_taints r.input_taints) _ λ all_input_taints.
            or_raise-Raises (index_storage_taints l.storage_taints r.value) _
              (ap (λ x. index_storage_taints x r.value) e)

  -- Index raises whenever what is indexed has a list for its taints, from input or from storage: the
  -- code takes the item at a name that it never binds.
  pub parse_index-list_taints :
      (m : Memory) (lvalue left right p q : ℕ) (c : Context)
      → m.contexts left ≡ some p
      → as_context (m.cell p) ≡ some c
      → HasListTaints c q
      → parse_index var lvalue left right m ≡ none
  unfolding parse_index
  parse_index-list_taints m lvalue left right p q c ep ec h =
      read_then-Raises m left p c (index_from var lvalue right) ep ec
        (rest-Raises lvalue right c q h)

  solidity_call-outcome :
      (m : Memory) (t : ℕ) (name : Text)
      → Plain var t
      → parse_solidity_call var (some t) name m ≡ given tt (writing (called m name) t m.next)
  unfolding parse_solidity_call write_context new_context alloc deal_with_write set_pointer
      add_lvalue
  solidity_call-outcome m t name pl = simp (pl.no_state)

  -- Unpack raises on every item of what a Solidity call left in a plain lvalue.
  pub parse_unpack-solidity_call :
      (m : Memory) (lvalue t i : ℕ) (name : Text)
      → Plain var t
      → (parse_solidity_call var (some t) name >>= λ done. parse_unpack var lvalue t i) m ≡ none
  unfolding parse_unpack item_at Raises
  parse_unpack-solidity_call m lvalue t i name pl =
      let m₁ = writing (called m name) t m.next in
      ap (λ o. then_do o (λ done. parse_unpack var lvalue t i)) (solidity_call-outcome m t name pl)
      ∙ read_then-Raises m₁ t m.next (call_context name) (unpack_from var lvalue i)
          (put_at-same m.contexts t (some m.next))
          (ap as_context (put_at-same m.cell m.next (some (context_cell (call_context name)))))
          (λ k. refl)
