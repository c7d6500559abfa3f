-- ===== src/Parser/Objects.antt =====
-- Variables with a context, as addresses of objects, and what reading and writing one gives.
use contract_abstract.Prelude.{
  ℕ, suc, ◌+◌, Text, true, false, Option, none, some, List, ◌∷◌, ◌≡◌, ◌⊎◌, inl, inr, refl, sym, ap,
  subst, ◌∙◌, arith,
}
use contract_abstract.Parser.Memory.{
  Context, Cell, context_cell, list_cell, Memory, Effect, then_do, ◌>>=◌, put_at, as_context,
  as_list, load_context, get_pointer, set_pointer, add_lvalue,
}
use contract_abstract.Parser.Variables.{IrVariable}
use contract_abstract.Parser.Names.{names_of, add_names}
use contract_abstract.Parser.NamesAgree.{names_from-agree}
use contract_abstract.Parser.Contexts.{
  record_read, deal_with_read, is_state, is_reference, deal_with_write,
}
use contract_abstract.Parser.References.{deal_with_reference}
use contract_abstract.Parser.Members.{read}
use contract_abstract.Parser.Operations.{write_both}
use contract_abstract.Parser.Grows.{given}

pub put_at-same {ℓ} : {A : Type ℓ} (f : ℕ → A) (p : ℕ) (v : A) → put_at f p v p ≡ v
put_at-same f p v = ground arith

pub put_at-cases {ℓ} :
    {A : Type ℓ} (f : ℕ → A) (p q : ℕ) (v : A)
    → (p ≡ q) × (put_at f p v q ≡ v) ⊎ (put_at f p v q ≡ f q)
put_at-cases f p q v = ground arith

pub context_no_list : (o : Option Cell) (c : Context) → as_context o ≡ some c → as_list o ≡ none
context_no_list none c e = refl
context_no_list (some (context_cell d)) c e = refl
context_no_list (some (list_cell vs)) c e = cc e

-- what an action returns
unfoldable pub outcome : {A : Type 0} → Option (A × Memory) → Option A
outcome none = none
outcome (some (a, m)) = some a

pub outcome_then :
    {A B : Type 0} (act : Effect A) (f : A → Effect B) (a : A) (m m₁ : Memory)
    → act m ≡ given a m₁
    → outcome ((act >>= f) m) ≡ outcome (f a m₁)
outcome_then act f a m m₁ e = ap (λ o. outcome (then_do o f)) e

-- a variable with a context, and the names in its storage
pub record Holds (m : Memory) (v p : ℕ) (c : Context) (ns : List Text) : Type 0 where
  pub pointer : m.contexts v ≡ some p
  pub context : as_context (m.cell p) ≡ some c
  pub names : names_of m c.storage ≡ some ns

abbrev pub reading : Memory → List Text → Memory
reading m ns = record m { read_storages = add_names ns m.read_storages }

abbrev pub writing : Memory → ℕ → ℕ → Memory
writing m v p = record m {
  contexts = put_at m.contexts v (some p);
  has_key = put_at m.has_key v true;
  lvalues = v ∷ m.lvalues;
}

-- the object at an address with another value
abbrev pub changed : Memory → ℕ → Context → Memory
changed m p c = record m { cell = put_at m.cell p (some (context_cell c)) }

pub same_lists :
    (m : Memory) (p : ℕ) (c d : Context)
    → as_context (m.cell p) ≡ some c
    → (q : ℕ) → as_list ((changed m p d).cell q) ≡ as_list (m.cell q)
same_lists m p c d h q = elim (put_at-cases m.cell p q (some (context_cell d))) [
  | inl (eq, new) ↦
      ap as_list new
      ∙ sym (context_no_list (m.cell q) c (subst (λ x. as_context (m.cell x) ≡ some c) eq h))
  | inr old ↦ ap as_list old
]

-- a variable that shares the object has its new value, with the same names
pub changed-Holds :
    (m : Memory) (lvalue v w p : ℕ) (c d : Context) (ns ms : List Text)
    → Holds m v p c ns
    → m.contexts w ≡ some p
    → d.storage ≡ c.storage
    → Holds (writing (changed (reading m ms) p d) lvalue p) w p d ns
unfolding names_of
changed-Holds m lvalue v w p c d ns ms h ew es = record {
  pointer = elim (put_at-cases m.contexts lvalue w (some p)) [
    | inl (eq, new) ↦ new
    | inr old ↦ old ∙ ew
  ];
  context = ap as_context (put_at-same m.cell p (some (context_cell d)));
  names =
      names_from-agree _ m.cell (same_lists m p c d h.context) (suc (m.next + m.next)) d.storage
      ∙ ap (names_of m) es
      ∙ h.names;
}

module _ (var : ℕ → IrVariable) where
  -- a variable that is no state variable and no reference
  pub record Plain (v : ℕ) : Type 0 where
    pub no_state : is_state var (var v).class ≡ false
    pub no_reference : is_reference var (var v).class ≡ false

  pub deal_with_read-Holds :
      (m : Memory) (v p : ℕ) (c : Context) (ns : List Text)
      → Holds m v p c ns
      → deal_with_read var v m ≡ given p (reading m ns)
  unfolding deal_with_read get_pointer load_context record_read
  deal_with_read-Holds m v p c ns h = simp (h.pointer, h.context, h.names)

  pub read-Holds :
      (m : Memory) (v p : ℕ) (c : Context) (ns : List Text)
      → Holds m v p c ns
      → read var v m ≡ given c (reading m ns)
  unfolding read load_context
  read-Holds m v p c ns h = simp (deal_with_read-Holds m v p c ns h, h.context)

  pub write_both-Plain :
      (m : Memory) (v p : ℕ) → Plain v → write_both var v p m ≡ given tt (writing m v p)
  unfolding deal_with_write deal_with_reference set_pointer add_lvalue
  write_both-Plain m v p h = simp (h.no_state, h.no_reference)

-- the pointer of a variable that has this object, or that gets it
pub pointed :
    (m : Memory) (lvalue v p : ℕ)
    → m.contexts v ≡ some p
    → put_at m.contexts lvalue (some p) v ≡ some p
pointed m lvalue v p h = elim (put_at-cases m.contexts lvalue v (some p)) [
  | inl (eq, new) ↦ new
  | inr old ↦ old ∙ h
]

-- reading other names leaves it as it is
pub reading-Holds :
    (m : Memory) (ms : List Text) (v p : ℕ) (c : Context) (ns : List Text)
    → Holds m v p c ns
    → Holds (reading m ms) v p c ns
unfolding names_of
reading-Holds m ms v p c ns h = record { pointer = h.pointer; context = h.context; names = h.names }

pub record_read-Holds :
    (m : Memory) (v p : ℕ) (c : Context) (ns : List Text)
    → Holds m v p c ns
    → record_read c.storage m ≡ given tt (reading m ns)
unfolding record_read
record_read-Holds m v p c ns h = simp (h.names)
