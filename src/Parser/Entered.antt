-- ===== src/Parser/Entered.antt =====
-- The contexts of arguments and of parameters, over `deal_with_context_enter` of ContractWalker
-- (slither/tools/contract_abstract/contract/contract_walker.py).
use mathlib.Core.List.{Memᴰ}
use mathlib.Core.List.Memᴰ
use contract_abstract.Prelude.{
  ℕ, suc, ◌<◌, ◌≤◌, ◌⊎◌, inl, inr, Text, codes, Option, some, List, [], ◌∷◌, ◌++◌, ◌≡◌, refl, ap,
  ◌∙◌, arith,
}
use contract_abstract.Parser.Memory.{
  str_value, Context, Cell, context_cell, Memory, ◌>>=◌, put_at, as_context, or_raise, load_context,
}
use contract_abstract.Parser.Variables.{IrVariable}
use contract_abstract.Parser.Operations.{parse_unary}
use contract_abstract.Parser.Walk.{deal_with_context_enter}
use contract_abstract.Parser.Grows.{given}
use contract_abstract.Parser.Objects.{
  put_at-same, put_at-cases, outcome, outcome_then, Plain, Holds, reading, writing, changed,
}
use contract_abstract.Parser.Sharing.{parse_unary-outcome}
use contract_abstract.Parser.Flat.{Flat, own_names, flat_names, copied, enter-step}

old_cell : (f : ℕ → Option Cell) (p n : ℕ) (a : Option Cell) → p < n → put_at f n a p ≡ f p
old_cell f p n a h = ground arith

-- an object with no list and a str as its value
abbrev pub IsSimple : Memory → ℕ → Type 0
IsSimple m p =
    (c : Context) × (s : Text) × ((as_context (m.cell p) ≡ some c)
      × (Flat c × (c.value ≡ str_value s)))

-- Every parameter has an argument, an object of before that is simple.
abbrev pub AreArguments : Memory → List ℕ → List ℕ → Type 0
AreArguments m [] ps = Unit
AreArguments m (v ∷ vs) [] = ⊥
AreArguments m (v ∷ vs) (p ∷ ps) = ((p < m.next) × IsSimple m p) × AreArguments m vs ps

AreArguments-copied :
    (m : Memory) (v : ℕ) (c : Context) (vs ps : List ℕ)
    → AreArguments m vs ps
    → AreArguments (copied m v c) vs ps
AreArguments-copied m v c [] ps h = tt
AreArguments-copied m v c (w ∷ vs) [] h = elim h [ ]
AreArguments-copied m v c (w ∷ vs) (p ∷ ps) ((low, (d, s, (here, rest))), h) = (
  (
    omega arith,
    (d, s, (ap as_context (old_cell m.cell p m.next (some (context_cell c)) low) ∙ here, rest)),
  ),
  AreArguments-copied m v c vs ps h,
)

-- the variable points to a simple object that is new since `first`
abbrev IsFresh : ℕ → Memory → ℕ → Type 0
IsFresh first m w = (q : ℕ) × ((first ≤ q) × ((m.contexts w ≡ some q) × IsSimple m q))

-- What entering comes to: the objects of before are as they were, every parameter has a new one, and
-- another variable has what it had, or a new one.
record Enters (m : Memory) (vs : List ℕ) (m₁ : Memory) : Type 0 where
  cells : (q : ℕ) → q < m.next → m₁.cell q ≡ m.cell q
  others : (w : ℕ) → (m₁.contexts w ≡ m.contexts w) ⊎ IsFresh m.next m₁ w
  own : (w : ℕ) → Memᴰ w vs → IsFresh m.next m₁ w

IsFresh-earlier : (a b : ℕ) (m : Memory) (w : ℕ) → a ≤ b → IsFresh b m w → IsFresh a m w
IsFresh-earlier a b m w le (q, (low, rest)) = (q, (omega arith, rest))

copied-IsFresh :
    (m m₁ : Memory) (v : ℕ) (c : Context) (s : Text)
    → Flat c
    → m₁.cell m.next ≡ some (context_cell (record c { value = str_value s }))
    → m₁.contexts v ≡ some m.next
    → IsFresh m.next m₁ v
copied-IsFresh m m₁ v c s f cell pointer = (
  m.next,
  (
    omega arith,
    (
      pointer,
      (
        record c { value = str_value s },
        s,
        (
          ap as_context cell,
          (
            record {
              flat_input = f.flat_input;
              flat_storage = f.flat_storage;
              flat_input_taints = f.flat_input_taints;
              flat_storage_taints = f.flat_storage_taints;
            },
            refl,
          ),
        ),
      ),
    ),
  ),
)

Enters-copied :
    (m m₁ : Memory) (v : ℕ) (vs : List ℕ) (c : Context) (s : Text)
    → Flat c
    → Enters (copied m v (record c { value = str_value s })) vs m₁
    → Enters m (v ∷ vs) m₁
Enters-copied m m₁ v vs c s f e = record {
  cells = λ q low. e.cells q (omega arith) ∙ old_cell m.cell q m.next (some (context_cell c₁)) low;
  others = λ w. elim (e.others w) [
    | inl same ↦ elim (put_at-cases m.contexts v w (some m.next)) [
      | inl (eq, new) ↦ inr (copied-IsFresh m m₁ w c s f here (same ∙ new))
      | inr old ↦ inl (same ∙ old)
    ]
    | inr fresh ↦ inr (IsFresh-earlier m.next (suc m.next) m₁ w (omega arith) fresh)
  ];
  own = own;
}
  where
    c₁ : Context
    c₁ = record c { value = str_value s }

    here : m₁.cell m.next ≡ some (context_cell c₁)
    here = e.cells m.next (omega arith) ∙ put_at-same m.cell m.next (some (context_cell c₁))

    own : (w : ℕ) → Memᴰ w (v ∷ vs) → IsFresh m.next m₁ w
    own w (Memᴰ.head eq) = elim (e.others w) [
      | inl same ↦ copied-IsFresh m m₁ w c s f here (
          same ∙ ap (put_at m.contexts v (some m.next)) eq ∙ put_at-same m.contexts v (some m.next))
      | inr fresh ↦ IsFresh-earlier m.next (suc m.next) m₁ w (omega arith) fresh
    ]
    own w (Memᴰ.tail there) = IsFresh-earlier m.next (suc m.next) m₁ w (omega arith) (e.own w there)

deal_with_context_enter-Enters :
    (m : Memory) (vs ps : List ℕ)
    → AreArguments m vs ps
    → (m₁ : Memory) × ((deal_with_context_enter vs ps m ≡ given tt m₁) × Enters m vs m₁)
unfolding deal_with_context_enter
deal_with_context_enter-Enters m [] ps h = (
  m,
  (
    refl,
    record {
      cells = λ q low. refl;
      others = λ w. inl refl;
      own = λ w there. absurd (Memᴰ.not-nil there);
    },
  ),
)
deal_with_context_enter-Enters m (v ∷ vs) [] h = elim h [ ]
deal_with_context_enter-Enters m (v ∷ vs) (p ∷ ps) ((low, (c, s, (here, (f, e)))), h) =
    let c₁ = record c { value = str_value s } in
    let (m₁, (run, enters)) =
      deal_with_context_enter-Enters (copied m v c₁) vs ps (AreArguments-copied m v c₁ vs ps h) in
    (m₁, (enter-step m v p vs ps c s here f e ∙ run, Enters-copied m m₁ v vs c s f enters))

module _ (var : ℕ → IrVariable) where
  -- Where every parameter has an argument, an object that holds no list and a str as its value,
  -- entering the function, and then Unary on any parameter for a plain lvalue, leave every object of
  -- before, those of the arguments among them, as it was.
  pub deal_with_context_enter-apart :
      (m : Memory) (lvalue v p : ℕ) (vs ps : List ℕ) (c : Context) (op : Text)
      → AreArguments m vs ps
      → Memᴰ v vs
      → p < m.next
      → as_context (m.cell p) ≡ some c
      → Plain var lvalue
      → outcome (
          (deal_with_context_enter vs ps >>= λ t.
          parse_unary var lvalue v op >>= λ u. load_context p)
            m)
        ≡ some c
  unfolding outcome load_context
  deal_with_context_enter-apart m lvalue v p vs ps c op args there low here pl =
      let (m₁, (run, enters)) = deal_with_context_enter-Enters m vs ps args in
      let (q, (fresh, (pointer, (d, s, (cell, (f, e)))))) = enters.own v there in
      let ns = own_names d.storage in
      let d₁ = record d { value = str_value (op ++ codes "(" ++ s ++ codes ")") } in
      let m₂ = writing (changed (reading m₁ ns) q d₁) lvalue q in
      let h : Holds m₁ v q d ns = record {
        pointer = pointer;
        context = cell;
        names = flat_names m₁ d.storage f.flat_storage;
      } in
      outcome_then (deal_with_context_enter vs ps) _ tt m m₁ run
      ∙ outcome_then (parse_unary var lvalue v op) _ tt m₁ m₂
          (parse_unary-outcome var m₁ lvalue v q d ns op s pl h e)
      ∙ ap (λ o. outcome (or_raise (as_context o) m₂))
          (old_cell m₁.cell p q (some (context_cell d₁)) (omega arith) ∙ enters.cells p low)
      ∙ ap (λ o. outcome (or_raise o m₂)) here
