-- ===== src/Parser/Grows.antt =====
-- A relation between the memory before and after an action, on the names of storages that
-- `record_storage` has recorded (slither/tools/contract_abstract/contract/slitherir_parser.py) and on
-- the variables with a context, with a rule for each way to build an action.
use contract_abstract.Prelude.{
  ℕ, Text, text_eq, text_eq_iff, Bool, true, false, Option, none, some, List, [], ◌∷◌, ◌≡◌, refl,
  ap, subst, ◌⊎◌, inl, inr, if◌then◌else◌,
}
use mathlib.Core.Option.{some-injective}
use native.Mathlib.Omega.{arith}
use contract_abstract.Parser.Memory.{
  Memory, Effect, pure, raise, then_do, ◌>>=◌, is_in, add_name, or_raise,
}
use contract_abstract.Parser.Names.{add_names}

abbrev pub Included : List Text → List Text → Type 0
Included as₁ bs = (n : Text) → is_in n as₁ ≡ true → is_in n bs ≡ true

abbrev pub is_some : Option ℕ → Bool
is_some none = false
is_some (some p) = true

-- every variable with a context keeps one
abbrev pub Held : Memory → Memory → Type 0
Held m m' = (v : ℕ) → is_some (m.contexts v) ≡ true → is_some (m'.contexts v) ≡ true

pub record Grows (m m' : Memory) : Type 0 where
  pub reads : Included m.read_storages m'.read_storages
  pub writes : Included m.write_storages m'.write_storages
  pub held : Held m m'
  pub recorded :
      (n : Text)
      → is_in n m'.write_storages ≡ true
      → (is_in n m.write_storages ≡ true) ⊎ (is_in n m'.read_storages ≡ true)

pub Grows-refl : (m : Memory) → Grows m m
Grows-refl m = record {
  reads = λ n h. h;
  writes = λ n h. h;
  held = λ v h. h;
  recorded = λ n h. inl h;
}

Grows-recorded :
    (m m₁ m₂ : Memory)
    → Grows m m₁
    → Grows m₁ m₂
    → (n : Text) → (is_in n m₁.write_storages ≡ true) ⊎ (is_in n m₂.read_storages ≡ true)
    → (is_in n m.write_storages ≡ true) ⊎ (is_in n m₂.read_storages ≡ true)
Grows-recorded m m₁ m₂ g h n (inr r) = inr r
Grows-recorded m m₁ m₂ g h n (inl w) = elim (g.recorded n w) [
  | inl old ↦ inl old
  | inr r ↦ inr (h.reads n r)
]

pub Grows-trans : (m m₁ m₂ : Memory) → Grows m m₁ → Grows m₁ m₂ → Grows m m₂
Grows-trans m m₁ m₂ g h = record {
  reads = λ n r. h.reads n (g.reads n r);
  writes = λ n w. h.writes n (g.writes n w);
  held = λ v k. h.held v (g.held v k);
  recorded = λ n w. Grows-recorded m m₁ m₂ g h n (h.recorded n w);
}

-- an action that grows the memory, whenever it gives one
unfoldable pub Keeps : {A : Type 0} → Effect A → Type 0
Keeps {A} act = (m m' : Memory) (a : A) → act m ≡ some (a, m') → Grows m m'

abbrev pub given : {A : Type 0} → A → Memory → Option (A × Memory)
given a m = some (a, m)

-- an action that gives this memory
pub gives :
    {A : Type 0} (a b : A) (m m₁ m' : Memory) → Grows m m₁ → given a m₁ ≡ some (b, m') → Grows m m'
gives a b m m₁ m' g e = subst (λ p. Grows m p.1) (some-injective _ _ e) g

pub Keeps-pure : {A : Type 0} (a : A) → Keeps (pure a)
unfolding Keeps
Keeps-pure a m m' b e = gives a b m m m' (Grows-refl m) e

pub Keeps-raise : (A : Type 0) → Keeps (raise {A = A})
unfolding Keeps
Keeps-raise A m m' b e = cc e

bound :
    {A B : Type 0} (f : A → Effect B)
    → ((a : A) → Keeps (f a))
    → (m : Memory) → (o : Option (A × Memory))
    → ((m₁ : Memory) (a : A) → o ≡ some (a, m₁) → Grows m m₁)
    → (m' : Memory) (b : B) → then_do o f ≡ some (b, m')
    → Grows m m'
unfolding Keeps
bound f k m none g m' b e = cc e
bound f k m (some (a, m₁)) g m' b e = Grows-trans m m₁ m' (g m₁ a refl) (k a m₁ m' b e)

pub Keeps-bind :
    {A B : Type 0} (act : Effect A) (f : A → Effect B)
    → Keeps act
    → ((a : A) → Keeps (f a))
    → Keeps (act >>= f)
unfolding Keeps
Keeps-bind act f h k m m' b e = bound f k m (act m) (λ m₁ a. h m m₁ a) m' b e

pub Keeps-or_raise : {A : Type 0} (o : Option A) → Keeps (or_raise o)
Keeps-or_raise none = Keeps-raise _
Keeps-or_raise (some a) = Keeps-pure a

-- one or another, with the memory or without it
pub Keeps-if :
    {A : Type 0} (b : Bool) (f g : Effect A)
    → Keeps f
    → Keeps g
    → Keeps (λ m. if b then f m else g m)
Keeps-if true f g hf hg = hf
Keeps-if false f g hf hg = hg

pub Keeps-choice :
    {A : Type 0} (b : Bool) (f g : Effect A) → Keeps f → Keeps g → Keeps (if b then f else g)
Keeps-choice true f g hf hg = hf
Keeps-choice false f g hf hg = hg

pub ruleset keeping = (Keeps-pure, Keeps-raise, Keeps-bind, Keeps-or_raise, Keeps-if, Keeps-choice)

pub is_in-add_name :
    (n a : Text) (ns : List Text) → is_in n ns ≡ true → is_in n (add_name a ns) ≡ true
unfolding is_in add_name
is_in-add_name n a ns h = ground arith

add_name_own : (n a : Text) (ns : List Text) → text_eq a n ≡ true → is_in n (add_name a ns) ≡ true
unfolding is_in add_name
add_name_own n a ns h = ground (arith, ap (λ x. is_in x ns) ((text_eq_iff a n).0 h))

-- a name of the set is there before, or the one that is added
add_name_inv :
    (n a : Text) (ns : List Text)
    → is_in n (add_name a ns) ≡ true
    → (is_in n ns ≡ true) ⊎ (text_eq a n ≡ true)
unfolding is_in add_name
add_name_inv n a ns h = ground arith

pub is_in-add_names :
    (n : Text) (added ns : List Text) → is_in n ns ≡ true → is_in n (add_names added ns) ≡ true
unfolding add_names
is_in-add_names n [] ns h = h
is_in-add_names n (a ∷ added) ns h =
    is_in-add_names n added (add_name a ns) (is_in-add_name n a ns h)

pub add_names-all :
    (n : Text) (added ns : List Text) → is_in n added ≡ true → is_in n (add_names added ns) ≡ true
unfolding add_names is_in
add_names-all n [] ns h = cc h
add_names-all n (a ∷ added) ns h = ground (
  arith,
  is_in-add_names n added (add_name a ns),
  add_name_own n a ns,
  add_names-all n added (add_name a ns),
)

pub add_names_inv :
    (n : Text) (added ns : List Text)
    → is_in n (add_names added ns) ≡ true
    → (is_in n ns ≡ true) ⊎ (is_in n added ≡ true)
unfolding add_names is_in
add_names_inv n [] ns h = inl h
add_names_inv n (a ∷ added) ns h =
    ground (arith, add_names_inv n added (add_name a ns) h, add_name_inv n a ns)
