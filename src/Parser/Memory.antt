-- ===== src/Parser/Memory.antt =====
-- What the objects of contract/context.py hold, as a memory. Variables share `AbstractContext` objects
-- and contexts share lists, so both stand at addresses. A set is never changed in place once it is in
-- a context, and is a value. An action that is `none` has raised an exception.
use contract_abstract.Prelude.{
  ℕ, suc, Text, codes, text_eq, Bool, true, false, ◌||◌, Option, none, some, List, [], ◌∷◌, ◌++◌,
  get_elem?, ◌==◌, if◌then◌else◌,
}

-- None, a str, a set of str, or a list, by its address
pub data Value : Type 0 where
  nothing : Value
  str_value : Text → Value
  set_value : List Text → Value
  list_at : ℕ → Value

-- `AbstractContext`
pub record Context : Type 0 where
  pub input : Value
  pub storage : Value
  pub input_taints : Value
  pub storage_taints : Value
  pub value : Value

pub data Cell : Type 0 where
  context_cell : Context → Cell
  list_cell : List Value → Cell

-- an entry of `walker.constants`, with the contract it stands under
pub record ConstantEntry : Type 0 where
  pub contract : Text
  pub name : Text
  pub initial : Option Text
  pub type_name : Text
  pub size : ℕ
  pub interface : Option Text

-- a key of `all_hight_level_call_functions`: a constant or immutable variable, or a storage name
pub data CallTarget : Type 0 where
  fixed_target : ℕ → CallTarget
  storage_target : Text → CallTarget

-- `variable.context["abstract"]`, where neither absent nor None, and whether there is an entry;
-- `variable.context["points_to"]`; the objects; the sets of the walker for the current function;
-- what it collects of the contract; and the variables that the parser wrote, the last one first
pub record Memory : Type 0 where
  pub contexts : ℕ → Option ℕ
  pub has_key : ℕ → Bool
  pub field_index : ℕ → Option ℕ
  pub cell : ℕ → Option Cell
  pub next : ℕ
  pub read_storages : List Text
  pub write_storages : List Text
  pub constants : List ConstantEntry
  pub interfaces : List (Text × List Text)
  pub calls : List (CallTarget × List Text)
  pub lvalues : List ℕ

abbrev pub Effect : Type 0 → Type 0
Effect A = Memory → Option (A × Memory)

abbrev pub pure : {A : Type 0} → A → Effect A
pure a m = some (a, m)

abbrev pub raise : {A : Type 0} → Effect A
raise m = none

abbrev pub then_do : {A B : Type 0} → Option (A × Memory) → (A → Effect B) → Option (B × Memory)
then_do none f = none
then_do (some (a, m)) f = f a m

infixl 5 ◌>>=◌ ◌>>◌
abbrev pub ◌>>=◌ : {A B : Type 0} → Effect A → (A → Effect B) → Effect B
◌>>=◌ act f m = then_do (act m) f

abbrev pub ◌>>◌ : {B : Type 0} → Effect (Unit {0}) → Effect B → Effect B
act >> next = act >>= λ _. next

-- `collect.add(name)`
unfoldable pub is_in : Text → List Text → Bool
is_in name [] = false
is_in name (n ∷ ns) = text_eq n name || is_in name ns

unfoldable pub add_name : Text → List Text → List Text
unfolding is_in
add_name name names = if is_in name names then names else name ∷ names

-- `a | b` of two sets
unfoldable pub union : List Text → List Text → List Text
unfolding add_name
union [] bs = bs
union (a ∷ as₁) bs = add_name a (union as₁ bs)

abbrev pub put_at {ℓ} : {A : Type ℓ} → (ℕ → A) → ℕ → A → ℕ → A
put_at f p v q = if p == q then v else f q

-- a new object
unfoldable pub alloc : Cell → Effect ℕ
alloc c m = some (m.next, record m { cell = put_at m.cell m.next (some c); next = suc m.next })

abbrev pub as_context : Option Cell → Option Context
as_context (some (context_cell c)) = some c
as_context (some (list_cell vs)) = none
as_context none = none

abbrev pub as_list : Option Cell → Option (List Value)
as_list (some (list_cell vs)) = some vs
as_list (some (context_cell c)) = none
as_list none = none

abbrev pub or_raise : {A : Type 0} → Option A → Effect A
or_raise none = raise
or_raise (some a) = pure a

unfoldable pub load_context : ℕ → Effect Context
load_context p m = or_raise (as_context (m.cell p)) m

unfoldable pub load_list : ℕ → Effect (List Value)
load_list p m = or_raise (as_list (m.cell p)) m

unfoldable pub store : ℕ → Cell → Effect (Unit {0})
store p c m = some (tt, record m { cell = put_at m.cell p (some c) })

-- `variable.context["abstract"] = ...`
unfoldable pub set_pointer : ℕ → Option ℕ → Effect (Unit {0})
set_pointer v p m =
    some (tt, record m { contexts = put_at m.contexts v p; has_key = put_at m.has_key v true })

unfoldable pub get_pointer : ℕ → Effect (Option ℕ)
get_pointer v m = some (m.contexts v, m)

-- `AbstractContext(...)`, where None as the value is "$unknown$"
abbrev pub known : Value → Value
known nothing = str_value (codes "$unknown$")
known (str_value t) = str_value t
known (set_value ts) = set_value ts
known (list_at p) = list_at p

unfoldable pub new_context : Value → Value → Value → Value → Value → Effect ℕ
unfolding alloc
new_context input storage input_taints storage_taints value = alloc (
    context_cell (record {
      input = input;
      storage = storage;
      input_taints = input_taints;
      storage_taints = storage_taints;
      value = known value;
    }))

unfoldable pub new_list : List Value → Effect Value
unfolding alloc
new_list vs = do p ← alloc (list_cell vs); pure (list_at p)

-- `a | b`; None and lists have no `|` here
abbrev pub joined_taints : Value → Value → Option Value
joined_taints (set_value as₁) (set_value bs) = some (set_value (union as₁ bs))
joined_taints a b = none

unfoldable pub join_taints : Value → Value → Effect Value
unfolding union
join_taints a b = or_raise (joined_taints a b)

-- `a + t`, for a str
abbrev pub extended : Value → Text → Option Value
extended (str_value s) t = some (str_value (s ++ t))
extended v t = none

-- `l[i]`; a str or a set that is indexed does not come up, as it is tested for
unfoldable pub item_at : Value → ℕ → Effect Value
unfolding load_list
item_at (list_at p) i = do vs ← load_list p; or_raise (get_elem? vs i)
item_at v i = raise

unfoldable pub set_field_index : ℕ → ℕ → Effect (Unit {0})
set_field_index v i m = some (tt, record m { field_index = put_at m.field_index v (some i) })

-- `self.lvalues.append(variable)`
unfoldable pub add_lvalue : ℕ → Effect (Unit {0})
add_lvalue v m = some (tt, record m { lvalues = v ∷ m.lvalues })
