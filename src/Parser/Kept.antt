-- ===== src/Parser/Kept.antt =====
-- The rules of Parser/Grows for the actions of Parser/Memory.
use contract_abstract.Prelude.{arith, some, ℕ, true, Option, List, ◌≡◌, refl, sym, subst, inl}
use contract_abstract.Parser.Memory.{
  put_at, Value, nothing, str_value, set_value, list_at, Cell, Memory, is_in, alloc, as_context,
  as_list, load_context, load_list, store, set_pointer, get_pointer, add_lvalue, new_context,
  new_list, join_taints, item_at, set_field_index,
}
use contract_abstract.Parser.Grows.{
  is_some, Held, Grows, Grows-refl, Keeps, gives, Keeps-pure, Keeps-raise, Keeps-bind,
  Keeps-or_raise,
}

-- one that leaves both sets as they are, and takes no context away
pub untouched :
    (m m' : Memory)
    → m'.read_storages ≡ m.read_storages
    → m'.write_storages ≡ m.write_storages
    → Held m m'
    → Grows m m'
untouched m m' er ew held = record {
  reads = λ n h. subst (λ ns. is_in n ns ≡ true) (sym er) h;
  writes = λ n h. subst (λ ns. is_in n ns ≡ true) (sym ew) h;
  held = held;
  recorded = λ n h. inl (subst (λ ns. is_in n ns ≡ true) ew h);
}

pub alloc-Keeps : (c : Cell) → Keeps (alloc c)
unfolding Keeps alloc
alloc-Keeps c m m' a e = gives _ a m _ m' (untouched m _ refl refl (λ v h. h)) e

pub store-Keeps : (p : ℕ) (c : Cell) → Keeps (store p c)
unfolding Keeps store
store-Keeps p c m m' a e = gives _ a m _ m' (untouched m _ refl refl (λ v h. h)) e

pointer_held :
    (f : ℕ → Option ℕ) (v w p : ℕ) → is_some (f w) ≡ true → is_some (put_at f v (some p) w) ≡ true
pointer_held f v w p h = ground arith

pub set_pointer-Keeps : (v p : ℕ) → Keeps (set_pointer v (some p))
unfolding Keeps set_pointer
set_pointer-Keeps v p m m' a e =
    gives _ a m _ m' (untouched m _ refl refl (λ w h. pointer_held m.contexts v w p h)) e

pub get_pointer-Keeps : (v : ℕ) → Keeps (get_pointer v)
unfolding Keeps get_pointer
get_pointer-Keeps v m m' a e = gives _ a m _ m' (Grows-refl m) e

pub add_lvalue-Keeps : (v : ℕ) → Keeps (add_lvalue v)
unfolding Keeps add_lvalue
add_lvalue-Keeps v m m' a e = gives _ a m _ m' (untouched m _ refl refl (λ v h. h)) e

pub set_field_index-Keeps : (v i : ℕ) → Keeps (set_field_index v i)
unfolding Keeps set_field_index
set_field_index-Keeps v i m m' a e = gives _ a m _ m' (untouched m _ refl refl (λ v h. h)) e

pub load_context-Keeps : (p : ℕ) → Keeps (load_context p)
unfolding Keeps load_context
load_context-Keeps p m m' a e = Keeps-or_raise (as_context (m.cell p)) m m' a e

pub load_list-Keeps : (p : ℕ) → Keeps (load_list p)
unfolding Keeps load_list
load_list-Keeps p m m' a e = Keeps-or_raise (as_list (m.cell p)) m m' a e

pub new_context-Keeps : (i s it st v : Value) → Keeps (new_context i s it st v)
unfolding new_context
new_context-Keeps i s it st v = alloc-Keeps _

pub new_list-Keeps : (vs : List Value) → Keeps (new_list vs)
unfolding new_list
new_list-Keeps vs = Keeps-bind _ _ (alloc-Keeps _) (λ p. Keeps-pure _)

pub join_taints-Keeps : (a b : Value) → Keeps (join_taints a b)
unfolding join_taints
join_taints-Keeps a b = Keeps-or_raise _

pub item_at-Keeps : (v : Value) (i : ℕ) → Keeps (item_at v i)
unfolding item_at
item_at-Keeps (list_at p) i = Keeps-bind _ _ (load_list-Keeps p) (λ vs. Keeps-or_raise _)
item_at-Keeps nothing i = Keeps-raise _
item_at-Keeps (str_value s) i = Keeps-raise _
item_at-Keeps (set_value ts) i = Keeps-raise _

pub ruleset primitives = (
  alloc-Keeps, store-Keeps, set_pointer-Keeps, get_pointer-Keeps, add_lvalue-Keeps,
  set_field_index-Keeps, load_context-Keeps, load_list-Keeps, new_context-Keeps, new_list-Keeps,
  join_taints-Keeps, item_at-Keeps,
)
