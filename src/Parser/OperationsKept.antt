-- ===== src/Parser/OperationsKept.antt =====
-- The rules of Parser/Grows for Parser/Operations, and for copies of contexts.
use contract_abstract.Prelude.{ℕ, zero, suc, ◌+◌, Text, Option, none, some, List, [], ◌∷◌}
use contract_abstract.Parser.Memory.{
  Value, nothing, str_value, set_value, list_at, Context, Effect, pure, ◌>>=◌, load_list, new_list,
  new_context,
}
use contract_abstract.Parser.Variables.{IrVariable}
use contract_abstract.Parser.Values.{add_taints, copy_value, copy_values, copy_context}
use contract_abstract.Parser.Operations.{
  listed_context, read_all, read_pointers, write_both, overwritten, overwrite_from,
  parse_assignment, parse_binary, parse_type_conversion, parse_unary, parse_length, parse_unpack,
  parse_new_structure,
}
use contract_abstract.Parser.Grows.{Keeps, keeping, Keeps-pure, Keeps-raise}
use contract_abstract.Parser.Kept.{primitives}
use contract_abstract.Parser.Recorded.{deal_with_read-Keeps, deal_with_write-Keeps}
use contract_abstract.Parser.MembersKept.{
  deal_with_reference-Keeps, read-Keeps, write_context-Keeps,
}

pub listed_context-Keeps : (cs : List Context) → Keeps (listed_context cs)
unfolding listed_context
listed_context-Keeps cs = search (keeping, primitives) depth 12

pub overwritten-Keeps : (p : ℕ) (v : Value) → Keeps (overwritten p v)
overwritten-Keeps p nothing = search keeping
overwritten-Keeps p (str_value s) = search (keeping, primitives)
overwritten-Keeps p (set_value ts) = search (keeping, primitives)
overwritten-Keeps p (list_at l) = search (keeping, primitives)

pub add_taints-Keeps : (ts : List Text) (v : Value) → Keeps (add_taints ts v)
unfolding add_taints
add_taints-Keeps ts (set_value us) = search keeping
add_taints-Keeps ts (list_at p) = search (keeping, primitives)
add_taints-Keeps ts nothing = search keeping
add_taints-Keeps ts (str_value s) = search keeping

list_copied :
    (copy : List Value → Effect (List Value)) (p : ℕ)
    → ((vs : List Value) → Keeps (copy vs))
    → Keeps (load_list p >>= copy >>= new_list)
list_copied copy p k = search (keeping, primitives)

cons_copied :
    (first : Effect Value) (rest : Effect (List Value))
    → Keeps first
    → Keeps rest
    → Keeps (first >>= λ w. rest >>= λ ws. pure (w ∷ ws))
cons_copied first rest k l = search keeping

mutual
  unfolding copy_value Keeps

  copy_value-Keeps : (fuel : ℕ) (v : Value) → Keeps (copy_value fuel v)
  copy_value-Keeps zero v m = Keeps-raise _ m
  copy_value-Keeps (suc fuel) nothing m = Keeps-pure _ m
  copy_value-Keeps (suc fuel) (str_value s) m = Keeps-pure _ m
  copy_value-Keeps (suc fuel) (set_value ts) m = Keeps-pure _ m
  copy_value-Keeps (suc fuel) (list_at p) m =
      list_copied (copy_values fuel) p (copy_values-Keeps fuel) m

  copy_values-Keeps : (fuel : ℕ) (vs : List Value) → Keeps (copy_values fuel vs)
  copy_values-Keeps fuel [] m = Keeps-pure _ m
  copy_values-Keeps zero (v ∷ vs) m = Keeps-raise _ m
  copy_values-Keeps (suc fuel) (v ∷ vs) m =
      cons_copied (copy_value fuel v) (copy_values (suc fuel) vs) (copy_value-Keeps fuel v)
        (copy_values-Keeps (suc fuel) vs) m

parts_copied :
    (fuel : ℕ) (i s it st v : Value)
    → Keeps (
        copy_value fuel i >>= λ input. copy_value fuel s >>= λ storage.
        copy_value fuel it >>= λ input_taints. copy_value fuel st >>= λ storage_taints.
        copy_value fuel v >>= λ value. new_context input storage input_taints storage_taints value)
parts_copied fuel i s it st v = search (keeping, primitives, copy_value-Keeps) depth 14

pub copy_context-Keeps : (c : Context) → Keeps (copy_context c)
unfolding copy_context Keeps
copy_context-Keeps c m =
    parts_copied (suc (m.next + m.next)) c.input c.storage c.input_taints c.storage_taints c.value m

module _ (var : ℕ → IrVariable) where
  pub read_all-Keeps : (vs : List ℕ) → Keeps (read_all var vs)
  read_all-Keeps [] = search keeping
  read_all-Keeps (v ∷ vs) = search (keeping, read-Keeps var, read_all-Keeps vs)

  pub read_pointers-Keeps : (vs : List ℕ) → Keeps (read_pointers var vs)
  read_pointers-Keeps [] = search keeping
  read_pointers-Keeps (v ∷ vs) = search (keeping, deal_with_read-Keeps var, read_pointers-Keeps vs)

  pub write_both-Keeps : (lvalue p : ℕ) → Keeps (write_both var lvalue p)
  write_both-Keeps lvalue p =
      search (keeping, deal_with_write-Keeps var, deal_with_reference-Keeps var)

  overwrite_from-Keeps : (lvalue p : ℕ) (q : Option ℕ) → Keeps (overwrite_from var lvalue p q)
  overwrite_from-Keeps lvalue p none = search keeping
  overwrite_from-Keeps lvalue p (some q) = search (keeping, read-Keeps var, overwritten-Keeps)

  pub parse_assignment-Keeps : (lvalue rvalue : ℕ) → Keeps (parse_assignment var lvalue rvalue)
  unfolding parse_assignment
  parse_assignment-Keeps lvalue rvalue =
      search
        (
          keeping,
          primitives,
          read-Keeps var,
          deal_with_read-Keeps var,
          overwrite_from-Keeps,
          overwritten-Keeps,
          write_both-Keeps,
        )
        depth 12

  pub parse_binary-Keeps :
      (lvalue left right : ℕ) (op : Text) → Keeps (parse_binary var lvalue left right op)
  unfolding parse_binary
  parse_binary-Keeps lvalue left right op =
      search (keeping, primitives, read-Keeps var, write_context-Keeps var) depth 12

  pub parse_type_conversion-Keeps :
      (lvalue rvalue : ℕ) → Keeps (parse_type_conversion var lvalue rvalue)
  unfolding parse_type_conversion
  parse_type_conversion-Keeps lvalue rvalue =
      search (keeping, deal_with_read-Keeps var, deal_with_write-Keeps var)

  pub parse_unary-Keeps : (lvalue rvalue : ℕ) (op : Text) → Keeps (parse_unary var lvalue rvalue op)
  unfolding parse_unary
  parse_unary-Keeps lvalue rvalue op =
      search (keeping, primitives, deal_with_read-Keeps var, write_both-Keeps) depth 12

  pub parse_length-Keeps : (lvalue array : ℕ) → Keeps (parse_length var lvalue array)
  unfolding parse_length
  parse_length-Keeps lvalue array = search (keeping, read-Keeps var, write_context-Keeps var)

  pub parse_unpack-Keeps : (lvalue source i : ℕ) → Keeps (parse_unpack var lvalue source i)
  unfolding parse_unpack
  parse_unpack-Keeps lvalue source i =
      search (keeping, primitives, read-Keeps var, write_both-Keeps) depth 14

  pub parse_new_structure-Keeps :
      (lvalue : ℕ) (args : List ℕ) → Keeps (parse_new_structure var lvalue args)
  unfolding parse_new_structure
  parse_new_structure-Keeps lvalue args =
      search (keeping, read_all-Keeps, listed_context-Keeps, deal_with_write-Keeps var)
