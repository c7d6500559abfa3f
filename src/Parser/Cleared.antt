-- ===== src/Parser/Cleared.antt =====
-- The contexts of variables behind `clear_context` and `close` of SlitherIRParser
-- (slither/tools/contract_abstract/contract/slitherir_parser.py).
use contract_abstract.Prelude.{
  ℕ, Text, Bool, true, false, not, ◌&&◌, ◌||◌, Option, none, some, List, [], ◌∷◌, ◌≡◌, refl, ap,
  ◌∙◌, ◌==◌, if◌then◌else◌, arith,
}
use contract_abstract.Parser.Memory.{
  Value, Context, Memory, then_do, ◌>>=◌, put_at, set_pointer, get_pointer,
}
use contract_abstract.Parser.Variables.{IrVariable}
use contract_abstract.Parser.Contexts.{is_state}
use contract_abstract.Parser.Irs.{
  Ir, index_access, internal_call, return_values, new_structure, member_access, assignment, binary,
  type_conversion, high_level_call, condition, solidity_call, unpack, event_call, array_length,
  new_array, init_array_op, new_elementary_type, new_contract, unary, code_size, delete,
  low_level_call, not_supported, lvalue_of,
}
use contract_abstract.Parser.Parse.{is_temporary, contintue_internal_call}
use contract_abstract.Parser.Clear.{
  is_one_of, cleared, clear_abstract, clear_all, clear_these, clear_context, forget_all, close,
}
use contract_abstract.Parser.Grows.{given}
use contract_abstract.Parser.Objects.{put_at-same, outcome, Holds, deal_with_read-Holds}

-- the context of a variable after an action that returned
abbrev pub pointer_after : {A : Type 0} → ℕ → Option (A × Memory) → Option (Option ℕ)
pointer_after v none = none
pointer_after v (some (a, m)) = some (m.contexts v)

abbrev pub unless : Bool → Option ℕ → Option ℕ
unless b p = if b then none else p

-- forgetting one variable and those that a test finds
forgotten :
    (b : Bool) (f : ℕ → Option ℕ) (w v : ℕ)
    → unless b (put_at f w none v) ≡ unless (v == w || b) (f v)
forgotten b f w v = ground arith

forget_all-pointer :
    (vs : List ℕ) (v : ℕ) (m : Memory)
    → pointer_after v (forget_all vs m) ≡ some (unless (is_one_of v vs) (m.contexts v))
unfolding forget_all set_pointer
forget_all-pointer [] v m = refl
forget_all-pointer (w ∷ ws) v m =
    forget_all-pointer ws v _ ∙ ap some (forgotten (is_one_of v ws) m.contexts w v)

-- After `close`, no variable that the parser wrote has a context, and every other one has the one it
-- had.
pub close-lvalues :
    (m : Memory) (v : ℕ)
    → pointer_after v (close m) ≡ some (unless (is_one_of v m.lvalues) (m.contexts v))
unfolding close
close-lvalues m v = forget_all-pointer m.lvalues v m

kept_left :
    (b k : Bool) (v w : ℕ) (p : Option ℕ)
    → ((v == w) ≡ true → k ≡ true)
    → unless (b && not k) p ≡ unless ((v == w || b) && not k) p
kept_left b k v w p h = ground arith

put_left :
    (b k : Bool) (v w : ℕ) (f : ℕ → Option ℕ)
    → ((v == w) ≡ true → k ≡ false)
    → unless (b && not k) (put_at f w none v) ≡ unless ((v == w || b) && not k) (f v)
put_left b k v w f h = ground arith

-- the operations that leave the context of their lvalue: what a call gave it, a `new` and a `delete`
abbrev pub leaves_lvalue : Ir → Bool
leaves_lvalue (internal_call l f args) = true
leaves_lvalue (new_contract l) = true
leaves_lvalue (delete l) = true
leaves_lvalue ir = false

abbrev pub is_supported : Ir → Bool
is_supported (not_supported l) = false
is_supported ir = true

abbrev own_lvalue : Option ℕ → List ℕ
own_lvalue none = []
own_lvalue (some l) = l ∷ []

-- The variables whose contexts end with the operation: the values of a return, else its lvalue.
abbrev pub ended_by : Ir → List ℕ
ended_by (return_values vs) = vs
ended_by ir = if leaves_lvalue ir then [] else own_lvalue (lvalue_of ir)

cleared-ended_by : (ir : Ir) → cleared ir ≡ (if is_supported ir then some (ended_by ir) else none)
unfolding lvalue_of
cleared-ended_by (index_access l a b) = refl
cleared-ended_by (internal_call l f args) = refl
cleared-ended_by (return_values vs) = refl
cleared-ended_by (new_structure l args) = refl
cleared-ended_by (member_access l a b field) = refl
cleared-ended_by (assignment l r) = refl
cleared-ended_by (binary l a b op) = refl
cleared-ended_by (type_conversion l r) = refl
cleared-ended_by (high_level_call none d view full name) = refl
cleared-ended_by (high_level_call (some l) d view full name) = refl
cleared-ended_by condition = refl
cleared-ended_by (solidity_call none name) = refl
cleared-ended_by (solidity_call (some l) name) = refl
cleared-ended_by (unpack l t i) = refl
cleared-ended_by (event_call args) = refl
cleared-ended_by (array_length l v) = refl
cleared-ended_by (new_array l args) = refl
cleared-ended_by (init_array_op l vs) = refl
cleared-ended_by (new_elementary_type l) = refl
cleared-ended_by (new_contract l) = refl
cleared-ended_by (unary l r op) = refl
cleared-ended_by (code_size l v) = refl
cleared-ended_by (delete l) = refl
cleared-ended_by (low_level_call none d name) = refl
cleared-ended_by (low_level_call (some l) d name) = refl
cleared-ended_by (not_supported l) = refl

module _ (var : ℕ → IrVariable) where
  abbrev pub keeps_context : List ℕ → ℕ → Bool
  keeps_context storages v = is_state var (var v).class && is_one_of v storages

  -- what is left of the context of `v` when these are cleared
  abbrev left_by : List ℕ → List ℕ → ℕ → Option ℕ → Option ℕ
  left_by storages vs v p = unless (is_one_of v vs && not (keeps_context storages v)) p

  same_keeps :
      (storages : List ℕ) (v w : ℕ)
      → (v == w) ≡ true
      → keeps_context storages v ≡ keeps_context storages w
  same_keeps storages v w e = ap (keeps_context storages) (ground arith)

  cleared_step :
      (storages ws : List ℕ) (v w : ℕ) (m : Memory)
      → ((n : Memory)
          → pointer_after v (clear_all var storages ws n)
            ≡ some (left_by storages ws v (n.contexts v)))
      → (k : Bool) → keeps_context storages w ≡ k
      → pointer_after v
          (then_do (if k then given tt m else set_pointer w none m) λ t. clear_all var storages ws)
        ≡ some (left_by storages (w ∷ ws) v (m.contexts v))
  unfolding set_pointer
  cleared_step storages ws v w m ih true e =
      ih m
      ∙ ap some (
          kept_left (is_one_of v ws) (keeps_context storages v) v w (m.contexts v)
            λ h. same_keeps storages v w h ∙ e)
  cleared_step storages ws v w m ih false e =
      ih _
      ∙ ap some (
          put_left (is_one_of v ws) (keeps_context storages v) v w m.contexts
            λ h. same_keeps storages v w h ∙ e)

  clear_all-pointer :
      (storages vs : List ℕ) (v : ℕ) (m : Memory)
      → pointer_after v (clear_all var storages vs m) ≡ some (left_by storages vs v (m.contexts v))
  unfolding clear_all clear_abstract
  clear_all-pointer storages [] v m = refl
  clear_all-pointer storages (w ∷ ws) v m =
      cleared_step storages ws v w m (clear_all-pointer storages ws v) (keeps_context storages w)
        refl

  abbrev left_after : List ℕ → Ir → ℕ → Option ℕ → Option (Option ℕ)
  left_after storages ir v p =
      if is_supported ir then some (left_by storages (ended_by ir) v p) else none

  clear_these-pointer :
      (storages vs : List ℕ) (v : ℕ) (m : Memory) (b : Bool)
      → pointer_after v (clear_these var storages (if b then some vs else none) m)
        ≡ (if b then some (left_by storages vs v (m.contexts v)) else none)
  clear_these-pointer storages vs v m true = clear_all-pointer storages vs v m
  clear_these-pointer storages vs v m false = refl

  -- After `clear_context`, the values of a return, and the lvalue of another operation that is no call
  -- into the contract, no `new` of a contract and no `delete`, have no context, but for state
  -- variables of the storages; every other variable has the context it had. An operation that is
  -- not supported raises.
  pub clear_context-cleared :
      (storages : List ℕ) (ir : Ir) (v : ℕ) (m : Memory)
      → pointer_after v (clear_context var storages ir m) ≡ left_after storages ir v (m.contexts v)
  unfolding clear_context
  clear_context-cleared storages ir v m =
      ap (λ o. pointer_after v (clear_these var storages o m)) (cleared-ended_by ir)
      ∙ clear_these-pointer storages (ended_by ir) v m (is_supported ir)

  -- The context that a call returned stays with its lvalue, a temporary variable, when the call is
  -- cleared.
  pub clear_context-internal_call :
      (show : Memory → Value → Text) (storages : List ℕ) (m : Memory) (lvalue function v p : ℕ)
      (args vs : List ℕ) (c : Context) (ns : List Text)
      → is_temporary (var lvalue).class ≡ true
      → Holds m v p c ns
      → outcome (
          (contintue_internal_call var show (some lvalue) (some (v ∷ vs)) >>= λ t.
          clear_context var storages (internal_call (some lvalue) function args) >>= λ u.
          get_pointer lvalue)
            m)
        ≡ some (some p)
  unfolding contintue_internal_call clear_context set_pointer get_pointer outcome
  clear_context-internal_call show storages m lvalue function v p args vs c ns h g =
      simp (h, deal_with_read-Holds var m v p c ns g, put_at-same m.contexts lvalue (some p))
