-- ===== src/Parser/Sharing.antt =====
-- Assignment and Unary of `SlitherIRParser.parse` on variables that share an object
-- (slither/tools/contract_abstract/contract/slitherir_parser.py).
use contract_abstract.Prelude.{
  ℕ, Text, codes, true, false, some, List, [], ◌∷◌, ◌++◌, ◌≡◌, refl, ap, ◌∙◌,
}
use contract_abstract.Parser.Memory.{
  str_value, Context, context_cell, Memory, ◌>>=◌, as_context, load_context, store, get_pointer,
}
use contract_abstract.Parser.Variables.{IrVariable}
use contract_abstract.Parser.Names.{names_of}
use contract_abstract.Parser.Contexts.{is_location}
use contract_abstract.Parser.Members.{read}
use contract_abstract.Parser.Operations.{overwritten, write_both, parse_unary, parse_assignment}
use contract_abstract.Parser.Grows.{given}
use contract_abstract.Parser.Objects.{
  put_at-same, pointed, reading-Holds, outcome, outcome_then, Plain, Holds, reading, writing,
  changed, deal_with_read-Holds, read-Holds, record_read-Holds, write_both-Plain, changed-Holds,
}

module _ (var : ℕ → IrVariable) where
  pub parse_unary-outcome :
      (m : Memory) (lvalue v p : ℕ) (c : Context) (ns : List Text) (op s : Text)
      → Plain var lvalue
      → Holds m v p c ns
      → c.value ≡ str_value s
      → parse_unary var lvalue v op m
        ≡ given tt (
            writing
              (changed
                (reading m ns)
                p
                (record c { value = str_value (op ++ codes "(" ++ s ++ codes ")") }))
              lvalue
              p)
  unfolding parse_unary load_context store
  parse_unary-outcome m lvalue v p c ns op s pl h e =
      simp (deal_with_read-Holds var m v p c ns h, h.context, e, write_both-Plain var _ lvalue p pl)

  -- Where a variable has an object with a str as its value, Unary on the variable for a plain lvalue
  -- changes what every variable that shares the object reads, its operand among them: the value has
  -- the operator around it afterwards, and nothing else of the context changes.
  pub parse_unary-operand :
      (m : Memory) (lvalue v w p : ℕ) (c : Context) (ns : List Text) (op s : Text)
      → Plain var lvalue
      → Holds m v p c ns
      → m.contexts w ≡ some p
      → c.value ≡ str_value s
      → outcome ((parse_unary var lvalue v op >>= λ t. read var w) m)
        ≡ some (record c { value = str_value (op ++ codes "(" ++ s ++ codes ")") })
  unfolding outcome
  parse_unary-operand m lvalue v w p c ns op s pl h ew e =
      let d = record c { value = str_value (op ++ codes "(" ++ s ++ codes ")") } in
      simp (
        parse_unary-outcome m lvalue v p c ns op s pl h e,
        read-Holds var _ w p d ns (changed-Holds m lvalue v w p c d ns ns h ew refl),
      )

  parse_assignment-outcome :
      (m : Memory) (y x p : ℕ) (c : Context) (ns : List Text)
      → Plain var y
      → is_location (codes "storage") (var y).location ≡ false
      → Holds m x p c ns
      → parse_assignment var y x m ≡ given tt (writing (reading m ns) y p)
  unfolding parse_assignment
  parse_assignment-outcome m y x p c ns pl hl h =
      simp
        (deal_with_read-Holds var m x p c ns h, hl, pl.no_reference, write_both-Plain var _ y p pl)

  -- After a plain variable, not in storage, is assigned another one, Unary on the other one for a third changes what
  -- the first reads: the two share one object.
  pub parse_assignment-shared :
      (m : Memory) (x y z p : ℕ) (c : Context) (ns : List Text) (op s : Text)
      → Plain var y
      → is_location (codes "storage") (var y).location ≡ false
      → Plain var z
      → Holds m x p c ns
      → c.value ≡ str_value s
      → outcome ((parse_assignment var y x >>= λ t. parse_unary var z x op >>= λ u. read var y) m)
        ≡ some (record c { value = str_value (op ++ codes "(" ++ s ++ codes ")") })
  unfolding outcome names_of
  parse_assignment-shared m x y z p c ns op s py hl pz h e =
      let m₁ = writing (reading m ns) y p in
      let h₁ : Holds m₁ x p c ns = record {
        pointer = pointed m y x p h.pointer;
        context = h.context;
        names = h.names;
      } in
      outcome_then (parse_assignment var y x) _ tt m m₁
        (parse_assignment-outcome m y x p c ns py hl h)
      ∙ parse_unary-operand m₁ z x y p c ns op s pz h₁ (put_at-same m.contexts y (some p)) e

  assignment_to_storage :
      (m : Memory) (lvalue v p q : ℕ) (c d : Context) (ns ms : List Text)
      → is_location (codes "storage") (var lvalue).location ≡ true
      → Holds m v p c ns
      → Holds m lvalue q d ms
      → parse_assignment var lvalue v m
        ≡ (overwritten p d.storage >>= λ t. write_both var lvalue p) (reading (reading m ns) ms)
  unfolding parse_assignment get_pointer load_context
  assignment_to_storage m lvalue v p q c d ns ms hl h g = simp (
    deal_with_read-Holds var m v p c ns h,
    hl,
    g.pointer,
    record_read-Holds (reading m ns) lvalue q d ms (reading-Holds m ns lvalue q d ms g),
    g.context,
  )

  overwritten_then :
      (m : Memory) (lvalue p : ℕ) (c : Context) (s : Text)
      → Plain var lvalue
      → as_context (m.cell p) ≡ some c
      → (overwritten p (str_value s) >>= λ t. write_both var lvalue p) m
        ≡ given tt (writing (changed m p (record c { storage = str_value s })) lvalue p)
  unfolding load_context store
  overwritten_then m lvalue p c s pl h = simp (h, write_both-Plain var _ lvalue p pl)

  -- Where a plain lvalue in storage has a context with a str as its storage, assigning another variable
  -- to it changes the storage that the other variable has: it reads with that of the lvalue.
  pub parse_assignment-overwrites :
      (m : Memory) (lvalue v p q : ℕ) (c d : Context) (ns ms : List Text) (s : Text)
      → is_location (codes "storage") (var lvalue).location ≡ true
      → Plain var lvalue
      → Holds m v p c ns
      → Holds m lvalue q d ms
      → d.storage ≡ str_value s
      → outcome ((parse_assignment var lvalue v >>= λ t. read var v) m)
        ≡ some (record c { storage = str_value s })
  unfolding outcome names_of
  parse_assignment-overwrites m lvalue v p q c d ns ms s hl pl h g e =
      let d₁ = record c { storage = str_value s } in
      let m₁ = writing (changed (reading (reading m ns) ms) p d₁) lvalue p in
      let h₁ : Holds m₁ v p d₁ (s ∷ []) = record {
        pointer = pointed m lvalue v p h.pointer;
        context = ap as_context (put_at-same m.cell p (some (context_cell d₁)));
        names = refl;
      } in
      outcome_then (parse_assignment var lvalue v) _ tt m m₁ (
        assignment_to_storage m lvalue v p q c d ns ms hl h g
        ∙ ap (λ x. (overwritten p x >>= λ t. write_both var lvalue p) (reading (reading m ns) ms)) e
        ∙ overwritten_then (reading (reading m ns) ms) lvalue p c s pl h.context)
      ∙ ap outcome (read-Holds var m₁ v p d₁ (s ∷ []) h₁)
