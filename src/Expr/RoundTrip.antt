-- ===== src/Expr/RoundTrip.antt =====
-- `parse_expr` reads exactly the access that a text shows.
use contract_abstract.Prelude.{
  ℕ, zero, suc, ◌+◌, ◌-◌, ◌<◌, ◌≡◌, ◌⊎◌, inl, inr, refl, ap, sym, Text, false, [], ◌∷◌, ◌++◌, arith,
  length, length-append, drop, slice, take-length_append, drop-length_append, append_assoc,
}
use contract_abstract.Expr.Syntax.{Name, str, ok}
use contract_abstract.Expr.Scan.{Elem, dot, lbrack, rbrack, find_next_elem}
use contract_abstract.Expr.Parse.{
  starts, attach, collapse, parse_fuel, parse_internal_fuel, parse_expr,
}
use contract_abstract.Expr.Access.{
  Access, Steps, access, done, member, index, show, show_steps, nest, to_expr, to_child, IsPlain,
  IsWritten, AreWritten, index_name,
}
use contract_abstract.Expr.Bounds.{elem_of, find_next_elem-plain, find_matching_bracket-show}

-- What the parser names an index by is what the grammar names it by.
collapse-nest :
    (head : Text) (steps : Steps)
    → collapse (nest (str head) steps) ≡ index_name head steps (nest (str head) steps)
unfolding collapse nest
collapse-nest head done = refl
collapse-nest head (member n steps) = refl
collapse-nest head (index (access inner more) steps) = refl

-- `attach` on the parse of the steps is the nesting of the steps.
attach-nest :
    (name : Name) (steps : Steps) (i : ℕ)
    → attach name (elem_of i steps) (ok (to_child steps)) ≡ ok (nest name steps)
unfolding attach nest to_child to_expr
attach-nest name done i = refl
attach-nest name (member n steps) i = refl
attach-nest name (index (access head inner) steps) i = refl

start-elem_of : (i : ℕ) (steps : Steps) → (elem_of i steps).start ≡ i
start-elem_of i done = refl
start-elem_of i (member n steps) = refl
start-elem_of i (index a steps) = refl

-- The slices that the parser cuts behind `before`: the plain name and the text of the steps.
pub slice-name :
    (before n rest : Text) (i : ℕ)
    → i ≡ length before
    → slice i (i + length n) (before ++ (n ++ rest)) ≡ n
slice-name before n rest i e =
    rw (drop-length_append i before (n ++ rest) e)
      (take-length_append (i + length n - i) n rest (omega arith))

pub drop-steps :
    (before n rest : Text) (i : ℕ)
    → i ≡ length before
    → drop (i + length n) (before ++ (n ++ rest)) ≡ rest
drop-steps before n rest i e =
    rw (← append_assoc before n rest)
      (drop-length_append (i + length n) (before ++ n) rest (omega (arith, length-append before n)))

-- A written access begins with neither a dot nor a bracket.
pub starts-plain :
    (n rest : Text) (p : ℕ)
    → 0 < length n
    → IsPlain n
    → (p ≡ dot) ⊎ (p ≡ lbrack)
    → starts p (n ++ rest) ≡ false
starts-plain [] rest p h w e = absurd (omega arith)
starts-plain (c ∷ cs) rest p h w e = ground arith

-- the steps are read with fuel `f`
abbrev pub ReadsSteps : ℕ → Steps → Type 0
ReadsSteps f steps = parse_internal_fuel f (show_steps steps) ≡ ok (to_child steps)

-- What the parser makes of a plain name and the steps behind it, at position `i` of the text.
module _ (before n : Text) (steps : Steps) (i f : ℕ) where
  abbrev whole : Text
  whole = before ++ (n ++ show_steps steps)

  abbrev found : Elem
  found = find_next_elem whole i

  attach-found :
      (name : Name)
      → i ≡ length before
      → IsPlain n
      → ReadsSteps f steps
      → attach name found (parse_internal_fuel f (drop found.start whole)) ≡ ok (nest name steps)
  attach-found name e p reads =
      rw
        (
          find_next_elem-plain before n steps i e p,
          start-elem_of (i + length n) steps,
          drop-steps before n (show_steps steps) i e,
          reads,
        )
        (attach-nest name steps (i + length n))

  slice-found : i ≡ length before → IsPlain n → slice i found.start whole ≡ n
  slice-found e p =
      rw (find_next_elem-plain before n steps i e p, start-elem_of (i + length n) steps)
        (slice-name before n (show_steps steps) i e)

-- An index is read with whatever plain text stands between its `]` and the next step.
pub read_index :
    (a : Access) (junk : Text) (steps : Steps) (f : ℕ)
    → IsWritten a
    → IsPlain junk
    → parse_fuel f (show a) ≡ ok (to_expr a)
    → ReadsSteps f steps
    → parse_internal_fuel (suc f) (lbrack ∷ (show a ++ rbrack ∷ (junk ++ show_steps steps)))
      ≡ ok (to_child (index a steps))
unfolding parse_fuel to_child to_expr
read_index (access head more) junk steps f w p outer inner =
    let a = access head more in
    let rest = junk ++ show_steps steps in
    let closed : Text = lbrack ∷ (show a ++ rbrack ∷ []) in
    let regroup : lbrack ∷ (show a ++ rbrack ∷ rest) ≡ closed ++ rest =
      ap (λ r. lbrack ∷ r) (sym (append_assoc (show a) (rbrack ∷ []) rest)) in
    rw (
      find_matching_bracket-show a rest w,
      take-length_append (1 + length (show a) - 1) (show a) (rbrack ∷ rest) (omega arith),
      outer,
      collapse-nest head more,
      regroup,
      attach-found closed junk steps (1 + length (show a) + 1) f
          (index_name head more (nest (str head) more))
          (omega (arith, length-append (show a) (rbrack ∷ []))) p inner,
    )

mutual
  unfolding parse_fuel show to_expr to_child

  pub parse_fuel-show :
      (a : Access) (f : ℕ)
      → IsWritten a
      → length (show a) < f
      → parse_fuel f (show a) ≡ ok (to_expr a)
  parse_fuel-show a zero w h = absurd (omega arith)
  parse_fuel-show (access head steps) (suc f) w h =
      rw
        (
          starts-plain head (show_steps steps) dot w.0 w.1 (inl refl),
          starts-plain head (show_steps steps) lbrack w.0 w.1 (inr refl),
          slice-found [] head steps 0 f refl w.1,
        )
        (attach-found [] head steps 0 f (str head) refl w.1 (
          parse_internal_fuel-show steps f w.2
            (omega (arith, length-append head (show_steps steps)))))

  pub parse_internal_fuel-show :
      (steps : Steps) (f : ℕ)
      → AreWritten steps
      → length (show_steps steps) < f
      → ReadsSteps f steps
  parse_internal_fuel-show steps zero w h = absurd (omega arith)
  parse_internal_fuel-show done (suc f) w h = refl
  parse_internal_fuel-show (member n steps) (suc f) w h = rw (
    slice-found (dot ∷ []) n steps 1 f refl w.0,
    attach-found (dot ∷ []) n steps 1 f (str n) refl w.0
        (parse_internal_fuel-show steps f w.1 (omega (arith, length-append n (show_steps steps)))),
  )
  parse_internal_fuel-show (index a steps) (suc f) w h =
      let size = length-append (show a) (rbrack ∷ show_steps steps) in
      read_index a [] steps f w.0 tt (parse_fuel-show a f w.0 (omega (arith, size)))
        (parse_internal_fuel-show steps f w.1 (omega (arith, size)))

-- The parser reads every written access, whatever its nesting: the text of an access whose names
-- are plain parses, without running out of fuel, to the nested dicts of that access.
pub parse_expr-show : (a : Access) → IsWritten a → parse_expr (show a) ≡ ok (to_expr a)
unfolding parse_expr
parse_expr-show a w = parse_fuel-show a (length (show a) + 1) w (omega arith)
