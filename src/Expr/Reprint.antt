-- ===== src/Expr/Reprint.antt =====
-- When `expr_to_string` gives back the text that was parsed.
use contract_abstract.Prelude.{
  ◌≡◌, ◌↔◌, ◌≢◌, ℕ, refl, ap, Text, [], ◌∷◌, ◌++◌, arith, append_assoc, append-nil,
}
use mathlib.Core.List.{append_cancel_left}
use contract_abstract.Expr.Syntax.{Expr, str, Result, ok, ◌>>=◌}
use contract_abstract.Expr.Scan.{dot, lbrack, rbrack}
use contract_abstract.Expr.Parse.{parse_expr}
use contract_abstract.Expr.Access.{
  Steps, access, done, member, index, show, show_steps, nest, to_expr, IsWritten,
}
use contract_abstract.Expr.Print.{Printed, text, expr_to_string}
use contract_abstract.Expr.RoundTrip.{parse_expr-show}

-- every index is a name
abbrev pub IsFlat : Steps → Type 0
IsFlat done = Unit
IsFlat (member n steps) = IsFlat steps
IsFlat (index (access b done) steps) = IsFlat steps
IsFlat (index (access b (member n inner)) steps) = ⊥
IsFlat (index (access b (index a inner)) steps) = ⊥

-- no step follows an index
abbrev pub EndsAtIndex : Steps → Type 0
EndsAtIndex done = Unit
EndsAtIndex (member n steps) = EndsAtIndex steps
EndsAtIndex (index a done) = Unit
EndsAtIndex (index a (member n steps)) = ⊥
EndsAtIndex (index a (index b steps)) = ⊥

-- what is printed for the steps: what follows an index comes before its closing bracket
abbrev reshow_steps : Steps → Text
reshow_steps done = []
reshow_steps (member n steps) = dot ∷ (n ++ reshow_steps steps)
reshow_steps (index (access b inner) steps) = lbrack ∷ ((b ++ reshow_steps steps) ++ rbrack ∷ [])

expr_to_string-nest :
    (repr : Expr → Text) (n : Text) (steps : Steps)
    → IsFlat steps
    → expr_to_string repr (nest (str n) steps) ≡ text (n ++ reshow_steps steps)
unfolding expr_to_string nest
expr_to_string-nest repr n done h = ap text (rw (append-nil n))
expr_to_string-nest repr n (member m steps) h = rw (expr_to_string-nest repr m steps h)
expr_to_string-nest repr n (index (access b done) steps) h = rw (expr_to_string-nest repr b steps h)
expr_to_string-nest repr n (index (access b (member m inner)) steps) h = elim h [ ]
expr_to_string-nest repr n (index (access b (index a inner)) steps) h = elim h [ ]

-- The closing bracket comes too early or too late.
misplaced :
    (b s t : Text) (c : ℕ)
    → c ≢ rbrack
    → lbrack ∷ ((b ++ c ∷ s) ++ rbrack ∷ []) ≡ lbrack ∷ ((b ++ []) ++ rbrack ∷ t)
    → ⊥
misplaced b s t c h e =
    let same : (b ++ c ∷ s) ++ rbrack ∷ [] ≡ (b ++ []) ++ rbrack ∷ t = cc in
    let behind =
      append_cancel_left b (c ∷ s ++ rbrack ∷ []) (rbrack ∷ t)
        (rw (append_assoc b (c ∷ s) (rbrack ∷ []), append-nil b) at same) in
    h (cc)

reshow_iff :
    (steps : Steps) → IsFlat steps → (reshow_steps steps ≡ show_steps steps) ↔ EndsAtIndex steps
unfolding show
reshow_iff done h = (λ _. tt, λ _. refl)
reshow_iff (member n steps) h =
    let ih = reshow_iff steps h in (λ e. ih.0 (append_cancel_left n _ _ (cc)), λ s. rw (ih.1 s))
reshow_iff (index (access b done) done) h = (λ _. tt, λ _. simp (append-nil))
reshow_iff (index (access b done) (member n steps)) h =
    (misplaced b _ _ dot (omega arith), λ s. elim s [ ])
reshow_iff (index (access b done) (index (access c inner) steps)) h =
    (misplaced b _ _ lbrack (omega arith), λ s. elim s [ ])
reshow_iff (index (access b (member m inner)) steps) h = elim h [ ]
reshow_iff (index (access b (index a inner)) steps) h = elim h [ ]

module _ (repr : Expr → Text) where
  -- parse, and print what was parsed
  abbrev pub reprint : Text → Result Printed
  reprint s = do e ← parse_expr s; ok (expr_to_string repr e)

  -- For a written access whose indices are names: parsing its text and printing the dicts gives
  -- the same text back exactly when no step follows an index.
  pub expr_to_string-parse_expr :
      (head : Text) (steps : Steps)
      → IsWritten (access head steps)
      → IsFlat steps
      → (reprint (show (access head steps)) ≡ ok (text (show (access head steps))))
        ↔ EndsAtIndex steps
  unfolding show to_expr
  expr_to_string-parse_expr head steps w f =
      let whole = reshow_iff steps f in
      rw (parse_expr-show (access head steps) w, expr_to_string-nest repr head steps f)
        (λ e. whole.0 (append_cancel_left head _ _ (cc)), λ s. rw (whole.1 s))
