-- ===== src/Expr/Bounds.antt =====
-- What `find_next_elem` and `find_matching_bracket` find in the text of an access.
use contract_abstract.Prelude.{
  ℕ, suc, ◌+◌, ◌≡◌, refl, ap, Text, true, false, [], ◌∷◌, ◌++◌, arith, length, length-append,
  drop-length_append, append_assoc, ==_ne, ◌∙◌,
}
use contract_abstract.Prelude.Int.{ℤ, pos}
use contract_abstract.Expr.Syntax.{ok}
use contract_abstract.Expr.Scan.{
  Elem, lbrack, rbrack, next_elem_loop, find_next_elem, matching_loop, find_matching_bracket,
}
use contract_abstract.Expr.Access.{
  Access, Steps, access, done, member, index, show, show_steps, IsPlain, IsWritten, AreWritten,
}

-- the element that begins at position `i`, where the steps begin
abbrev pub elem_of : ℕ → Steps → Elem
elem_of i done = record { is_brack = false; is_dot = false; start = i }
elem_of i (member n steps) = record { is_brack = false; is_dot = true; start = i }
elem_of i (index a steps) = record { is_brack = true; is_dot = false; start = i }

next_elem_loop-plain :
    (i j : ℕ) (n : Text) (steps : Steps)
    → IsPlain n
    → j ≡ i + length n
    → next_elem_loop i (n ++ show_steps steps) ≡ elem_of j steps
unfolding next_elem_loop show_steps
next_elem_loop-plain i j [] done p e = ground arith
next_elem_loop-plain i j [] (member n steps) p e = ground arith
next_elem_loop-plain i j [] (index a steps) p e = ground arith
next_elem_loop-plain i j (c ∷ cs) steps p e =
    ground (arith, next_elem_loop-plain (i + 1) j cs steps p.3)

-- From behind `before`, the next element is the first of the steps, behind the plain name.
pub find_next_elem-plain :
    (before n : Text) (steps : Steps) (i : ℕ)
    → i ≡ length before
    → IsPlain n
    → find_next_elem (before ++ (n ++ show_steps steps)) i ≡ elem_of (i + length n) steps
unfolding find_next_elem show_steps
find_next_elem-plain before n done i e p =
    rw
      (drop-length_append i before (n ++ []) e, next_elem_loop-plain i (i + length n) n done p refl)
      (ground (arith, length-append before (n ++ []), length-append {0} n []))
find_next_elem-plain before n (member m steps) i e p = rw (
  drop-length_append i before (n ++ show_steps (member m steps)) e,
  next_elem_loop-plain i (i + length n) n (member m steps) p refl,
)
find_next_elem-plain before n (index a steps) i e p = rw (
  drop-length_append i before (n ++ show_steps (index a steps)) e,
  next_elem_loop-plain i (i + length n) n (index a steps) p refl,
)

-- A plain text is passed over.
matching_loop-plain :
    (i j : ℕ) (d : ℤ) (n rest : Text)
    → IsPlain n
    → j ≡ i + length n
    → matching_loop i d (n ++ rest) ≡ matching_loop j d rest
unfolding matching_loop
matching_loop-plain i j d [] rest p e = ap (λ k. matching_loop k d rest) (omega arith)
matching_loop-plain i j d (c ∷ cs) rest p e =
    rw (==_ne c lbrack p.1, ==_ne c rbrack p.2)
      (matching_loop-plain (i + 1) j d cs rest p.3 (omega arith))

-- So is the text of an access inside a bracket: its own brackets match.
mutual
  unfolding matching_loop show

  matching_loop-show :
      (a : Access) (i j d : ℕ) (rest : Text)
      → IsWritten a
      → j ≡ i + length (show a)
      → matching_loop i (pos (suc d)) (show a ++ rest) ≡ matching_loop j (pos (suc d)) rest
  matching_loop-show (access head steps) i j d rest w e =
      rw (append_assoc head (show_steps steps) rest) (
        matching_loop-plain i (i + length head) (pos (suc d)) head (show_steps steps ++ rest) w.1
          refl
        ∙ matching_loop-show_steps steps (i + length head) j d rest w.2
            (omega (arith, length-append head (show_steps steps))))

  matching_loop-show_steps :
      (steps : Steps) (i j d : ℕ) (rest : Text)
      → AreWritten steps
      → j ≡ i + length (show_steps steps)
      → matching_loop i (pos (suc d)) (show_steps steps ++ rest)
        ≡ matching_loop j (pos (suc d)) rest
  matching_loop-show_steps done i j d rest w e =
      ap (λ k. matching_loop k (pos (suc d)) rest) (omega arith)
  matching_loop-show_steps (member name steps) i j d rest w e =
      rw (append_assoc name (show_steps steps) rest) (
        matching_loop-plain (i + 1) (i + 1 + length name) (pos (suc d)) name
          (show_steps steps ++ rest) w.0 refl
        ∙ matching_loop-show_steps steps (i + 1 + length name) j d rest w.1
            (omega (arith, length-append name (show_steps steps))))
  matching_loop-show_steps (index a steps) i j d rest w e =
      rw (append_assoc (show a) (rbrack ∷ show_steps steps) rest) (
        matching_loop-show a (i + 1) (i + 1 + length (show a)) (suc d)
          (rbrack ∷ (show_steps steps ++ rest)) w.0 refl
        ∙ matching_loop-show_steps steps (i + 1 + length (show a) + 1) j d rest w.1
            (omega (arith, length-append (show a) (rbrack ∷ show_steps steps))))

-- The bracket that an index opens is closed behind the text of the index.
pub find_matching_bracket-show :
    (a : Access) (rest : Text)
    → IsWritten a
    → find_matching_bracket (lbrack ∷ (show a ++ rbrack ∷ rest)) 0 ≡ ok (1 + length (show a))
unfolding find_matching_bracket matching_loop
find_matching_bracket-show a rest w =
    matching_loop-show a 1 (1 + length (show a)) 0 (rbrack ∷ rest) w refl
