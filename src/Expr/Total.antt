-- ===== src/Expr/Total.antt =====
-- The parser stops on every text: each call is on a shorter text, so the length is fuel enough.
use contract_abstract.Prelude.{
  ℕ, zero, suc, ◌+◌, ◌-◌, ◌<◌, ◌≤◌, ◌≡◌, ◌≢◌, inl, inr, refl, Text, false, ◌||◌, [], ◌∷◌, arith,
  length, drop, slice, length-drop, length-take, ◌==◌, Bool-cases,
}
use contract_abstract.Prelude.Int.{ℤ, pos, incr, decr}
use contract_abstract.Expr.Syntax.{Name, Child, Result, ok, err, out_of_fuel, ◌>>=◌}
use contract_abstract.Expr.Scan.{
  Elem, dot, lbrack, next_elem_loop, find_next_elem, matching_loop, find_matching_bracket,
}
use contract_abstract.Expr.Parse.{attach, collapse, parse_fuel, parse_internal_fuel, parse_expr}

le-next_elem_loop : (i : ℕ) (s : Text) → i ≤ (next_elem_loop i s).start
unfolding next_elem_loop
le-next_elem_loop i [] = omega arith
le-next_elem_loop i (c ∷ cs) = ground (arith, le-next_elem_loop (i + 1) cs)

-- The next element does not begin before the position where the search starts.
le-find_next_elem : (s : Text) (i : ℕ) → i ≤ length s → i ≤ (find_next_elem s i).start
unfolding find_next_elem
le-find_next_elem s i h = ground (arith, le-next_elem_loop i (drop i s))

matching_loop-lt :
    (i j : ℕ) (d : ℤ) (s : Text) → matching_loop i d s ≡ ok j → (i ≤ j) × (j < i + length s)
unfolding matching_loop
matching_loop-lt i j d [] h = cc
matching_loop-lt i j d (c ∷ cs) h = ground (
  arith,
  matching_loop-lt (i + 1) j (incr d) cs,
  matching_loop-lt (i + 1) j (decr d) cs,
  matching_loop-lt (i + 1) j d cs,
)

matching_loop-ne : (i : ℕ) (d : ℤ) (s : Text) → matching_loop i d s ≢ out_of_fuel
unfolding matching_loop
matching_loop-ne i d [] h = cc
matching_loop-ne i d (c ∷ cs) h = ground (
  arith,
  matching_loop-ne (i + 1) (incr d) cs,
  matching_loop-ne (i + 1) (decr d) cs,
  matching_loop-ne (i + 1) d cs,
)

attach-ne :
    (name : Name) (e : Elem) (rest : Result Child)
    → rest ≢ out_of_fuel
    → attach name e rest ≢ out_of_fuel
unfolding attach
attach-ne name e rest h = ground arith

find_next_elem-empty :
    (find_next_elem [] 0) ≡ record { is_brack = false; is_dot = false; start = 0 }
unfolding find_next_elem
find_next_elem-empty = refl

-- a bracketed or dotted text has its first element behind position 0
le-start :
    (c : ℕ) (cs : Text)
    → (c == dot) ≡ false
    → (c == lbrack) ≡ false
    → 1 ≤ (find_next_elem (c ∷ cs) 0).start
unfolding find_next_elem next_elem_loop
le-start c cs p q = ground (arith, le-next_elem_loop 1 cs)

bind-ne {ℓ κ} :
    {A : Type ℓ} {B : Type κ} (m : Result A) (g : A → Result B)
    → m ≢ out_of_fuel
    → ((a : A) → m ≡ ok a → g a ≢ out_of_fuel)
    → (m >>= g) ≢ out_of_fuel
bind-ne (ok a) g h k = k a refl
bind-ne (err e) g h k = λ p. cc
bind-ne out_of_fuel g h k = absurd (h refl)

parse_fuel-empty : (f : ℕ) → parse_fuel (suc f) [] ≢ out_of_fuel
unfolding parse_fuel attach
parse_fuel-empty f = rw find_next_elem-empty (λ e. cc)

parse_internal_fuel-empty : (f : ℕ) → parse_internal_fuel (suc f) [] ≢ out_of_fuel
unfolding parse_fuel
parse_internal_fuel-empty f = λ e. cc

-- All texts shorter than `n` are parsed with fuel `f`.
record Enough (f n : ℕ) : Type 0 where
  outer : (s : Text) → length s < n → parse_fuel f s ≢ out_of_fuel
  inner : (s : Text) → length s < n → parse_internal_fuel f s ≢ out_of_fuel

-- One call more, on a text that is not longer than `n`.
module _ (f : ℕ) (c : ℕ) (cs : Text) (h : Enough f (length (c ∷ cs))) where
  shorter : (i : ℕ) → 1 ≤ i → parse_internal_fuel f (drop i (c ∷ cs)) ≢ out_of_fuel
  shorter i e = h.inner (drop i (c ∷ cs)) (omega (arith, length-drop i (c ∷ cs)))

  parse_fuel-step : parse_fuel (suc f) (c ∷ cs) ≢ out_of_fuel
  unfolding parse_fuel
  parse_fuel-step = elim (Bool-cases (c == dot || c == lbrack)) [
    | inl bad ↦ rw bad (λ e. cc)
    | inr good ↦ rw good (attach-ne _ _ _ (shorter _ (le-start c cs (ground arith) (ground arith))))
  ]

  bracket-step :
      (j : ℕ)
      → j < length (c ∷ cs)
      → (parse_fuel f (slice 1 j (c ∷ cs)) >>= λ name_entity.
          let e₁ = find_next_elem (c ∷ cs) (j + 1) in
          attach (collapse name_entity) e₁ (parse_internal_fuel f (drop e₁.start (c ∷ cs))))
        ≢ out_of_fuel
  bracket-step j k = bind-ne _ _ (h.outer _ (omega (arith, length-take (j - 1) cs))) λ e _.
      attach-ne _ _ _ (shorter _ (omega (arith, le-find_next_elem (c ∷ cs) (j + 1) (omega arith))))

  bracket-ne : find_matching_bracket (c ∷ cs) 0 ≢ out_of_fuel
  unfolding find_matching_bracket
  bracket-ne = matching_loop-ne 0 (pos 0) (c ∷ cs)

  bracket-lt : (j : ℕ) → find_matching_bracket (c ∷ cs) 0 ≡ ok j → j < length (c ∷ cs)
  unfolding find_matching_bracket
  bracket-lt j e = omega (arith, matching_loop-lt 0 j (pos 0) (c ∷ cs) e)

  parse_internal_fuel-step : parse_internal_fuel (suc f) (c ∷ cs) ≢ out_of_fuel
  unfolding parse_fuel
  parse_internal_fuel-step = elim (Bool-cases (c == dot)) [
    | inl d ↦ rw d (
        bind-ne _ _ (attach-ne _ _ _ (shorter _ (le-find_next_elem (c ∷ cs) 1 (omega arith))))
          λ e _ p. cc)
    | inr d ↦ elim (Bool-cases (c == lbrack)) [
      | inl b ↦
          rw (d, b)
            (bind-ne _ _ (bind-ne _ _ (bracket-ne) (λ j e. bracket-step j (bracket-lt j e)))
              λ e _ p. cc)
      | inr b ↦ rw (d, b) (λ e. cc)
    ]
  ]

Enough-suc :
    (f : ℕ)
    → ((n : ℕ) → n ≤ f → Enough f n)
    → (s : Text) → length s ≤ f
    → (parse_fuel (suc f) s ≢ out_of_fuel) × (parse_internal_fuel (suc f) s ≢ out_of_fuel)
Enough-suc f rec [] p = (parse_fuel-empty f, parse_internal_fuel-empty f)
Enough-suc f rec (c ∷ cs) p = (
  parse_fuel-step f c cs (rec (length (c ∷ cs)) p),
  parse_internal_fuel-step f c cs (rec (length (c ∷ cs)) p),
)

parse-Enough : (f n : ℕ) → n ≤ f → Enough f n
parse-Enough zero n h = record {
  outer = λ s p. absurd (omega arith);
  inner = λ s p. absurd (omega arith);
}
parse-Enough (suc f) n h =
    let step = Enough-suc f (parse-Enough f) in
    record { outer = λ s p. (step s (omega arith)).0; inner = λ s p. (step s (omega arith)).1 }

-- Parsing stops on every text: it returns dicts or raises, and the model never runs out of fuel.
pub parse_expr_total : (s : Text) → parse_expr s ≢ out_of_fuel
unfolding parse_expr
parse_expr_total s =
    (parse-Enough (length s + 1) (length s + 1) (omega arith)).outer s (omega arith)
