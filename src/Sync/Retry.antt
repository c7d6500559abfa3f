-- ===== src/Sync/Retry.antt =====
-- How long `connect_db` tries.
use contract_abstract.Prelude.{
  ℕ, zero, suc, ◌+◌, ◌-◌, ◌*◌, ◌≡◌, sym, subst, ◌≤◌, ◌<◌, ◌≢◌, ◌⊎◌, inl, inr, refl, Text, codes,
  text_eq, Bool, true, false, ◌&&◌, Option, none, some, List, [], ◌∷◌, ltb, if◌then◌else◌, length,
  arith,
}
use contract_abstract.Sync.Etherscan.{lower, contains}
use contract_abstract.Sync.Connect.{
  connected, raised, waiting, fell_through, Connecting, ends, after_trying, after_sleeping,
  connect_lowercase, on_error, max_retries, connect_from, connect_db,
}

abbrev pub total : List ℕ → ℕ
total [] = 0
total (n ∷ ns) = n + total ns

-- all waits of `left` rounds, the first one `delay`
abbrev waits : ℕ → ℕ → ℕ
waits zero delay = 0
waits (suc zero) delay = 0
waits (suc (suc left)) delay = delay + waits (suc left) (delay * 2)

-- The name is the configured one, or that in small letters and then there is a connection under it.
abbrev pub HasName : Text → Connecting → Type 0
HasName name r = (r.database ≡ name) ⊎ ((r.database ≡ lower name) × (r.connection ≡ connected))

abbrev pub Ended : ℕ → ℕ → Text → List (Option Text) → Connecting → Type 0
Ended tries seconds name answers r =
    (length r.tried ≤ tries)
    × ((total r.slept ≤ seconds)
        × ((r.connection ≢ fell_through)
            × ((r.connection ≡ waiting → length answers < tries) × HasName name r)))

lowercase-Ended :
    (tries seconds : ℕ) (name : Text) (answers : List (Option Text))
    → 1 ≤ tries
    → Ended tries seconds name answers (connect_lowercase name answers)
unfolding connect_lowercase
lowercase-Ended tries seconds name [] h =
    (omega arith, (omega arith, ((λ e. cc e), ((λ e. omega arith), inl refl))))
lowercase-Ended tries seconds name (none ∷ answers) h =
    (omega arith, (omega arith, ((λ e. cc e), ((λ e. cc e), inr (refl, refl)))))
lowercase-Ended tries seconds name (some message ∷ answers) h =
    (omega arith, (omega arith, ((λ e. cc e), ((λ e. cc e), inl refl))))

raised-Ended :
    (tries seconds : ℕ) (name : Text) (answers : List (Option Text))
    → Ended tries seconds name answers (ends name raised)
raised-Ended tries seconds name answers =
    (omega arith, (omega arith, ((λ e. cc e), ((λ e. cc e), inl refl))))

Ended-trying :
    (tries seconds : ℕ) (name : Text) (message : Option Text) (answers : List (Option Text))
    (r : Connecting)
    → Ended tries seconds name answers r
    → Ended (suc tries) seconds name (message ∷ answers) (after_trying name r)
Ended-trying tries seconds name message answers r (a, (b, (c, (d, e)))) =
    (omega (arith, a), (b, (c, ((λ w. omega (arith, d w)), e))))

if-both {ℓ κ} :
    {A : Type ℓ} (P : A → Type κ) (b : Bool) (x y : A)
    → (b ≡ true → P x)
    → (b ≡ false → P y)
    → P (if b then x else y)
if-both P true x y f g = f refl
if-both P false x y f g = g refl

on_error-both {ℓ} :
    (P : Connecting → Type ℓ) (name error_msg : Text) (more : Bool) (lowercase again : Connecting)
    → P (ends name raised)
    → P lowercase
    → (more ≡ true → P again)
    → P (on_error name error_msg more lowercase again)
unfolding on_error
on_error-both P name error_msg more lowercase again over small next =
    let missing =
      contains (codes "database") error_msg && contains (codes "does not exist") error_msg in
    let authentication = contains (codes "authentication failed") error_msg in
    let refused = contains (codes "connection refused") error_msg in
    let last = if more then again else ends name raised in
    let third = if refused then ends name raised else last in
    let second = if authentication then ends name raised else third in
    let first = if text_eq name (lower name) then ends name raised else lowercase in
    if-both P missing first second
      (λ _.
        if-both P (text_eq name (lower name)) (ends name raised) lowercase (λ _. over) (λ _. small))
      (λ _.
        if-both P authentication (ends name raised) third (λ _. over)
          (λ _.
            if-both P refused (ends name raised) last (λ _. over)
              (λ _. if-both P more again (ends name raised) next (λ _. over))))

waits-step : (left delay : ℕ) → 1 ≤ left → waits (suc left) delay ≡ delay + waits left (delay * 2)
waits-step zero delay h = absurd (omega arith)
waits-step (suc left) delay h = refl

Ended-sleeping :
    (left delay : ℕ) (name : Text) (answers : List (Option Text)) (r : Connecting)
    → 1 ≤ left
    → Ended (left + 1) (waits left (delay * 2)) name answers r
    → Ended (left + 1) (waits (suc left) delay) name answers (after_sleeping delay r)
Ended-sleeping left delay name answers r h (a, (b, c)) =
    (a, (omega (arith, b, waits-step left delay h), c))

connect_from-Ended :
    (left delay : ℕ) (name : Text) (answers : List (Option Text))
    → 1 ≤ left
    → left ≤ 3
    → Ended (left + 1) (waits left delay) name answers (connect_from left delay name answers)
unfolding connect_from
connect_from-Ended zero delay name answers h k = absurd (omega arith)
connect_from-Ended (suc left) delay name [] h k =
    (omega arith, (omega arith, ((λ e. cc e), ((λ e. omega arith), inl refl))))
connect_from-Ended (suc left) delay name (none ∷ answers) h k =
    (omega arith, (omega arith, ((λ e. cc e), ((λ e. cc e), inl refl))))
connect_from-Ended (suc left) delay name (some message ∷ answers) h k =
    let over = raised-Ended (left + 1) (waits (suc left) delay) name answers in
    let small = lowercase-Ended (left + 1) (waits (suc left) delay) name answers (omega arith) in
    let again = connect_from left (delay * 2) name answers in
    let more = ltb (max_retries - suc left) (max_retries - 1) in
    let e : suc left + 1 ≡ suc (left + 1) = omega arith in
    let handled =
      on_error-both (Ended (left + 1) (waits (suc left) delay) name answers) name (lower message)
        more (connect_lowercase name answers) (after_sleeping delay again) over small
        (λ m.
          Ended-sleeping left delay name answers again (ground (arith, m))
            (connect_from-Ended left (delay * 2) name answers (ground (arith, m)) (omega arith))) in
    subst
      (λ n.
        Ended n (waits (suc left) delay) name (some message ∷ answers)
          (connect_from (suc left) delay name (some message ∷ answers)))
      (sym e)
      (Ended-trying (left + 1) (waits (suc left) delay) name (some message) answers
        (on_error name (lower message) more (connect_lowercase name answers)
          (after_sleeping delay again))
        handled)

-- However the database answers, `connect_db` makes at most four attempts and sleeps at most six seconds;
-- it ends, by a connection or an exception, when there are that many answers; and it changes the
-- configured name only to its small letters, with a connection under that name.
pub connect_db-Ended :
    (name : Text) (answers : List (Option Text)) → Ended 4 6 name answers (connect_db name answers)
unfolding connect_db
connect_db-Ended name answers = connect_from-Ended 3 2 name answers (omega arith) (omega arith)
