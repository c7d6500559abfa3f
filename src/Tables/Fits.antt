-- ===== src/Tables/Fits.antt =====
-- Whether a column holds every value of its integer type.
use contract_abstract.Prelude.{
  ℕ, zero, suc, ◌+◌, ◌-◌, ◌%◌, ◌^◌, ◌≤◌, ◌<◌, ◌≡◌, ◌≢◌, ◌↔◌, inl, inr, sym, subst, Bool, true,
  false, Bool-cases, some, leb, leb→le, arith,
}
use contract_abstract.Prelude.Int.{ℤ, pos, negsuc}
use native.Mathlib.Nat.{pow-succ', one-le-pow, pow-le-pow_left, pow-le-pow_right}
use contract_abstract.Tables.Columns.{
  SqlType, smallint, integer, bigint, boolean, text, numeric, varchar, ceil_log10, bits_to_numeric,
  int_column,
}

-- the numbers from -n to n - 1
abbrev pub IsSigned : ℕ → ℤ → Type 0
IsSigned n (pos v) = v < n
IsSigned n (negsuc v) = v < n

-- what PostgreSQL stores in a column
abbrev pub Holds : SqlType → ℤ → Type 0
Holds smallint v = IsSigned (2 ^ 15) v
Holds integer v = IsSigned (2 ^ 31) v
Holds bigint v = IsSigned (2 ^ 63) v
Holds (numeric m) (pos v) = v < 10 ^ m
Holds (numeric m) (negsuc v) = v + 1 < 10 ^ m
Holds boolean v = ⊥
Holds text v = ⊥
Holds (varchar n) v = ⊥

-- the values of uintN and intN
abbrev pub IsOfSize : ℕ → Bool → ℤ → Type 0
IsOfSize size true v = IsSigned (2 ^ (size - 1)) v
IsOfSize size false (pos v) = v < 2 ^ size
IsOfSize size false (negsuc v) = ⊥

ceil_log10-bound : (fuel n m : ℕ) → 2 ^ n ≤ 10 ^ (m + fuel) → 2 ^ n ≤ 10 ^ ceil_log10 fuel n m
unfolding ceil_log10
ceil_log10-bound zero n m h = let e : m + 0 ≡ m = omega arith in subst (λ k. 2 ^ n ≤ 10 ^ k) e h
ceil_log10-bound (suc fuel) n m h = elim (Bool-cases (leb (2 ^ n) (10 ^ m))) [
  | inl t ↦ rw t (leb→le (2 ^ n) (10 ^ m) t)
  | inr f ↦
      let e : m + suc fuel ≡ m + 1 + fuel = omega arith in
      rw f (ceil_log10-bound fuel n (m + 1) (subst (λ k. 2 ^ n ≤ 10 ^ k) e h))
]

digits-bound : (n : ℕ) → 2 ^ n ≤ 10 ^ ceil_log10 n n 0
digits-bound n =
    let e : 0 + n ≡ n = omega arith in
    ceil_log10-bound n n 0 (subst (λ k. 2 ^ n ≤ 10 ^ k) (sym e) (pow-le-pow_left (omega arith) n))

-- No power of two but 1 is a power of ten.
two_pow_mod : (n : ℕ) → 2 ^ n % 5 ≢ 0
two_pow_mod zero e = omega arith
two_pow_mod (suc n) e = two_pow_mod n (omega (arith, pow-succ' 2 n))

ten_pow_mod : (m : ℕ) → 10 ^ suc m % 5 ≡ 0
ten_pow_mod m = omega (arith, pow-succ' 10 m)

two_pow_ne_ten_pow : (n m : ℕ) → 1 ≤ n → 2 ^ n ≢ 10 ^ m
two_pow_ne_ten_pow zero zero h e = omega arith
two_pow_ne_ten_pow (suc n) zero h e = omega (arith, e, pow-succ' 2 n)
two_pow_ne_ten_pow n (suc m) h e = two_pow_mod n (omega (arith, e, ten_pow_mod m))

IsSigned-le : (a b : ℕ) (v : ℤ) → a ≤ b → IsSigned a v → IsSigned b v
IsSigned-le a b (pos v) h r = omega arith
IsSigned-le a b (negsuc v) h r = omega arith

-- the sizes for which the column is wide enough
abbrev pub IsStored : ℕ → Bool → Type 0
IsStored size true = Unit
IsStored size false = (size ≢ 16) × ((size ≢ 32) × (size ≢ 64))

two_pow_le : (i j : ℕ) → i ≤ j → 2 ^ i ≤ 2 ^ j
two_pow_le i j h = pow-le-pow_right (omega arith) h

signed-numeric :
    (size : ℕ) (v : ℤ)
    → 2 ≤ size
    → IsSigned (2 ^ (size - 1)) v
    → Holds (numeric (bits_to_numeric size true)) v
unfolding bits_to_numeric
signed-numeric size (pos v) h r = omega (arith, digits-bound (size - 1))
signed-numeric size (negsuc v) h r =
    let n = size - 1 in
    omega (arith, digits-bound n, two_pow_ne_ten_pow n (ceil_log10 n n 0) (omega arith))

signed-Holds : (size : ℕ) (v : ℤ) → IsOfSize size true v → Holds (int_column (some size) true) v
unfolding int_column
signed-Holds size v r = elim (Bool-cases (leb size 16)) [
  | inl a ↦
      rw a
        (IsSigned-le (2 ^ (size - 1)) (2 ^ 15) v (two_pow_le (size - 1) 15 (ground (arith, a))) r)
  | inr a ↦ elim (Bool-cases (leb size 32)) [
    | inl b ↦
        rw (a, b)
          (IsSigned-le (2 ^ (size - 1)) (2 ^ 31) v (two_pow_le (size - 1) 31 (ground (arith, b))) r)
    | inr b ↦ elim (Bool-cases (leb size 64)) [
      | inl c ↦
          rw (a, b, c)
            (IsSigned-le (2 ^ (size - 1)) (2 ^ 63) v (two_pow_le (size - 1) 63 (ground (arith, c)))
              r)
      | inr c ↦ rw (a, b, c) (signed-numeric size v (ground (arith, c)) r)
    ]
  ]
]

unsigned-Holds :
    (size v : ℕ) → IsStored size false → v < 2 ^ size → Holds (int_column (some size) false) (pos v)
unfolding int_column bits_to_numeric
unsigned-Holds size v (x, (y, z)) r = elim (Bool-cases (leb size 16)) [
  | inl a ↦ rw a (omega (arith, two_pow_le size 15 (ground (arith, a))))
  | inr a ↦ elim (Bool-cases (leb size 32)) [
    | inl b ↦ rw (a, b) (omega (arith, two_pow_le size 31 (ground (arith, a, b))))
    | inr b ↦ elim (Bool-cases (leb size 64)) [
      | inl c ↦ rw (a, b, c) (omega (arith, two_pow_le size 63 (ground (arith, b, c))))
      | inr c ↦ rw (a, b, c) (omega (arith, digits-bound size))
    ]
  ]
]

-- The column of a signed integer type holds every value of the type, and so does that of an unsigned one
-- of another size than 16, 32 and 64.
pub int_column-Holds :
    (size : ℕ) (signed : Bool) (v : ℤ)
    → IsStored size signed
    → IsOfSize size signed v
    → Holds (int_column (some size) signed) v
int_column-Holds size true v s r = signed-Holds size v r
int_column-Holds size false (pos v) s r = unsigned-Holds size v s r
int_column-Holds size false (negsuc v) s r = elim r [ ]

overflow_16 : Holds (int_column (some 16) false) (pos (2 ^ 16 - 1)) → ⊥
unfolding int_column
overflow_16 h = omega arith

overflow_32 : Holds (int_column (some 32) false) (pos (2 ^ 32 - 1)) → ⊥
unfolding int_column
overflow_32 h = omega arith

overflow_64 : Holds (int_column (some 64) false) (pos (2 ^ 64 - 1)) → ⊥
unfolding int_column
overflow_64 h = omega arith

-- The column of an unsigned integer type holds the greatest value of the type just when the size is not
-- 16, 32 or 64.
pub int_column-greatest :
    (size : ℕ) → Holds (int_column (some size) false) (pos (2 ^ size - 1)) ↔ IsStored size false
int_column-greatest size =
    let greatest : ℕ → Type 0 = λ s. Holds (int_column (some s) false) (pos (2 ^ s - 1)) in
    (
      λ h. (
        λ e. overflow_16 (subst greatest e h),
        (λ e. overflow_32 (subst greatest e h), λ e. overflow_64 (subst greatest e h)),
      ),
      λ s. unsigned-Holds size (2 ^ size - 1) s (omega (arith, one-le-pow size 2 (omega arith))),
    )
