-- ===== src/Layout/Disjoint.antt =====
-- The variables of a contract do not overlap in storage.
use contract_abstract.Prelude.{
  ℕ, zero, suc, ◌+◌, ◌*◌, ◌≤◌, ◌<◌, ◌≡◌, refl, inl, inr, Text, true, false, some, List, [], ◌∷◌,
  arith, get_elem?, Option-cases,
}
use contract_abstract.Layout.Types.{SolType, Size, Place, storage_size, align, advance}
use contract_abstract.Layout.Contract.{Variable, Places, layout_from, compute_storage_layout}

-- the first byte of a place, counted from the first byte of slot 0
abbrev pub address : Place → ℕ
address p = 32 * p.slot + p.offset

-- A type that shares slots fits into one.
abbrev pub Fits : SolType → Type 0
Fits t = (s : Size) → storage_size t ≡ some s → s.new_slot ≡ false → s.bytes ≤ 32

abbrev pub AllFit : List Variable → Type 0
AllFit [] = Unit
AllFit ((name, t) ∷ rest) = Fits t × AllFit rest

-- A variable begins a slot, or lies inside one.
abbrev pub IsInside : Place → Size → Type 0
IsInside p s = (s.new_slot ≡ true → p.offset ≡ 0) × (s.new_slot ≡ false → p.offset + s.bytes ≤ 32)

module _ (p : Place) (s : Size) (small : s.new_slot ≡ false → s.bytes ≤ 32)
    (h : p.offset ≤ 32) where
  address-align : address p ≤ address (align p s)
  unfolding align
  address-align = ground arith

  align-IsInside : IsInside (align p s) s
  unfolding align
  align-IsInside = (λ e. ground arith, λ e. ground arith)

  address-advance : address (align p s) + s.bytes ≤ address (advance (align p s) s)
  unfolding align advance
  address-advance = ground arith

  offset-advance : (advance (align p s) s).offset ≤ 32
  unfolding align advance
  offset-advance = ground arith

layout_from-cons :
    (p : Place) (name : Text) (t : SolType) (rest : List Variable) (es : Places)
    → layout_from p ((name, t) ∷ rest) ≡ some es
    → (s : Size) × (places : Places) × (storage_size t ≡ some s)
      × (layout_from (advance (align p s) s) rest ≡ some places)
      × (es ≡ (name, align p s) ∷ places)
unfolding layout_from
layout_from-cons p name t rest es h = elim (Option-cases (storage_size t)) [
  | inl e ↦ absurd (cc)
  | inr (s, e) ↦ elim (Option-cases (layout_from (advance (align p s) s) rest)) [
    | inl e₁ ↦ ground arith
    | inr (places, e₁) ↦ (s, places, e, e₁, ground arith)
  ]
]

-- Each variable lies behind the place where the layout begins, whole in a slot if it shares it.
layout_from-get :
    (vars : List Variable) (es : Places) (p : Place)
    → p.offset ≤ 32
    → AllFit vars
    → layout_from p vars ≡ some es
    → (j : ℕ) (v : Variable) (e : Text × Place) (s : Size) → get_elem? vars j ≡ some v
    → get_elem? es j ≡ some e
    → storage_size v.1 ≡ some s
    → (e.0 ≡ v.0) × (address p ≤ address e.1) × IsInside e.1 s
layout_from-get [] es p o f h j v e s gv ge sz = cc
layout_from-get ((name, t) ∷ rest) es p o f h zero v e s gv ge sz =
    let (s₀, places, size, tail, whole) = layout_from-cons p name t rest es h in
    let same_v : (name, t) ≡ v = cc in
    let same_e : (name, align p s₀) ≡ e = cc (whole) in
    let same_s : s₀ ≡ s = cc in
    rw (← same_v, ← same_e, ← same_s)
      (refl, address-align p s₀ (f.0 s₀ size) o, align-IsInside p s₀ (f.0 s₀ size) o)
layout_from-get ((name, t) ∷ rest) es p o f h (suc j) v e s gv ge sz =
    let (s₀, places, size, tail, whole) = layout_from-cons p name t rest es h in
    let small = f.0 s₀ size in
    let later =
      layout_from-get rest places (advance (align p s₀) s₀) (offset-advance p s₀ small o) f.1 tail j
        v e s gv (rw whole at ge) sz in
    let grows = address-align p s₀ small o in
    let passes = address-advance p s₀ small o in (later.0, omega arith, later.2)

layout_from-pair :
    (vars : List Variable) (es : Places) (p : Place)
    → p.offset ≤ 32
    → AllFit vars
    → layout_from p vars ≡ some es
    → (i j : ℕ) (v w : Variable) (d e : Text × Place) (s t : Size) → i < j
    → get_elem? vars i ≡ some v
    → get_elem? vars j ≡ some w
    → get_elem? es i ≡ some d
    → get_elem? es j ≡ some e
    → storage_size v.1 ≡ some s
    → storage_size w.1 ≡ some t
    → address d.1 + s.bytes ≤ address e.1
layout_from-pair [] es p o f h i j v w d e s t l gv gw gd ge zs zt = cc
layout_from-pair (x ∷ rest) es p o f h i zero v w d e s t l gv gw gd ge zs zt = absurd (omega arith)
layout_from-pair ((name, ty) ∷ rest) es p o f h zero (suc j) v w d e s t l gv gw gd ge zs zt =
    let (s₀, places, size, tail, whole) = layout_from-cons p name ty rest es h in
    let small = f.0 s₀ size in
    let same_v : (name, ty) ≡ v = cc in
    let same_d : (name, align p s₀) ≡ d = cc (whole) in
    let same_s : s₀ ≡ s = cc in
    let later =
      layout_from-get rest places (advance (align p s₀) s₀) (offset-advance p s₀ small o) f.1 tail j
        w e t gw (rw whole at ge) zt in
    let passes = address-advance p s₀ small o in rw (← same_d, ← same_s) (omega (arith, later.1))
layout_from-pair ((name, ty) ∷ rest) es p o f h (suc i) (suc j) v w d e s t l gv gw gd ge zs zt =
    let (s₀, places, size, tail, whole) = layout_from-cons p name ty rest es h in
    layout_from-pair rest places (advance (align p s₀) s₀) (offset-advance p s₀ (f.0 s₀ size) o) f.1
      tail i j v w d e s t (omega arith) gv gw (rw whole at gd) (rw whole at ge) zs zt

-- Of two variables of a contract, the one declared first lies before the other, byte for byte.
pub compute_storage_layout_disjoint :
    (vars : List Variable) (es : Places) (i j : ℕ) (v w : Variable) (d e : Text × Place)
    (s t : Size)
    → AllFit vars
    → compute_storage_layout vars ≡ some es
    → i < j
    → get_elem? vars i ≡ some v
    → get_elem? vars j ≡ some w
    → get_elem? es i ≡ some d
    → get_elem? es j ≡ some e
    → storage_size v.1 ≡ some s
    → storage_size w.1 ≡ some t
    → address d.1 + s.bytes ≤ address e.1
unfolding compute_storage_layout
compute_storage_layout_disjoint vars es i j v w d e s t f h =
    layout_from-pair vars es (record { slot = 0; offset = 0 }) (omega arith) f h i j v w d e s t

-- A variable is placed under its own name; it begins a slot if its type wants that, and otherwise
-- lies whole inside one slot of 32 bytes.
pub compute_storage_layout-IsInside :
    (vars : List Variable) (es : Places) (i : ℕ) (v : Variable) (d : Text × Place) (s : Size)
    → AllFit vars
    → compute_storage_layout vars ≡ some es
    → get_elem? vars i ≡ some v
    → get_elem? es i ≡ some d
    → storage_size v.1 ≡ some s
    → (d.0 ≡ v.0) × IsInside d.1 s
unfolding compute_storage_layout
compute_storage_layout-IsInside vars es i v d s f h gv gd sz =
    let found =
      layout_from-get vars es (record { slot = 0; offset = 0 }) (omega arith) f h i v d s gv gd
        sz in
    (found.0, found.2)
