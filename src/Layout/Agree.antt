-- ===== src/Layout/Agree.antt =====
-- Where a structure's fields lie by the manifest (`Entity.get_slot_info_for_structure`) and by
-- Slither's own storage layout.
use contract_abstract.Prelude.{
  ℕ, ◌+◌, ◌*◌, ◌/◌, ◌≤◌, ◌≡◌, ◌≢◌, refl, Text, text_eq, text_eq_iff, true, false, Option, none,
  some, List, [], ◌∷◌, arith, if◌then◌else◌,
}
use contract_abstract.Layout.Types.{
  SolType, Elems, Size, Place, elementary, array, mapping, contract, enumeration, structure,
  function, no_elems, elem, storage_size, elementary_storage_size, align, advance, walk_elems,
  slots_of, whole_slots, ◌>>=◌,
}
use contract_abstract.Layout.Contract.{
  Variable, Places, layout_from, compute_storage_layout, storage_layout_of,
}
use contract_abstract.Layout.Meta.{
  Meta, Fields, simple, struct, map, no_fields, field, get_type_structure, get_fields,
}
use contract_abstract.Layout.Struct.{Found, at_new_slot, walk_fields, get_slot_info_for_structure}

-- the fields of a structure as variables of Slither's layout
abbrev pub members : Elems → List Variable
members no_elems = []
members (elem name t rest) = (name, t) ∷ members rest

abbrev pub origin : Place
origin = record { slot = 0; offset = 0 }

-- a type that takes 32 bytes from the beginning of a slot
abbrev pub one_slot : Size
one_slot = record { bytes = 32; new_slot = true }

abbrev pub step : Place → Size → Place
step p s = advance (align p s) s

abbrev pub AllNamed : Elems → Type 0
AllNamed no_elems = Unit
AllNamed (elem name t rest) = (name ≢ []) × AllNamed rest

-- The fields, from place `p` on, are value types of at most 32 bytes, and mappings and structures
-- that happen to begin where a slot begins.
abbrev pub IsAligned : Place → Elems → Type 0
IsAligned p no_elems = Unit
IsAligned p (elem name (elementary t) rest) =
    (s : Size) × (elementary_storage_size t ≡ some s)
    × (s.new_slot ≡ false)
    × (s.bytes ≤ 32)
    × IsAligned (step p s) rest
IsAligned p (elem name (mapping k v) rest) =
    (kv : Meta × Meta) × (get_type_structure k ≡ some kv.0)
    × (get_type_structure v ≡ some kv.1)
    × (p.offset ≡ 0)
    × IsAligned (step p one_slot) rest
IsAligned p (elem name (structure n inner) rest) =
    (q : Place) × (walk_elems origin inner ≡ some q)
    × (p.offset ≡ 0)
    × AllNamed inner
    × IsAligned origin inner
    × IsAligned (step p (record { bytes = whole_slots q * 32; new_slot = true })) rest
IsAligned p (elem name _ rest) = ⊥

-- the place of a field that was found, with its offset in bytes
abbrev pub place_of : Found → Option Place
place_of f = elim f.index [
  | none ↦ none
  | some i ↦ some (record { slot = f.slot; offset = f.offset / 8 })
]

-- both sides succeed and agree, on every name
record Agrees (p : Place) (elems : Elems) : Type 0 where
  fields : Fields
  places : Places
  last : Place
  by_entity : get_fields elems ≡ some fields
  by_layout : layout_from p (members elems) ≡ some places
  by_size : walk_elems p elems ≡ some last
  same_place :
      (name : Text) (i : ℕ)
      → place_of (walk_fields name p.slot (8 * p.offset) i fields) ≡ storage_layout_of name places
  same_size :
      AllNamed elems
      → (i : ℕ)
      → walk_fields [] p.slot (8 * p.offset) i fields ≡ at_new_slot last.slot (8 * last.offset) none

-- One round of the walk, at the place where Slither's layout stands.
abbrev IsStep : Place → Size → Text → Meta → Type 0
IsStep p s name meta =
    (n : Text) (i : ℕ) (rest : Fields)
    → walk_fields n p.slot (8 * p.offset) i (field name meta rest) ≡ (
        if text_eq name n
        then record { slot = (align p s).slot; offset = 8 * (align p s).offset; index = some i }
        else walk_fields n (step p s).slot (8 * (step p s).offset) (i + 1) rest)

simple-IsStep :
    (p : Place) (name t : Text) (s : Size)
    → s.new_slot ≡ false
    → s.bytes ≤ 32
    → IsStep p s name (simple t s.bytes)
unfolding walk_fields align advance
simple-IsStep p name t s packed small n i rest = ground arith

map-IsStep :
    (p : Place) (name : Text) (k v : Meta) → p.offset ≡ 0 → IsStep p one_slot name (map k v)
unfolding walk_fields align advance
map-IsStep p name k v e n i rest = ground arith

slots_of-mul : (w : ℕ) → slots_of (w * 32) ≡ w
slots_of-mul w = omega arith

walk_fields-struct :
    (n : Text) (slot offset i : ℕ) (name m : Text) (inner rest : Fields)
    → walk_fields n slot offset i (field name (struct m inner) rest) ≡ (
        if text_eq name n
        then at_new_slot slot offset (some i)
        else walk_fields n (slot + (walk_fields [] 0 0 0 inner).slot) 0 (i + 1) rest)
unfolding walk_fields
walk_fields-struct n slot offset i name m inner rest = refl

struct-IsStep :
    (p q : Place) (name m : Text) (inner : Fields)
    → p.offset ≡ 0
    → walk_fields [] 0 0 0 inner ≡ at_new_slot q.slot (8 * q.offset) none
    → IsStep p (record { bytes = whole_slots q * 32; new_slot = true }) name (struct m inner)
unfolding align advance
struct-IsStep p q name m inner e size n i rest =
    rw (walk_fields-struct n p.slot (8 * p.offset) i name m inner rest, size)
      (ground (arith, slots_of-mul (whole_slots q)))

Agrees-cons :
    (p : Place) (name : Text) (t : SolType) (rest : Elems) (s : Size) (m : Meta)
    → storage_size t ≡ some s
    → get_type_structure t ≡ some m
    → IsStep p s name m
    → Agrees (step p s) rest
    → Agrees p (elem name t rest)
unfolding layout_from storage_layout_of
Agrees-cons p name t rest s m size meta one a = record {
  fields = field name m a.fields;
  places = (name, align p s) ∷ a.places;
  last = a.last;
  by_entity = unfold get_fields in rw (meta, a.by_entity);
  by_layout = rw (size, a.by_layout);
  by_size = unfold walk_elems in rw (size, a.by_size);
  same_place = λ n i. rw (one n i a.fields) (ground (arith, a.same_place n (i + 1)));
  same_size =
      λ h i. rw (one [] i a.fields) (ground (arith, a.same_size h.1 (i + 1), text_eq_iff name []));
}

storage_size-structure :
    (n : Text) (inner : Elems) (q : Place)
    → walk_elems origin inner ≡ some q
    → storage_size (structure n inner)
      ≡ some (record { bytes = whole_slots q * 32; new_slot = true })
unfolding storage_size
storage_size-structure n inner q e = rw e

get_type_structure-structure :
    (n : Text) (inner : Elems) (fs : Fields)
    → get_fields inner ≡ some fs
    → get_type_structure (structure n inner) ≡ some (struct n fs)
unfolding get_type_structure
get_type_structure-structure n inner fs e = rw e

Agrees-IsAligned : (elems : Elems) (p : Place) → IsAligned p elems → Agrees p elems
Agrees-IsAligned no_elems p h = record {
  fields = no_fields;
  places = [];
  last = p;
  by_entity = unfold get_fields in refl;
  by_layout = unfold layout_from in refl;
  by_size = unfold walk_elems in refl;
  same_place = λ n i. unfold walk_fields storage_layout_of in refl;
  same_size = λ h i. unfold walk_fields in refl;
}
Agrees-IsAligned (elem name (elementary t) rest) p (s, e, packed, small, h) =
    Agrees-cons p name (elementary t) rest s (simple t s.bytes) (unfold storage_size in e)
      (unfold get_type_structure in rw e) (simple-IsStep p name t s packed small)
      (Agrees-IsAligned rest (step p s) h)
Agrees-IsAligned (elem name (mapping k v) rest) p ((mk, mv), ek, ev, e, h) =
    Agrees-cons p name (mapping k v) rest one_slot (map mk mv) (unfold storage_size in refl)
      (unfold get_type_structure in rw (ek, ev)) (map-IsStep p name mk mv e)
      (Agrees-IsAligned rest (step p one_slot) h)
Agrees-IsAligned (elem name (structure n inner) rest) p (q, eq, e, named, hi, h) =
    let a = Agrees-IsAligned inner origin hi in
    let last : a.last ≡ q = cc (a.by_size) in
    let size : walk_fields [] 0 0 0 a.fields ≡ at_new_slot q.slot (8 * q.offset) none =
      rw last at (a.same_size named 0) in
    let whole : Size = record { bytes = whole_slots q * 32; new_slot = true } in
    Agrees-cons p name (structure n inner) rest whole (struct n a.fields)
      (storage_size-structure n inner q eq)
      (get_type_structure-structure n inner a.fields a.by_entity)
      (struct-IsStep p q name n a.fields e size) (Agrees-IsAligned rest (step p whole) h)
Agrees-IsAligned (elem name (array t o) rest) p h = elim h [ ]
Agrees-IsAligned (elem name contract rest) p h = elim h [ ]
Agrees-IsAligned (elem name (enumeration n) rest) p h = elim h [ ]
Agrees-IsAligned (elem name function rest) p h = elim h [ ]

-- The place that the manifest gives for a field of a structure, and the one that Slither gives for
-- a variable of that name when the fields are the variables of a contract.
abbrev pub entity_place : SolType → Text → Option Place
entity_place t name = do
  meta ← get_type_structure t
  found ← get_slot_info_for_structure meta name
  place_of found

abbrev pub layout_place : Elems → Text → Option Place
layout_place elems name = do
  places ← compute_storage_layout (members elems)
  storage_layout_of name places

-- In an aligned structure both layouts agree on every name: they find the same fields, at the same
-- slot and byte.
pub entity_place-IsAligned :
    (s : Text) (elems : Elems) (name : Text)
    → IsAligned origin elems
    → entity_place (structure s elems) name ≡ layout_place elems name
unfolding get_slot_info_for_structure compute_storage_layout
entity_place-IsAligned s elems name h =
    let a = Agrees-IsAligned elems origin h in
    rw (get_type_structure-structure s elems a.fields a.by_entity, a.by_layout)
      (a.same_place name 0)

-- So do their sizes: the structure takes the slots that the manifest counts.
pub storage_size-IsAligned :
    (s : Text) (elems : Elems)
    → AllNamed elems
    → IsAligned origin elems
    → (found : Found) × ((get_type_structure (structure s elems) >>= λ meta.
          get_slot_info_for_structure meta [])
        ≡ some found)
      × (storage_size (structure s elems)
          ≡ some (record { bytes = found.slot * 32; new_slot = true }))
unfolding get_slot_info_for_structure
storage_size-IsAligned s elems named h =
    let a = Agrees-IsAligned elems origin h in
    (
      walk_fields [] 0 0 0 a.fields,
      rw (get_type_structure-structure s elems a.fields a.by_entity),
      rw (storage_size-structure s elems a.last a.by_size, a.same_size named 0) (ground arith),
    )
