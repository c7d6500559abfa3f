-- ===== src/Layout/Examples.antt =====
-- Layouts of small contracts and structures, and the theorems at them.
use contract_abstract.Prelude.{
  Text, Option, none, ◌⊎◌, inl, inr, ℕ, ◌+◌, ◌≤◌, ◌≡◌, refl, codes, text_eq, ne_by_text_eq, false,
  some, List, [], ◌∷◌, arith,
}
use contract_abstract.Layout.Types.{
  SolType, Elems, Size, elementary, mapping, structure, no_elems, elem, storage_size,
  elementary_storage_size,
}
use contract_abstract.Layout.Contract.{Variable, Places, compute_storage_layout, storage_layout_of}
use contract_abstract.Layout.Meta.{Meta, simple, struct, map, field, no_fields, get_type_structure}
use contract_abstract.Prelude.Int.{ℤ}
use contract_abstract.Expr.Syntax.{Name, str, sub}
use contract_abstract.Expr.Scan.{find_next_elem, find_matching_bracket}
use contract_abstract.Expr.Parse.{parse_expr}
use contract_abstract.Layout.Slot.{StorageMeta, get_storage_slot_info, get_field_from_name}
use contract_abstract.Layout.Resolve.{get_field_from_name-get_storage_slot_info}
use contract_abstract.Layout.Disjoint.{address, AllFit, compute_storage_layout_disjoint}
use contract_abstract.Layout.Agree.{
  IsAligned, AllNamed, origin, entity_place, layout_place, entity_place-IsAligned,
}
use contract_abstract.Layout.Overlap.{map-overlaps}

abbrev uint128 : SolType
uint128 = elementary (codes "uint128")

abbrev balances : SolType
balances = mapping (elementary (codes "address")) (elementary (codes "uint256"))

-- uint128 a; address b; mapping(address => uint256) c;
abbrev variables : List Variable
variables =
    (codes "a", uint128) ∷ (codes "b", elementary (codes "address")) ∷ (codes "c", balances) ∷ []

abbrev places : Places
places =
    (codes "a", record { slot = 0; offset = 0 })
    ∷ (codes "b", record { slot = 1; offset = 0 })
    ∷ (codes "c", record { slot = 2; offset = 0 })
    ∷ []

layout-variables : compute_storage_layout variables ≡ some places
unfolding compute_storage_layout storage_size
layout-variables = refl

variables-AllFit : AllFit variables
unfolding storage_size
variables-AllFit = (λ s e p. ground arith, (λ s e p. ground arith, (λ s e p. cc, tt)))

abbrev size_of : ℕ → Size
size_of n = record { bytes = n; new_slot = false }

uint128-size : storage_size uint128 ≡ some (size_of 16)
unfolding storage_size
uint128-size = refl

address-size : storage_size (elementary (codes "address")) ≡ some (size_of 20)
unfolding storage_size
address-size = refl

compute_storage_layout_disjoint_example :
    address (record { slot = 0; offset = 0 }) + 16 ≤ address (record { slot = 1; offset = 0 })
compute_storage_layout_disjoint_example =
    compute_storage_layout_disjoint variables places 0 1 (codes "a", uint128)
      (codes "b", elementary (codes "address")) (codes "a", record { slot = 0; offset = 0 })
      (codes "b", record { slot = 1; offset = 0 }) (size_of 16) (size_of 20) variables-AllFit
      layout-variables (omega arith) refl refl refl refl uint128-size address-size

-- struct { mapping(address => uint256) c; uint128 a; uint128 b; address d; }
abbrev fields : Elems
fields = elem (codes "c") balances (
    elem (codes "a") uint128
      (elem (codes "b") uint128 (elem (codes "d") (elementary (codes "address")) no_elems)))

abbrev word : Meta
word = simple (codes "uint256") 32

abbrev owner : Meta
owner = simple (codes "address") 20

fields-IsAligned : IsAligned origin fields
unfolding storage_size get_type_structure
fields-IsAligned =
    let small : (size_of 16).bytes ≤ 32 = omega arith in
    let address_fits : (size_of 20).bytes ≤ 32 = omega arith in
    (
      (owner, word),
      refl,
      refl,
      refl,
      (
        size_of 16,
        refl,
        refl,
        small,
        (size_of 16, refl, refl, small, (size_of 20, refl, refl, address_fits, tt)),
      ),
    )

entity_place-IsAligned_example :
    entity_place (structure (codes "S") fields) (codes "b") ≡ layout_place fields (codes "b")
entity_place-IsAligned_example =
    entity_place-IsAligned (codes "S") fields (codes "b") fields-IsAligned

place-b : layout_place fields (codes "b") ≡ some (record { slot = 1; offset = 16 })
unfolding compute_storage_layout storage_size storage_layout_of text_eq
place-b = refl

fields-AllNamed : AllNamed fields
fields-AllNamed = (λ e. cc, (λ e. cc, (λ e. cc, (λ e. cc, tt))))

-- struct { uint256 x; mapping(address => uint256) m; uint256 y; }
map-overlaps_example :
    let elems =
      elem
        (codes "x")
        (elementary (codes "uint256"))
        (elem (codes "m") balances (elem (codes "y") (elementary (codes "uint256")) no_elems)) in
    (entity_place (structure (codes "S") elems) (codes "m")
      ≡ some (record { slot = 1; offset = 0 }))
    × (entity_place (structure (codes "S") elems) (codes "y")
        ≡ some (record { slot = 1; offset = 0 }))
    × (layout_place elems (codes "m") ≡ some (record { slot = 1; offset = 0 }))
    × (layout_place elems (codes "y") ≡ some (record { slot = 2; offset = 0 }))
unfolding elementary_storage_size get_type_structure text_eq
map-overlaps_example =
    map-overlaps (codes "S") (codes "x") (codes "m") (codes "y") (codes "uint256") (codes "uint256")
      32 32 (ne_by_text_eq (codes "x") (codes "m") refl)
      (ne_by_text_eq (codes "x") (codes "y") refl) (ne_by_text_eq (codes "m") (codes "y") refl)
      (omega arith) (omega arith) (omega arith) (elementary (codes "address"))
      (elementary (codes "uint256")) owner word refl refl refl refl

-- mapping(address => struct { uint128 x; uint256 y; }) m, at slot 3
abbrev storage_meta : StorageMeta
storage_meta =
    (
      codes "m",
      (
        record { slot = 3; offset = 0 },
        map (simple (codes "address") 20) (
            struct (codes "S") (
              field (codes "x") (simple (codes "uint128") 16)
                (field (codes "y") (simple (codes "uint256") 32) no_fields))),
      ),
    )
    ∷ []

abbrev no_int : Name → Option ℤ
no_int name = none

abbrev any_key : Text → Name ⊎ ℤ → Option Text
any_key t (inl (str name)) = some name
any_key t (inl (sub e)) = none
any_key t (inr z) = none

abbrev hash : ℕ → ℕ
hash n = n + 1000

abbrev hash_key : Text → Text → ℕ → Option ℕ
hash_key t key slot = some (slot + 1000)

get_field_from_name-get_storage_slot_info_example :
    get_field_from_name (codes "m[k].y") storage_meta ≡ some (some (simple (codes "uint256") 32))
unfolding get_storage_slot_info parse_expr text_eq find_next_elem find_matching_bracket
get_field_from_name-get_storage_slot_info_example =
    get_field_from_name-get_storage_slot_info no_int any_key hash hash_key (codes "m[k].y")
      storage_meta (record { slot = 1004; offset = 0 }, simple (codes "uint256") 32)
      ((tt, (tt, tt)), tt) refl
