-- ===== src/Layout/Overlap.antt =====
-- Where `Entity.get_slot_info_for_structure` puts the field behind a mapping or a nested structure
-- that does not begin where a slot begins.
use contract_abstract.Prelude.{
  refl, ℕ, ◌≤◌, ◌<◌, ◌≡◌, ◌≢◌, Text, text_eq_iff, false, some, [], ◌∷◌, arith,
}
use contract_abstract.Layout.Types.{
  SolType, Elems, Size, align, advance, elementary, mapping, structure, no_elems, elem,
  elementary_storage_size, storage_size,
}
use contract_abstract.Layout.Contract.{layout_from, compute_storage_layout, storage_layout_of}
use contract_abstract.Layout.Agree.{entity_place, layout_place, origin, one_slot, members}
use contract_abstract.Layout.Meta.{
  get_type_structure, Meta, Fields, simple, struct, map, no_fields, field,
}
use contract_abstract.Layout.Struct.{get_slot_info_for_structure}

-- `struct { tx x; mapping(k => v) m; ty y; }`
abbrev pub with_map : Text → Meta → Text → Meta → Meta → Text → Meta → Fields
with_map x mx m k v y my = field x mx (field m (map k v) (field y my no_fields))

storage_size-elementary : (t : Text) → storage_size (elementary t) ≡ elementary_storage_size t
unfolding storage_size
storage_size-elementary t = refl

storage_size-mapping : (k v : SolType) → storage_size (mapping k v) ≡ some one_slot
unfolding storage_size
storage_size-mapping k v = refl

module _ (s x m y tx ty : Text) (sx sy : ℕ) (xm : x ≢ m) (xy : x ≢ y) (my : m ≢ y) (pos_x : 0 < sx)
    (fits_x : sx ≤ 32) (fits_y : sy ≤ 32) where
  found-map :
      (k v : Meta)
      → let st = struct s (with_map x (simple tx sx) m k v y (simple ty sy)) in
        (get_slot_info_for_structure st m ≡ some (record { slot = 1; offset = 0; index = some 1 }))
        × (get_slot_info_for_structure st y
            ≡ some (record { slot = 1; offset = 0; index = some 2 }))
  unfolding get_slot_info_for_structure
  found-map k v = (
    ground (arith, text_eq_iff x m, text_eq_iff m m),
    ground (arith, text_eq_iff x y, text_eq_iff m y, text_eq_iff y y),
  )

  -- the fields as Slither sees them
  abbrev elems : SolType → SolType → Elems
  elems k v = elem x (elementary tx) (elem m (mapping k v) (elem y (elementary ty) no_elems))

  abbrev size_of : ℕ → Size
  size_of n = record { bytes = n; new_slot = false }

  x-fits : align origin (size_of sx) ≡ origin
  unfolding align
  x-fits = ground arith

  x-takes : advance origin (size_of sx) ≡ record { slot = 0; offset = sx }
  unfolding advance
  x-takes = ground arith

  map-moves : align (record { slot = 0; offset = sx }) one_slot ≡ record { slot = 1; offset = 0 }
  unfolding align
  map-moves = ground arith

  map-takes : advance (record { slot = 1; offset = 0 }) one_slot ≡ record { slot = 2; offset = 0 }
  unfolding advance
  map-takes = ground arith

  y-fits : align (record { slot = 2; offset = 0 }) (size_of sy) ≡ record { slot = 2; offset = 0 }
  unfolding align
  y-fits = ground arith

  layout_from-elems :
      (k v : SolType)
      → elementary_storage_size tx ≡ some (size_of sx)
      → elementary_storage_size ty ≡ some (size_of sy)
      → layout_from origin (members (elems k v))
        ≡ some (
            (x, origin)
            ∷ (m, record { slot = 1; offset = 0 })
            ∷ (y, record { slot = 2; offset = 0 })
            ∷ [])
  unfolding layout_from
  layout_from-elems k v ex ey = rw (
    storage_size-elementary tx,
    storage_size-mapping k v,
    storage_size-elementary ty,
    ex,
    ey,
    x-fits,
    x-takes,
    map-moves,
    map-takes,
    y-fits,
  )

  -- Behind a value field of 1 to 32 bytes stand a mapping and another value field: the manifest
  -- puts the mapping and the second field at the same place, slot 1, where Slither's layout has the
  -- mapping at slot 1 and the field at slot 2.
  pub map-overlaps :
      (k v : SolType) (mk mv : Meta)
      → elementary_storage_size tx ≡ some (record { bytes = sx; new_slot = false })
      → elementary_storage_size ty ≡ some (record { bytes = sy; new_slot = false })
      → get_type_structure k ≡ some mk
      → get_type_structure v ≡ some mv
      → (entity_place (structure s (elems k v)) m ≡ some (record { slot = 1; offset = 0 }))
        × (entity_place (structure s (elems k v)) y ≡ some (record { slot = 1; offset = 0 }))
        × (layout_place (elems k v) m ≡ some (record { slot = 1; offset = 0 }))
        × (layout_place (elems k v) y ≡ some (record { slot = 2; offset = 0 }))
  unfolding get_type_structure compute_storage_layout storage_layout_of
  map-overlaps k v mk mv ex ey ek ev =
      let (at_m, at_y) = found-map mk mv in
      let places = layout_from-elems k v ex ey in
      (
        rw (ex, ey, ek, ev, at_m),
        rw (ex, ey, ek, ev, at_y),
        rw places (ground (arith, text_eq_iff x m, text_eq_iff m m)),
        rw places (ground (arith, text_eq_iff x y, text_eq_iff m y, text_eq_iff y y)),
      )
