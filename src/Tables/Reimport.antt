-- ===== src/Tables/Reimport.antt =====
-- Keys that are exported and imported again, and imports that add to the keys held.
use contract_abstract.Prelude.{
  ◌≡◌, ◌↔◌, ◌⊎◌, inl, inr, refl, sym, ap, ◌∙◌, Text, codes, text_eq, text_eq_iff, Bool, true, false,
  ◌&&◌, Option, none, some, List, [], ◌∷◌, ◌++◌, if◌then◌else◌, Bool-cases,
}
use mathlib.Core.Bool.{true≢false}
use mathlib.Core.List.{Memᴰ}
use mathlib.Core.List.Memᴰ
use contract_abstract.Layout.Types.{◌>>=◌}
use contract_abstract.Tables.Wanted.{Key, key, keys}
use contract_abstract.Tables.Facts.{
  Json, File, unreadable, without_keys, with_keys, FactKeys, list_of, serializable_fact_keys,
  set_of, converted_fact_keys, update_entity, update_all, with_mode, settled,
  import_fact_keys_from_json, facts_json, export_fact_keys_to_json,
}

module _ {ℓ} {V : Type ℓ} where
  -- no key of a mapping of mappings
  abbrev one_level : List (Key V) → Bool
  one_level [] = true
  one_level (key v ∷ ks) = one_level ks
  one_level (keys v w ∷ ks) = false

  abbrev pub all_one_level : FactKeys V → Bool
  all_one_level [] = true
  all_one_level (f ∷ fs) = one_level f.1 && all_one_level fs

  set_of-list_of :
      (ks : List (Key V)) → set_of (list_of ks) ≡ (if one_level ks then some ks else none)
  unfolding set_of
  set_of-list_of [] = refl
  set_of-list_of (keys v w ∷ ks) = refl
  set_of-list_of (key v ∷ ks) = elim (Bool-cases (one_level ks)) [
    | inl t ↦ rw (set_of-list_of ks, t) refl
    | inr f ↦ rw (set_of-list_of ks, f) refl
  ]

  converted-serializable :
      (facts : FactKeys V)
      → converted_fact_keys (serializable_fact_keys facts)
        ≡ (if all_one_level facts then some facts else none)
  unfolding converted_fact_keys serializable_fact_keys
  converted-serializable [] = refl
  converted-serializable ((n, ks) ∷ fs) = elim (Bool-cases (one_level ks)) [
    | inl t ↦ elim (Bool-cases (all_one_level fs)) [
      | inl u ↦ rw (set_of-list_of ks, converted-serializable fs, t, u) refl
      | inr g ↦ rw (set_of-list_of ks, converted-serializable fs, t, g) refl
    ]
    | inr f ↦ rw (set_of-list_of ks, f) refl
  ]

  -- key `k` of mapping `entity` is among the keys
  pub data Holds (entity : Text) (k : Key V) : FactKeys V → Type ℓ where
    here :
        {f : Text × List (Key V)} {fs : FactKeys V}
        → f.0 ≡ entity
        → Memᴰ k f.1
        → Holds entity k (f ∷ fs)
    there :
        {f : Text × List (Key V)} {fs : FactKeys V} → Holds entity k fs → Holds entity k (f ∷ fs)

  Holds-added :
      (f : Text × List (Key V)) (fs : FactKeys V) (n : Text) (ks : List (Key V)) (entity : Text)
      (k : Key V)
      → f.0 ≡ n
      → Holds entity k ((f.0, f.1 ++ ks) ∷ fs)
        ↔ (Holds entity k (f ∷ fs) ⊎ ((n ≡ entity) × Memᴰ k ks))
  Holds-added f fs n ks entity k q = (to, from)
    where
      pick :
          f.0 ≡ entity
          → Memᴰ k f.1 ⊎ Memᴰ k ks
          → Holds entity k (f ∷ fs) ⊎ ((n ≡ entity) × Memᴰ k ks)
      pick e (inl m) = inl (Holds.here e m)
      pick e (inr m) = inr (sym q ∙ e, m)

      to :
          Holds entity k ((f.0, f.1 ++ ks) ∷ fs)
          → Holds entity k (f ∷ fs) ⊎ ((n ≡ entity) × Memᴰ k ks)
      to (Holds.here e m) = pick e (Memᴰ.append_cases f.1 m)
      to (Holds.there h) = inl (Holds.there h)

      from :
          Holds entity k (f ∷ fs) ⊎ ((n ≡ entity) × Memᴰ k ks)
          → Holds entity k ((f.0, f.1 ++ ks) ∷ fs)
      from (inl (Holds.here e m)) = Holds.here e (Memᴰ.append_left ks m)
      from (inl (Holds.there h)) = Holds.there h
      from (inr (e, m)) = Holds.here (q ∙ e) (Memᴰ.append_right f.1 m)

  Holds-later :
      {P : Type ℓ} (f : Text × List (Key V)) (fs after : FactKeys V) (entity : Text) (k : Key V)
      → (Holds entity k after ↔ (Holds entity k fs ⊎ P))
      → Holds entity k (f ∷ after) ↔ (Holds entity k (f ∷ fs) ⊎ P)
  Holds-later {P} f fs after entity k h = (to, from)
    where
      pass : Holds entity k fs ⊎ P → Holds entity k (f ∷ fs) ⊎ P
      pass (inl r) = inl (Holds.there r)
      pass (inr p) = inr p

      to : Holds entity k (f ∷ after) → Holds entity k (f ∷ fs) ⊎ P
      to (Holds.here e m) = inl (Holds.here e m)
      to (Holds.there r) = pass (h.0 r)

      from : Holds entity k (f ∷ fs) ⊎ P → Holds entity k (f ∷ after)
      from (inl (Holds.here e m)) = Holds.here e m
      from (inl (Holds.there r)) = Holds.there (h.1 (inl r))
      from (inr p) = Holds.there (h.1 (inr p))

  Holds-single :
      (n : Text) (ks : List (Key V)) (entity : Text) (k : Key V)
      → Holds entity k ((n, ks) ∷ []) ↔ (Holds entity k [] ⊎ ((n ≡ entity) × Memᴰ k ks))
  Holds-single n ks entity k = (to, from)
    where
      to : Holds entity k ((n, ks) ∷ []) → Holds entity k [] ⊎ ((n ≡ entity) × Memᴰ k ks)
      to (Holds.here e m) = inr (e, m)
      to (Holds.there h) = inl h

      from : Holds entity k [] ⊎ ((n ≡ entity) × Memᴰ k ks) → Holds entity k ((n, ks) ∷ [])
      from (inl h) = Holds.there h
      from (inr (e, m)) = Holds.here e m

  update_entity-Holds :
      (n : Text) (ks : List (Key V)) (facts : FactKeys V) (entity : Text) (k : Key V)
      → Holds entity k (update_entity n ks facts)
        ↔ (Holds entity k facts ⊎ ((n ≡ entity) × Memᴰ k ks))
  unfolding update_entity
  update_entity-Holds n ks [] entity k = Holds-single n ks entity k
  update_entity-Holds n ks (f ∷ fs) entity k = elim (Bool-cases (text_eq f.0 n)) [
    | inl t ↦ rw t (Holds-added f fs n ks entity k ((text_eq_iff f.0 n).0 t))
    | inr g ↦
        rw g
          (Holds-later f fs (update_entity n ks fs) entity k (update_entity-Holds n ks fs entity k))
  ]

  regroup :
      {P Q R : Type ℓ} (f : Text × List (Key V)) (fs : FactKeys V) (entity : Text) (k : Key V)
      → P ↔ (Q ⊎ Holds entity k fs)
      → Q ↔ (R ⊎ ((f.0 ≡ entity) × Memᴰ k f.1))
      → P ↔ (R ⊎ Holds entity k (f ∷ fs))
  regroup {P} {Q} {R} f fs entity k p q = (λ a. outer (p.0 a), from)
    where
      inner : R ⊎ ((f.0 ≡ entity) × Memᴰ k f.1) → R ⊎ Holds entity k (f ∷ fs)
      inner (inl r) = inl r
      inner (inr (e, m)) = inr (Holds.here e m)

      outer : Q ⊎ Holds entity k fs → R ⊎ Holds entity k (f ∷ fs)
      outer (inl b) = inner (q.0 b)
      outer (inr h) = inr (Holds.there h)

      from : R ⊎ Holds entity k (f ∷ fs) → P
      from (inl r) = p.1 (inl (q.1 (inl r)))
      from (inr (Holds.here e m)) = p.1 (inl (q.1 (inr (e, m))))
      from (inr (Holds.there h)) = p.1 (inr h)

  none-held : {P : Type ℓ} (entity : Text) (k : Key V) → P ↔ (P ⊎ Holds entity k [])
  none-held {P} entity k = (λ p. inl p, from)
    where
      from : P ⊎ Holds entity k [] → P
      from (inl p) = p
      from (inr h) = elim h [ ]

  update_all-Holds :
      (old facts : FactKeys V) (entity : Text) (k : Key V)
      → Holds entity k (update_all old facts) ↔ (Holds entity k old ⊎ Holds entity k facts)
  unfolding update_all
  update_all-Holds old [] entity k = none-held entity k
  update_all-Holds old (f ∷ fs) entity k =
      regroup f fs entity k (update_all-Holds (update_entity f.0 f.1 old) fs entity k)
        (update_entity-Holds f.0 f.1 old entity k)

  -- An import that merges or appends holds the keys held before and those of the file, and no others;
  -- the two modes are one.
  pub import_fact_keys_from_json-Holds :
      (old converted : FactKeys V) (metadata : Bool) (lists : List (Text × List (Json V)))
      → converted_fact_keys lists ≡ some converted
      → (after : FactKeys V) × ((import_fact_keys_from_json old
              (with_keys metadata lists)
              (codes "merge")
            ≡ (after, metadata))
          × ((import_fact_keys_from_json old (with_keys metadata lists) (codes "append")
                ≡ (after, metadata))
              × ((entity : Text) (k : Key V)
                  → Holds entity k after ↔ (Holds entity k old ⊎ Holds entity k converted))))
  unfolding import_fact_keys_from_json with_mode text_eq
  import_fact_keys_from_json-Holds old converted metadata lists e = (
    update_all old converted,
    (
      ap (λ c. settled old metadata (c >>= with_mode (codes "merge") old)) e,
      (
        ap (λ c. settled old metadata (c >>= with_mode (codes "append") old)) e,
        update_all-Holds old converted,
      ),
    ),
  )

  settled-failed :
      (old after : FactKeys V) (c : Option (FactKeys V))
      → settled old true c ≡ (after, false)
      → after ≡ old
  settled-failed old after none e = ap (λ r. r.0) (sym e)
  settled-failed old after (some new) e = absurd (true≢false (ap (λ r. r.1) e))

  -- An import that returns False for another reason than its metadata has changed nothing.
  pub import_fact_keys_from_json-failed :
      (old after : FactKeys V) (file : File V) (merge_mode : Text)
      → import_fact_keys_from_json old file merge_mode ≡ (after, false)
      → (after ≡ old) ⊎ ((lists : List (Text × List (Json V))) × (file ≡ with_keys false lists))
  unfolding import_fact_keys_from_json
  import_fact_keys_from_json-failed old after unreadable merge_mode e = inl (ap (λ r. r.0) (sym e))
  import_fact_keys_from_json-failed old after without_keys merge_mode e =
      inl (ap (λ r. r.0) (sym e))
  import_fact_keys_from_json-failed old after (with_keys false lists) merge_mode e =
      inr (lists, refl)
  import_fact_keys_from_json-failed old after (with_keys true lists) merge_mode e =
      inl (settled-failed old after (converted_fact_keys lists >>= with_mode merge_mode old) e)

  replaced :
      (old facts : FactKeys V) (b : Bool)
      → settled old true ((if b then some facts else none) >>= with_mode (codes "replace") old)
        ≡ (if b then (facts, true) else (old, false))
  unfolding with_mode text_eq
  replaced old facts true = refl
  replaced old facts false = refl

module _ {ℓ} {V : Type ℓ} (is_json : V → Bool) where
  -- Keys that JSON can carry are exported. Importing the file in place of the keys held gives them back
  -- when none is of a mapping of mappings, and fails, with the keys held unchanged, when one is.
  pub import_fact_keys_from_json-export :
      (old facts : FactKeys V)
      → facts_json is_json facts ≡ true
      → (file : File V) × ((export_fact_keys_to_json is_json facts ≡ some file)
          × (import_fact_keys_from_json old file (codes "replace")
              ≡ (if all_one_level facts then (facts, true) else (old, false))))
  unfolding export_fact_keys_to_json import_fact_keys_from_json
  import_fact_keys_from_json-export old facts h = (
    with_keys true (serializable_fact_keys facts),
    (
      rw h refl,
      ap (λ c. settled old true (c >>= with_mode (codes "replace") old))
            (converted-serializable facts)
          ∙ replaced old facts (all_one_level facts),
    ),
  )
