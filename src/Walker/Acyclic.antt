-- ===== src/Walker/Acyclic.antt =====
-- Without a cycle in the graph, `get_all_paths` finds all walks to a node without sons.
use contract_abstract.Prelude.{
  ℕ, zero, suc, ◌<◌, ◌≡◌, ◌↔◌, ◌⊎◌, inl, inr, refl, sym, ap, subst, ◌∙◌, Bool, true, false,
  Bool-cases, some, List, [], ◌∷◌, ◌++◌, append_assoc, arith,
}
use mathlib.Core.List.{Memᴰ}
use mathlib.Core.List.Memᴰ
use contract_abstract.Walker.Paths.{
  start_node, visit, end_node, Route, Search, found, and_next, on_route, each_son, at_sons,
  paths_from, get_all_paths,
}
use contract_abstract.Walker.Maximal.{visits, IsMaximal}

module _ {ℓ} {N : Type ℓ} (sons : N → List N) (same : N → N → Bool)
    (same_iff : (a b : N) → (same a b ≡ true) ↔ (a ≡ b)) (rank : N → ℕ)
    (falls : (n s : N) → Memᴰ s (sons n) → rank s < rank n) where
  -- every node on the route has a higher rank
  abbrev IsAbove : ℕ → Route N → Type 0
  IsAbove k [] = Unit
  IsAbove k (start_node ∷ rest) = IsAbove k rest
  IsAbove k (visit m ∷ rest) = (k < rank m) × IsAbove k rest
  IsAbove k (end_node ∷ rest) = IsAbove k rest

  visit-IsAbove :
      (k j : ℕ) (n : N) (route : Route N)
      → IsAbove j route
      → k < j
      → k < rank n
      → IsAbove k (route ++ visit n ∷ [])
  visit-IsAbove k j n [] h l r = (r, tt)
  visit-IsAbove k j n (start_node ∷ rest) h l r = visit-IsAbove k j n rest h l r
  visit-IsAbove k j n (visit m ∷ rest) (a, h) l r = (omega arith, visit-IsAbove k j n rest h l r)
  visit-IsAbove k j n (end_node ∷ rest) h l r = visit-IsAbove k j n rest h l r

  on_route-IsAbove :
      (s : N) (route : Route N) → IsAbove (rank s) route → on_route sons same s route ≡ false
  unfolding on_route
  on_route-IsAbove s [] h = refl
  on_route-IsAbove s (start_node ∷ rest) h = on_route-IsAbove s rest h
  on_route-IsAbove s (end_node ∷ rest) h = on_route-IsAbove s rest h
  on_route-IsAbove s (visit m ∷ rest) (a, h) = elim (Bool-cases (same m s)) [
    | inl t ↦ let e = ap rank ((same_iff m s).0 t) in absurd (omega (arith, e, a))
    | inr f ↦ rw f (on_route-IsAbove s rest h)
  ]

  -- route and walk, with the EndNode
  abbrev pub ended : Route N → List N → Route N
  ended route ns = route ++ (visits ns ++ end_node ∷ [])

  -- The search has appended the walks from the node, behind the route.
  abbrev pub Finds : N → Route N → Search (List (Route N)) → Type ℓ
  Finds n route result =
      (ps : List (Route N)) × ((result ≡ found ps)
        × ((p : Route N)
            → Memᴰ p ps ↔ ((ns : List N) × (IsMaximal sons n ns × (p ≡ ended route ns)))))

  -- from one of the sons
  abbrev FindsAll : List N → Route N → Search (List (Route N)) → Type ℓ
  FindsAll ss route result =
      (ps : List (Route N)) × ((result ≡ found ps)
        × ((p : Route N)
            → Memᴰ p ps ↔ (
                (s : N) × (Memᴰ s ss
                  × ((ns : List N) × (IsMaximal sons s ns × (p ≡ ended route ns)))))))

  no-FindsAll : (route : Route N) → FindsAll [] route (found [])
  no-FindsAll route =
      ([], (refl, λ p. (λ m. absurd (Memᴰ.not-nil m), λ (s, (m, rest)). absurd (Memᴰ.not-nil m))))

  and_next-FindsAll :
      (s : N) (ss : List N) (route : Route N) (first next : Search (List (Route N)))
      → Finds s route first
      → FindsAll ss route next
      → FindsAll (s ∷ ss) route (and_next first next)
  and_next-FindsAll s ss route first next (ps, (e, h)) (qs, (f, k)) =
      (ps ++ qs, (rw (e, f) refl, λ p. (to p, from p)))
    where
      pick :
          (p : Route N)
          → Memᴰ p ps ⊎ Memᴰ p qs
          → (t : N) × (Memᴰ t (s ∷ ss)
              × ((ns : List N) × (IsMaximal sons t ns × (p ≡ ended route ns))))
      pick p (inl m) = (s, (Memᴰ.head refl, (h p).0 m))
      pick p (inr m) = let (t, (n, rest)) = (k p).0 m in (t, (Memᴰ.tail n, rest))

      to :
          (p : Route N)
          → Memᴰ p (ps ++ qs)
          → (t : N) × (Memᴰ t (s ∷ ss)
              × ((ns : List N) × (IsMaximal sons t ns × (p ≡ ended route ns))))
      to p m = pick p (Memᴰ.append_cases ps m)

      from :
          (p : Route N)
          → (t : N) × (Memᴰ t (s ∷ ss)
              × ((ns : List N) × (IsMaximal sons t ns × (p ≡ ended route ns))))
          → Memᴰ p (ps ++ qs)
      from p (t, (Memᴰ.head q, (ns, (w, e₂)))) =
          Memᴰ.append_left qs ((h p).1 (ns, (subst (λ x. IsMaximal sons x ns) q w, e₂)))
      from p (t, (Memᴰ.tail n, rest)) = Memᴰ.append_right ps ((k p).1 (t, (n, rest)))

  each_son-FindsAll :
      (follow : N → Route N → Search (List (Route N))) (ss : List N) (route : Route N)
      → ((s : N) → Memᴰ s ss → IsAbove (rank s) route)
      → ((s : N) → Memᴰ s ss → Finds s route (follow s route))
      → FindsAll ss route (each_son sons same follow ss route)
  unfolding each_son
  each_son-FindsAll follow [] route a h = no-FindsAll route
  each_son-FindsAll follow (s ∷ ss) route a h =
      let later =
        each_son-FindsAll follow ss route (λ t m. a t (Memᴰ.tail m)) (λ t m. h t (Memᴰ.tail m)) in
      let new =
        and_next-FindsAll s ss route (follow s route) (each_son sons same follow ss route)
          (h s (Memᴰ.head refl)) later in
      rw (on_route-IsAbove s route (a s (Memᴰ.head refl))) new

  ended-visit :
      (route : Route N) (n : N) (ns : List N)
      → ended (route ++ visit n ∷ []) ns ≡ ended route (n ∷ ns)
  ended-visit route n ns = append_assoc route (visit n ∷ []) (visits ns ++ end_node ∷ [])

  at_sons-Finds :
      (n : N) (route : Route N) (ss : List N) (next : Search (List (Route N)))
      → sons n ≡ ss
      → FindsAll ss (route ++ visit n ∷ []) next
      → Finds n route (at_sons sons same ss (route ++ visit n ∷ []) next)
  at_sons-Finds n route [] next e h =
      ((((route ++ visit n ∷ []) ++ end_node ∷ []) ∷ []), (refl, λ p. (to p, from p)))
    where
      alone : (ns : List N) → IsMaximal sons n ns → ns ≡ n ∷ []
      alone ns (IsMaximal.last q) = refl
      alone ns (IsMaximal.step m w) = absurd (Memᴰ.not-nil (subst (Memᴰ _) e m))

      to :
          (p : Route N)
          → Memᴰ p (((route ++ visit n ∷ []) ++ end_node ∷ []) ∷ [])
          → (ns : List N) × (IsMaximal sons n ns × (p ≡ ended route ns))
      to p (Memᴰ.head q) = (n ∷ [], (IsMaximal.last e, q ∙ ended-visit route n []))
      to p (Memᴰ.tail m) = absurd (Memᴰ.not-nil m)

      from :
          (p : Route N)
          → (ns : List N) × (IsMaximal sons n ns × (p ≡ ended route ns))
          → Memᴰ p (((route ++ visit n ∷ []) ++ end_node ∷ []) ∷ [])
      from p (ns, (w, q)) =
          Memᴰ.head (q ∙ ap (ended route) (alone ns w) ∙ sym (ended-visit route n []))
  at_sons-Finds n route (s ∷ ss) next e (ps, (r, h)) = (ps, (r, λ p. (to p, from p)))
    where
      to : (p : Route N) → Memᴰ p ps → (ns : List N) × (IsMaximal sons n ns × (p ≡ ended route ns))
      to p m =
          let (t, (k, (ns, (w, q)))) = (h p).0 m in
          (n ∷ ns, (IsMaximal.step (subst (Memᴰ t) (sym e) k) w, q ∙ ended-visit route n ns))

      some_son :
          (p : Route N) (ns : List N)
          → IsMaximal sons n ns
          → p ≡ ended route ns
          → (t : N) × (Memᴰ t (s ∷ ss)
              × ((ms : List N) × (IsMaximal sons t ms × (p ≡ ended (route ++ visit n ∷ []) ms))))
      some_son p ns (IsMaximal.last z) q = cc (z, e)
      some_son p ns (IsMaximal.step {s = t} {ns = ms} k w) q =
          (t, (subst (Memᴰ t) e k, (ms, (w, q ∙ sym (ended-visit route n ms)))))

      from :
          (p : Route N) → (ns : List N) × (IsMaximal sons n ns × (p ≡ ended route ns)) → Memᴰ p ps
      from p (ns, (w, q)) = (h p).1 (some_son p ns w q)

  paths_from-Finds :
      (fuel : ℕ) (n : N) (route : Route N)
      → rank n < fuel
      → IsAbove (rank n) route
      → Finds n route (paths_from sons same fuel n route)
  unfolding paths_from
  paths_from-Finds zero n route l a = absurd (omega (arith, l))
  paths_from-Finds (suc fuel) n route l a =
      let here = route ++ visit n ∷ [] in
      at_sons-Finds n route (sons n) _ refl (
        each_son-FindsAll (λ m r. paths_from sons same fuel m r) (sons n) here
          (λ s m. visit-IsAbove (rank s) (rank n) n route a (falls n s m) (falls n s m))
          (λ s m.
            paths_from-Finds fuel s here (omega (arith, falls n s m, l))
              (visit-IsAbove (rank s) (rank n) n route a (falls n s m) (falls n s m))))

  -- On a graph without cycles, in which the rank falls from node to son, the search with more fuel than
  -- the rank of the entry point ends without an exception, and its paths are the walks from the entry
  -- point to a node without sons, between the StartNode and the EndNode, all of them and no others.
  pub get_all_paths-IsMaximal :
      (fuel : ℕ) (entry_point : N)
      → rank entry_point < fuel
      → Finds entry_point
          (start_node ∷ [])
          (get_all_paths sons same fuel (some entry_point) (start_node ∷ []))
  unfolding get_all_paths
  get_all_paths-IsMaximal fuel entry_point l =
      paths_from-Finds fuel entry_point (start_node ∷ []) l tt
