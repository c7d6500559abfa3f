-- ===== src/Walker/Loops.antt =====
-- With loops in the graph, `get_all_paths` ends.
use contract_abstract.Prelude.{
  ℕ, zero, suc, ◌+◌, ◌*◌, ◌<◌, ◌≤◌, ◌≡◌, ◌≢◌, ◌↔◌, inl, inr, refl, subst, Bool, true, false, ◌||◌,
  Bool-cases, Option, none, some, List, [], ◌∷◌, ◌++◌, length, arith, if◌then◌else◌,
}
use native.Mathlib.Nat.{mul-le-mul_right}
use mathlib.Core.List.{Memᴰ}
use mathlib.Core.List.Memᴰ
use contract_abstract.Walker.Paths.{
  start_node, visit, end_node, Route, Search, found, raised, searching, and_next, when_sons, second,
  on_route, leave_loop, each_son, at_sons, paths_from, get_all_paths,
}

module _ {ℓ} {N : Type ℓ} where
  and_next-ends :
      (first next : Search (List (Route N)))
      → first ≢ searching
      → next ≢ searching
      → and_next first next ≢ searching
  and_next-ends (found ps) (found qs) h k e = cc e
  and_next-ends (found ps) raised h k e = cc e
  and_next-ends (found ps) searching h k e = k refl
  and_next-ends raised next h k e = cc e
  and_next-ends searching next h k e = h refl

  when_sons-ends :
      (ss : List N) (skipped again : Search (List (Route N)))
      → skipped ≢ searching
      → again ≢ searching
      → when_sons ss skipped again ≢ searching
  when_sons-ends [] skipped again h k = h
  when_sons-ends (s ∷ ss) skipped again h k = k

module _ {ℓ} {N : Type ℓ} (sons : N → List N) (same : N → N → Bool)
    (same_iff : (a b : N) → (same a b ≡ true) ↔ (a ≡ b)) where
  on_route-append :
      (n m : N) (route : Route N)
      → on_route sons same n (route ++ visit m ∷ []) ≡ (on_route sons same n route || same m n)
  unfolding on_route
  on_route-append n m [] = ground arith
  on_route-append n m (start_node ∷ rest) = on_route-append n m rest
  on_route-append n m (end_node ∷ rest) = on_route-append n m rest
  on_route-append n m (visit k ∷ rest) = ground (arith, on_route-append n m rest)

  -- how many of the nodes are not on the route
  pub unseen : List N → Route N → ℕ
  unfolding on_route
  unseen [] route = 0
  unseen (n ∷ ns) route =
      let rest = unseen ns route in if on_route sons same n route then rest else suc rest

  unseen-length : (ns : List N) (route : Route N) → unseen ns route ≤ length ns
  unfolding unseen
  unseen-length [] route = omega arith
  unseen-length (n ∷ ns) route = ground (arith, unseen-length ns route)

  unseen-visit :
      (ns : List N) (m : N) (route : Route N) → unseen ns (route ++ visit m ∷ []) ≤ unseen ns route
  unfolding unseen
  unseen-visit [] m route = omega arith
  unseen-visit (n ∷ ns) m route = ground (arith, unseen-visit ns m route, on_route-append n m route)

  unseen-new :
      (ns : List N) (m : N) (route : Route N)
      → Memᴰ m ns
      → on_route sons same m route ≡ false
      → unseen ns (route ++ visit m ∷ []) < unseen ns route
  unfolding unseen
  unseen-new [] m route k h = absurd (Memᴰ.not-nil k)
  unseen-new (n ∷ ns) m route (Memᴰ.head e) h =
      let s : same m n ≡ true = (same_iff m n).1 e in
      let t : on_route sons same n route ≡ false =
        subst (λ x. on_route sons same x route ≡ false) e h in
      ground (arith, unseen-visit ns m route, on_route-append n m route, s, t)
  unseen-new (n ∷ ns) m route (Memᴰ.tail k) h =
      ground (arith, unseen-new ns m route k h, on_route-append n m route)

  each_son-ends :
      (follow : N → Route N → Search (List (Route N))) (nodes : List N) (u : ℕ) (ss : List N)
      (route : Route N)
      → unseen nodes route ≤ u
      → ((s : N)
          → Memᴰ s ss
          → (r : Route N) → unseen nodes r ≤ u
          → on_route sons same s r ≡ false
          → follow s r ≢ searching)
      → ((s b : N)
          → Memᴰ s ss
          → second (sons s) ≡ some b
          → (r : Route N) → unseen nodes r ≤ u
          → follow b r ≢ searching)
      → each_son sons same follow ss route ≢ searching
  unfolding each_son
  each_son-ends follow nodes u [] route l new again = λ e. cc e
  each_son-ends follow nodes u (s ∷ ss) route l new again =
      let longer = route ++ visit s ∷ [] in
      let rest =
        each_son-ends follow nodes u ss route l (λ t m. new t (Memᴰ.tail m))
          (λ t b m. again t b (Memᴰ.tail m)) in
      let rest_longer =
        each_son-ends follow nodes u ss longer (omega (arith, unseen-visit nodes s route, l))
          (λ t m. new t (Memᴰ.tail m)) (λ t b m. again t b (Memᴰ.tail m)) in
      elim (Bool-cases (on_route sons same s route)) [
        | inr f ↦ rw f (and_next-ends (follow s route) _ (new s (Memᴰ.head refl) route l f) rest)
        | inl t ↦ rw t (
            when_sons-ends (sons s) _ _ rest (
              and_next-ends (leave_loop sons same follow (second (sons s)) longer) _
                (left (second (sons s)) refl) rest_longer))
      ]
    where
      left :
          (o : Option N)
          → second (sons s) ≡ o
          → leave_loop sons same follow o (route ++ visit s ∷ []) ≢ searching
      left none e = λ q. cc q
      left (some b) e =
          again s b (Memᴰ.head refl) e (route ++ visit s ∷ [])
            (omega (arith, unseen-visit nodes s route, l))

  at_sons-ends :
      (ss : List N) (route : Route N) (next : Search (List (Route N)))
      → next ≢ searching
      → at_sons sons same ss route next ≢ searching
  at_sons-ends [] route next h = λ e. cc e
  at_sons-ends (s ∷ ss) route next h = h

  module _ (nodes : List N) (rank : N → ℕ) (greatest : ℕ) (bound : (n : N) → rank n ≤ greatest)
      (inside : (n s : N) → Memᴰ s (sons n) → Memᴰ s nodes)
      (leaves : (n s b : N) → Memᴰ s (sons n) → second (sons s) ≡ some b → rank b < rank n) where
    paths_from-ends :
        (fuel : ℕ) (n : N) (route : Route N)
        → unseen nodes (route ++ visit n ∷ []) * (greatest + 1) + rank n < fuel
        → paths_from sons same fuel n route ≢ searching
    unfolding paths_from
    paths_from-ends zero n route l = absurd (omega (arith, l))
    paths_from-ends (suc fuel) n route l =
        let here = route ++ visit n ∷ [] in
        let u = unseen nodes here in
        at_sons-ends (sons n) here _ (
          each_son-ends (λ m r. paths_from sons same fuel m r) nodes u (sons n) here (omega arith)
            (λ s m r below f. paths_from-ends fuel s r (
              let v = unseen nodes (r ++ visit s ∷ []) in
              let less : v + 1 ≤ u = omega (arith, unseen-new nodes s r (inside n s m) f, below) in
              omega (arith, mul-le-mul_right (greatest + 1) less, bound s, l)))
            (λ s b m e r below. paths_from-ends fuel b r (
              let v = unseen nodes (r ++ visit b ∷ []) in
              let less : v ≤ u = omega (arith, unseen-visit nodes b r, below) in
              omega (arith, mul-le-mul_right (greatest + 1) less, leaves n s b m e, l))))

    -- On a graph of these nodes, where the second son of a son ranks below the node, as the exit of a
    -- loop does below its body, the search ends, with paths or an IndexError, when its fuel exceeds
    -- the number of nodes and one times the greatest rank and one.
    pub get_all_paths-ends :
        (fuel : ℕ) (entry_point : N)
        → (length nodes + 1) * (greatest + 1) ≤ fuel
        → get_all_paths sons same fuel (some entry_point) (start_node ∷ []) ≢ searching
    unfolding get_all_paths
    get_all_paths-ends fuel entry_point l =
        let here = start_node ∷ visit entry_point ∷ [] in
        paths_from-ends fuel entry_point (start_node ∷ []) (
          omega (
            arith,
            mul-le-mul_right (greatest + 1) (unseen-length nodes here),
            bound entry_point,
            l,
          ))
