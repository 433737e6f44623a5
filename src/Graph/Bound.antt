-- ===== src/Graph/Bound.antt =====
-- The number of rounds of a traversal (shared/src/database/graph.rs), against the number of start
-- nodes and of targets of stored edges.
use tv.Prelude.{
  ℕ, zero, suc, ◌+◌, ◌≤◌, ◌≡◌, refl, arith, true, some, List, [], ◌∷◌, ◌++◌, Eq, contains,
  contains-append, length, Distinct, length-le_of_contains, inl, inr,
}
use tv.Prelude.Results.{Result, ok, err, Result-cases}
use tv.Graph.{Direction, Graph, flat_map, filter_edges, traverse, traversal}
use tv.Graph.Filter.{contains-visited, length-visited, visited-Distinct}
use tv.Graph.Store.{Store, contains-flat_map, flat_map_origin}

module _ {Key Edge Error : Type 0} ⦃keys : Eq Key⦄ ⦃edges : Eq Edge⦄ (g : Graph Key Edge)
    (store : Store Key Edge Error) (d : Direction) (start : List Key) where
  abbrev pub universe : List Key
  universe = start ++ flat_map (g.edge_next d) store.stored

  targets_inside :
      (nodes : List Key) (es : List Edge) (k : Key)
      → store.fetch_edges d nodes ≡ ok es
      → contains (flat_map (g.edge_next d) es) k ≡ true
      → contains universe k ≡ true
  targets_inside nodes es k h p =
      let (e, q, r) = flat_map_origin (g.edge_next d) es k p in
      ground (
        arith,
        store.fetch_edges_lem d nodes es h e,
        contains-flat_map (g.edge_next d) store.stored e k,
        contains-append start (flat_map (g.edge_next d) store.stored) k,
      )

  abbrev Inside : List Key → Type 0
  Inside ks = (k : Key) → contains ks k ≡ true → contains universe k ≡ true

  abbrev rounds : List Key → ℕ
  rounds [] = 1
  rounds (n ∷ next) = 2

  rounds-le : (next : List Key) → rounds next ≤ 1 + length next
  rounds-le [] = omega arith
  rounds-le (n ∷ next) = omega arith

  filter-Inside :
      (ks visited : List Key) → Inside ks → Inside visited → Inside (filter_edges g d ks visited).1
  filter-Inside ks visited h i k p = ground (arith, contains-visited g d ks visited k, h k, i k)

  traverse-some :
      (fuel : ℕ) (next visited : List Key) (total : List Edge)
      → Distinct visited
      → Inside visited
      → length universe + rounds next ≤ fuel + length visited
      → (r : Result (List Edge) Error) × (traverse g store.fetch_edges fuel d next visited total
          ≡ some r)
  unfolding traverse
  traverse-some zero next visited total s i b =
      let most = length-le_of_contains visited universe s i in absurd (few next b most)
    where
      few :
          (next : List Key)
          → length universe + rounds next ≤ 0 + length visited
          → length visited ≤ length universe
          → ⊥
      few [] p q = omega arith
      few (n ∷ next) p q = omega arith
  traverse-some (suc fuel) [] visited total s i b = (ok total, refl)
  traverse-some (suc fuel) (n ∷ next) visited total s i b =
      elim (Result-cases (store.fetch_edges d (n ∷ next))) [
        | inr (e, h) ↦ (err e, rw (h, traverse) refl)
        | inl (es, h) ↦
            let ks = flat_map (g.edge_next d) es in
            let after = filter_edges g d ks visited in
            let (r, p) =
              traverse-some fuel after.0 after.1 (total ++ es) (visited-Distinct g d ks visited s)
                (filter-Inside ks visited (λ k. targets_inside (n ∷ next) es k h) i)
                (omega (arith, rounds-le after.0, length-visited g d ks visited, b)) in
            (r, rw (h, traverse) p)
      ]

  -- A traversal from any start nodes ends, with a result or with the error of the store, when the
  -- fuel is at least two more than the number of start nodes and of targets of stored edges.
  pub traversal-some :
      (fuel : ℕ)
      → length universe + 2 ≤ fuel
      → (r : Result (List Edge) Error) × (traversal g store.fetch_edges fuel d start ≡ some r)
  unfolding traversal
  traversal-some fuel b =
      let after = filter_edges g d start [] in
      traverse-some fuel after.0 after.1 [] (visited-Distinct g d start [] tt)
        (filter-Inside start []
          (λ k p. ground (arith, contains-append start (flat_map (g.edge_next d) store.stored) k))
          (λ k p. cc))
        (omega (arith, rounds-le after.0, length-visited g d start [], b))
