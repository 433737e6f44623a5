-- ===== src/Graph/Complete.antt =====
-- The result of a traversal (shared/src/database/graph.rs) and the keys that are reachable.
use tv.Prelude.{ℕ, zero, suc, ◌≡◌, arith, true, some, List, [], ◌∷◌, Eq, contains, ◌↔◌, inl, inr}
use tv.Prelude.Results.{ok, err, Result-cases}
use tv.Graph.{Direction, Graph, traverse, traversal}
use tv.Graph.Store.{Store}
use tv.Graph.Reach.{Reachable, from_start, step, Inv, start-Inv, step-Inv}

module _ {Key Edge Error : Type 0} ⦃keys : Eq Key⦄ ⦃edges : Eq Edge⦄ (g : Graph Key Edge)
    (store : Store Key Edge Error) (d : Direction) (start : List Key) where
  traverse-Inv :
      (fuel : ℕ) (next visited : List Key) (found total : List Edge)
      → Inv g store d start next visited found
      → traverse g store.fetch_edges fuel d next visited found ≡ some (ok total)
      → (after : List Key) × Inv g store d start [] after total
  unfolding traverse
  traverse-Inv zero next visited found total inv h = cc
  traverse-Inv (suc fuel) [] visited found total inv h =
      let same : found ≡ total = cc in (visited, rw (← same) inv)
  traverse-Inv (suc fuel) (n ∷ next) visited found total inv h =
      elim (Result-cases (store.fetch_edges d (n ∷ next))) [
        | inr (e, p) ↦ (let clash : some (err e) ≡ some (ok total) = (rw (p, traverse) at h) in cc)
        | inl (es, p) ↦
            traverse-Inv fuel _ _ _ total
              (step-Inv g store d start (n ∷ next) visited found es inv p) (rw (p, traverse) at h)
      ]

  module _ (after : List Key) (total : List Edge) (inv : Inv g store d start [] after total) where
    reached_visited : (k : Key) → Reachable g store d start k → contains after k ≡ true
    reached_visited k (from_start s p) = inv.start_visited k s p
    reached_visited k (step e s r t p) =
        inv.targets_visited e k (ground (arith, inv.all_found e s (reached_visited _ r))) t p

  -- If a traversal returns edges, then an edge is among them exactly if it is stored and the key
  -- that it is fetched by is reachable from the start nodes.
  pub traversal-reaches :
      (fuel : ℕ) (total : List Edge) (e : Edge)
      → traversal g store.fetch_edges fuel d start ≡ some (ok total)
      → (contains total e ≡ true)
        ↔ ((contains store.stored e ≡ true) × Reachable g store d start (store.source d e))
  unfolding traversal
  traversal-reaches fuel total e h =
      let (after, inv) = traverse-Inv fuel _ _ [] total (start-Inv g store d start) h in
      (
        (λ p. (inv.total_stored e p, inv.total_reached e p)),
        (λ (s, r). ground (arith, inv.all_found e s (reached_visited after total inv _ r))),
      )
