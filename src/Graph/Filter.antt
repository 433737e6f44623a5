-- ===== src/Graph/Filter.antt =====
-- One round's filter: what it keeps and what it adds to the visited keys
-- (shared/src/database/graph.rs).
use tv.Prelude.{◌+◌, ◌≡◌, not, ◌&&◌, ◌||◌, List, [], ◌∷◌, arith, Eq, contains, length, Distinct}
use tv.Graph.{Direction, Graph, has_next, filter_edges}

module _ {Key Edge : Type 0} ⦃keys : Eq Key⦄ (g : Graph Key Edge) (d : Direction) where
  pub contains-visited :
      (ks visited : List Key) (k : Key)
      → contains (filter_edges g d ks visited).1 k
        ≡ (contains visited k || contains ks k && has_next g d k)
  unfolding filter_edges
  contains-visited [] visited k = ground arith
  contains-visited (x ∷ ks) visited k =
      ground (
        arith,
        keys.beq_iff x k,
        contains-visited ks visited k,
        contains-visited ks (x ∷ visited) k,
      )

  pub contains-kept :
      (ks visited : List Key) (k : Key)
      → contains (filter_edges g d ks visited).0 k
        ≡ (not (contains visited k) && contains ks k && has_next g d k)
  unfolding filter_edges
  contains-kept [] visited k = ground arith
  contains-kept (x ∷ ks) visited k =
      ground (arith, keys.beq_iff x k, contains-kept ks visited k, contains-kept ks (x ∷ visited) k)

  -- The visited keys grow by exactly the kept ones, and none stands twice.
  pub length-visited :
      (ks visited : List Key)
      → length (filter_edges g d ks visited).1
        ≡ length (filter_edges g d ks visited).0 + length visited
  unfolding filter_edges
  length-visited [] visited = omega arith
  length-visited (x ∷ ks) visited =
      ground (arith, length-visited ks visited, length-visited ks (x ∷ visited))

  pub visited-Distinct :
      (ks visited : List Key) → Distinct visited → Distinct (filter_edges g d ks visited).1
  unfolding filter_edges
  visited-Distinct [] visited h = h
  visited-Distinct (x ∷ ks) visited h =
      ground (arith, visited-Distinct ks visited h, visited-Distinct ks (x ∷ visited))
