-- ===== src/Graph.antt =====
-- Breadth-first traversal of a stored graph (shared/src/database/graph.rs). The trait `GraphEdge`
-- with its keys is a record of functions, and so is the store that `fetch_edges` asks. A round of
-- the `while` loop takes one unit of fuel, and `none` means that the fuel ran out.
pub mod Filter
pub mod Store
pub mod Bound
pub mod Reach
pub mod Complete
mod Tests
use tv.Prelude.{
  ℕ, zero, suc, Bool, true, false, ◌&&◌, Option, none, some, List, [], ◌∷◌, ◌++◌, Eq, contains,
  length, ◌+◌,
}
use tv.Prelude.Results.{Result, ok, err}

pub data Direction : Type 0 where
  inbound outbound : Direction

-- `GraphKey` and `GraphEdge`.
pub record Graph (Key Edge : Type 0) : Type 0 where
  pub has_inbound : Key → Bool
  pub has_outbound : Key → Bool
  pub edge_next : Direction → Edge → List Key

abbrev pub flat_map : {A B : Type 0} → (A → List B) → List A → List B
flat_map f [] = []
flat_map f (a ∷ as') = f a ++ flat_map f as'

module _ {Key Edge : Type 0} ⦃keys : Eq Key⦄ (g : Graph Key Edge) where
  abbrev pub has_next : Direction → Key → Bool
  has_next Direction.inbound k = g.has_inbound k
  has_next Direction.outbound k = g.has_outbound k

  -- `filter_map(&mut filter_edge)` with the filter of `traversal`, `visited.insert(kind.clone())`:
  -- the keys that are kept, and the visited set after them.
  unfoldable pub filter_edges : Direction → List Key → List Key → List Key × List Key
  filter_edges d [] visited = ([], visited)
  filter_edges d (k ∷ ks) visited = elim (has_next d k) [
    | false ↦ filter_edges d ks visited
    | true ↦ elim (contains visited k) [
      | true ↦ filter_edges d ks visited
      | false ↦ let (kept, after) = filter_edges d ks (k ∷ visited) in (k ∷ kept, after)
    ]
  ]

  module _ {Error : Type 0} (fetch_edges : Direction → List Key → Result (List Edge) Error) where
    -- The loop of `traversal_filter`: the nodes of the next round, the visited keys and the edges
    -- so far.
    unfoldable pub traverse :
        ℕ → Direction → List Key → List Key → List Edge → Option (Result (List Edge) Error)
    traverse zero d next visited total = none
    traverse (suc fuel) d [] visited total = some (ok total)
    traverse (suc fuel) d (n ∷ next) visited total = elim (fetch_edges d (n ∷ next)) [
      | err e ↦ some (err e)
      | ok new_edges ↦
          let (next', visited') = filter_edges d (flat_map (g.edge_next d) new_edges) visited in
          traverse fuel d next' visited' (total ++ new_edges)
    ]

    unfoldable pub traversal : ℕ → Direction → List Key → Option (Result (List Edge) Error)
    traversal fuel d start_nodes =
        let (next, visited) = filter_edges d start_nodes [] in traverse fuel d next visited []
