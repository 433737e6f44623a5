-- ===== src/Graph/Store.antt =====
-- The store behind `fetch_edges` (shared/src/database/graph.rs): it holds finitely many edges, and
-- an answer is the stored edges at the asked nodes. For entitlements that is what the batched
-- loaders of shared/src/database/entitlement_edge.rs ask MongoDB: edges by `from` outbound, by `to`
-- inbound.
use tv.Prelude.{
  ◌≡◌, arith, true, ◌&&◌, List, [], ◌∷◌, Eq, contains, contains-append, Bool-cases, inl, inr,
}
use tv.Prelude.Results.{Result, ok}
use tv.Graph.{Direction, flat_map}

pub record Store (Key Edge Error : Type 0) ⦃keys : Eq Key⦄ ⦃edges : Eq Edge⦄ : Type 0 where
  pub stored : List Edge
  -- the end of an edge that a traversal of the direction asks for
  pub source : Direction → Edge → Key
  pub fetch_edges : Direction → List Key → Result (List Edge) Error
  pub fetch_edges_lem :
      (d : Direction) (nodes : List Key) (es : List Edge)
      → fetch_edges d nodes ≡ ok es
      → (e : Edge) → contains es e ≡ (contains stored e && contains nodes (source d e))

module _ {A B : Type 0} ⦃eq_a : Eq A⦄ ⦃eq_b : Eq B⦄ (f : A → List B) where
  pub contains-flat_map :
      (xs : List A) (a : A) (b : B)
      → contains xs a ≡ true
      → contains (f a) b ≡ true
      → contains (flat_map f xs) b ≡ true
  contains-flat_map [] a b h k = cc
  contains-flat_map (x ∷ xs) a b h k =
      ground
        (arith, eq_a.beq_iff x a, contains-append (f x) (flat_map f xs) b, contains-flat_map xs a b)

  pub flat_map_origin :
      (xs : List A) (b : B)
      → contains (flat_map f xs) b ≡ true
      → (a : A) × (contains xs a ≡ true) × (contains (f a) b ≡ true)
  flat_map_origin [] b h = cc
  flat_map_origin (x ∷ xs) b h = elim (Bool-cases (contains (f x) b)) [
    | inl here ↦ (x, ground (arith, eq_a.beq_iff x x), here)
    | inr absent ↦
        let (a, p, q) =
          flat_map_origin xs b (ground (arith, contains-append (f x) (flat_map f xs) b)) in
        (a, ground arith, q)
  ]
