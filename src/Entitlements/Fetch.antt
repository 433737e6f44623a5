-- ===== src/Entitlements/Fetch.antt =====
-- The store behind a traversal of entitlements (shared/src/database/entitlement_edge.rs): two
-- batched loaders over the collection of edges. MongoDB, the crate itertools and scuffle's
-- batching are interfaces, and an answer that fails is `none` or `err`.
pub mod Answer
mod Tests
use tv.Prelude.{
  ◌≡◌, Bool, true, false, ◌&&◌, Option, none, some, List, [], ◌∷◌, Eq, contains, get_or,
}
use tv.Prelude.HashMap.{HashMap, get, IsUnique}
use tv.Prelude.Results.{Result, ok, err}
use tv.Graph.{Direction, flat_map}

module _ (Key Edge : Type 0) ⦃keys : Eq Key⦄ ⦃edges : Eq Edge⦄ where
  -- `find` with the selector `in`, on `to` inbound and on `from` outbound.
  pub record Collection (from to : Edge → Key) : Type 0 where
    pub stored : List Edge
    pub find_to : List Key → Option (List Edge)
    pub find_from : List Key → Option (List Edge)
    pub find_to_lem :
        (asked : List Key) (es : List Edge)
        → find_to asked ≡ some es
        → (e : Edge) → contains es e ≡ (contains stored e && contains asked (to e))
    pub find_from_lem :
        (asked : List Key) (es : List Edge)
        → find_from asked ≡ some es
        → (e : Edge) → contains es e ≡ (contains stored e && contains asked (from e))

  -- `Itertools::into_group_map_by`
  pub record Grouping : Type 0 where
    pub into_group_map_by : (Edge → Key) → List Edge → HashMap Key (List Edge)
    pub into_group_map_by_lem :
        (f : Edge → Key) (es : List Edge) (k : Key) (e : Edge)
        → contains (get_or (get (into_group_map_by f es) k) []) e
          ≡ (contains es e && keys.beq (f e) k)

  -- `DataLoader::load_many` asks a fetcher for batches that hold the wanted keys.
  pub record Batching : Type 0 where
    pub load_many :
        (List Key → Option (HashMap Key (List Edge)))
        → List Key
        → Result (HashMap Key (List Edge)) (Unit {0})
    pub load_many-IsUnique :
        (load : List Key → Option (HashMap Key (List Edge))) (asked : List Key)
        (m : HashMap Key (List Edge))
        → load_many load asked ≡ ok m
        → IsUnique m
    pub load_many_other :
        (load : List Key → Option (HashMap Key (List Edge))) (asked : List Key)
        (m : HashMap Key (List Edge))
        → load_many load asked ≡ ok m
        → (k : Key) → contains asked k ≡ false
        → get m k ≡ none
    pub load_many_asked :
        (load : List Key → Option (HashMap Key (List Edge))) (asked : List Key)
        (m : HashMap Key (List Edge))
        → load_many load asked ≡ ok m
        → (k : Key) → contains asked k ≡ true
        → (batch : List Key) × (r : HashMap Key (List Edge)) × (contains batch k ≡ true)
          × (load batch ≡ some r)
          × (get m k ≡ get r k)

module _ {Key Edge : Type 0} ⦃keys : Eq Key⦄ ⦃edges : Eq Edge⦄ (from to : Edge → Key)
    (db : Collection Key Edge from to) (grouping : Grouping Key Edge)
    (batching : Batching Key Edge) where
  -- `load` of either loader, given its query and the end that it groups by.
  abbrev pub load_by :
      (List Key → Option (List Edge)) → (Edge → Key) → List Key → Option (HashMap Key (List Edge))
  load_by find end asked = elim (find asked) [
    | none ↦ none
    | some results ↦ some (grouping.into_group_map_by end results)
  ]

  -- `into_values().flatten().collect()`
  abbrev pub values : Result (HashMap Key (List Edge)) (Unit {0}) → Result (List Edge) (Unit {0})
  values (ok m) = ok (flat_map (λ (k, v). v) m)
  values (err e) = err e

  unfoldable pub fetch_edges : Direction → List Key → Result (List Edge) (Unit {0})
  fetch_edges Direction.inbound nodes = values (batching.load_many (load_by db.find_to to) nodes)
  fetch_edges Direction.outbound nodes =
      values (batching.load_many (load_by db.find_from from) nodes)

  -- The end that an edge is fetched by.
  abbrev pub source : Direction → Edge → Key
  source Direction.inbound e = to e
  source Direction.outbound e = from e
