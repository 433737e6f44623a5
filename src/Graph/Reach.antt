-- ===== src/Graph/Reach.antt =====
-- What a traversal has found so far (shared/src/database/graph.rs): an invariant of its rounds.
use tv.Prelude.{
  ◌≡◌, arith, true, ◌&&◌, ◌||◌, List, [], ◌++◌, Eq, contains, contains-append, inl, inr, Bool-cases,
}
use tv.Prelude.Results.{ok}
use tv.Graph.{Direction, Graph, flat_map, has_next, filter_edges}
use tv.Graph.Filter.{contains-visited, contains-kept}
use tv.Graph.Store.{Store, contains-flat_map, flat_map_origin}

module _ {Key Edge Error : Type 0} ⦃keys : Eq Key⦄ ⦃edges : Eq Edge⦄ (g : Graph Key Edge)
    (store : Store Key Edge Error) (d : Direction) (start : List Key) where
  -- The keys that the stored edges lead to from the start nodes, through keys that have a next.
  pub data Reachable : Key → Type 0 where
    from_start : {k : Key} → contains start k ≡ true → has_next g d k ≡ true → Reachable k
    step :
        {k : Key} (e : Edge)
        → contains store.stored e ≡ true
        → Reachable (store.source d e)
        → contains (g.edge_next d e) k ≡ true
        → has_next g d k ≡ true
        → Reachable k

  pub record Inv (next visited : List Key) (total : List Edge) : Type 0 where
    pub visited_reached : (k : Key) → contains visited k ≡ true → Reachable k
    pub next_visited : (k : Key) → contains next k ≡ true → contains visited k ≡ true
    pub total_stored : (e : Edge) → contains total e ≡ true → contains store.stored e ≡ true
    pub total_reached : (e : Edge) → contains total e ≡ true → Reachable (store.source d e)
    pub all_found :
        (e : Edge)
        → contains store.stored e ≡ true
        → contains visited (store.source d e) ≡ true
        → (contains next (store.source d e) || contains total e) ≡ true
    pub targets_visited :
        (e : Edge) (k : Key)
        → contains total e ≡ true
        → contains (g.edge_next d e) k ≡ true
        → has_next g d k ≡ true
        → contains visited k ≡ true
    pub start_visited :
        (k : Key) → contains start k ≡ true → has_next g d k ≡ true → contains visited k ≡ true

  pub start-Inv : Inv (filter_edges g d start []).0 (filter_edges g d start []).1 []
  start-Inv = record {
    visited_reached = λ k h.
        from_start (ground (arith, contains-visited g d start [] k))
          (ground (arith, contains-visited g d start [] k));
    next_visited =
        λ k h. ground (arith, contains-visited g d start [] k, contains-kept g d start [] k);
    total_stored = λ e h. cc;
    total_reached = λ e h. cc;
    all_found = λ e h p. ground (
      arith,
      contains-visited g d start [] (store.source d e),
      contains-kept g d start [] (store.source d e),
    );
    targets_visited = λ e k h p q. cc;
    start_visited = λ k h p. ground (arith, contains-visited g d start [] k);
  }

  module _ (next visited : List Key) (total es : List Edge) (inv : Inv next visited total)
      (answer : store.fetch_edges d next ≡ ok es) where
    abbrev ks : List Key
    ks = flat_map (g.edge_next d) es

    answer_lem :
        (e : Edge) → contains es e ≡ (contains store.stored e && contains next (store.source d e))
    answer_lem = store.fetch_edges_lem d next es answer

    source_reached : (e : Edge) → contains es e ≡ true → Reachable (store.source d e)
    source_reached e h = inv.visited_reached _ (inv.next_visited _ (ground (arith, answer_lem e)))

    target_reached : (k : Key) → contains ks k ≡ true → has_next g d k ≡ true → Reachable k
    target_reached k h p =
        let (e, q, r) = flat_map_origin (g.edge_next d) es k h in
        step e (ground (arith, answer_lem e)) (source_reached e q) r p

    after_reached : (k : Key) → contains (filter_edges g d ks visited).1 k ≡ true → Reachable k
    after_reached k h = elim (Bool-cases (contains visited k)) [
      | inl old ↦ inv.visited_reached k old
      | inr fresh ↦
          target_reached k (ground (arith, contains-visited g d ks visited k))
            (ground (arith, contains-visited g d ks visited k))
    ]

    total_after : (e : Edge) → contains (total ++ es) e ≡ true → Reachable (store.source d e)
    total_after e h = elim (Bool-cases (contains total e)) [
      | inl old ↦ inv.total_reached e old
      | inr fresh ↦ source_reached e (ground (arith, contains-append total es e))
    ]

    pub step-Inv : Inv (filter_edges g d ks visited).0 (filter_edges g d ks visited).1 (total ++ es)
    step-Inv = record {
      visited_reached = after_reached;
      next_visited =
          λ k h. ground (arith, contains-visited g d ks visited k, contains-kept g d ks visited k);
      total_stored =
          λ e h. ground (arith, contains-append total es e, inv.total_stored e, answer_lem e);
      total_reached = total_after;
      all_found = λ e h p. ground (
        arith,
        contains-visited g d ks visited (store.source d e),
        contains-kept g d ks visited (store.source d e),
        contains-append total es e,
        inv.all_found e h,
        answer_lem e,
      );
      targets_visited = λ e k h p q. ground (
        arith,
        contains-append total es e,
        inv.targets_visited e k,
        contains-flat_map (g.edge_next d) es e k,
        contains-visited g d ks visited k,
      );
      start_visited =
          λ k h p. ground (arith, inv.start_visited k h p, contains-visited g d ks visited k);
    }
