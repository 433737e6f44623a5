-- ===== src/Graph/Tests.antt =====
-- The traversal theorems at a stored triangle with a tail: 1 → 2, 2 → 1, 2 → 3, 4 → 1.
use tv.Prelude.{
  ℕ, ◌≡◌, ◌↔◌, refl, arith, Bool, true, ◌&&◌, ◌==◌, some, List, [], ◌∷◌, Eq, nat_eq, contains, keep,
}
use tv.Prelude.Results.{Result, ok}
use tv.Graph.{Direction, Graph, traversal, traverse, filter_edges}
use tv.Graph.Store.{Store}
use tv.Graph.Bound.{traversal-some}
use tv.Graph.Reach.{Reachable}
use tv.Graph.Complete.{traversal-reaches}

record Arc : Type 0 where
  from : ℕ
  to : ℕ

abbrev arc_beq : Arc → Arc → Bool
arc_beq a b = a.from == b.from && a.to == b.to

arc_beq_iff : (a b : Arc) → (arc_beq a b ≡ true) ↔ (a ≡ b)
arc_beq_iff a b = ((λ h. ground arith), (λ h. ground arith))

instance abbrev arc_eq : Eq Arc
arc_eq = record { beq = arc_beq; beq_iff = arc_beq_iff }

abbrev arcs : Graph ℕ Arc
arcs = record {
  has_inbound = λ k. true;
  has_outbound = λ k. true;
  edge_next = λ d e. elim d [ Direction.inbound ↦ e.from ∷ [] | Direction.outbound ↦ e.to ∷ [] ];
}

abbrev arc : ℕ → ℕ → Arc
arc a b = record { from = a; to = b }

abbrev stored : List Arc
stored = arc 1 2 ∷ arc 2 1 ∷ arc 2 3 ∷ arc 4 1 ∷ []

abbrev source : Direction → Arc → ℕ
source Direction.inbound e = e.to
source Direction.outbound e = e.from

contains-keep :
    (p : Arc → Bool) (es : List Arc) (e : Arc) → contains (keep p es) e ≡ (contains es e && p e)
contains-keep p [] e = refl
contains-keep p (x ∷ es) e = ground (arith, arc_beq_iff x e, contains-keep p es e)

abbrev fetch : Direction → List ℕ → Result (List Arc) ℕ
fetch d nodes = ok (keep (λ e. contains nodes (source d e)) stored)

fetch_lem :
    (d : Direction) (nodes : List ℕ) (es : List Arc)
    → fetch d nodes ≡ ok es
    → (e : Arc) → contains es e ≡ (contains stored e && contains nodes (source d e))
fetch_lem d nodes es h e =
    let same : keep (λ e. contains nodes (source d e)) stored ≡ es = cc in
    rw (same) at (contains-keep (λ e. contains nodes (source d e)) stored e)

abbrev store : Store ℕ Arc ℕ
store = record {
  stored = stored;
  source = source;
  fetch_edges = fetch;
  fetch_edges_lem = fetch_lem;
}

traversal-some_example :
    (r : Result (List Arc) ℕ) × (traversal arcs fetch 7 Direction.outbound (1 ∷ []) ≡ some r)
traversal-some_example = traversal-some arcs store Direction.outbound (1 ∷ []) 7 (omega arith)

abbrev found : List Arc
found = arc 1 2 ∷ arc 2 1 ∷ arc 2 3 ∷ []

run : traversal arcs fetch 7 Direction.outbound (1 ∷ []) ≡ some (ok found)
unfolding traversal traverse filter_edges
run = refl

traversal-reaches_example :
    (contains found (arc 2 3) ≡ true)
    ↔ ((contains stored (arc 2 3) ≡ true) × Reachable arcs store Direction.outbound (1 ∷ []) 2)
traversal-reaches_example =
    traversal-reaches arcs store Direction.outbound (1 ∷ []) 7 found (arc 2 3) run
