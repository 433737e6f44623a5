-- ===== src/Entitlements/Fetch/Answer.antt =====
-- What the loaders of shared/src/database/entitlement_edge.rs answer.
use tv.Prelude.{
  ◌≡◌, refl, arith, Bool, true, ◌&&◌, Option, none, some, List, [], ◌∷◌, Eq, contains,
  contains-append, get_or, Bool-cases, Option-cases, inl, inr,
}
use tv.Prelude.HashMap.{HashMap, get, IsUnique}
use tv.Prelude.Results.{ok, err, Result-cases}
use tv.Graph.{Direction, flat_map}
use tv.Graph.Store.{Store}
use tv.Entitlements.Fetch.{Collection, Grouping, Batching, load_by, fetch_edges, source}

module _ {Key Edge : Type 0} ⦃keys : Eq Key⦄ ⦃edges : Eq Edge⦄ where
  abbrev listed : HashMap Key (List Edge) → Key → List Edge
  listed m k = get_or (get m k) []

  abbrev all_values : HashMap Key (List Edge) → List Edge
  all_values m = flat_map (λ (k, v). v) m

  value_key :
      (m : HashMap Key (List Edge)) (e : Edge)
      → contains (all_values m) e ≡ true
      → IsUnique m
      → (k : Key) × (contains (listed m k) e ≡ true)
  value_key [] e h u = cc
  value_key ((j, v) ∷ m) e h u = elim (Bool-cases (contains v e)) [
    | inl here ↦ (j, ground (arith, keys.beq_iff j j))
    | inr absent ↦
        let (k, p) = value_key m e (ground (arith, contains-append v (all_values m) e)) u.1 in
        (k, ground (arith, keys.beq_iff j k))
  ]

  key_value :
      (m : HashMap Key (List Edge)) (k : Key) (e : Edge)
      → contains (listed m k) e ≡ true
      → contains (all_values m) e ≡ true
  key_value [] k e h = cc
  key_value ((j, v) ∷ m) k e h = ground (arith, contains-append v (all_values m) e, key_value m k e)

both : (a b : Bool) → (a ≡ true → b ≡ true) → (b ≡ true → a ≡ true) → a ≡ b
both a b f g = ground arith

module _ {Key Edge : Type 0} ⦃keys : Eq Key⦄ ⦃edges : Eq Edge⦄ (from to : Edge → Key)
    (db : Collection Key Edge from to) (grouping : Grouping Key Edge)
    (batching : Batching Key Edge) where
  module _ (find : List Key → Option (List Edge)) (end : Edge → Key)
      (find_lem : (asked : List Key) (es : List Edge)
        → find asked ≡ some es
        → (e : Edge) → contains es e ≡ (contains db.stored e && contains asked (end e))) where
    abbrev load : List Key → Option (HashMap Key (List Edge))
    load = load_by from to db grouping batching find end

    -- The entry of a batch for one of its keys holds the stored edges at that key.
    batch_listed :
        (batch : List Key) (r : HashMap Key (List Edge)) (k : Key) (e : Edge)
        → load batch ≡ some r
        → contains batch k ≡ true
        → contains (listed r k) e ≡ (contains db.stored e && keys.beq (end e) k)
    batch_listed batch r k e h asked = elim (Option-cases (find batch)) [
      | inl p ↦ absurd (let clash : none ≡ some r = rw (p, load_by) at h in cc)
      | inr (results, p) ↦
          let same : some (grouping.into_group_map_by end results) ≡ some r =
            rw (p, load_by) at h in
          let grouped : grouping.into_group_map_by end results ≡ r = cc in
          let law = grouping.into_group_map_by_lem end results k e in
          rw (← grouped) (ground (arith, law, find_lem batch results p e, keys.beq_iff (end e) k))
    ]

    module _ (nodes : List Key) (m : HashMap Key (List Edge))
        (answer : batching.load_many load nodes ≡ ok m) (e : Edge) where
      listed_lem :
          (k : Key)
          → contains (listed m k) e
            ≡ (contains nodes k && contains db.stored e && keys.beq (end e) k)
      listed_lem k = elim (Bool-cases (contains nodes k)) [
        | inr other ↦ rw (batching.load_many_other load nodes m answer k other, other) refl
        | inl asked ↦
            let (batch, r, p, q, same) = batching.load_many_asked load nodes m answer k asked in
            rw (same, asked) (batch_listed batch r k e q p)
      ]

      values_lem : contains (all_values m) e ≡ (contains db.stored e && contains nodes (end e))
      values_lem =
          both _ _
            (λ h.
              let (k, p) = value_key m e h (batching.load_many-IsUnique load nodes m answer) in
              ground (arith, listed_lem k, keys.beq_iff (end e) k))
            (λ h.
              key_value m (end e) e
                (ground (arith, listed_lem (end e), keys.beq_iff (end e) (end e))))

  -- An answer of `fetch_edges` holds exactly the stored edges that lead to one of the nodes, for
  -- the inbound direction, or from one of them, for the outbound direction.
  pub fetch_edges-contains :
      (d : Direction) (nodes : List Key) (es : List Edge)
      → fetch_edges from to db grouping batching d nodes ≡ ok es
      → (e : Edge)
      → contains es e
        ≡ (contains db.stored e && contains nodes (source from to db grouping batching d e))
  unfolding fetch_edges
  fetch_edges-contains Direction.inbound nodes es h e =
      elim (Result-cases
        (batching.load_many (load_by from to db grouping batching db.find_to to) nodes)) [
          | inr (x, p) ↦ absurd (let clash : err x ≡ ok es = rw (p) at h in cc)
          | inl (m, p) ↦
              let same : ok (all_values m) ≡ ok es = rw (p) at h in
              let values_es : all_values m ≡ es = cc in
              rw (← values_es) (values_lem db.find_to to db.find_to_lem nodes m p e)
        ]
  fetch_edges-contains Direction.outbound nodes es h e =
      elim (Result-cases
        (batching.load_many (load_by from to db grouping batching db.find_from from) nodes)) [
          | inr (x, p) ↦ absurd (let clash : err x ≡ ok es = rw (p) at h in cc)
          | inl (m, p) ↦
              let same : ok (all_values m) ≡ ok es = rw (p) at h in
              let values_es : all_values m ≡ es = cc in
              rw (← values_es) (values_lem db.find_from from db.find_from_lem nodes m p e)
        ]

  -- The loaders as the store of a traversal.
  abbrev pub loader_store : Store Key Edge (Unit {0})
  loader_store = record {
    stored = db.stored;
    source = source from to db grouping batching;
    fetch_edges = fetch_edges from to db grouping batching;
    fetch_edges_lem = fetch_edges-contains;
  }
