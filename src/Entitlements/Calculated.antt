-- ===== src/Entitlements/Calculated.antt =====
-- `EntitlementEdge` and `CalculatedEntitlements` of shared/src/database/types/entitlement.rs. A
-- `HashSet` is a list without repetition; the warning for a user node is only logged.
use tv.Prelude.{Option, List, [], ◌∷◌, foldl, Eq, contains, nat_eq, if◌then◌else◌}
use tv.Ids.{DatabaseId, RoleId}
use tv.Graph.{Direction, Graph}
use tv.Entitlements.Kind.{
  Prices, SubscriptionId, EntitlementEdgeKind, EntitlementEdgeManagedBy, has_inbound, has_outbound,
}

-- `HashSet::insert`
abbrev pub insert {ℓ} : {A : Type ℓ} ⦃e : Eq A⦄ → List A → A → List A
insert xs a = if contains xs a then xs else (a ∷ xs)

module _ (prices : Prices) where
  open prices use {PriceId}

  module _ (InvoiceId InvoiceLineItemId : Type 0) where
    pub record EntitlementEdgeId : Type 0 where
      pub from : EntitlementEdgeKind prices
      pub to : EntitlementEdgeKind prices
      pub managed_by : Option (EntitlementEdgeManagedBy prices InvoiceId InvoiceLineItemId)

    pub record EntitlementEdge : Type 0 where
      pub id : EntitlementEdgeId

    unfoldable pub edge_next : Direction → EntitlementEdge → List (EntitlementEdgeKind prices)
    edge_next Direction.inbound edge = edge.id.from ∷ []
    edge_next Direction.outbound edge = edge.id.to ∷ []

    -- The instances of `GraphKey` and `GraphEdge`.
    abbrev pub entitlement_graph : Graph (EntitlementEdgeKind prices) EntitlementEdge
    entitlement_graph = record {
      has_inbound = has_inbound prices;
      has_outbound = has_outbound prices;
      edge_next = edge_next;
    }

  pub record CalculatedEntitlements : Type 0 where
    pub roles : List RoleId
    pub badges : List DatabaseId
    pub paints : List DatabaseId
    pub emote_sets : List DatabaseId
    pub products : List PriceId
    pub subscriptions : List SubscriptionId
    pub subscription_benefits : List DatabaseId
    pub special_events : List DatabaseId

  abbrev pub nothing : CalculatedEntitlements
  nothing = record {
    roles = [];
    badges = [];
    paints = [];
    emote_sets = [];
    products = [];
    subscriptions = [];
    subscription_benefits = [];
    special_events = [];
  }

  module _ ⦃price_eq : Eq PriceId⦄ ⦃subscription_eq : Eq SubscriptionId⦄ where
    -- The closure of `for_each`, on the sets so far.
    unfoldable pub collect :
        CalculatedEntitlements → EntitlementEdgeKind prices → CalculatedEntitlements
    collect acc (EntitlementEdgeKind.role role_id) = record acc { roles = insert acc.roles role_id }
    collect acc (EntitlementEdgeKind.badge badge_id) = record acc {
      badges = insert acc.badges badge_id;
    }
    collect acc (EntitlementEdgeKind.paint paint_id) = record acc {
      paints = insert acc.paints paint_id;
    }
    collect acc (EntitlementEdgeKind.emote_set emote_id) = record acc {
      emote_sets = insert acc.emote_sets emote_id;
    }
    collect acc (EntitlementEdgeKind.product product_id) = record acc {
      products = insert acc.products product_id;
    }
    collect acc (EntitlementEdgeKind.subscription_benefit subscription_benefit_id) = record acc {
      subscription_benefits = insert acc.subscription_benefits subscription_benefit_id;
    }
    collect acc (EntitlementEdgeKind.subscription subscription_id) = record acc {
      subscriptions = insert acc.subscriptions subscription_id;
    }
    collect acc (EntitlementEdgeKind.special_event special_event_id) = record acc {
      special_events = insert acc.special_events special_event_id;
    }
    collect acc (EntitlementEdgeKind.user user_id) = acc
    collect acc EntitlementEdgeKind.global_default_entitlement_group = acc

    -- `CalculatedEntitlements::new`
    unfoldable pub new : List (EntitlementEdgeKind prices) → CalculatedEntitlements
    new edges = foldl collect nothing edges
