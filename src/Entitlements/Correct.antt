-- ===== src/Entitlements/Correct.antt =====
-- The sets of `CalculatedEntitlements` and the targets of the edges
-- (shared/src/database/types/entitlement.rs).
use tv.Prelude.{
  ◌≡◌, refl, arith, Bool, false, ◌||◌, ◌==◌, List, [], ◌∷◌, foldl, Eq, nat_eq, contains, any,
}
use tv.Entitlements.Kind.{Prices, SubscriptionId, EntitlementEdgeKind}
use tv.Entitlements.Calculated.{insert, CalculatedEntitlements, nothing, collect, new}

contains-insert {ℓ} :
    {A : Type ℓ} ⦃e : Eq A⦄ (xs : List A) (a b : A)
    → contains (insert xs a) b ≡ (contains xs b || e.beq a b)
contains-insert ⦃e⦄ xs a b = ground (arith, e.beq_iff a b)

or-false : (b : Bool) → b ≡ (b || false)
or-false b = ground arith

module _ (prices : Prices) ⦃price_eq : Eq prices.PriceId⦄
    ⦃subscription_eq : Eq SubscriptionId⦄ where
  -- The two kinds are the same and go into one of the sets.
  abbrev pub same : EntitlementEdgeKind prices → EntitlementEdgeKind prices → Bool
  same (EntitlementEdgeKind.role a) (EntitlementEdgeKind.role b) = a == b
  same (EntitlementEdgeKind.badge a) (EntitlementEdgeKind.badge b) = a == b
  same (EntitlementEdgeKind.paint a) (EntitlementEdgeKind.paint b) = a == b
  same (EntitlementEdgeKind.emote_set a) (EntitlementEdgeKind.emote_set b) = a == b
  same (EntitlementEdgeKind.product a) (EntitlementEdgeKind.product b) = price_eq.beq a b
  same (EntitlementEdgeKind.subscription_benefit a) (EntitlementEdgeKind.subscription_benefit b) =
      a == b
  same (EntitlementEdgeKind.subscription a) (EntitlementEdgeKind.subscription b) =
      subscription_eq.beq a b
  same (EntitlementEdgeKind.special_event a) (EntitlementEdgeKind.special_event b) = a == b
  same _ _ = false

  -- The set for the kind holds what it names.
  abbrev pub holds : CalculatedEntitlements prices → EntitlementEdgeKind prices → Bool
  holds s (EntitlementEdgeKind.role a) = contains s.roles a
  holds s (EntitlementEdgeKind.badge a) = contains s.badges a
  holds s (EntitlementEdgeKind.paint a) = contains s.paints a
  holds s (EntitlementEdgeKind.emote_set a) = contains s.emote_sets a
  holds s (EntitlementEdgeKind.product a) = contains s.products a
  holds s (EntitlementEdgeKind.subscription_benefit a) = contains s.subscription_benefits a
  holds s (EntitlementEdgeKind.subscription a) = contains s.subscriptions a
  holds s (EntitlementEdgeKind.special_event a) = contains s.special_events a
  holds s (EntitlementEdgeKind.user a) = false
  holds s EntitlementEdgeKind.global_default_entitlement_group = false

  holds-collect :
      (acc : CalculatedEntitlements prices) (k q : EntitlementEdgeKind prices)
      → holds (collect prices acc k) q ≡ (holds acc q || same k q)
  unfolding collect
  holds-collect acc (EntitlementEdgeKind.role a) (EntitlementEdgeKind.role b) =
      contains-insert acc.roles a b
  holds-collect acc (EntitlementEdgeKind.badge a) (EntitlementEdgeKind.badge b) =
      contains-insert acc.badges a b
  holds-collect acc (EntitlementEdgeKind.paint a) (EntitlementEdgeKind.paint b) =
      contains-insert acc.paints a b
  holds-collect acc (EntitlementEdgeKind.emote_set a) (EntitlementEdgeKind.emote_set b) =
      contains-insert acc.emote_sets a b
  holds-collect acc (EntitlementEdgeKind.product a) (EntitlementEdgeKind.product b) =
      contains-insert acc.products a b
  holds-collect acc (EntitlementEdgeKind.subscription_benefit a)
        (EntitlementEdgeKind.subscription_benefit b) =
      contains-insert acc.subscription_benefits a b
  holds-collect acc (EntitlementEdgeKind.subscription a) (EntitlementEdgeKind.subscription b) =
      contains-insert acc.subscriptions a b
  holds-collect acc (EntitlementEdgeKind.special_event a) (EntitlementEdgeKind.special_event b) =
      contains-insert acc.special_events a b
  holds-collect acc k q = or-false (holds acc q)

  holds-foldl :
      (acc : CalculatedEntitlements prices) (es : List (EntitlementEdgeKind prices))
      (q : EntitlementEdgeKind prices)
      → holds (foldl (collect prices) acc es) q ≡ (holds acc q || any (λ k. same k q) es)
  holds-foldl acc [] q = or-false _
  holds-foldl acc (k ∷ es) q =
      ground (arith, holds-foldl (collect prices acc k) es q, holds-collect acc k q)

  holds-nothing : (q : EntitlementEdgeKind prices) → holds (nothing prices) q ≡ false
  holds-nothing (EntitlementEdgeKind.role a) = refl
  holds-nothing (EntitlementEdgeKind.badge a) = refl
  holds-nothing (EntitlementEdgeKind.paint a) = refl
  holds-nothing (EntitlementEdgeKind.emote_set a) = refl
  holds-nothing (EntitlementEdgeKind.product a) = refl
  holds-nothing (EntitlementEdgeKind.subscription_benefit a) = refl
  holds-nothing (EntitlementEdgeKind.subscription a) = refl
  holds-nothing (EntitlementEdgeKind.special_event a) = refl
  holds-nothing (EntitlementEdgeKind.user a) = refl
  holds-nothing EntitlementEdgeKind.global_default_entitlement_group = refl

  -- A role, badge, paint, emote set, product, subscription benefit, subscription or special event
  -- is in its set exactly if one of the edges leads to it; users and the default group are in none.
  pub new-holds :
      (es : List (EntitlementEdgeKind prices)) (q : EntitlementEdgeKind prices)
      → holds (new prices es) q ≡ any (λ k. same k q) es
  unfolding new
  new-holds es q = ground (arith, holds-foldl (nothing prices) es q, holds-nothing q)
