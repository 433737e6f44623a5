-- ===== src/Entitlements/Tests.antt =====
-- The entitlement theorems at the stand-in for the crates.
use tv.Prelude.{ℕ, ◌+◌, ◌*◌, ◌^◌, ◌≡◌, ◌↔◌, refl, arith, Bool, true, ◌&&◌, ◌==◌, List, [], ◌∷◌, Eq}
use tv.Prelude.Text.{Str, bytes, str_eq}
use tv.Prelude.Results.{ok, err}
use tv.Ids.Example.{stand_in}
use tv.Entitlements.Kind.{
  Prices, SubscriptionId, subscription_id_to_string, subscription_id_from_str, EntitlementEdgeKind,
  edge_kind_to_string, edge_kind_from_str,
}
use tv.Entitlements.Roundtrip.{subscription_id_from_str-to_string, edge_kind_from_str-to_string}
use tv.Entitlements.Calculated.{new}
use tv.Entitlements.Correct.{holds, new-holds}

abbrev names : Prices
names = record {
  PriceId = Str;
  PriceError = ℕ;
  price_from_str = λ s. ok s;
  price_to_string = λ s. s;
  price_from_str-to_string = λ s. refl;
}

abbrev sample : ℕ
sample = 1_700_000_000_000 * 2 ^ 80 + 258

abbrev monthly : SubscriptionId
monthly = record { user_id = sample; product_id = 7 }

subscription_id_from_str-to_string_example :
    subscription_id_from_str stand_in (subscription_id_to_string stand_in monthly) ≡ ok monthly
subscription_id_from_str-to_string_example =
    subscription_id_from_str-to_string stand_in monthly (omega arith) (omega arith)

abbrev benefit : EntitlementEdgeKind names
benefit = EntitlementEdgeKind.subscription_benefit sample

edge_kind_from_str-to_string_example :
    edge_kind_from_str names stand_in (edge_kind_to_string names stand_in benefit)
    ≡ err (bytes "invalid kind")
edge_kind_from_str-to_string_example =
    edge_kind_from_str-to_string stand_in names benefit (omega arith)

abbrev subscription_beq : SubscriptionId → SubscriptionId → Bool
subscription_beq a b = a.user_id == b.user_id && a.product_id == b.product_id

subscription_beq_iff : (a b : SubscriptionId) → (subscription_beq a b ≡ true) ↔ (a ≡ b)
subscription_beq_iff a b = ((λ h. ground arith), (λ h. ground arith))

instance abbrev subscription_eq : Eq SubscriptionId
subscription_eq = record { beq = subscription_beq; beq_iff = subscription_beq_iff }

abbrev targets : List (EntitlementEdgeKind names)
targets =
    EntitlementEdgeKind.role 3
    ∷ EntitlementEdgeKind.user 9
    ∷ EntitlementEdgeKind.badge 3
    ∷ EntitlementEdgeKind.role 3
    ∷ []

new-holds_example : holds names (new names targets) (EntitlementEdgeKind.role 3) ≡ true
new-holds_example = new-holds names targets (EntitlementEdgeKind.role 3)
