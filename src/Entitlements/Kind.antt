-- ===== src/Entitlements/Kind.antt =====
-- `EntitlementEdgeKind` with its text and its parser, `EntitlementEdge`, and the text of a
-- `SubscriptionId` (shared/src/database/types/product/subscription.rs). The text of a
-- `stripe::PriceId` belongs to a crate that is not in the repository, so it is an interface.
use tv.Prelude.{◌≡◌, Bool, true, false, none, some, ◌∷◌, ◌++◌, if◌then◌else◌, length}
use tv.Prelude.Text.{Str, bytes, beq, split_once}
use tv.Prelude.Results.{Result, ok, err, ◌>>=◌, map_err, ok_or}
use tv.Ids.{
  DatabaseId, UserId, RoleId, IdCrates, IdFromStrError, invalid_length, from_str, to_string,
}

pub record Prices : Type 1 where
  pub PriceId : Type 0
  pub PriceError : Type 0
  pub price_from_str : Str → Result PriceId PriceError
  pub price_to_string : PriceId → Str
  pub price_from_str-to_string : (p : PriceId) → price_from_str (price_to_string p) ≡ ok p

pub record SubscriptionId : Type 0 where
  pub user_id : UserId
  pub product_id : DatabaseId

module _ (crates : IdCrates) where
  unfoldable pub subscription_id_to_string : SubscriptionId → Str
  subscription_id_to_string s = to_string crates s.user_id ++ b':' ∷ to_string crates s.product_id

  unfoldable pub subscription_id_from_str : Str → Result SubscriptionId (IdFromStrError crates)
  subscription_id_from_str s = do
    (user_id, product_id) ← ok_or (split_once b':' s) (invalid_length (length s))
    u ← from_str crates user_id
    p ← from_str crates product_id
    ok (record { user_id = u; product_id = p })

module _ (prices : Prices) where
  open prices use {PriceId, price_from_str, price_to_string}

  pub data EntitlementEdgeKind : Type 0 where
    user : UserId → EntitlementEdgeKind
    role : RoleId → EntitlementEdgeKind
    badge : DatabaseId → EntitlementEdgeKind
    paint : DatabaseId → EntitlementEdgeKind
    emote_set : DatabaseId → EntitlementEdgeKind
    product : PriceId → EntitlementEdgeKind
    subscription_benefit : DatabaseId → EntitlementEdgeKind
    subscription : SubscriptionId → EntitlementEdgeKind
    special_event : DatabaseId → EntitlementEdgeKind
    global_default_entitlement_group : EntitlementEdgeKind

  pub data EntitlementEdgeManagedBy (InvoiceId InvoiceLineItemId : Type 0) : Type 0 where
    invoice_line_item :
        InvoiceId → InvoiceLineItemId → EntitlementEdgeManagedBy InvoiceId InvoiceLineItemId
    subscription : SubscriptionId → EntitlementEdgeManagedBy InvoiceId InvoiceLineItemId
    redeem_code : DatabaseId → EntitlementEdgeManagedBy InvoiceId InvoiceLineItemId
    special_event : DatabaseId → EntitlementEdgeManagedBy InvoiceId InvoiceLineItemId
    all_cosmetics : EntitlementEdgeManagedBy InvoiceId InvoiceLineItemId

  unfoldable pub has_inbound : EntitlementEdgeKind → Bool
  has_inbound (EntitlementEdgeKind.user user_id) = false
  has_inbound EntitlementEdgeKind.global_default_entitlement_group = false
  has_inbound _ = true

  unfoldable pub has_outbound : EntitlementEdgeKind → Bool
  has_outbound (EntitlementEdgeKind.badge badge_id) = false
  has_outbound (EntitlementEdgeKind.paint paint_id) = false
  has_outbound (EntitlementEdgeKind.emote_set emote_set_id) = false
  has_outbound _ = true

  module _ (crates : IdCrates) where
    unfoldable pub edge_kind_to_string : EntitlementEdgeKind → Str
    edge_kind_to_string (EntitlementEdgeKind.user user_id) =
        bytes "user" ++ b':' ∷ to_string crates user_id
    edge_kind_to_string (EntitlementEdgeKind.role role_id) =
        bytes "role" ++ b':' ∷ to_string crates role_id
    edge_kind_to_string (EntitlementEdgeKind.badge badge_id) =
        bytes "badge" ++ b':' ∷ to_string crates badge_id
    edge_kind_to_string (EntitlementEdgeKind.paint paint_id) =
        bytes "paint" ++ b':' ∷ to_string crates paint_id
    edge_kind_to_string (EntitlementEdgeKind.emote_set emote_id) =
        bytes "emote_set" ++ b':' ∷ to_string crates emote_id
    edge_kind_to_string (EntitlementEdgeKind.product product_id) =
        bytes "product" ++ b':' ∷ price_to_string product_id
    edge_kind_to_string (EntitlementEdgeKind.subscription_benefit subscription_benefit_id) =
        bytes "subscription_benefit" ++ b':' ∷ to_string crates subscription_benefit_id
    edge_kind_to_string (EntitlementEdgeKind.subscription subscription_id) =
        bytes "subscription" ++ b':' ∷ subscription_id_to_string crates subscription_id
    edge_kind_to_string (EntitlementEdgeKind.special_event special_event_id) =
        bytes "special_event" ++ b':' ∷ to_string crates special_event_id
    edge_kind_to_string EntitlementEdgeKind.global_default_entitlement_group =
        bytes "global_default_entitlement_group"

    -- `parts[1].parse().map_err(|_| message)?` under one of the constructors that hold an id.
    abbrev with_id : (DatabaseId → EntitlementEdgeKind) → Str → Str → Result EntitlementEdgeKind Str
    with_id kind message part = map_err (λ _. message) (from_str crates part) >>= λ id. ok (kind id)

    -- The last two cases of the match, which do not ask for a second part.
    abbrev without_id : Str → Result EntitlementEdgeKind Str
    without_id kind =
        if beq kind (bytes "global_default_entitlement_group")
        then ok EntitlementEdgeKind.global_default_entitlement_group
        else err (bytes "invalid kind")

    abbrev parse_parts : Str → Str → Result EntitlementEdgeKind Str
    parse_parts kind part =
        if beq kind (bytes "user")
        then with_id EntitlementEdgeKind.user (bytes "invalid user id") part
        else if beq kind (bytes "role")
        then with_id EntitlementEdgeKind.role (bytes "invalid role id") part
        else if beq kind (bytes "badge")
        then with_id EntitlementEdgeKind.badge (bytes "invalid badge id") part
        else if beq kind (bytes "paint")
        then with_id EntitlementEdgeKind.paint (bytes "invalid paint id") part
        else if beq kind (bytes "emote_set")
        then with_id EntitlementEdgeKind.emote_set (bytes "invalid emote set id") part
        else if beq kind (bytes "product")
        then (map_err (λ _. bytes "invalid product id") (price_from_str part) >>= λ p.
            ok (EntitlementEdgeKind.product p))
        else if beq kind (bytes "subscription")
        then (map_err (λ _. bytes "invalid subscription id") (subscription_id_from_str crates part)
            >>= λ p. ok (EntitlementEdgeKind.subscription p))
        else if beq kind (bytes "special_event")
        then with_id EntitlementEdgeKind.special_event (bytes "invalid special event id") part
        else without_id kind

    -- `splitn(2, ':')` gives two parts when there is a colon, else one.
    unfoldable pub edge_kind_from_str : Str → Result EntitlementEdgeKind Str
    edge_kind_from_str s = elim (split_once b':' s) [
      | none ↦ without_id s
      | some (kind, part) ↦ parse_parts kind part
    ]
