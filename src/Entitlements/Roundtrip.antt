-- ===== src/Entitlements/Roundtrip.antt =====
-- Which texts of edge kinds are read back (shared/src/database/types/entitlement.rs).
use tv.Prelude.{◌^◌, ◌<◌, ◌≡◌, refl, arith, some, ◌∷◌, ◌++◌}
use tv.Prelude.Text.{Str, bytes, split_once, split_once-append}
use tv.Prelude.Results.{Result, ok, err}
use tv.Ids.{DatabaseId, IdCrates, to_string}
use tv.Ids.Text.{from_str-to_string, to_string-Lacks}
use tv.Entitlements.Kind.{
  Prices, SubscriptionId, subscription_id_to_string, subscription_id_from_str, EntitlementEdgeKind,
  edge_kind_to_string, edge_kind_from_str,
}

module _ (crates : IdCrates) where
  split_user :
      (u : DatabaseId) (rest : Str)
      → split_once b':' (to_string crates u ++ b':' ∷ rest) ≡ some (to_string crates u, rest)
  split_user u rest =
      split_once-append b':' (to_string crates u) rest
        (to_string-Lacks crates b':' u (λ h. omega arith))

  -- The text of a subscription id is read back as that id, if both of its ids have 128 bits.
  pub subscription_id_from_str-to_string :
      (s : SubscriptionId)
      → s.user_id < 2 ^ 128
      → s.product_id < 2 ^ 128
      → subscription_id_from_str crates (subscription_id_to_string crates s) ≡ ok s
  unfolding subscription_id_from_str subscription_id_to_string
  subscription_id_from_str-to_string s u p =
      simp (
        split_user,
        from_str-to_string crates s.user_id u,
        from_str-to_string crates s.product_id p,
      )

  module _ (prices : Prices) where
    -- Every id of the kind is a number of 128 bits.
    abbrev pub HasWords : EntitlementEdgeKind prices → Type 0
    HasWords (EntitlementEdgeKind.user id) = id < 2 ^ 128
    HasWords (EntitlementEdgeKind.role id) = id < 2 ^ 128
    HasWords (EntitlementEdgeKind.badge id) = id < 2 ^ 128
    HasWords (EntitlementEdgeKind.paint id) = id < 2 ^ 128
    HasWords (EntitlementEdgeKind.emote_set id) = id < 2 ^ 128
    HasWords (EntitlementEdgeKind.product p) = Unit
    HasWords (EntitlementEdgeKind.subscription_benefit id) = id < 2 ^ 128
    HasWords (EntitlementEdgeKind.subscription s) = (s.user_id < 2 ^ 128) × (s.product_id < 2 ^ 128)
    HasWords (EntitlementEdgeKind.special_event id) = id < 2 ^ 128
    HasWords EntitlementEdgeKind.global_default_entitlement_group = Unit

    -- What reading the text of a kind gives: the kind, or an error for a subscription benefit.
    abbrev pub reading : EntitlementEdgeKind prices → Result (EntitlementEdgeKind prices) Str
    reading (EntitlementEdgeKind.subscription_benefit id) = err (bytes "invalid kind")
    reading kind = ok kind

    -- The text of an edge kind whose ids have 128 bits is read back as that kind, with one
    -- exception: the text of a subscription benefit is rejected as an invalid kind.
    pub edge_kind_from_str-to_string :
        (k : EntitlementEdgeKind prices)
        → HasWords k
        → edge_kind_from_str prices crates (edge_kind_to_string prices crates k) ≡ reading k
    unfolding edge_kind_from_str edge_kind_to_string
    edge_kind_from_str-to_string (EntitlementEdgeKind.user id) w =
        simp (from_str-to_string crates id w)
    edge_kind_from_str-to_string (EntitlementEdgeKind.role id) w =
        simp (from_str-to_string crates id w)
    edge_kind_from_str-to_string (EntitlementEdgeKind.badge id) w =
        simp (from_str-to_string crates id w)
    edge_kind_from_str-to_string (EntitlementEdgeKind.paint id) w =
        simp (from_str-to_string crates id w)
    edge_kind_from_str-to_string (EntitlementEdgeKind.emote_set id) w =
        simp (from_str-to_string crates id w)
    edge_kind_from_str-to_string (EntitlementEdgeKind.product p) w =
        simp (prices.price_from_str-to_string p)
    edge_kind_from_str-to_string (EntitlementEdgeKind.subscription_benefit id) w = refl
    edge_kind_from_str-to_string (EntitlementEdgeKind.subscription s) w =
        simp (subscription_id_from_str-to_string s w.0 w.1)
    edge_kind_from_str-to_string (EntitlementEdgeKind.special_event id) w =
        simp (from_str-to_string crates id w)
    edge_kind_from_str-to_string EntitlementEdgeKind.global_default_entitlement_group w = refl
