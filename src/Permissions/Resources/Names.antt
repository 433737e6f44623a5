-- ===== src/Permissions/Resources/Names.antt =====
-- The names of rate limited resources (shared/src/database/types/role/permissions.rs).
use tv.Prelude.{◌≡◌, refl, Option, none, some, if◌then◌else◌, List, [], ◌∷◌}
use tv.Prelude.Text.{Str, beq}
use tv.Permissions.Resources.{RateLimitResource, as_str}

abbrev all_resources : List RateLimitResource
all_resources =
    RateLimitResource.emote_upload ∷ RateLimitResource.profile_picture_upload
    ∷ RateLimitResource.login ∷ RateLimitResource.search ∷ RateLimitResource.user_change_cosmetics
    ∷ RateLimitResource.user_change_editor ∷ RateLimitResource.user_change_connections
    ∷ RateLimitResource.emote_update ∷ RateLimitResource.emote_set_create
    ∷ RateLimitResource.emote_set_change ∷ RateLimitResource.eg_vault_subscribe
    ∷ RateLimitResource.eg_vault_redeem ∷ RateLimitResource.eg_vault_payment_method
    ∷ RateLimitResource.user_presence_write ∷ RateLimitResource.global ∷ []

-- The first resource with the name.
named : Str → List RateLimitResource → Option RateLimitResource
named s [] = none
named s (r ∷ rs) = if beq s (as_str r) then some r else named s rs

named-as_str : (r : RateLimitResource) → named (as_str r) all_resources ≡ some r
unfolding named as_str
named-as_str RateLimitResource.emote_upload = refl
named-as_str _ = refl

-- Two resources with the same name, and so with the same key in every map of limits, are one.
as_str-injective : (r q : RateLimitResource) → as_str r ≡ as_str q → r ≡ q
as_str-injective r q h =
    let e : named (as_str r) all_resources ≡ some q = rw h (named-as_str q) in
    let f : named (as_str r) all_resources ≡ some r = named-as_str r in cc
