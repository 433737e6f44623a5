-- ===== src/Permissions/Resources.antt =====
-- `RateLimitResource` and `Permissions::ratelimit` of
-- shared/src/database/types/role/permissions.rs.
pub mod Names
use tv.Prelude.{Option, none, some}
use tv.Prelude.HashMap.{get}
use tv.Prelude.Text.{Str, bytes, str_eq}
use tv.Permissions.Record.{Permissions, RateLimits}

pub data RateLimitResource : Type 0 where
  emote_upload profile_picture_upload login search user_change_cosmetics user_change_editor
        user_change_connections emote_update emote_set_create emote_set_change eg_vault_subscribe
        eg_vault_redeem eg_vault_payment_method user_presence_write global :
      RateLimitResource

unfoldable pub as_str : RateLimitResource → Str
as_str RateLimitResource.emote_upload = bytes "emote_upload"
as_str RateLimitResource.profile_picture_upload = bytes "profile_picture_upload"
as_str RateLimitResource.login = bytes "login"
as_str RateLimitResource.search = bytes "search"
as_str RateLimitResource.user_change_cosmetics = bytes "user_change_cosmetics"
as_str RateLimitResource.user_change_editor = bytes "user_change_editor"
as_str RateLimitResource.user_change_connections = bytes "user_change_connections"
as_str RateLimitResource.emote_update = bytes "emote_update"
as_str RateLimitResource.emote_set_create = bytes "emote_set_create"
as_str RateLimitResource.emote_set_change = bytes "emote_set_change"
as_str RateLimitResource.eg_vault_subscribe = bytes "egvault_subscribe"
as_str RateLimitResource.eg_vault_redeem = bytes "egvault_redeem"
as_str RateLimitResource.eg_vault_payment_method = bytes "egvault_payment_method"
as_str RateLimitResource.user_presence_write = bytes "user_presence_write"
as_str RateLimitResource.global = bytes "global"

-- A missing key and a null both give `None`.
abbrev pub flatten {ℓ} : {A : Type ℓ} → Option (Option A) → Option A
flatten none = none
flatten (some a) = a

unfoldable pub ratelimit :
    {Json : Type 0} → Permissions Json → RateLimitResource → Option RateLimits
ratelimit s resource = flatten (get s.ratelimits (as_str resource))
