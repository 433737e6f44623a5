-- ===== src/Permissions/Computed/Tests.antt =====
-- Rate limits at concrete roles: the lower one limits uploads, the higher one lifts the limit.
use tv.Prelude.{ℕ, ◌≡◌, refl, false, Option, none, some, [], ◌∷◌, nat_eq}
use tv.Prelude.Int.{ℤ, pos}
use tv.Prelude.Text.{bytes, str_eq}
use tv.Permissions.Crate.{crate}
use tv.Permissions.Record.{Permissions, RateLimits, default}
use tv.Permissions.Resources.{RateLimitResource, as_str, ratelimit}
use tv.Permissions.Computed.{Role, compute_permissions, compute_highest_role_color}
use tv.Permissions.Computed.Color.{compute_highest_role_color-last}
use tv.Permissions.Computed.Limits.{compute_permissions-ratelimit}

abbrev uploads : RateLimits
uploads = record {
  interval_seconds = pos 60;
  requests = pos 5;
  overuse_threshold = none;
  overuse_punishment = none;
}

abbrev limited : Permissions ℕ
limited = record default { ratelimits = (bytes "emote_upload", some uploads) ∷ [] }

abbrev lifted : Permissions ℕ
lifted = record default {
  ratelimits = (bytes "login", some uploads) ∷ (bytes "emote_upload", none) ∷ [];
}

abbrev ranked : ℕ → Permissions ℕ → Role ℕ
ranked id permissions = record {
  id = id;
  name = bytes "role";
  description = none;
  tags = [];
  created_by = 1;
  permissions = permissions;
  hoist = false;
  color = none;
  rank = pos id;
  applied_rank = none;
  updated_at = pos 0;
  search_updated_at = none;
}

compute_permissions-ratelimit_example :
    ratelimit
      (compute_permissions (ranked 1 limited ∷ ranked 2 lifted ∷ []) (1 ∷ 2 ∷ []))
      RateLimitResource.emote_upload
    ≡ none
unfolding as_str
compute_permissions-ratelimit_example =
    compute_permissions-ratelimit (ranked 1 limited ∷ ranked 2 lifted ∷ []) (1 ∷ 2 ∷ [])
      RateLimitResource.emote_upload ((refl, tt), ((refl, (refl, tt)), tt))

abbrev painted : Option ℤ → ℕ → Role ℕ
painted color id = record (ranked id limited) { color = color }

-- The highest of the three roles has no colour.
compute_highest_role_color-last_example :
    compute_highest_role_color
      (painted (some (pos 5)) 1 ∷ painted (some (pos 9)) 2 ∷ painted none 3 ∷ [])
      (1 ∷ 2 ∷ 3 ∷ [])
    ≡ some (pos 9)
compute_highest_role_color-last_example =
    compute_highest_role_color-last (1 ∷ 2 ∷ 3 ∷ [])
      (painted (some (pos 5)) 1 ∷ painted (some (pos 9)) 2 ∷ painted none 3 ∷ [])
