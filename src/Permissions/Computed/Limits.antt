-- ===== src/Permissions/Computed/Limits.antt =====
-- The rate limits computed from roles (apps/api/src/dataloader/full_user.rs).
use tv.Prelude.{◌≡◌, refl, arith, Option, none, List, [], ◌∷◌, map, foldl, or_else, All, nat_eq}
use tv.Prelude.HashMap.{get, get-extend, IsUnique}
use tv.Prelude.Text.{Str, str_eq}
use tv.Ids.{RoleId}
use tv.Permissions.Bitmask.{BitmaskEnum}
use tv.Permissions.Record.{Permissions, RateLimits, merge_ref, default}
use tv.Permissions.Resources.{RateLimitResource, as_str, flatten, ratelimit}
use tv.Permissions.Computed.{Role, held, compute_permissions}
use tv.Permissions.Computed.Verdict.{All-held}

module _ {Json : Type 0} where
  -- The entry of the last permissions that have one for the key.
  abbrev pub configured : List (Permissions Json) → Str → Option (Option RateLimits)
  configured [] k = none
  configured (p ∷ ps) k = or_else (configured ps k) (get p.ratelimits k)

  fold_configured :
      (s : Permissions Json) (ps : List (Permissions Json)) (k : Str)
      → All (λ q. IsUnique q.ratelimits) ps
      → get (foldl merge_ref s ps).ratelimits k ≡ or_else (configured ps k) (get s.ratelimits k)
  unfolding merge_ref
  fold_configured s [] k u = refl
  fold_configured s (q ∷ ps) k u =
      ground (
        arith,
        fold_configured (merge_ref s q) ps k u.1,
        get-extend s.ratelimits q.ratelimits k u.0,
      )

  module _ ⦃lib : BitmaskEnum⦄ where
    -- Of the roles that the user holds, the last of the list that has an entry for a resource
    -- decides its rate limit, also if the entry is null, which means no limit, and without an entry
    -- there is none, if no role has two entries for one key.
    pub compute_permissions-ratelimit :
        (roles : List (Role Json)) (ids : List RoleId) (r : RateLimitResource)
        → All (λ q. IsUnique q.permissions.ratelimits) roles
        → ratelimit (compute_permissions roles ids) r
          ≡ flatten (configured (map (λ q. q.permissions) (held roles ids)) (as_str r))
    unfolding compute_permissions ratelimit default
    compute_permissions-ratelimit roles ids r u =
        let ps = map (λ q. q.permissions) (held roles ids) in
        let e =
          fold_configured default ps (as_str r)
            (All-held (λ q. IsUnique q.ratelimits) roles ids u) in
        ground (arith, e)
