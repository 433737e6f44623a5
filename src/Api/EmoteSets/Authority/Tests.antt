-- ===== src/Api/EmoteSets/Authority/Tests.antt =====
-- The theorem on `check_perms`, at an owner of a set and at a set for a group.
use tv.Prelude.{ℕ, ◌≡◌, ◌↔◌}
use tv.Prelude.Results.{ok}
use tv.Permissions.Crate.{crate}
use tv.Api.Sessions.{FullUser, user}
use tv.Api.EmoteSets.Authority.{check_perms}
use tv.Api.EmoteSets.Authority.Verdict.{MayChange, check_perms_iff}
use tv.Api.EmoteSets.World.{owner, session, set, world, perm}

check_perms_iff_example :
    (check_perms world set session perm ≡ ok owner)
    ↔ ((u : FullUser ℕ) × (user session ≡ ok u) × MayChange world set u perm owner)
check_perms_iff_example = check_perms_iff world set session perm owner
