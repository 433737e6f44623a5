-- ===== src/Permissions/Computed.antt =====
-- What a user's roles come to (apps/api/src/dataloader/full_user.rs): permissions, the highest
-- rank and the highest coloured role. The roles are sorted by rank, lowest first.
pub mod Verdict
pub mod Limits
pub mod Rank
pub mod Color
mod Tests
use tv.Prelude.{
  nat_eq, Bool, Option, none, some, List, map, foldl, reverse, keep, find_map, contains, get_or,
  if◌then◌else◌,
}
use tv.Prelude.Int.{ℤ, negsuc}
use tv.Prelude.Text.{Str}
use tv.Ids.{RoleId, UserId}
use tv.Permissions.Bitmask.{BitmaskEnum}
use tv.Permissions.Record.{Permissions, merge_ref, default}

-- `Role` of shared/src/database/types/role/mod.rs; the timestamps are milliseconds.
pub record Role (Json : Type 0) : Type 0 where
  pub id : RoleId
  pub name : Str
  pub description : Option Str
  pub tags : List Str
  pub created_by : UserId
  pub permissions : Permissions Json
  pub hoist : Bool
  pub color : Option ℤ
  pub rank : ℤ
  pub applied_rank : Option ℤ
  pub updated_at : ℤ
  pub search_updated_at : Option ℤ

module _ {Json : Type 0} where
  abbrev pub held : List (Role Json) → List RoleId → List (Role Json)
  held roles ids = keep (λ r. contains ids r.id) roles

  unfoldable pub compute_permissions :
      ⦃lib : BitmaskEnum⦄ → List (Role Json) → List RoleId → Permissions Json
  compute_permissions ⦃lib⦄ roles ids =
      foldl merge_ref default (map (λ r. r.permissions) (held roles ids))

  unfoldable pub compute_highest_role_rank : List (Role Json) → List RoleId → ℤ
  compute_highest_role_rank roles ids =
      get_or (find_map (λ r. if contains ids r.id then some r.rank else none) (reverse roles))
        (negsuc 0)

  unfoldable pub compute_highest_role_color : List (Role Json) → List RoleId → Option ℤ
  compute_highest_role_color roles ids =
      find_map (λ r. r.color) (keep (λ r. contains ids r.id) (reverse roles))
