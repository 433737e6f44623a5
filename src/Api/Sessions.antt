-- ===== src/Api/Sessions.antt =====
-- The user behind a request: `FullUser` (shared/src/database/types/user/mod.rs), of which the
-- mutations read the id and the computed permissions, `Session`
-- (apps/api/src/http/middleware/session.rs) without the rest of the stored session, and
-- `UserEditor` (shared/src/database/types/user/editor.rs).
use tv.Prelude.{ℕ, Bool, Option, none, some}
use tv.Prelude.Text.{Str, bytes}
use tv.Prelude.Results.{Result, ok, err}
use tv.Ids.{DatabaseId, UserId}
use tv.Permissions.Bitmask.{BitmaskEnum}
use tv.Permissions.Record.{Permissions, Permission}
use tv.Permissions.Checks as Checks
use tv.Editors.{UserEditorId, UserEditorPermissions}
use tv.Api.Errors.{ApiError, unauthorized}
use tv.Api.Errors.Codes.{ApiErrorCode}

pub record FullUser (Json : Type 0) : Type 0 where
  pub id : UserId
  pub permissions : Permissions Json

pub data AuthState (Json : Type 0) : Type 0 where
  authenticated : DatabaseId → FullUser Json → AuthState Json
  unauthenticated : Permissions Json → AuthState Json

pub record Session (Json : Type 0) : Type 0 where
  pub state : AuthState Json
  pub ip : ℕ

pub data UserEditorState : Type 0 where
  pending accepted rejected : UserEditorState

pub record UserEditor : Type 0 where
  pub id : UserEditorId
  pub state : UserEditorState
  pub notes : Option Str
  pub permissions : UserEditorPermissions
  pub added_by_id : UserId
  pub added_at : ℕ
  pub updated_at : ℕ
  pub search_updated_at : Option ℕ

module _ {Json : Type 0} where
  abbrev pub user_id : Session Json → Option UserId
  user_id s = elim s.state [ authenticated i u ↦ some u.id | unauthenticated d ↦ none ]

  abbrev pub user_session_id : Session Json → Option DatabaseId
  user_session_id s = elim s.state [ authenticated i u ↦ some i | unauthenticated d ↦ none ]

  abbrev pub user : Session Json → Result (FullUser Json) ApiError
  user s = elim s.state [
    | authenticated i u ↦ ok u
    | unauthenticated d ↦
        err (unauthorized ApiErrorCode.login_required (bytes "you are not logged in"))
  ]

  abbrev pub permissions : Session Json → Permissions Json
  permissions s = elim s.state [ authenticated i u ↦ u.permissions | unauthenticated d ↦ d ]

  module _ ⦃lib : BitmaskEnum⦄ where
    -- `PermissionsExt::has` of a user and of a session.
    abbrev pub user_has : FullUser Json → Permission → Bool
    user_has u p = Checks.has u.permissions p

    abbrev pub session_has : Session Json → Permission → Bool
    session_has s p = elim s.state [
      | authenticated i u ↦ user_has u p
      | unauthenticated d ↦ Checks.has d p
    ]
