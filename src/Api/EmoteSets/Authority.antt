-- ===== src/Api/EmoteSets/Authority.antt =====
-- `check_perms` and the guard of the operations on an emote set
-- (apps/api/src/http/v4/gql/mutations/emote_set/operation.rs, apps/api/src/http/guards.rs). The
-- limiter's answer is a parameter of the guard.
pub mod Verdict
mod Tests
use tv.Prelude.{Bool, true, false, not, ◌&&◌, ◌||◌, ◌==◌, Option, none, some, if◌then◌else◌}
use tv.Prelude.Text.{Str, bytes}
use tv.Prelude.Results.{Result, ok, err, ◌>>=◌, ◌>>◌, ok_or, map_err}
use tv.Permissions.Bitmask.{
  BitmaskEnum, EmoteSetPermission, emote_set_bits, UserPermission, user_bits,
}
use tv.Permissions.Record.{Permission}
use tv.Ids.{UserId}
use tv.Editors.{
  EditorPermission, EditorUserPermission, editor_user_bits, EditorEmoteSetPermission,
  editor_emote_set_bits,
}
use tv.Editors as Editors
use tv.Api.Errors.{ApiError, forbidden, not_found, internal_server_error}
use tv.Api.Errors.Codes.{ApiErrorCode}
use tv.Api.Sessions.{FullUser, Session, user, user_has, session_has, UserEditor, UserEditorState}
use tv.Api.EmoteSets.{EmoteSet, EmoteSetKind, is_personal}
use tv.Api.EmoteSets.Global.{Global}

-- A permission of the editors and roles, into the type that `has` takes.
abbrev pub editor_may : EditorEmoteSetPermission → EditorPermission
editor_may p = EditorPermission.emote_set (editor_emote_set_bits p)

abbrev pub role_may : EmoteSetPermission → Permission
role_may p = Permission.emote_set (emote_set_bits p)

-- The guard `?` of a test.
abbrev pub ensure : Bool → ApiError → Result (Unit {0}) ApiError
ensure true e = ok tt
ensure false e = err e

abbrev pub lacking : Str → ApiError
lacking message = forbidden ApiErrorCode.lacking_privileges message

-- `map_err` and `ok_or_else` on what a loader answers.
abbrev pub loaded {ℓ} : {A : Type ℓ} → Option (Option A) → Str → ApiError → Result A ApiError
loaded none message missing = err (internal_server_error ApiErrorCode.load_error message)
loaded (some o) message missing = ok_or o missing

abbrev pub is_accepted : UserEditorState → Bool
is_accepted UserEditorState.accepted = true
is_accepted _ = false

-- `editor_perm` and `forbidden_msg`, which depend on the kind of the set.
abbrev pub asked_perm : EmoteSetKind → EditorPermission → EditorPermission
asked_perm kind perm =
    if is_personal kind
    then EditorPermission.user (editor_user_bits EditorUserPermission.manage_personal_emote_set)
    else perm

abbrev pub forbidden_msg : EmoteSetKind → Str
forbidden_msg kind =
    if is_personal kind
    then bytes "you do not have permission to manage this user's personal emote set"
    else bytes "you do not have permission to manage this user's emote sets"

module _ {Json : Type 0} ⦃lib : BitmaskEnum⦄ where
  -- The guard of every operation.
  unfoldable pub guard : Session Json → Result (Unit {0}) ApiError → Result (Unit {0}) ApiError
  guard session rate_limit = do
    ensure (session_has session (role_may EmoteSetPermission.manage))
        (lacking (bytes "you do not have permission to use this endpoint"))
    rate_limit

  module _ (g : Global Json) where
    -- The user whose sets these are: the caller, or the owner, who is loaded.
    abbrev pub load_target : FullUser Json → UserId → Result (FullUser Json) ApiError
    load_target u owner_id =
        if owner_id == u.id
        then ok u
        else loaded (g.user_loader owner_id) (bytes "failed to load user")
            (not_found ApiErrorCode.load_error (bytes "owner not found"))

    -- The caller is an editor of the owner.
    abbrev pub check_editor :
        FullUser Json → UserId → EditorPermission → Str → Result (Unit {0}) ApiError
    check_editor u owner_id editor_perm message = do
      editor ←
          loaded (g.user_editor_by_id_loader (record { user_id = owner_id; editor_id = u.id }))
            (bytes "failed to load editor") (lacking (bytes "you are not an editor for this user"))
      ensure (is_accepted editor.state && Editors.has editor.permissions editor_perm)
          (lacking message)

    -- The checks of a set that has an owner, once the owner is loaded.
    abbrev pub check_rights :
        EmoteSet
        → FullUser Json
        → EditorPermission
        → UserId
        → FullUser Json
        → Result (FullUser Json) ApiError
    check_rights s u perm owner_id target = do
      ensure
          (not (is_personal s.kind)
            || user_has target (Permission.user (user_bits UserPermission.use_personal_emote_set)))
          (lacking (bytes "this user does not have permission to use personal emote sets"))
      ensure
          (user_has target (role_may EmoteSetPermission.manage)
            || user_has u (role_may EmoteSetPermission.manage_any))
          (lacking (forbidden_msg s.kind))
      if target.id == u.id || user_has u (role_may EmoteSetPermission.manage_any)
          then ok target
          else (check_editor u owner_id (asked_perm s.kind perm) (forbidden_msg s.kind)
              >> ok target)

    abbrev pub check_owner :
        EmoteSet → FullUser Json → EditorPermission → Result (FullUser Json) ApiError
    check_owner s u perm = do
      owner_id ← ok_or s.owner_id (not_found ApiErrorCode.load_error (bytes "owner not found"))
      target ← load_target u owner_id
      check_rights s u perm owner_id target

    abbrev pub check_kind :
        EmoteSet → FullUser Json → EditorPermission → EmoteSetKind → Result (FullUser Json) ApiError
    check_kind s u perm EmoteSetKind.global =
        ensure (user_has u (role_may EmoteSetPermission.manage_global))
          (lacking (bytes "this user does not have permission to manage global emote sets"))
        >> ok u
    check_kind s u perm EmoteSetKind.special =
        ensure (user_has u (role_may EmoteSetPermission.manage_special))
          (lacking (bytes "this user does not have permission to manage special emote sets"))
        >> ok u
    check_kind s u perm _ = check_owner s u perm

    unfoldable pub check_perms :
        EmoteSet → Session Json → EditorPermission → Result (FullUser Json) ApiError
    check_perms s session editor_perm = do u ← user session; check_kind s u editor_perm s.kind
