-- ===== src/Api/EmoteSets/Edit.antt =====
-- `name`, `tags`, `capacity` and `delete` of `EmoteSetOperation`
-- (apps/api/src/http/v4/gql/mutations/emote_set/operation.rs). `s` is `self.emote_set`, which was
-- loaded before the call. Each operation takes what the transaction meets, and gives the answer
-- with what is stored and published.
pub mod Bounds
pub mod Removal
mod Tests
use tv.Prelude.{
  ℕ, Bool, true, false, not, ◌&&◌, ◌||◌, ◌==◌, ◌%◌, ◌^◌, ◌-◌, ltb, Option, none, some, get_or, List,
  [], ◌∷◌, length, if◌then◌else◌, nat_eq,
}
use tv.Prelude.Int.{ℤ, pos, negsuc, ltb_ℤ}
use tv.Prelude.Text.{Str, bytes, str_eq}
use tv.Prelude.Results.{Result, ok, err}
use tv.Permissions.Bitmask.{BitmaskEnum}
use tv.Permissions.Record.{Permissions}
use tv.Editors.{EditorEmoteSetPermission}
use tv.Api.Transactions.{Attempt, Commit, Outcome, transaction}
use tv.Api.Transactions.Steps.{
  ◌>>=◌, ◌>>◌, find_one_and_update, find_one_and_delete, register_event, required, pure,
}
use tv.Api.Errors.{ApiError, bad_request, internal_server_error}
use tv.Api.Errors.Codes.{ApiErrorCode}
use tv.Api.Sessions.{FullUser, Session, user, user_session_id}
use tv.Api.EmoteSets.{
  EmoteSet, EmoteSetKind, is_personal, InternalEvent, InternalEventData, InternalEventEmoteSetData,
}
use tv.Api.EmoteSets.Global.{Global, Step, Plan, answer, transact, then_plan}
use tv.Api.EmoteSets.Authority.{check_perms, editor_may, ensure}

-- `as i32`
abbrev pub as_i32 : ℕ → ℤ
as_i32 n = let w = n % 2 ^ 32 in if ltb w (2 ^ 31) then pos w else negsuc (2 ^ 32 - 1 - w)

-- `max(0)`
abbrev pub max_zero : ℤ → ℤ
max_zero z = if ltb_ℤ z (pos 0) then pos 0 else z

abbrev pub eq_ℤ : ℤ → ℤ → Bool
eq_ℤ (pos a) (pos b) = a == b
eq_ℤ (negsuc a) (negsuc b) = a == b
eq_ℤ _ _ = false

abbrev pub eq_list : List Str → List Str → Bool
eq_list [] [] = true
eq_list (a ∷ x) (b ∷ y) = str_eq.beq a b && eq_list x y
eq_list _ _ = false

abbrev pub is_capacity : Option ℤ → ℤ → Bool
is_capacity none c = false
is_capacity (some d) c = eq_ℤ d c

-- The kinds that cannot be deleted.
abbrev pub is_not_normal : EmoteSetKind → Bool
is_not_normal EmoteSetKind.normal = false
is_not_normal _ = true

module _ {Json : Type 0} (g : Global Json) where
  abbrev pub event :
      FullUser Json → Session Json → EmoteSet → InternalEventEmoteSetData Json → InternalEvent Json
  event u session after data_ = record {
    actor = some u;
    session_id = user_session_id session;
    data_ = InternalEventData.emote_set after data_;
    timestamp = g.now;
  }

  -- `updated_at` and `search_updated_at` of every update.
  abbrev pub touched : EmoteSet → EmoteSet
  touched d = record d { updated_at = g.now; search_updated_at = none }

  -- The closure of `name`, `tags` and `capacity`: an update of the set and its event.
  abbrev pub change_set :
      FullUser Json
      → Session Json
      → EmoteSet
      → (EmoteSet → EmoteSet)
      → InternalEventEmoteSetData Json
      → Step g EmoteSet
  change_set u session s change data_ = do
    found ← find_one_and_update g.emote_sets s.id (λ d. true) (λ d. touched (change d))
    emote_set ←
        required found
          (internal_server_error ApiErrorCode.load_error (bytes "failed to load emote set"))
    register_event (event u session emote_set data_)
    pure emote_set

  -- Deletion, with its closure.
  abbrev pub register_deletion : FullUser Json → Session Json → Option EmoteSet → Step g Bool
  register_deletion u session (some emote_set) = do
    register_event (event u session emote_set InternalEventEmoteSetData.delete)
    pure true
  register_deletion u session none = pure false

  abbrev pub delete_set : FullUser Json → Session Json → EmoteSet → Step g Bool
  delete_set u session s = do
    found ← find_one_and_delete g.emote_sets s.id
    register_deletion u session found

  module _ ⦃lib : BitmaskEnum⦄ where
    unfoldable pub name : EmoteSet → Session Json → Str → Plan g EmoteSet
    name s session new_name = then_plan g (user session) λ authed_user.
        then_plan g (check_perms g s session (editor_may EditorEmoteSetPermission.manage)) λ target.
          if str_eq.beq s.name new_name
          then answer (ok s)
          else transact (
              change_set authed_user session s (λ d. record d { name = new_name })
                (InternalEventEmoteSetData.change_name s.name new_name))

    unfoldable pub tags : EmoteSet → Session Json → List Str → Plan g EmoteSet
    tags s session new_tags = then_plan g (user session) λ authed_user.
        then_plan g (check_perms g s session (editor_may EditorEmoteSetPermission.manage)) λ target.
          if eq_list s.tags new_tags
          then answer (ok s)
          else transact (
              change_set authed_user session s (λ d. record d { tags = new_tags })
                (InternalEventEmoteSetData.change_tags s.tags new_tags))

    -- The capacity that the permissions of a user give to a set.
    abbrev pub max_capacity : EmoteSet → FullUser Json → Option ℤ
    max_capacity s target =
        if is_personal s.kind
        then target.permissions.personal_emote_set_capacity
        else target.permissions.emote_set_capacity

    unfoldable pub capacity : EmoteSet → Session Json → ℤ → Plan g EmoteSet
    capacity s session new_capacity = then_plan g (user session) λ authed_user.
        then_plan g (check_perms g s session (editor_may EditorEmoteSetPermission.manage)) λ target.
          if ltb_ℤ new_capacity (as_i32 (length s.emotes))
          then answer (
              err (
                bad_request ApiErrorCode.bad_request
                  (bytes "emote set capacity cannot be less than the number of emotes in the set")))
          else if ltb_ℤ (max_zero (get_or (max_capacity s target) (pos 0))) new_capacity
          then answer (
              err (
                bad_request ApiErrorCode.lacking_privileges
                  (bytes "emote set capacity cannot exceed user's capacity")))
          else if is_capacity s.capacity new_capacity
          then answer (ok s)
          else transact (
              change_set authed_user session s (λ d. record d { capacity = some new_capacity })
                (InternalEventEmoteSetData.change_capacity s.capacity (some new_capacity)))

    unfoldable pub delete : EmoteSet → Session Json → Plan g Bool
    delete s session =
        then_plan g (check_perms g s session (editor_may EditorEmoteSetPermission.manage)) λ target.
          if is_not_normal s.kind
          then answer (
              err (
                bad_request ApiErrorCode.lacking_privileges
                  (bytes "cannot delete personal, global, or special emote sets")))
          else then_plan g (user session) λ authed_user. transact (delete_set authed_user session s)
