-- ===== src/Api/EmoteSets/Update.antt =====
-- `update_emote_alias` and `update_emote_flags` of `EmoteSetOperation`
-- (apps/api/src/http/v4/gql/mutations/emote_set/operation.rs). The entry that MongoDB's `$` stands
-- for is a parameter with its law (`positional`). The answer is the entry with its emote, before the
-- conversion into the types of the API.
pub mod Entries
pub mod Alias
mod Tests
use tv.Prelude.{
  ℕ, zero, suc, Bool, true, false, not, ◌&&◌, ◌||◌, ◌==◌, Option, none, some, List, [], ◌∷◌, any,
  if◌then◌else◌, nat_eq,
}
use tv.Prelude.Text.{Str, bytes, str_eq}
use tv.Prelude.Results.{Result, ok, err}
use tv.Permissions.Bitmask.{BitmaskEnum, Mask}
use tv.Editors.{EditorEmoteSetPermission}
use tv.Api.Transactions.Steps.{
  ◌>>=◌, ◌>>◌, find_one, find_one_and_update, register_event, required, refuse_if, lift, pure,
}
use tv.Api.Errors.{ApiError, not_found, conflict}
use tv.Api.Errors.Codes.{ApiErrorCode}
use tv.Api.Emotes.{Emote, EmoteId, is_some}
use tv.Api.Sessions.{FullUser, Session, user}
use tv.Api.EmoteSets.{
  EmoteSet, EmoteSetEmote, EmoteSetEmoteId, EmoteSetEmoteFlagsInput, flags_from,
  InternalEventEmoteSetData,
}
use tv.Api.EmoteSets.Global.{Global, Step, Plan, transact, then_plan, is_named, names_entries}
use tv.Api.EmoteSets.Authority.{check_perms, editor_may}
use tv.Api.EmoteSets.Edit.{event, touched}

-- `Iterator::find`
abbrev pub find {ℓ} : {A : Type ℓ} → (A → Bool) → List A → Option A
find p [] = none
find p (x ∷ xs) = if p x then some x else find p xs

-- `$set` of fields of the entry at an index.
abbrev pub change_at {ℓ} : {A : Type ℓ} → List A → ℕ → (A → A) → List A
change_at [] i f = []
change_at (x ∷ xs) zero f = f x ∷ xs
change_at (x ∷ xs) (suc i) f = x ∷ change_at xs i f

abbrev pub not_in_set : ApiError
not_in_set = not_found ApiErrorCode.bad_request (bytes "emote not found in set")

module _ {Json : Type 0} (g : Global Json) where
  abbrev pub find_live_emote : EmoteId → Step g Emote
  find_live_emote id = do
    found ← find_one g.emotes id
    emote ← required found (not_found ApiErrorCode.bad_request (bytes "emote not found"))
    refuse_if (emote.deleted || is_some emote.merged)
        (not_found ApiErrorCode.bad_request (bytes "emote not found"))
    pure emote

  -- The update of one entry, in both operations.
  abbrev pub update_entry :
      EmoteSet
      → EmoteSetEmoteId
      → (EmoteSetEmote → EmoteSetEmote)
      → Step g (EmoteSet × EmoteSetEmote)
  update_entry s id change = do
    found ← find_one_and_update g.emote_sets s.id (names_entries id) (λ d. touched g (record d {
      emotes = change_at d.emotes (g.positional id d.emotes) change;
      emotes_changed_since_reindex = true;
    }))
    emote_set ← required found not_in_set
    entry ← required (find (λ (e : EmoteSetEmote). e.id == id.emote_id) emote_set.emotes) not_in_set
    pure (emote_set, entry)

  abbrev pub alias_closure :
      EmoteSet → Session Json → EmoteSetEmoteId → Str → Step g (EmoteSetEmote × Emote)
  alias_closure s session id alias = do
    authed_user ← lift (user session)
    old_entry ← required (find (is_named id) s.emotes) not_in_set
    emote ← find_live_emote id.emote_id
    refuse_if (any (λ (e : EmoteSetEmote). str_eq.beq e.alias alias) s.emotes)
        (conflict ApiErrorCode.bad_request (bytes "emote name conflict"))
    r ← update_entry s id (λ e. record e { alias = alias })
    register_event (
        event g authed_user session r.0
          (InternalEventEmoteSetData.rename_emote emote r.1 old_entry.alias))
    pure (r.1, emote)

  -- No event is registered here.
  abbrev pub flags_closure :
      EmoteSet
      → Session Json
      → EmoteSetEmoteId
      → EmoteSetEmoteFlagsInput
      → Step g (EmoteSetEmote × Emote)
  flags_closure s session id flags = do
    authed_user ← lift (user session)
    emote ← find_live_emote id.emote_id
    r ← update_entry s id (λ e. record e { flags = flags_from flags })
    pure (r.1, emote)

  module _ ⦃lib : BitmaskEnum⦄ where
    unfoldable pub update_emote_alias :
        EmoteSet → Session Json → EmoteSetEmoteId → Str → Plan g (EmoteSetEmote × Emote)
    update_emote_alias s session id alias =
        then_plan g (check_perms g s session (editor_may EditorEmoteSetPermission.manage))
          λ target. transact (alias_closure s session id alias)

    unfoldable pub update_emote_flags :
        EmoteSet
        → Session Json
        → EmoteSetEmoteId
        → EmoteSetEmoteFlagsInput
        → Plan g (EmoteSetEmote × Emote)
    update_emote_flags s session id flags =
        then_plan g (check_perms g s session (editor_may EditorEmoteSetPermission.manage))
          λ target. transact (flags_closure s session id flags)
