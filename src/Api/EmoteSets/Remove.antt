-- ===== src/Api/EmoteSets/Remove.antt =====
-- `remove_emote` of `EmoteSetOperation`
-- (apps/api/src/http/v4/gql/mutations/emote_set/operation.rs). `s` is `self.emote_set`, in which
-- the entries are looked up, and `$pull` takes them out of the stored set.
pub mod Pull
mod Tests
use tv.Prelude.{
  ℕ, zero, suc, Bool, true, false, not, ◌&&◌, Option, none, some, List, [], ◌∷◌, ◌++◌, keep, is_nil,
  if◌then◌else◌, nat_eq,
}
use tv.Prelude.Text.{Str, bytes}
use tv.Prelude.Results.{Result, ok, err}
use tv.Permissions.Bitmask.{BitmaskEnum}
use tv.Editors.{EditorEmoteSetPermission}
use tv.Api.Transactions.Steps.{
  ◌>>=◌, ◌>>◌, find_one, find_one_and_update, register_event, required, refuse_if, lift, pure,
}
use tv.Api.Errors.{not_found, internal_server_error}
use tv.Api.Errors.Codes.{ApiErrorCode}
use tv.Api.Emotes.{Emote}
use tv.Api.Sessions.{FullUser, Session, user}
use tv.Api.EmoteSets.{EmoteSet, EmoteSetEmote, EmoteSetEmoteId, InternalEventEmoteSetData}
use tv.Api.EmoteSets.Global.{Global, Step, Plan, transact, then_plan, is_named, names_entries}
use tv.Api.EmoteSets.Authority.{check_perms, editor_may}
use tv.Api.EmoteSets.Edit.{event, touched}

-- `enumerate().filter(..)`, from an index on.
abbrev pub enumerate_named : EmoteSetEmoteId → ℕ → List EmoteSetEmote → List (ℕ × EmoteSetEmote)
enumerate_named id i [] = []
enumerate_named id i (e ∷ rest) =
    let named = enumerate_named id (suc i) rest in if is_named id e then (i, e) ∷ named else named

-- `$pull`
abbrev pub pull : EmoteSetEmoteId → List EmoteSetEmote → List EmoteSetEmote
pull id entries = keep (λ e. not (is_named id e)) entries

module _ {Json : Type 0} (g : Global Json) where
  -- The events of the entries that were looked up.
  abbrev pub register_removed :
      FullUser Json
      → Session Json
      → EmoteSet
      → Option Emote
      → Option (FullUser Json)
      → List (ℕ × EmoteSetEmote)
      → Step g (Unit {0})
  register_removed u session after emote owner [] = pure tt
  register_removed u session after emote owner ((index, e) ∷ rest) =
      register_event
        (event g u session after (InternalEventEmoteSetData.remove_emote emote owner e index))
      >>= λ _. register_removed u session after emote owner rest

  abbrev pub load_owner : Option Emote → Step g (Option (FullUser Json))
  load_owner none = pure none
  load_owner (some e) =
      required (g.load_fast e.owner_id)
        (internal_server_error ApiErrorCode.load_error (bytes "failed to load emote owner"))

  abbrev pub remove_closure : EmoteSet → Session Json → EmoteSetEmoteId → Step g EmoteSet
  remove_closure s session id = do
    authed_user ← lift (user session)
    let old_emotes = enumerate_named id 0 s.emotes
    refuse_if (is_nil old_emotes)
        (not_found ApiErrorCode.bad_request (bytes "emote not found in set"))
    emote ← find_one g.emotes id.emote_id
    found ← find_one_and_update g.emote_sets s.id (names_entries id) (λ d.
        touched g (record d { emotes = pull id d.emotes; emotes_changed_since_reindex = true }))
    emote_set ← required found (not_found ApiErrorCode.bad_request (bytes "emote not found in set"))
    owner ← load_owner emote
    register_removed authed_user session emote_set emote owner old_emotes
    pure emote_set

  module _ ⦃lib : BitmaskEnum⦄ where
    unfoldable pub remove_emote : EmoteSet → Session Json → EmoteSetEmoteId → Plan g EmoteSet
    remove_emote s session id =
        then_plan g (check_perms g s session (editor_may EditorEmoteSetPermission.manage))
          λ target. transact (remove_closure s session id)
