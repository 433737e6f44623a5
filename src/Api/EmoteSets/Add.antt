-- ===== src/Api/EmoteSets/Add.antt =====
-- `add_emote` of `EmoteSetOperation`
-- (apps/api/src/http/v4/gql/mutations/emote_set/operation.rs): its closure, in the parts of which
-- it is made, and the operation.
pub mod Parts
pub mod Placed
pub mod Sound
pub mod Aliases
mod Tests
use tv.Prelude.{
  ◌≡◌, refl, ℕ, zero, suc, Bool, true, false, not, ◌&&◌, ◌||◌, ◌==◌, Option, none, some, get_or,
  List, [], ◌∷◌, ◌++◌, length, keep, map, if◌then◌else◌, nat_eq,
}
use tv.Prelude.HashMap.{HashMap, get}
use tv.Prelude.Int.{ℤ, pos, ltb_ℤ}
use tv.Prelude.Text.{Str, bytes, str_eq}
use tv.Prelude.Results.{Result, ok, err}
use tv.Ids.{UserId}
use tv.Permissions.Bitmask.{BitmaskEnum, Mask}
use tv.Editors.{EditorEmoteSetPermission}
use tv.Api.Transactions.Steps.{
  ◌>>=◌, ◌>>◌, find_one, find_one_and_update, register_event, required, refuse_if, lift, driver,
  pure, throw,
}
use tv.Api.Errors.{ApiError, bad_request, conflict, not_found, internal_server_error}
use tv.Api.Errors.Codes.{ApiErrorCode}
use tv.Api.Emotes.{
  Emote, EmoteId, EmoteFlags, emote_flag_bits, is_some, load_many_merged, get_merged,
}
use tv.Api.Sessions.{FullUser, Session, user, user_session_id}
use tv.Api.EmoteSets.{
  EmoteSet, EmoteSetEmote, EmoteSetEmoteFlag, EmoteSetEmoteId, is_personal, with_flag,
  EmoteModerationRequest, EmoteModerationRequestKind, EmoteModerationRequestStatus,
  InternalEventData, InternalEventEmoteSetData,
}
use tv.Api.EmoteSets.Global.{Global, Step, Plan, transact, then_plan}
use tv.Api.EmoteSets.Authority.{check_perms, editor_may}
use tv.Api.EmoteSets.Edit.{as_i32, event, touched}

-- `Iterator::position`
abbrev pub position {ℓ} : {A : Type ℓ} → (A → Bool) → List A → Option ℕ
position p [] = none
position p (x ∷ xs) =
    if p x then some 0 else elim (position p xs) [ some i ↦ some (suc i) | none ↦ none ]

abbrev pub nth {ℓ} : {A : Type ℓ} → List A → ℕ → Option A
nth [] i = none
nth (x ∷ xs) zero = some x
nth (x ∷ xs) (suc i) = nth xs i

-- `$set` of the entry at an index that the array has.
abbrev pub set_at {ℓ} : {A : Type ℓ} → List A → ℕ → A → List A
set_at [] i a = []
set_at (x ∷ xs) zero a = a ∷ xs
set_at (x ∷ xs) (suc i) a = x ∷ set_at xs i a

abbrev pub is_owned_by : Option UserId → UserId → Bool
is_owned_by none o = false
is_owned_by (some i) o = i == o

-- The entry of the alias blocks it, unless its emote is unknown or deleted.
abbrev pub is_conflict : HashMap EmoteId Emote → List EmoteSetEmote → Option ℕ → Bool
is_conflict emotes entries none = false
is_conflict emotes entries (some idx) = elim (nth entries idx) [
  | none ↦ false
  | some e ↦ elim (get emotes e.id) [ some emote ↦ not emote.deleted | none ↦ false ]
]

abbrev pub write_entry : Option ℕ → EmoteSetEmote → List EmoteSetEmote → List EmoteSetEmote
write_entry (some idx) e entries = set_at entries idx e
write_entry none e entries = entries ++ e ∷ []

module _ {Json : Type 0} ⦃lib : BitmaskEnum⦄ (g : Global Json) where
  abbrev pub has_flag : Emote → EmoteFlags → Bool
  has_flag e f = lib.contains e.flags (emote_flag_bits f)

  abbrev pub emote_missing : ApiError
  emote_missing = not_found ApiErrorCode.bad_request (bytes "emote not found")

  abbrev pub load_failed : ApiError
  load_failed = internal_server_error ApiErrorCode.load_error (bytes "failed to load emotes")

  -- The emote, which may be added to the set.
  abbrev pub find_emote : EmoteId → EmoteSet → Step g Emote
  find_emote id emote_set = do
    found ← find_one g.emotes id
    db_emote ← required found emote_missing
    refuse_if (db_emote.deleted || is_some db_emote.merged) emote_missing
    refuse_if
        (has_flag db_emote EmoteFlags.private
          && not (is_owned_by emote_set.owner_id db_emote.owner_id))
        (bad_request ApiErrorCode.bad_request (bytes "emote is private"))
    pure db_emote

  -- The index of the entry that has the alias, which may be overwritten.
  abbrev pub find_conflict : Str → EmoteSet → Step g (Option ℕ)
  find_conflict alias emote_set = do
    emotes ← required (g.load_many (map (λ (e : EmoteSetEmote). e.id) emote_set.emotes)) load_failed
    let idx = position (λ (e : EmoteSetEmote). str_eq.beq e.alias alias) emote_set.emotes
    refuse_if (is_conflict emotes emote_set.emotes idx)
        (conflict ApiErrorCode.bad_request (bytes "this emote has a conflicting name"))
    pure idx

  abbrev pub new_request : FullUser Json → Emote → EmoteModerationRequest
  new_request u db_emote = record {
    id = g.request_id;
    user_id = u.id;
    kind = EmoteModerationRequestKind.personal_use;
    reason = some (bytes "User requested to add emote to a personal set");
    emote_id = db_emote.id;
    status = EmoteModerationRequestStatus.pending;
    country_code = g.country_code;
    assigned_to = [];
    priority = get_or u.permissions.emote_moderation_request_priority (pos 0);
    updated_at = g.now;
    search_updated_at = none;
  }

  -- The event of a request that was not there before.
  abbrev pub register_request :
      FullUser Json → Session Json → EmoteModerationRequest → Step g (Unit {0})
  register_request u session request =
      if request.id == g.request_id
      then register_event (record {
        actor = some u;
        session_id = user_session_id session;
        data_ = InternalEventData.emote_moderation_request_create request;
        timestamp = g.now;
      })
      else pure tt

  -- An emote for a personal set that no moderator has decided on.
  abbrev pub request_personal_use : FullUser Json → Session Json → Emote → Step g (Unit {0})
  request_personal_use u session db_emote = do
    found ← driver (λ db. g.find_or_insert db (new_request u db_emote))
    request ← required found (
        internal_server_error ApiErrorCode.mutation_error
          (bytes "emote moderation failed to insert"))
    register_request u session request
    count ← driver (λ db. g.count_pending db u.id)
    refuse_if (ltb_ℤ (get_or u.permissions.emote_moderation_request_limit (pos 0)) (as_i32 count))
        (bad_request ApiErrorCode.lacking_privileges (bytes "too many pending moderation requests"))

  abbrev pub check_personal : FullUser Json → Session Json → EmoteSet → Emote → Step g (Unit {0})
  check_personal u session emote_set db_emote =
      if not (is_personal emote_set.kind)
      then pure tt
      else if has_flag db_emote EmoteFlags.denied_personal
      then throw (
          bad_request ApiErrorCode.bad_request
            (bytes "emote is not allowed in personal emote sets"))
      else if has_flag db_emote EmoteFlags.approved_personal
      then pure tt
      else request_personal_use u session db_emote

  abbrev pub new_entry :
      FullUser Json → Emote → EmoteSetEmoteId → Option Bool → Option Bool → EmoteSetEmote
  new_entry u db_emote id zero_width override_conflicts = record {
    id = id.emote_id;
    alias = get_or id.alias db_emote.default_name;
    added_at = g.now;
    flags =
        with_flag
          (with_flag 0 (get_or zero_width (has_flag db_emote EmoteFlags.default_zero_width))
            EmoteSetEmoteFlag.zero_width)
          (get_or override_conflicts false) EmoteSetEmoteFlag.override_conflicts;
    added_by_id = some u.id;
    origin_set_id = none;
  }

  -- The set with the entry written over another, or at the end.
  abbrev pub written_set : Option ℕ → EmoteSetEmote → EmoteSet → EmoteSet
  written_set idx entry d =
      touched g
        (record d { emotes = write_entry idx entry d.emotes; emotes_changed_since_reindex = true })

  abbrev pub write_emote : EmoteSet → Option ℕ → EmoteSetEmote → Step g EmoteSet
  write_emote emote_set idx entry = do
    found ← find_one_and_update g.emote_sets emote_set.id (λ d. true) (written_set idx entry)
    written ← required found (not_found ApiErrorCode.load_error (bytes "emote set not found"))
    pure written

  -- The entries whose emote is live count.
  abbrev pub within_capacity : List EmoteSetEmote → Option ℤ → Step g (Unit {0})
  within_capacity entries none = pure tt
  within_capacity entries (some capacity) = do
    emotes ←
        required (load_many_merged g.load_many (map (λ (e : EmoteSetEmote). e.id) entries))
          load_failed
    refuse_if
        (ltb_ℤ capacity (
          as_i32 (length (keep (λ (e : EmoteSetEmote). is_some (get_merged emotes e.id)) entries))))
        (bad_request ApiErrorCode.load_error (bytes "emote set is at capacity"))

  abbrev pub check_capacity : EmoteSet → Step g (Unit {0})
  check_capacity emote_set = within_capacity emote_set.emotes emote_set.capacity

  -- The end of the closure, once the entry is made.
  abbrev pub store_entry :
      FullUser Json → Session Json → EmoteSet → Emote → Option ℕ → EmoteSetEmote → Step g EmoteSet
  store_entry u session emote_set db_emote idx entry = do
    written ← write_emote emote_set idx entry
    check_capacity written
    owner ←
        required (g.load_fast db_emote.owner_id)
          (internal_server_error ApiErrorCode.load_error (bytes "failed to load emote owner"))
    register_event
        (event g u session written (InternalEventEmoteSetData.add_emote db_emote owner entry))
    pure written

  abbrev pub add_closure :
      EmoteSet → Session Json → EmoteSetEmoteId → Option Bool → Option Bool → Step g EmoteSet
  add_closure s session id zero_width override_conflicts = do
    found ← find_one g.emote_sets s.id
    emote_set ← required found (not_found ApiErrorCode.bad_request (bytes "emote set not found"))
    authed_user ← lift (user session)
    db_emote ← find_emote id.emote_id emote_set
    idx ← find_conflict (get_or id.alias db_emote.default_name) emote_set
    check_personal authed_user session emote_set db_emote
    let entry = new_entry authed_user db_emote id zero_width override_conflicts
    store_entry authed_user session emote_set db_emote idx entry

  unfoldable pub add_emote :
      EmoteSet → Session Json → EmoteSetEmoteId → Option Bool → Option Bool → Plan g EmoteSet
  add_emote s session id zero_width override_conflicts =
      then_plan g (check_perms g s session (editor_may EditorEmoteSetPermission.manage))
        λ target. transact (add_closure s session id zero_width override_conflicts)
