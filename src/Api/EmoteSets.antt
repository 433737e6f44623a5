-- ===== src/Api/EmoteSets.antt =====
-- The operations on an emote set (apps/api/src/http/v4/gql/mutations/emote_set/operation.rs). Here
-- stand the stored types (shared/src/database/types/emote_set/, emote_moderation_request.rs) and
-- the events (shared/src/event.rs); the children hold an operation each. A time is a number of
-- milliseconds, and the origins of a set, which the operations keep as they are, are data.
pub mod Positions
pub mod Global
pub mod Authority
pub mod Edit
pub mod Add
pub mod Remove
pub mod Update
pub mod Run
pub mod Example
pub mod World
use tv.Prelude.{ℕ, Bool, true, false, Option, none, some, List, if◌then◌else◌}
use Prim.Native.Nat.{bit_or}
use tv.Prelude.Int.{ℤ}
use tv.Prelude.Text.{Str}
use tv.Ids.{DatabaseId, UserId}
use tv.Permissions.Bitmask.{Mask}
use tv.Api.Emotes.{Emote, EmoteId}
use tv.Api.Sessions.{FullUser}

abbrev pub EmoteSetId : Type 0
EmoteSetId = DatabaseId

pub data EmoteSetKind : Type 0 where
  normal personal global special : EmoteSetKind

abbrev pub is_personal : EmoteSetKind → Bool
is_personal EmoteSetKind.personal = true
is_personal _ = false

pub data EmoteSetEmoteFlag : Type 0 where
  zero_width override_conflicts : EmoteSetEmoteFlag

abbrev pub emote_set_emote_flag_bits : EmoteSetEmoteFlag → Mask
emote_set_emote_flag_bits EmoteSetEmoteFlag.zero_width = 1
emote_set_emote_flag_bits EmoteSetEmoteFlag.override_conflicts = 2

pub record EmoteSetEmote : Type 0 where
  pub id : EmoteId
  pub alias : Str
  pub added_at : ℕ
  pub flags : Mask
  pub added_by_id : Option UserId
  pub origin_set_id : Option EmoteSetId

pub data EmoteSetOriginError : Type 0 where
  cycle_detected max_depth_exceeded : Str → EmoteSetOriginError

pub data EmoteSetEmoteRef : Type 0 where
  alias : Str → EmoteSetEmoteRef
  id : EmoteId → EmoteSetEmoteRef

pub data EmoteSetOriginTransformation : Type 0 where
  exclude : EmoteSetEmoteRef → EmoteSetOriginTransformation
  rename : Str → Str → EmoteSetOriginTransformation

pub record EmoteSetLimit : Type 0 where
  pub count : ℕ

pub record EmoteSetOrigin : Type 0 where
  pub id : EmoteSetId
  pub limit : Option EmoteSetLimit
  pub transformations : List EmoteSetOriginTransformation

pub record EmoteSetOriginConfig : Type 0 where
  pub origins : List EmoteSetOrigin
  pub limit : ℕ
  pub purge : List EmoteSetEmoteRef
  pub auto_resync : Bool
  pub needs_resync : Bool
  pub error : Option EmoteSetOriginError

pub record EmoteSet : Type 0 where
  pub id : EmoteSetId
  pub name : Str
  pub description : Option Str
  pub tags : List Str
  pub emotes : List EmoteSetEmote
  pub capacity : Option ℤ
  pub owner_id : Option UserId
  pub origin_config : Option EmoteSetOriginConfig
  pub kind : EmoteSetKind
  pub emotes_changed_since_reindex : Bool
  pub updated_at : ℕ
  pub search_updated_at : Option ℕ

pub data EmoteModerationRequestKind : Type 0 where
  public_listing personal_use : EmoteModerationRequestKind

pub data EmoteModerationRequestStatus : Type 0 where
  pending approved denied emote_deleted : EmoteModerationRequestStatus

pub record EmoteModerationRequest : Type 0 where
  pub id : DatabaseId
  pub user_id : UserId
  pub kind : EmoteModerationRequestKind
  pub reason : Option Str
  pub emote_id : EmoteId
  pub status : EmoteModerationRequestStatus
  pub country_code : Option Str
  pub assigned_to : List UserId
  pub priority : ℤ
  pub updated_at : ℕ
  pub search_updated_at : Option ℕ

-- The arguments of the operations.
pub record EmoteSetEmoteId : Type 0 where
  pub emote_id : EmoteId
  pub alias : Option Str

pub record EmoteSetEmoteFlagsInput : Type 0 where
  pub zero_width : Bool
  pub override_conflicts : Bool

-- `flags |= flag` under a condition.
abbrev pub with_flag : Mask → Bool → EmoteSetEmoteFlag → Mask
with_flag flags test flag = if test then bit_or flags (emote_set_emote_flag_bits flag) else flags

abbrev pub flags_from : EmoteSetEmoteFlagsInput → Mask
flags_from input =
    with_flag (with_flag 0 input.zero_width EmoteSetEmoteFlag.zero_width) input.override_conflicts
      EmoteSetEmoteFlag.override_conflicts

module _ (Json : Type 0) where
  pub data InternalEventEmoteSetData : Type 0 where
    create : InternalEventEmoteSetData
    change_name : Str → Str → InternalEventEmoteSetData
    change_tags : List Str → List Str → InternalEventEmoteSetData
    change_capacity : Option ℤ → Option ℤ → InternalEventEmoteSetData
    add_emote : Emote → Option (FullUser Json) → EmoteSetEmote → InternalEventEmoteSetData
    remove_emote :
        Option Emote → Option (FullUser Json) → EmoteSetEmote → ℕ → InternalEventEmoteSetData
    rename_emote : Emote → EmoteSetEmote → Str → InternalEventEmoteSetData
    delete : InternalEventEmoteSetData

  -- The two kinds of event that these operations register.
  pub data InternalEventData : Type 0 where
    emote_set : EmoteSet → InternalEventEmoteSetData → InternalEventData
    emote_moderation_request_create : EmoteModerationRequest → InternalEventData

  pub record InternalEvent : Type 0 where
    pub actor : Option (FullUser Json)
    pub session_id : Option DatabaseId
    pub data_ : InternalEventData
    pub timestamp : ℕ
