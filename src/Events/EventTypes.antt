-- ===== src/Events/EventTypes.antt =====
-- `EventType` and `ChangeFieldType` of shared/src/event_api/types.rs. A `match` on a string is a list
-- of its arms.
pub mod Parsed
mod Tests
use tv.Prelude.{Option, some, none, List, [], ◌∷◌}
use tv.Prelude.HashMap.{HashMap, get}
use tv.Prelude.Results.{Result, ok, err, ok_or}
use tv.Prelude.Text.{Str, bytes, str_eq}

pub data EventType : Type 0 where
  any_system system_announcement any_emote create_emote update_emote delete_emote any_emote_set
        create_emote_set update_emote_set delete_emote_set any_user create_user update_user
        delete_user any_entitlement create_entitlement update_entitlement delete_entitlement
        reset_entitlement any_cosmetic create_cosmetic update_cosmetic delete_cosmetic whisper
        user_presence :
      EventType

abbrev pub event_type_as_str : EventType → Str
event_type_as_str EventType.any_system = bytes "system.*"
event_type_as_str EventType.system_announcement = bytes "system.announcement"
event_type_as_str EventType.any_emote = bytes "emote.*"
event_type_as_str EventType.create_emote = bytes "emote.create"
event_type_as_str EventType.update_emote = bytes "emote.update"
event_type_as_str EventType.delete_emote = bytes "emote.delete"
event_type_as_str EventType.any_emote_set = bytes "emote_set.*"
event_type_as_str EventType.create_emote_set = bytes "emote_set.create"
event_type_as_str EventType.update_emote_set = bytes "emote_set.update"
event_type_as_str EventType.delete_emote_set = bytes "emote_set.delete"
event_type_as_str EventType.any_user = bytes "user.*"
event_type_as_str EventType.create_user = bytes "user.create"
event_type_as_str EventType.update_user = bytes "user.update"
event_type_as_str EventType.delete_user = bytes "user.delete"
event_type_as_str EventType.any_entitlement = bytes "entitlement.*"
event_type_as_str EventType.create_entitlement = bytes "entitlement.create"
event_type_as_str EventType.update_entitlement = bytes "entitlement.update"
event_type_as_str EventType.delete_entitlement = bytes "entitlement.delete"
event_type_as_str EventType.reset_entitlement = bytes "entitlement.reset"
event_type_as_str EventType.any_cosmetic = bytes "cosmetic.*"
event_type_as_str EventType.create_cosmetic = bytes "cosmetic.create"
event_type_as_str EventType.update_cosmetic = bytes "cosmetic.update"
event_type_as_str EventType.delete_cosmetic = bytes "cosmetic.delete"
event_type_as_str EventType.whisper = bytes "whisper.self"
event_type_as_str EventType.user_presence = bytes "user.presence"

-- The arms of the `match` that reads it.
abbrev pub event_type_arms : HashMap Str EventType
event_type_arms =
    (bytes "system.*", EventType.any_system)
    ∷ (bytes "system.announcement", EventType.system_announcement)
    ∷ (bytes "emote.*", EventType.any_emote)
    ∷ (bytes "emote.create", EventType.create_emote)
    ∷ (bytes "emote.update", EventType.update_emote)
    ∷ (bytes "emote.delete", EventType.delete_emote)
    ∷ (bytes "emote_set.*", EventType.any_emote_set)
    ∷ (bytes "emote_set.create", EventType.create_emote_set)
    ∷ (bytes "emote_set.update", EventType.update_emote_set)
    ∷ (bytes "emote_set.delete", EventType.delete_emote_set)
    ∷ (bytes "user.*", EventType.any_user)
    ∷ (bytes "user.create", EventType.create_user)
    ∷ (bytes "user.update", EventType.update_user)
    ∷ (bytes "user.delete", EventType.delete_user)
    ∷ (bytes "entitlement.*", EventType.any_entitlement)
    ∷ (bytes "entitlement.create", EventType.create_entitlement)
    ∷ (bytes "entitlement.update", EventType.update_entitlement)
    ∷ (bytes "entitlement.delete", EventType.delete_entitlement)
    ∷ (bytes "entitlement.reset", EventType.reset_entitlement)
    ∷ (bytes "cosmetic.*", EventType.any_cosmetic)
    ∷ (bytes "cosmetic.create", EventType.create_cosmetic)
    ∷ (bytes "cosmetic.update", EventType.update_cosmetic)
    ∷ (bytes "cosmetic.delete", EventType.delete_cosmetic)
    ∷ (bytes "whisper.self", EventType.whisper)
    ∷ []

unfoldable pub event_type_from_str : Str → Result EventType (Unit {0})
event_type_from_str s = ok_or (get event_type_arms s) tt

pub data ChangeFieldType : Type 0 where
  string number bool object empty : ChangeFieldType

abbrev pub change_field_type_as_str : ChangeFieldType → Str
change_field_type_as_str ChangeFieldType.string = bytes "string"
change_field_type_as_str ChangeFieldType.number = bytes "number"
change_field_type_as_str ChangeFieldType.bool = bytes "bool"
change_field_type_as_str ChangeFieldType.object = bytes "object"
change_field_type_as_str ChangeFieldType.empty = bytes ""

-- The arms of the `match` that reads it.
abbrev pub change_field_type_arms : HashMap Str ChangeFieldType
change_field_type_arms =
    (bytes "string", ChangeFieldType.string)
    ∷ (bytes "number", ChangeFieldType.number)
    ∷ (bytes "bool", ChangeFieldType.bool)
    ∷ (bytes "object", ChangeFieldType.object)
    ∷ (bytes "", ChangeFieldType.empty)
    ∷ []

unfoldable pub change_field_type_from_str : Str → Result ChangeFieldType (Unit {0})
change_field_type_from_str s = ok_or (get change_field_type_arms s) tt
