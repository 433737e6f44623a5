-- ===== src/Editors/Tests.antt =====
-- The editor theorems at concrete editors.
use tv.Prelude.{◌+◌, ◌*◌, ◌^◌, ◌≡◌, refl, arith, true}
use tv.Prelude.Results.{ok}
use tv.Ids.Example.{stand_in}
use tv.Permissions.Crate.{crate}
use tv.Editors.{
  UserEditorId, user_editor_id_to_string, user_editor_id_from_str, UserEditorPermissions,
  EditorPermission, has, is_superset_of, has_user, has_emote_set, has_emote, is_super_admin,
}
use tv.Editors.Superset.{editor_is_superset_of-has}
use tv.Editors.EditorIds.{user_editor_id_from_str-to_string}

abbrev lead : UserEditorPermissions
lead = record { emote_set = 1; emote = 6; user = 24 }

abbrev helper : UserEditorPermissions
helper = record { emote_set = 6; emote = 4; user = 8 }

editor_is_superset_of-has_example : has lead (EditorPermission.emote_set 4) ≡ true
unfolding is_superset_of has has_user has_emote_set has_emote is_super_admin
editor_is_superset_of-has_example =
    editor_is_superset_of-has lead helper (EditorPermission.emote_set 4)
      (omega arith, omega arith, omega arith) refl refl

abbrev pair : UserEditorId
pair = record { user_id = 1_700_000_000_000 * 2 ^ 80 + 258; editor_id = 7 }

user_editor_id_from_str-to_string_example :
    user_editor_id_from_str stand_in (user_editor_id_to_string stand_in pair) ≡ ok pair
user_editor_id_from_str-to_string_example =
    user_editor_id_from_str-to_string stand_in pair (omega arith) (omega arith)
