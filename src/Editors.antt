-- ===== src/Editors.antt =====
-- Editors of a user (shared/src/database/types/user/editor.rs): their ids and their permissions.
-- The three `bitmask(i32)` enums have the operations of the role permissions.
pub mod Superset
pub mod EditorIds
mod Tests
use tv.Prelude.{Bool, ◌&&◌, ◌||◌, ◌==◌, if◌then◌else◌, List, [], ◌∷◌, ◌++◌}
use tv.Prelude.Text.{Str, bytes, split}
use tv.Prelude.Results.{Result, ok, err, ◌>>=◌, map_err}
use tv.Ids.{DatabaseId, UserId, IdCrates, from_str, to_string}
use tv.Permissions.Bitmask.{Mask, BitmaskEnum}

pub record UserEditorId : Type 0 where
  pub user_id : UserId
  pub editor_id : UserId

module _ (crates : IdCrates) where
  unfoldable pub user_editor_id_to_string : UserEditorId → Str
  user_editor_id_to_string s = to_string crates s.user_id ++ b':' ∷ to_string crates s.editor_id

  abbrev parse_editor_parts : Str → Str → Result UserEditorId Str
  parse_editor_parts first second = do
    u ← map_err (λ _. bytes "invalid user id") (from_str crates first)
    e ← map_err (λ _. bytes "invalid editor id") (from_str crates second)
    ok (record { user_id = u; editor_id = e })

  unfoldable pub user_editor_id_from_str : Str → Result UserEditorId Str
  user_editor_id_from_str s = elim (split b':' s) [
    | first ∷ second ∷ [] ↦ parse_editor_parts first second
    | _ ↦ err (bytes "invalid user editor id")
  ]

pub data EditorEmoteSetPermission : Type 0 where
  admin manage create : EditorEmoteSetPermission

abbrev pub editor_emote_set_bits : EditorEmoteSetPermission → Mask
editor_emote_set_bits EditorEmoteSetPermission.admin = 1
editor_emote_set_bits EditorEmoteSetPermission.manage = 2
editor_emote_set_bits EditorEmoteSetPermission.create = 4

pub data EditorEmotePermission : Type 0 where
  admin manage create transfer : EditorEmotePermission

abbrev pub editor_emote_bits : EditorEmotePermission → Mask
editor_emote_bits EditorEmotePermission.admin = 1
editor_emote_bits EditorEmotePermission.manage = 2
editor_emote_bits EditorEmotePermission.create = 4
editor_emote_bits EditorEmotePermission.transfer = 8

pub data EditorUserPermission : Type 0 where
  super_admin admin manage_billing manage_profile manage_editors manage_personal_emote_set :
      EditorUserPermission

abbrev pub editor_user_bits : EditorUserPermission → Mask
editor_user_bits EditorUserPermission.super_admin = 1
editor_user_bits EditorUserPermission.admin = 2
editor_user_bits EditorUserPermission.manage_billing = 4
editor_user_bits EditorUserPermission.manage_profile = 8
editor_user_bits EditorUserPermission.manage_editors = 16
editor_user_bits EditorUserPermission.manage_personal_emote_set = 32

pub record UserEditorPermissions : Type 0 where
  pub emote_set : Mask
  pub emote : Mask
  pub user : Mask

pub data EditorPermission : Type 0 where
  user emote_set emote : Mask → EditorPermission

module _ ⦃lib : BitmaskEnum⦄ where
  unfoldable pub is_super_admin : UserEditorPermissions → Bool
  is_super_admin s = lib.contains s.user (editor_user_bits EditorUserPermission.super_admin)

  unfoldable pub has_emote_set : UserEditorPermissions → Mask → Bool
  has_emote_set s p =
      lib.contains s.emote_set p
      || lib.contains s.emote_set (editor_emote_set_bits EditorEmoteSetPermission.admin)
      || is_super_admin s

  unfoldable pub has_emote : UserEditorPermissions → Mask → Bool
  has_emote s p =
      lib.contains s.emote p
      || lib.contains s.emote (editor_emote_bits EditorEmotePermission.admin)
      || is_super_admin s

  unfoldable pub has_user : UserEditorPermissions → Mask → Bool
  has_user s p =
      if lib.contains p (editor_user_bits EditorUserPermission.super_admin)
      then is_super_admin s
      else lib.contains s.user p
        || lib.contains s.user (editor_user_bits EditorUserPermission.admin)
        || is_super_admin s

  unfoldable pub has : UserEditorPermissions → EditorPermission → Bool
  has s (EditorPermission.user p) = has_user s p
  has s (EditorPermission.emote_set p) = has_emote_set s p
  has s (EditorPermission.emote p) = has_emote s p

  unfoldable pub is_superset_of : UserEditorPermissions → UserEditorPermissions → Bool
  is_superset_of s other =
      is_super_admin s
      || has s (EditorPermission.user other.user)
        && has s (EditorPermission.emote_set other.emote_set)
        && has s (EditorPermission.emote other.emote)
