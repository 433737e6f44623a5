-- ===== src/Editors/Superset.antt =====
-- What `is_superset_of` of shared/src/database/types/user/editor.rs guarantees.
use tv.Prelude.{◌^◌, ◌<◌, ◌≡◌, arith, true}
use tv.Permissions.Bitmask.{BitmaskEnum}
use tv.Permissions.Superset.{contains_trans}
use tv.Editors.{
  UserEditorPermissions, EditorPermission, is_super_admin, has_emote_set, has_emote, has_user, has,
  is_superset_of,
}

-- Every mask of the editor has 32 bits.
abbrev pub HasWords : UserEditorPermissions → Type 0
HasWords s = (s.user < 2 ^ 32) × (s.emote_set < 2 ^ 32) × (s.emote < 2 ^ 32)

module _ ⦃lib : BitmaskEnum⦄ (s other : UserEditorPermissions) where
  -- An editor whose permissions are a superset of another's has every permission that the other
  -- has, in all three categories, if its masks have 32 bits.
  pub editor_is_superset_of-has :
      (p : EditorPermission)
      → HasWords s
      → is_superset_of s other ≡ true
      → has other p ≡ true
      → has s p ≡ true
  unfolding is_superset_of has has_user has_emote_set has_emote is_super_admin
  editor_is_superset_of-has (EditorPermission.user p) w h g = ground (
    arith,
    contains_trans s.user other.user p w.0,
    contains_trans s.user other.user 1 w.0,
    contains_trans s.user other.user 2 w.0,
  )
  editor_is_superset_of-has (EditorPermission.emote_set p) w h g = ground (
    arith,
    contains_trans s.emote_set other.emote_set p w.1,
    contains_trans s.emote_set other.emote_set 1 w.1,
    contains_trans s.user other.user 1 w.0,
  )
  editor_is_superset_of-has (EditorPermission.emote p) w h g = ground (
    arith,
    contains_trans s.emote other.emote p w.2,
    contains_trans s.emote other.emote 1 w.2,
    contains_trans s.user other.user 1 w.0,
  )
