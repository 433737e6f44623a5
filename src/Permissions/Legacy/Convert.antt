-- ===== src/Permissions/Legacy/Convert.antt =====
-- `to_new_permissions` and `from_db` of shared/src/old_types/role_permission.rs. `from_db` builds
-- its two masks by a chain of `|=`, one per test of the new permissions.
use tv.Prelude.{List, [], ◌∷◌}
use tv.Permissions.Bitmask.{
  Mask, BitmaskEnum, EmotePermission, emote_bits, role_bits, EmoteSetPermission, emote_set_bits,
  BadgePermission, badge_bits, PaintPermission, paint_bits, UserPermission, user_bits,
  TicketPermission, ticket_bits, AdminPermission, admin_bits,
}
use tv.Permissions.Bitmask as New
use tv.Permissions.Record.{Permissions, Permission, default}
use tv.Permissions.Checks.{has, denied, has_any, has_all, denied_any}
use tv.Permissions.Legacy.{
  RolePermission, legacy_bits, set_if, to_emote_permissions, to_role_permissions,
  to_emote_set_permission, to_badge_permission, to_paint_permission, to_user_permission,
  to_ticket_permission, to_emote_moderation_request, to_admin_permission, emote_set_pair,
}

abbrev cosmetics : List Permission
cosmetics =
    Permission.badge (badge_bits BadgePermission.manage)
    ∷ Permission.paint (paint_bits PaintPermission.manage)
    ∷ []

abbrev reports : List Permission
reports =
    Permission.ticket (ticket_bits TicketPermission.manage_abuse)
    ∷ Permission.ticket (ticket_bits TicketPermission.manage_generic)
    ∷ []

module _ {Json : Type 0} ⦃lib : BitmaskEnum⦄ where
  unfoldable pub to_new_permissions : Mask → Mask → Permissions Json
  to_new_permissions allowed denied' = record default {
    emote = to_emote_permissions allowed denied';
    role = to_role_permissions allowed denied';
    emote_set = to_emote_set_permission allowed denied';
    badge = to_badge_permission allowed denied';
    paint = to_paint_permission allowed denied';
    user = to_user_permission allowed denied';
    ticket = to_ticket_permission allowed denied';
    emote_moderation_request = to_emote_moderation_request allowed denied';
    admin = to_admin_permission allowed denied';
  }

  -- The first component of `from_db`.
  unfoldable pub from_db_allowed : Permissions Json → Mask
  from_db_allowed value =
      let m =
        set_if (has value (Permission.emote (emote_bits EmotePermission.upload)))
          (legacy_bits RolePermission.create_emote) lib.none in
      let m =
        set_if (has value (Permission.emote (emote_bits EmotePermission.edit)))
          (legacy_bits RolePermission.edit_emote) m in
      let m =
        set_if (has value (Permission.emote (emote_bits EmotePermission.manage_any)))
          (legacy_bits RolePermission.edit_any_emote) m in
      let m =
        set_if (has value (Permission.role (role_bits New.RolePermission.manage)))
          (legacy_bits RolePermission.manage_roles) m in
      let m =
        set_if (has value (Permission.emote_set (emote_set_bits EmoteSetPermission.manage)))
          emote_set_pair m in
      let m =
        set_if (has value (Permission.emote_set (emote_set_bits EmoteSetPermission.manage_any)))
          (legacy_bits RolePermission.edit_any_emote_set) m in
      let m = set_if (has_any value cosmetics) (legacy_bits RolePermission.manage_cosmetics) m in
      let m =
        set_if (has value (Permission.user (user_bits UserPermission.moderate)))
          (legacy_bits RolePermission.manage_bans) m in
      let m =
        set_if (has value (Permission.user (user_bits UserPermission.manage_any)))
          (legacy_bits RolePermission.manage_users) m in
      let m =
        set_if (has value (Permission.user (user_bits UserPermission.use_custom_profile_picture)))
          (legacy_bits RolePermission.feature_profile_picture_animation) m in
      let m =
        set_if (has value (Permission.ticket (ticket_bits TicketPermission.create)))
          (legacy_bits RolePermission.create_report) m in
      let m = set_if (has_all value reports) (legacy_bits RolePermission.manage_reports) m in
      set_if (has value (Permission.admin (admin_bits AdminPermission.super_admin)))
        (legacy_bits RolePermission.super_administrator) m

  -- Its second component.
  unfoldable pub from_db_denied : Permissions Json → Mask
  from_db_denied value =
      let m =
        set_if (denied value (Permission.emote (emote_bits EmotePermission.upload)))
          (legacy_bits RolePermission.create_emote) lib.none in
      let m =
        set_if (denied value (Permission.emote (emote_bits EmotePermission.edit)))
          (legacy_bits RolePermission.edit_emote) m in
      let m =
        set_if (denied value (Permission.emote (emote_bits EmotePermission.manage_any)))
          (legacy_bits RolePermission.edit_any_emote) m in
      let m =
        set_if (denied value (Permission.role (role_bits New.RolePermission.manage)))
          (legacy_bits RolePermission.manage_roles) m in
      let m =
        set_if (denied value (Permission.emote_set (emote_set_bits EmoteSetPermission.manage)))
          emote_set_pair m in
      let m =
        set_if (denied value (Permission.emote_set (emote_set_bits EmoteSetPermission.manage_any)))
          (legacy_bits RolePermission.edit_any_emote_set) m in
      let m = set_if (denied_any value cosmetics) (legacy_bits RolePermission.manage_cosmetics) m in
      let m =
        set_if (denied value (Permission.user (user_bits UserPermission.moderate)))
          (legacy_bits RolePermission.manage_bans) m in
      let m =
        set_if (denied value (Permission.user (user_bits UserPermission.manage_any)))
          (legacy_bits RolePermission.manage_users) m in
      let m =
        set_if
          (denied value (Permission.user (user_bits UserPermission.use_custom_profile_picture)))
          (legacy_bits RolePermission.feature_profile_picture_animation) m in
      let m =
        set_if (denied value (Permission.ticket (ticket_bits TicketPermission.create)))
          (legacy_bits RolePermission.create_report) m in
      let m = set_if (denied_any value reports) (legacy_bits RolePermission.manage_reports) m in
      set_if (denied value (Permission.admin (admin_bits AdminPermission.super_admin)))
        (legacy_bits RolePermission.super_administrator) m

  unfoldable pub from_db : Permissions Json → Mask × Mask
  from_db value = (from_db_allowed value, from_db_denied value)
