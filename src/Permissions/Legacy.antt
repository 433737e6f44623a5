-- ===== src/Permissions/Legacy.antt =====
-- The permissions of the older API, one mask of allowed and one of denied bits, and both
-- conversions (shared/src/old_types/role_permission.rs). The old `bitmask(u64)` enum has the
-- same operations as the new ones.
pub mod Convert
pub mod Granted
pub mod Super
mod Tests
use Prim.Native.Nat.{bit_or}
use tv.Prelude.{ℕ, ◌^◌, Bool, if◌then◌else◌, List, [], ◌∷◌}
use tv.Permissions.Bitmask.{
  Mask, BitmaskEnum, EmotePermission, emote_bits, role_bits, EmoteSetPermission, emote_set_bits,
  BadgePermission, badge_bits, PaintPermission, paint_bits, UserPermission, user_bits,
  TicketPermission, ticket_bits, EmoteModerationRequestPermission, emote_moderation_request_bits,
  AdminPermission, admin_bits,
}
use tv.Permissions.Bitmask as New
use tv.Permissions.AllowDeny.{AllowDeny, allow, deny, default}

pub data RolePermission : Type 0 where
  create_emote edit_emote create_emote_set edit_emote_set create_report send_messages
        feature_zero_width_emote_type feature_profile_picture_animation feature_messaging_priority
        manage_bans manage_roles manage_reports manage_users edit_any_emote edit_any_emote_set
        bypass_privacy manage_content manage_stack manage_cosmetics run_jobs manage_entitlements
        super_administrator :
      RolePermission

abbrev pub legacy_bits : RolePermission → Mask
legacy_bits RolePermission.create_emote = 2 ^ 0
legacy_bits RolePermission.edit_emote = 2 ^ 1
legacy_bits RolePermission.create_emote_set = 2 ^ 2
legacy_bits RolePermission.edit_emote_set = 2 ^ 3
legacy_bits RolePermission.create_report = 2 ^ 13
legacy_bits RolePermission.send_messages = 2 ^ 14
legacy_bits RolePermission.feature_zero_width_emote_type = 2 ^ 23
legacy_bits RolePermission.feature_profile_picture_animation = 2 ^ 24
legacy_bits RolePermission.feature_messaging_priority = 2 ^ 25
legacy_bits RolePermission.manage_bans = 2 ^ 30
legacy_bits RolePermission.manage_roles = 2 ^ 31
legacy_bits RolePermission.manage_reports = 2 ^ 32
legacy_bits RolePermission.manage_users = 2 ^ 33
legacy_bits RolePermission.edit_any_emote = 2 ^ 41
legacy_bits RolePermission.edit_any_emote_set = 2 ^ 42
legacy_bits RolePermission.bypass_privacy = 2 ^ 48
legacy_bits RolePermission.manage_content = 2 ^ 54
legacy_bits RolePermission.manage_stack = 2 ^ 55
legacy_bits RolePermission.manage_cosmetics = 2 ^ 56
legacy_bits RolePermission.run_jobs = 2 ^ 57
legacy_bits RolePermission.manage_entitlements = 2 ^ 58
legacy_bits RolePermission.super_administrator = 2 ^ 62

-- `if b { perm.allow(p) }` and `if b { perm.deny(p) }`, which change `perm`.
abbrev pub allow_if : Bool → Mask → AllowDeny → AllowDeny
allow_if b p perm = if b then allow perm p else perm

abbrev pub deny_if : Bool → Mask → AllowDeny → AllowDeny
deny_if b p perm = if b then deny perm p else perm

-- `if b { mask |= p }`
abbrev pub set_if : Bool → Mask → Mask → Mask
set_if b p mask = if b then bit_or mask p else mask

module _ ⦃lib : BitmaskEnum⦄ where
  abbrev pub holds : Mask → RolePermission → Bool
  holds m p = lib.contains m (legacy_bits p)

  unfoldable pub to_emote_permissions : Mask → Mask → AllowDeny
  to_emote_permissions allowed denied' =
      let perm = default in
      let perm =
        allow_if (holds allowed RolePermission.create_emote) (emote_bits EmotePermission.upload)
          perm in
      let perm =
        allow_if (holds allowed RolePermission.edit_emote) (emote_bits EmotePermission.edit) perm in
      let perm =
        allow_if (holds allowed RolePermission.edit_emote) (emote_bits EmotePermission.delete)
          perm in
      let perm =
        allow_if (holds allowed RolePermission.edit_any_emote)
          (emote_bits EmotePermission.manage_any) perm in
      let perm =
        deny_if (holds denied' RolePermission.create_emote) (emote_bits EmotePermission.upload)
          perm in
      let perm =
        deny_if (holds denied' RolePermission.edit_emote) (emote_bits EmotePermission.edit) perm in
      let perm =
        deny_if (holds denied' RolePermission.edit_emote) (emote_bits EmotePermission.delete)
          perm in
      deny_if (holds denied' RolePermission.edit_any_emote) (emote_bits EmotePermission.manage_any)
        perm

  unfoldable pub to_role_permissions : Mask → Mask → AllowDeny
  to_role_permissions allowed denied' =
      let perm =
        allow_if (holds allowed RolePermission.manage_roles) (role_bits New.RolePermission.manage)
          default in
      deny_if (holds denied' RolePermission.manage_roles) (role_bits New.RolePermission.manage) perm

  -- `CreateEmoteSet | EditEmoteSet`
  abbrev pub emote_set_pair : Mask
  emote_set_pair =
      bit_or (legacy_bits RolePermission.create_emote_set)
        (legacy_bits RolePermission.edit_emote_set)

  unfoldable pub to_emote_set_permission : Mask → Mask → AllowDeny
  to_emote_set_permission allowed denied' =
      let perm =
        allow_if (lib.intersects allowed emote_set_pair) (emote_set_bits EmoteSetPermission.manage)
          default in
      let perm =
        allow_if (holds allowed RolePermission.edit_any_emote_set)
          (emote_set_bits EmoteSetPermission.manage_any) perm in
      let perm =
        deny_if (lib.intersects denied' emote_set_pair) (emote_set_bits EmoteSetPermission.manage)
          perm in
      deny_if (holds denied' RolePermission.edit_any_emote_set)
        (emote_set_bits EmoteSetPermission.manage_any) perm

  unfoldable pub to_badge_permission : Mask → Mask → AllowDeny
  to_badge_permission allowed denied' =
      let perm =
        allow_if (holds allowed RolePermission.manage_cosmetics) (badge_bits BadgePermission.manage)
          default in
      deny_if (holds denied' RolePermission.manage_cosmetics) (badge_bits BadgePermission.manage)
        perm

  unfoldable pub to_paint_permission : Mask → Mask → AllowDeny
  to_paint_permission allowed denied' =
      let perm =
        allow_if (holds allowed RolePermission.manage_cosmetics) (paint_bits PaintPermission.manage)
          default in
      deny_if (holds denied' RolePermission.manage_cosmetics) (paint_bits PaintPermission.manage)
        perm

  unfoldable pub to_user_permission : Mask → Mask → AllowDeny
  to_user_permission allowed denied' =
      let perm =
        allow_if (holds allowed RolePermission.manage_bans) (user_bits UserPermission.moderate)
          default in
      let perm =
        allow_if (holds allowed RolePermission.manage_users) (user_bits UserPermission.manage_any)
          perm in
      let perm =
        deny_if (holds denied' RolePermission.manage_bans) (user_bits UserPermission.moderate)
          perm in
      let perm =
        deny_if (holds denied' RolePermission.manage_users) (user_bits UserPermission.manage_any)
          perm in
      let perm =
        allow_if (holds allowed RolePermission.feature_profile_picture_animation)
          (user_bits UserPermission.use_custom_profile_picture) perm in
      deny_if (holds denied' RolePermission.feature_profile_picture_animation)
        (user_bits UserPermission.use_custom_profile_picture) perm

  unfoldable pub to_ticket_permission : Mask → Mask → AllowDeny
  to_ticket_permission allowed denied' =
      let perm =
        allow_if (holds allowed RolePermission.create_report) (ticket_bits TicketPermission.create)
          default in
      let perm =
        allow_if (holds allowed RolePermission.manage_reports)
          (ticket_bits TicketPermission.manage_abuse) perm in
      let perm =
        allow_if (holds allowed RolePermission.manage_reports)
          (ticket_bits TicketPermission.manage_generic) perm in
      let perm =
        deny_if (holds denied' RolePermission.create_report) (ticket_bits TicketPermission.create)
          perm in
      let perm =
        deny_if (holds denied' RolePermission.manage_reports)
          (ticket_bits TicketPermission.manage_abuse) perm in
      deny_if (holds denied' RolePermission.manage_reports)
        (ticket_bits TicketPermission.manage_generic) perm

  unfoldable pub to_emote_moderation_request : Mask → Mask → AllowDeny
  to_emote_moderation_request allowed denied' =
      let perm =
        allow_if (holds allowed RolePermission.edit_any_emote)
          (emote_moderation_request_bits EmoteModerationRequestPermission.manage) default in
      deny_if (holds denied' RolePermission.edit_any_emote)
        (emote_moderation_request_bits EmoteModerationRequestPermission.manage) perm

  unfoldable pub to_admin_permission : Mask → Mask → AllowDeny
  to_admin_permission allowed denied' =
      let perm =
        allow_if (holds allowed RolePermission.super_administrator)
          (admin_bits AdminPermission.super_admin) default in
      deny_if (holds denied' RolePermission.super_administrator)
        (admin_bits AdminPermission.super_admin) perm
