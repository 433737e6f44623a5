-- ===== src/Permissions/Checks.antt =====
-- The checks of shared/src/database/types/role/permissions.rs: `has`, `denied`, the two kinds of
-- administrator, and `is_superset_of`, which decides whether a role may be handed out.
use Prim.Native.Nat.{bit_or}
use tv.Prelude.{Bool, not, ◌&&◌, ◌||◌, ◌==◌, List, any, all, if◌then◌else◌}
use tv.Permissions.Bitmask.{
  Mask, BitmaskEnum, EmotePermission, emote_bits, RolePermission, role_bits, EmoteSetPermission,
  emote_set_bits, BadgePermission, badge_bits, PaintPermission, paint_bits, UserPermission,
  user_bits, TicketPermission, ticket_bits, EmoteModerationRequestPermission,
  emote_moderation_request_bits, AdminPermission, admin_bits,
}
use tv.Permissions.AllowDeny.{permission}
use tv.Permissions.Record.{Permissions, Permission}

module _ {Json : Type 0} ⦃lib : BitmaskEnum⦄ where
  unfoldable pub is_admin : Permissions Json → Bool
  is_admin s =
      lib.intersects (permission s.admin)
        (bit_or (admin_bits AdminPermission.admin) (admin_bits AdminPermission.super_admin))

  unfoldable pub is_super_admin : Permissions Json → Bool
  is_super_admin s = lib.contains (permission s.admin) (admin_bits AdminPermission.super_admin)

  unfoldable pub denied_emote : Permissions Json → Mask → Bool
  denied_emote s p =
      not (is_admin s)
      && not (lib.contains (permission s.emote) (emote_bits EmotePermission.admin))
      && lib.contains s.emote.deny p

  unfoldable pub denied_role : Permissions Json → Mask → Bool
  denied_role s p =
      not (is_admin s)
      && not (lib.contains (permission s.role) (role_bits RolePermission.admin))
      && lib.contains s.role.deny p

  unfoldable pub denied_emote_set : Permissions Json → Mask → Bool
  denied_emote_set s p =
      not (is_admin s)
      && not (lib.contains (permission s.emote_set) (emote_set_bits EmoteSetPermission.admin))
      && lib.contains s.emote_set.deny p

  unfoldable pub denied_badge : Permissions Json → Mask → Bool
  denied_badge s p =
      not (is_admin s)
      && not (lib.contains (permission s.badge) (badge_bits BadgePermission.admin))
      && lib.contains s.badge.deny p

  unfoldable pub denied_paint : Permissions Json → Mask → Bool
  denied_paint s p =
      not (is_admin s)
      && not (lib.contains (permission s.paint) (paint_bits PaintPermission.admin))
      && lib.contains s.paint.deny p

  unfoldable pub denied_user : Permissions Json → Mask → Bool
  denied_user s p =
      not (is_admin s)
      && not (lib.contains (permission s.user) (user_bits UserPermission.admin))
      && lib.contains s.user.deny p

  unfoldable pub denied_ticket : Permissions Json → Mask → Bool
  denied_ticket s p =
      not (is_admin s)
      && not (lib.contains (permission s.ticket) (ticket_bits TicketPermission.admin))
      && lib.contains s.ticket.deny p

  unfoldable pub denied_emote_moderation_request : Permissions Json → Mask → Bool
  denied_emote_moderation_request s p =
      not (is_admin s)
      && not (
          lib.contains (permission s.emote_moderation_request)
            (emote_moderation_request_bits EmoteModerationRequestPermission.admin))
      && lib.contains s.emote_moderation_request.deny p

  unfoldable pub denied_admin : Permissions Json → Mask → Bool
  denied_admin s p =
      not (lib.contains (permission s.admin) (admin_bits AdminPermission.super_admin))
      && lib.contains s.admin.deny p

  unfoldable pub has_emote : Permissions Json → Mask → Bool
  has_emote s p =
      is_admin s
      || lib.contains (permission s.emote) p
      || lib.contains (permission s.emote) (emote_bits EmotePermission.admin)

  unfoldable pub has_role : Permissions Json → Mask → Bool
  has_role s p =
      is_admin s
      || lib.contains (permission s.role) p
      || lib.contains (permission s.role) (role_bits RolePermission.admin)

  unfoldable pub has_emote_set : Permissions Json → Mask → Bool
  has_emote_set s p =
      is_admin s
      || lib.contains (permission s.emote_set) p
      || lib.contains (permission s.emote_set) (emote_set_bits EmoteSetPermission.admin)

  unfoldable pub has_badge : Permissions Json → Mask → Bool
  has_badge s p =
      is_admin s
      || lib.contains (permission s.badge) p
      || lib.contains (permission s.badge) (badge_bits BadgePermission.admin)

  unfoldable pub has_paint : Permissions Json → Mask → Bool
  has_paint s p =
      is_admin s
      || lib.contains (permission s.paint) p
      || lib.contains (permission s.paint) (paint_bits PaintPermission.admin)

  unfoldable pub has_user : Permissions Json → Mask → Bool
  has_user s p =
      is_admin s
      || lib.contains (permission s.user) p
      || lib.contains (permission s.user) (user_bits UserPermission.admin)

  unfoldable pub has_ticket : Permissions Json → Mask → Bool
  has_ticket s p =
      is_admin s
      || lib.contains (permission s.ticket) p
      || lib.contains (permission s.ticket) (ticket_bits TicketPermission.admin)

  unfoldable pub has_emote_moderation_request : Permissions Json → Mask → Bool
  has_emote_moderation_request s p =
      is_admin s
      || lib.contains (permission s.emote_moderation_request) p
      || lib.contains (permission s.emote_moderation_request)
          (emote_moderation_request_bits EmoteModerationRequestPermission.admin)

  unfoldable pub has_admin : Permissions Json → Mask → Bool
  has_admin s p =
      if p == admin_bits AdminPermission.super_admin
      then is_super_admin s
      else is_admin s || lib.contains (permission s.admin) p

  unfoldable pub has_flags : Permissions Json → Mask → Bool
  has_flags s p = lib.contains (permission s.flags) p

  unfoldable pub denied_flags : Permissions Json → Mask → Bool
  denied_flags s p = lib.contains s.flags.deny p

  unfoldable pub has : Permissions Json → Permission → Bool
  has s (Permission.emote p) = has_emote s p
  has s (Permission.role p) = has_role s p
  has s (Permission.emote_set p) = has_emote_set s p
  has s (Permission.badge p) = has_badge s p
  has s (Permission.paint p) = has_paint s p
  has s (Permission.user p) = has_user s p
  has s (Permission.ticket p) = has_ticket s p
  has s (Permission.emote_moderation_request p) = has_emote_moderation_request s p
  has s (Permission.admin p) = has_admin s p
  has s (Permission.flags p) = has_flags s p

  unfoldable pub denied : Permissions Json → Permission → Bool
  denied s (Permission.emote p) = denied_emote s p
  denied s (Permission.role p) = denied_role s p
  denied s (Permission.emote_set p) = denied_emote_set s p
  denied s (Permission.badge p) = denied_badge s p
  denied s (Permission.paint p) = denied_paint s p
  denied s (Permission.user p) = denied_user s p
  denied s (Permission.ticket p) = denied_ticket s p
  denied s (Permission.emote_moderation_request p) = denied_emote_moderation_request s p
  denied s (Permission.admin p) = denied_admin s p
  denied s (Permission.flags p) = denied_flags s p

  -- The provided methods of the trait `PermissionsExt`.
  unfoldable pub has_any : Permissions Json → List Permission → Bool
  has_any s ps = any (has s) ps

  unfoldable pub has_all : Permissions Json → List Permission → Bool
  has_all s ps = all (has s) ps

  unfoldable pub denied_any : Permissions Json → List Permission → Bool
  denied_any s ps = any (denied s) ps

  unfoldable pub denied_all : Permissions Json → List Permission → Bool
  denied_all s ps = all (denied s) ps

  unfoldable pub is_superset_of : Permissions Json → Permissions Json → Bool
  is_superset_of s other =
      is_super_admin s
      || has s (Permission.badge other.badge.allow)
        && has s (Permission.paint other.paint.allow)
        && has s (Permission.emote_set other.emote_set.allow)
        && has s (Permission.emote other.emote.allow)
        && has s (Permission.role other.role.allow)
        && has s (Permission.user other.user.allow)
        && has s (Permission.ticket other.ticket.allow)
        && has s (Permission.admin other.admin.allow)
        && has s (Permission.user other.user.allow)
        && has s (Permission.emote_moderation_request other.emote_moderation_request.allow)
