-- ===== src/Permissions/Legacy/Granted.antt =====
-- What the older API's masks grant after the conversion (shared/src/old_types/role_permission.rs).
use tv.Prelude.{ℕ, ◌+◌, ◌≡◌, refl, Bool, not, ◌&&◌, ◌==◌, ==_iff, if◌then◌else◌}
use tv.Prelude.Bits.{bit_not}
use tv.Prelude.Tables.{every_two-at, every_four-at, every_six-at}
use tv.Permissions.Bitmask.{Mask, BitmaskEnum}
use tv.Permissions.AllowDeny.{AllowDeny, permission, allow, deny, default}
use tv.Permissions.Record.{Permissions}
use tv.Permissions.Legacy.{
  RolePermission, holds, allow_if, deny_if, emote_set_pair, to_emote_permissions,
  to_role_permissions, to_emote_set_permission, to_badge_permission, to_paint_permission,
  to_user_permission, to_ticket_permission, to_emote_moderation_request, to_admin_permission,
}
use tv.Permissions.Legacy.Convert.{to_new_permissions}

abbrev zero_pair : AllowDeny
zero_pair = record { allow = 0; deny = 0 }

-- The mask `n` if `a` is allowed and `d` is not denied.
abbrev pub part : Bool → Bool → ℕ → ℕ
part a d n = if a && not d then n else 0

one : (a d : Bool) → permission (deny_if d 2 (allow_if a 2 zero_pair)) ≡ part a d 2
unfolding permission allow deny bit_not
one a d =
    (==_iff _ _).0 (
      every_two-at (λ a d. permission (deny_if d 2 (allow_if a 2 zero_pair)) == part a d 2) refl a
        d)

emotes :
    (a b c d e f : Bool)
    → permission (
        deny_if f 16 (
          deny_if e 4 (
            deny_if e 8 (
              deny_if d 2 (allow_if c 16 (allow_if b 4 (allow_if b 8 (allow_if a 2 zero_pair))))))))
      ≡ part a d 2 + part b e 12 + part c f 16
unfolding permission allow deny bit_not
emotes a b c d e f = (==_iff _ _).0 (
    every_six-at
      (λ a b c d e f.
        permission (
          deny_if f 16 (
            deny_if e 4 (
              deny_if e 8 (
                deny_if d 2
                  (allow_if c 16 (allow_if b 4 (allow_if b 8 (allow_if a 2 zero_pair))))))))
        == (part a d 2 + part b e 12 + part c f 16))
      refl a b c d e f)

sets :
    (a b d e : Bool)
    → permission (deny_if e 4 (deny_if d 2 (allow_if b 4 (allow_if a 2 zero_pair))))
      ≡ part a d 2 + part b e 4
unfolding permission allow deny bit_not
sets a b d e = (==_iff _ _).0 (
    every_four-at
      (λ a b d e.
        permission (deny_if e 4 (deny_if d 2 (allow_if b 4 (allow_if a 2 zero_pair))))
        == (part a d 2 + part b e 4))
      refl a b d e)

users :
    (a b c d e f : Bool)
    → permission (
        deny_if f 8 (
          allow_if c 8
            (deny_if e 128 (deny_if d 1024 (allow_if b 128 (allow_if a 1024 zero_pair))))))
      ≡ part a d 1024 + part b e 128 + part c f 8
unfolding permission allow deny bit_not
users a b c d e f = (==_iff _ _).0 (
    every_six-at
      (λ a b c d e f.
        permission (
          deny_if f 8 (
            allow_if c 8
              (deny_if e 128 (deny_if d 1024 (allow_if b 128 (allow_if a 1024 zero_pair))))))
        == (part a d 1024 + part b e 128 + part c f 8))
      refl a b c d e f)

tickets :
    (a b d e : Bool)
    → permission (
        deny_if e 16
          (deny_if e 4 (deny_if d 2 (allow_if b 16 (allow_if b 4 (allow_if a 2 zero_pair))))))
      ≡ part a d 2 + part b e 20
unfolding permission allow deny bit_not
tickets a b d e = (==_iff _ _).0 (
    every_four-at
      (λ a b d e.
        permission (
          deny_if e 16
            (deny_if e 4 (deny_if d 2 (allow_if b 16 (allow_if b 4 (allow_if a 2 zero_pair))))))
        == (part a d 2 + part b e 20))
      refl a b d e)

module _ ⦃lib : BitmaskEnum⦄ where
  default_zero : default ≡ zero_pair
  unfolding default
  default_zero = rw (lib.none_lem) refl

module _ (Json : Type 0) ⦃lib : BitmaskEnum⦄ (allowed denied : Mask) where
  abbrev granted : RolePermission → ℕ → ℕ
  granted p n = part (holds allowed p) (holds denied p) n

  abbrev granted_pair : ℕ → ℕ
  granted_pair n =
      part (lib.intersects allowed emote_set_pair) (lib.intersects denied emote_set_pair) n

  abbrev pub new : Permissions Json
  new = to_new_permissions allowed denied

  -- Each category of the converted permissions but `flags` has exactly the bits whose old
  -- counterpart is allowed and not denied, whatever the two masks are.
  pub to_new_permissions-permission :
      (permission new.emote
        ≡ granted RolePermission.create_emote 2
          + granted RolePermission.edit_emote 12
          + granted RolePermission.edit_any_emote 16)
      × (permission new.role ≡ granted RolePermission.manage_roles 2)
      × (permission new.emote_set ≡ granted_pair 2 + granted RolePermission.edit_any_emote_set 4)
      × (permission new.badge ≡ granted RolePermission.manage_cosmetics 2)
      × (permission new.paint ≡ granted RolePermission.manage_cosmetics 2)
      × (permission new.user
          ≡ granted RolePermission.manage_bans 1024
            + granted RolePermission.manage_users 128
            + granted RolePermission.feature_profile_picture_animation 8)
      × (permission new.ticket
          ≡ granted RolePermission.create_report 2 + granted RolePermission.manage_reports 20)
      × (permission new.emote_moderation_request ≡ granted RolePermission.edit_any_emote 2)
      × (permission new.admin ≡ granted RolePermission.super_administrator 2)
  unfolding to_new_permissions to_emote_permissions to_role_permissions to_emote_set_permission
      to_badge_permission to_paint_permission to_user_permission to_ticket_permission
      to_emote_moderation_request to_admin_permission
  to_new_permissions-permission = rw (default_zero) (
    emotes _ _ _ _ _ _,
    one _ _,
    sets _ _ _ _,
    one _ _,
    one _ _,
    users _ _ _ _ _ _,
    tickets _ _ _ _,
    one _ _,
    one _ _,
  )
