-- ===== src/Permissions/Legacy/Super.antt =====
-- What the older API sees of a super administrator (shared/src/old_types/role_permission.rs).
use tv.Prelude.{◌+◌, ◌^◌, ◌≡◌, arith, true, false}
use tv.Permissions.Bitmask.{Mask, BitmaskEnum}
use tv.Permissions.Record.{Permissions, Permission}
use tv.Permissions.Checks.{
  is_admin, is_super_admin, has, denied, has_any, has_all, denied_any, has_emote, has_role,
  has_emote_set, has_badge, has_paint, has_user, has_ticket, has_admin, denied_emote, denied_role,
  denied_emote_set, denied_badge, denied_paint, denied_user, denied_ticket, denied_admin,
}
use tv.Permissions.Superset.{is_admin_of_super}
use tv.Permissions.Legacy.Convert.{from_db, from_db_allowed, from_db_denied}

-- The bits of the old permissions that have a counterpart in the new ones.
abbrev pub every_bit : Mask
every_bit =
    2 ^ 0
    + 2 ^ 1
    + 2 ^ 2
    + 2 ^ 3
    + 2 ^ 13
    + 2 ^ 24
    + 2 ^ 30
    + 2 ^ 31
    + 2 ^ 32
    + 2 ^ 33
    + 2 ^ 41
    + 2 ^ 42
    + 2 ^ 56
    + 2 ^ 62

module _ {Json : Type 0} ⦃lib : BitmaskEnum⦄ (s : Permissions Json) where
  abbrev Granted : (Mask → Permission) → Type 0
  Granted category =
      ((m : Mask) → has s (category m) ≡ true) × ((m : Mask) → denied s (category m) ≡ false)

  granted :
      is_super_admin s ≡ true
      → is_admin s ≡ true
      → Granted Permission.emote
        × Granted Permission.role
        × Granted Permission.emote_set
        × Granted Permission.badge
        × Granted Permission.paint
        × Granted Permission.user
        × Granted Permission.ticket
        × Granted Permission.admin
  unfolding is_super_admin has denied has_emote has_role has_emote_set has_badge has_paint has_user
      has_ticket has_admin denied_emote denied_role denied_emote_set denied_badge denied_paint
      denied_user denied_ticket denied_admin
  granted h a = (
    ((λ m. ground arith), (λ m. ground arith)),
    ((λ m. ground arith), (λ m. ground arith)),
    ((λ m. ground arith), (λ m. ground arith)),
    ((λ m. ground arith), (λ m. ground arith)),
    ((λ m. ground arith), (λ m. ground arith)),
    ((λ m. ground arith), (λ m. ground arith)),
    ((λ m. ground arith), (λ m. ground arith)),
    ((λ m. ground arith), (λ m. ground arith)),
  )

  -- To the older API a super administrator is allowed everything that has a counterpart in the
  -- new permissions, and denied nothing, whatever the masks of the other categories are.
  pub from_db-super_admin : is_super_admin s ≡ true → from_db s ≡ (every_bit, 0)
  unfolding from_db from_db_allowed from_db_denied has_any has_all denied_any
  from_db-super_admin h =
      let (emote, role, emote_set, badge, paint, user, ticket, admin) =
        granted h (is_admin_of_super s s h) in
      simp (
        emote.0, emote.1, role.0, role.1, emote_set.0, emote_set.1, badge.0, badge.1, paint.0,
        paint.1, user.0, user.1, ticket.0, ticket.1, admin.0, admin.1, lib.none_lem,
      )
