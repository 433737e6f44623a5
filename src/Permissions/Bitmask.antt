-- ===== src/Permissions/Bitmask.antt =====
-- The `#[bitmask(i32)]` enums of shared/src/database/types/role/permissions.rs: each variant with
-- its discriminant. A mask of any of them is the 32-bit pattern of its `i32`.
-- `contains`, `intersects` and `none` come from the crate bitmask-enum, which is not in the
-- repository: they are the operations of an interface with the laws that the crate documents.
use Prim.Native.Nat.{bit_and}
use tv.Prelude.{ℕ, ◌≡◌, ◌≢◌, ◌↔◌, Bool, true}

abbrev pub Mask : Type 0
Mask = ℕ

pub record BitmaskEnum : Type 0 where
  pub contains : Mask → Mask → Bool
  pub intersects : Mask → Mask → Bool
  pub none : Mask
  pub contains_iff : (a b : Mask) → (contains a b ≡ true) ↔ (bit_and a b ≡ b)
  pub intersects_iff : (a b : Mask) → (intersects a b ≡ true) ↔ (bit_and a b ≢ 0)
  pub none_lem : none ≡ 0

pub data EmotePermission : Type 0 where
  admin upload delete edit manage_any merge view_unlisted : EmotePermission

abbrev pub emote_bits : EmotePermission → Mask
emote_bits EmotePermission.admin = 1
emote_bits EmotePermission.upload = 2
emote_bits EmotePermission.delete = 4
emote_bits EmotePermission.edit = 8
emote_bits EmotePermission.manage_any = 16
emote_bits EmotePermission.merge = 32
emote_bits EmotePermission.view_unlisted = 64

pub data RolePermission : Type 0 where
  admin manage assign : RolePermission

abbrev pub role_bits : RolePermission → Mask
role_bits RolePermission.admin = 1
role_bits RolePermission.manage = 2
role_bits RolePermission.assign = 4

pub data EmoteSetPermission : Type 0 where
  admin manage manage_any resize manage_global manage_special assign : EmoteSetPermission

abbrev pub emote_set_bits : EmoteSetPermission → Mask
emote_set_bits EmoteSetPermission.admin = 1
emote_set_bits EmoteSetPermission.manage = 2
emote_set_bits EmoteSetPermission.manage_any = 4
emote_set_bits EmoteSetPermission.resize = 8
emote_set_bits EmoteSetPermission.manage_global = 16
emote_set_bits EmoteSetPermission.manage_special = 32
emote_set_bits EmoteSetPermission.assign = 64

pub data BadgePermission : Type 0 where
  admin manage assign : BadgePermission

abbrev pub badge_bits : BadgePermission → Mask
badge_bits BadgePermission.admin = 1
badge_bits BadgePermission.manage = 2
badge_bits BadgePermission.assign = 4

pub data PaintPermission : Type 0 where
  admin manage assign : PaintPermission

abbrev pub paint_bits : PaintPermission → Mask
paint_bits PaintPermission.admin = 1
paint_bits PaintPermission.manage = 2
paint_bits PaintPermission.assign = 4

pub data FlagPermission : Type 0 where
  hidden instant_invite : FlagPermission

abbrev pub flag_bits : FlagPermission → Mask
flag_bits FlagPermission.hidden = 1
flag_bits FlagPermission.instant_invite = 2

pub data UserPermission : Type 0 where
  admin login invite_editors use_custom_profile_picture use_personal_emote_set use_badge use_paint
        manage_any billing manage_billing moderate view_hidden manage_sessions :
      UserPermission

abbrev pub user_bits : UserPermission → Mask
user_bits UserPermission.admin = 1
user_bits UserPermission.login = 2
user_bits UserPermission.invite_editors = 4
user_bits UserPermission.use_custom_profile_picture = 8
user_bits UserPermission.use_personal_emote_set = 16
user_bits UserPermission.use_badge = 32
user_bits UserPermission.use_paint = 64
user_bits UserPermission.manage_any = 128
user_bits UserPermission.billing = 256
user_bits UserPermission.manage_billing = 512
user_bits UserPermission.moderate = 1024
user_bits UserPermission.view_hidden = 2048
user_bits UserPermission.manage_sessions = 4096

pub data TicketPermission : Type 0 where
  admin create manage_abuse manage_billing manage_generic message : TicketPermission

abbrev pub ticket_bits : TicketPermission → Mask
ticket_bits TicketPermission.admin = 1
ticket_bits TicketPermission.create = 2
ticket_bits TicketPermission.manage_abuse = 4
ticket_bits TicketPermission.manage_billing = 8
ticket_bits TicketPermission.manage_generic = 16
ticket_bits TicketPermission.message = 32

pub data EmoteModerationRequestPermission : Type 0 where
  admin manage : EmoteModerationRequestPermission

abbrev pub emote_moderation_request_bits : EmoteModerationRequestPermission → Mask
emote_moderation_request_bits EmoteModerationRequestPermission.admin = 1
emote_moderation_request_bits EmoteModerationRequestPermission.manage = 2

pub data AdminPermission : Type 0 where
  admin super_admin bypass_rate_limit manage_redeem_codes manage_entitlements : AdminPermission

abbrev pub admin_bits : AdminPermission → Mask
admin_bits AdminPermission.admin = 1
admin_bits AdminPermission.super_admin = 2
admin_bits AdminPermission.bypass_rate_limit = 4
admin_bits AdminPermission.manage_redeem_codes = 8
admin_bits AdminPermission.manage_entitlements = 16
