-- ===== src/Permissions/Legacy/Tests.antt =====
-- The conversion of concrete masks of the older API.
use tv.Prelude.{ℕ, ◌≡◌, List}
use tv.Permissions.AllowDeny.{permission}
use tv.Permissions.Legacy.Granted.{new, to_new_permissions-permission}
use tv.Permissions.Crate.{crate}
use tv.Prelude.{refl}
use tv.Prelude.Bits.{bit_not}
use tv.Permissions.Record.{Permissions, default}
use tv.Permissions.Checks.{is_super_admin}
use tv.Permissions.Legacy.Convert.{from_db}
use tv.Permissions.Legacy.Super.{every_bit, from_db-super_admin}

-- Creating and editing emotes and managing reports are allowed, editing emotes is denied.
to_new_permissions-permission_example :
    (permission (new (List ℕ) 0x100000003 2).emote ≡ 2)
    × (permission (new (List ℕ) 0x100000003 2).role ≡ 0)
    × (permission (new (List ℕ) 0x100000003 2).emote_set ≡ 0)
    × (permission (new (List ℕ) 0x100000003 2).badge ≡ 0)
    × (permission (new (List ℕ) 0x100000003 2).paint ≡ 0)
    × (permission (new (List ℕ) 0x100000003 2).user ≡ 0)
    × (permission (new (List ℕ) 0x100000003 2).ticket ≡ 20)
    × (permission (new (List ℕ) 0x100000003 2).emote_moderation_request ≡ 0)
    × (permission (new (List ℕ) 0x100000003 2).admin ≡ 0)
to_new_permissions-permission_example = to_new_permissions-permission (List ℕ) 0x100000003 2

abbrev owner : Permissions ℕ
owner = record default { admin = record { allow = 2; deny = 0 } }

from_db-super_admin_example : from_db owner ≡ (every_bit, 0)
unfolding is_super_admin permission bit_not default
from_db-super_admin_example = from_db-super_admin owner refl
