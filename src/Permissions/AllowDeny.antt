-- ===== src/Permissions/AllowDeny.antt =====
-- `AllowDeny<T>` of shared/src/database/types/role/permissions.rs: one category's allowed and
-- denied bits, and how a later pair is merged into an earlier one.
pub mod Bits
use Prim.Native.Nat.{bit_and, bit_or}
use tv.Prelude.{Bool, ◌&&◌, ◌==◌}
use tv.Prelude.Bits.{bit_not}
use tv.Permissions.Bitmask.{Mask, BitmaskEnum}

pub record AllowDeny : Type 0 where
  pub allow : Mask
  pub deny : Mask

unfoldable pub permission : AllowDeny → Mask
permission s = bit_and s.allow (bit_not s.deny)

unfoldable pub allow : AllowDeny → Mask → AllowDeny
allow s p = record s { allow = bit_or s.allow p; deny = bit_and s.deny (bit_not p) }

unfoldable pub deny : AllowDeny → Mask → AllowDeny
deny s p = record s { allow = bit_and s.allow (bit_not p); deny = bit_or s.deny p }

unfoldable pub merge : AllowDeny → AllowDeny → AllowDeny
merge s other = deny (allow s other.allow) other.deny

module _ ⦃lib : BitmaskEnum⦄ where
  unfoldable pub is_empty : AllowDeny → Bool
  is_empty s = s.allow == lib.none && s.deny == lib.none

  unfoldable pub default : AllowDeny
  default = record { allow = lib.none; deny = lib.none }
