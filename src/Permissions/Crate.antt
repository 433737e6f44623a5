-- ===== src/Permissions/Crate.antt =====
-- The operations of the crate bitmask-enum written out, to run the definitions on concrete masks.
use Prim.Native.Nat.{bit_and}
use tv.Prelude.{◌≡◌, ◌≢◌, ◌↔◌, refl, arith, Bool, true, not, ◌==◌, ==_iff}
use tv.Permissions.Bitmask.{Mask, BitmaskEnum}

abbrev pub crate_contains : Mask → Mask → Bool
crate_contains a b = bit_and a b == b

abbrev pub crate_intersects : Mask → Mask → Bool
crate_intersects a b = not (bit_and a b == 0)

pub crate_intersects_iff : (a b : Mask) → (crate_intersects a b ≡ true) ↔ (bit_and a b ≢ 0)
crate_intersects_iff a b = ((λ h. ground arith), (λ h. ground arith))

instance abbrev pub crate : BitmaskEnum
crate = record {
  contains = crate_contains;
  intersects = crate_intersects;
  none = 0;
  contains_iff = λ a b. ==_iff (bit_and a b) b;
  intersects_iff = crate_intersects_iff;
  none_lem = refl;
}
