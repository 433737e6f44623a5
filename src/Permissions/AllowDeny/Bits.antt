-- ===== src/Permissions/AllowDeny/Bits.antt =====
-- Merging of allowed and denied bits, bit by bit
-- (shared/src/database/types/role/permissions.rs).
use Prim.Native.Nat.{bit_and}
use tv.Prelude.{ℕ, ◌^◌, ◌<◌, ◌≡◌, true, false, not, ◌&&◌, ◌||◌, arith, if◌then◌else◌}
use tv.Prelude.Bits.{
  test_bit, bit_not, test_bit-bit_and, test_bit-bit_or, test_bit-bit_not, bit_and-le, bit_or-lt,
}
use tv.Permissions.Bitmask.{Mask}
use tv.Permissions.AllowDeny.{AllowDeny, permission, allow, deny, merge}

-- Both masks are 32-bit patterns.
pub record IsWord (s : AllowDeny) : Type 0 where
  pub allow_word : s.allow < 2 ^ 32
  pub deny_word : s.deny < 2 ^ 32

-- No bit is allowed and denied.
abbrev pub IsDisjoint : AllowDeny → Type 0
IsDisjoint s = (i : ℕ) → i < 32 → (test_bit s.allow i && test_bit s.deny i) ≡ false

-- `a & !b`, bit by bit.
pub test_bit-minus :
    (a b i : ℕ)
    → b < 2 ^ 32
    → i < 32
    → test_bit (bit_and a (bit_not b)) i ≡ (test_bit a i && not (test_bit b i))
test_bit-minus a b i h k = simp (test_bit-bit_and, test_bit-bit_not b i h k)

pub minus-lt : (a b : ℕ) → a < 2 ^ 32 → bit_and a (bit_not b) < 2 ^ 32
minus-lt a b h = omega (arith, bit_and-le a (bit_not b))

pub allow-IsWord : (s : AllowDeny) (p : Mask) → IsWord s → p < 2 ^ 32 → IsWord (allow s p)
unfolding allow
allow-IsWord s p h k = record {
  allow_word = bit_or-lt 32 s.allow p h.allow_word k;
  deny_word = minus-lt s.deny p h.deny_word;
}

pub deny-IsWord : (s : AllowDeny) (p : Mask) → IsWord s → p < 2 ^ 32 → IsWord (deny s p)
unfolding deny
deny-IsWord s p h k = record {
  allow_word = minus-lt s.allow p h.allow_word;
  deny_word = bit_or-lt 32 s.deny p h.deny_word k;
}

pub merge-IsWord : (s other : AllowDeny) → IsWord s → IsWord other → IsWord (merge s other)
unfolding merge
merge-IsWord s other h k =
    deny-IsWord (allow s other.allow) other.deny (allow-IsWord s other.allow h k.allow_word)
      k.deny_word

-- The bits of the merged pair.
pub test_bit-merge :
    (s other : AllowDeny) (i : ℕ)
    → IsWord other
    → i < 32
    → (test_bit (merge s other).allow i
        ≡ ((test_bit s.allow i || test_bit other.allow i) && not (test_bit other.deny i)))
      × (test_bit (merge s other).deny i
          ≡ (test_bit s.deny i && not (test_bit other.allow i) || test_bit other.deny i))
unfolding merge allow deny
test_bit-merge s other i h k = (
  simp (test_bit-minus _ other.deny i h.deny_word k, test_bit-bit_or),
  simp (test_bit-bit_or, test_bit-minus _ other.allow i h.allow_word k),
)

pub test_bit-permission :
    (s : AllowDeny) (i : ℕ)
    → IsWord s
    → i < 32
    → test_bit (permission s) i ≡ (test_bit s.allow i && not (test_bit s.deny i))
unfolding permission
test_bit-permission s i h k = test_bit-minus s.allow s.deny i h.deny_word k

-- A bit of the permission after a merge is off if the later pair denies it, else on if the later
-- pair allows it, else what it was before; both pairs hold 32-bit masks.
pub permission-merge :
    (s other : AllowDeny) (i : ℕ)
    → IsWord s
    → IsWord other
    → i < 32
    → test_bit (permission (merge s other)) i ≡ (
        if test_bit other.deny i
        then false
        else if test_bit other.allow i
        then true
        else test_bit (permission s) i)
permission-merge s other i h g k = ground (
  arith,
  test_bit-permission s i h k,
  test_bit-permission (merge s other) i (merge-IsWord s other h g) k,
  (test_bit-merge s other i g k).0,
  (test_bit-merge s other i g k).1,
)

-- Merging keeps the allowed and the denied bits apart, whatever the later pair of 32-bit masks is.
pub merge-IsDisjoint :
    (s other : AllowDeny) → IsDisjoint s → IsWord other → IsDisjoint (merge s other)
merge-IsDisjoint s other d g i k =
    ground (arith, d i k, (test_bit-merge s other i g k).0, (test_bit-merge s other i g k).1)
