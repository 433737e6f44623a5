-- ===== src/Permissions/Exclusion.antt =====
-- What `contains` says bit by bit, and granting against denying
-- (shared/src/database/types/role/permissions.rs).
use Prim.Native.Nat.{bit_and}
use tv.Prelude.{
  ℕ, ◌^◌, ◌<◌, ◌≡◌, refl, ap, ◌≢◌, Bool, true, false, not, ◌&&◌, ◌||◌, arith, Bool-cases, inl, inr,
}
use tv.Prelude.Bits.{test_bit, test_bit-zero, test_bit-bit_and, bit_and-le, eq_of_test_bit}
use tv.Permissions.Bitmask.{Mask, BitmaskEnum}
use tv.Permissions.AllowDeny.{AllowDeny, permission}
use tv.Permissions.AllowDeny.Bits.{IsWord, test_bit-permission}
use tv.Permissions.Record.{Permissions, Permission}
use tv.Permissions.Checks.{
  has, denied, has_emote, has_role, has_emote_set, has_badge, has_paint, has_user, has_ticket,
  has_emote_moderation_request, has_flags, denied_emote, denied_role, denied_emote_set,
  denied_badge, denied_paint, denied_user, denied_ticket, denied_emote_moderation_request,
  denied_flags,
}

-- The pair of masks that a permission's category is checked against.
abbrev pub category : {Json : Type 0} → Permissions Json → Permission → AllowDeny
category s (Permission.emote p) = s.emote
category s (Permission.role p) = s.role
category s (Permission.emote_set p) = s.emote_set
category s (Permission.badge p) = s.badge
category s (Permission.paint p) = s.paint
category s (Permission.user p) = s.user
category s (Permission.ticket p) = s.ticket
category s (Permission.emote_moderation_request p) = s.emote_moderation_request
category s (Permission.admin p) = s.admin
category s (Permission.flags p) = s.flags

abbrev pub mask : Permission → Mask
mask (Permission.emote p) = p
mask (Permission.role p) = p
mask (Permission.emote_set p) = p
mask (Permission.badge p) = p
mask (Permission.paint p) = p
mask (Permission.user p) = p
mask (Permission.ticket p) = p
mask (Permission.emote_moderation_request p) = p
mask (Permission.admin p) = p
mask (Permission.flags p) = p

abbrev pub is_admin_category : Permission → Bool
is_admin_category (Permission.admin p) = true
is_admin_category _ = false

module _ ⦃lib : BitmaskEnum⦄ where
  pub test_bit_of_contains :
      (a b i : ℕ) → lib.contains a b ≡ true → test_bit b i ≡ true → test_bit a i ≡ true
  test_bit_of_contains a b i h k =
      let e : test_bit (bit_and a b) i ≡ test_bit b i =
        ap (λ m. test_bit m i) ((lib.contains_iff a b).0 h) in
      ground (arith, test_bit-bit_and a b i)

  pub contains-lt : (a b : ℕ) → lib.contains a b ≡ true → a < 2 ^ 32 → b < 2 ^ 32
  contains-lt a b h k = omega (arith, (lib.contains_iff a b).0 h, bit_and-le a b)

  disjoint_bit :
      (s : AllowDeny) (p i : ℕ)
      → IsWord s
      → i < 32
      → lib.contains (permission s) p ≡ true
      → lib.contains s.deny p ≡ true
      → test_bit p i ≡ test_bit 0 i
  disjoint_bit s p i w l h k = ground (
    arith,
    test_bit-zero i,
    test_bit_of_contains (permission s) p i h,
    test_bit_of_contains s.deny p i k,
    test_bit-permission s i w l,
  )

  -- A mask that the permission and the denied bits both contain is empty.
  permission-deny_disjoint :
      (s : AllowDeny) (p : Mask)
      → IsWord s
      → lib.contains (permission s) p ≡ true
      → lib.contains s.deny p ≡ true
      → p ≡ 0
  permission-deny_disjoint s p w h k =
      eq_of_test_bit 32 p 0 (contains-lt s.deny p k w.deny_word) (omega arith)
        (λ i l. disjoint_bit s p i w l h k)

  grant_exclusive :
      (s : AllowDeny) (p : Mask)
      → IsWord s
      → p ≢ 0
      → (lib.contains (permission s) p && lib.contains s.deny p) ≡ false
  grant_exclusive s p w ne = elim (Bool-cases (lib.contains (permission s) p)) [
    | inr no_grant ↦ rw no_grant
    | inl grant ↦ elim (Bool-cases (lib.contains s.deny p)) [
      | inr no_denial ↦ rw (grant, no_denial)
      | inl denial ↦ absurd (ne (permission-deny_disjoint s p w grant denial))
    ]
  ]

  -- A category never passes both tests for a mask that is not empty.
  category_exclusive :
      (s : AllowDeny) (p super : Mask) (admin : Bool)
      → IsWord s
      → p ≢ 0
      → ((admin || lib.contains (permission s) p || lib.contains (permission s) super)
          && (not admin && not (lib.contains (permission s) super) && lib.contains s.deny p))
        ≡ false
  category_exclusive s p super true w ne = refl
  category_exclusive s p super false w ne = ground (arith, grant_exclusive s p w ne)

  -- Outside the `admin` category no permission is had and denied at once, if its mask is not
  -- empty and its category holds 32-bit masks.
  pub has-denied_exclusive :
      {Json : Type 0} (s : Permissions Json) (p : Permission)
      → is_admin_category p ≡ false
      → IsWord (category s p)
      → mask p ≢ 0
      → (has s p && denied s p) ≡ false
  unfolding has denied has_emote has_role has_emote_set has_badge has_paint has_user has_ticket
      has_emote_moderation_request has_flags denied_emote denied_role denied_emote_set denied_badge
      denied_paint denied_user denied_ticket denied_emote_moderation_request denied_flags
  has-denied_exclusive s (Permission.emote p) c w ne = category_exclusive s.emote p _ _ w ne
  has-denied_exclusive s (Permission.role p) c w ne = category_exclusive s.role p _ _ w ne
  has-denied_exclusive s (Permission.emote_set p) c w ne = category_exclusive s.emote_set p _ _ w ne
  has-denied_exclusive s (Permission.badge p) c w ne = category_exclusive s.badge p _ _ w ne
  has-denied_exclusive s (Permission.paint p) c w ne = category_exclusive s.paint p _ _ w ne
  has-denied_exclusive s (Permission.user p) c w ne = category_exclusive s.user p _ _ w ne
  has-denied_exclusive s (Permission.ticket p) c w ne = category_exclusive s.ticket p _ _ w ne
  has-denied_exclusive s (Permission.emote_moderation_request p) c w ne =
      category_exclusive s.emote_moderation_request p _ _ w ne
  has-denied_exclusive s (Permission.admin p) c w ne = cc
  has-denied_exclusive s (Permission.flags p) c w ne = grant_exclusive s.flags p w ne
