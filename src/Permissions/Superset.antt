-- ===== src/Permissions/Superset.antt =====
-- What `is_superset_of` (shared/src/database/types/role/permissions.rs) guarantees of a role that
-- passes it, and what it lets through.
use Prim.Native.Nat.{bit_and}
use tv.Prelude.{
  ℕ, ◌^◌, ◌<◌, ◌≡◌, refl, ap, ◌≢◌, Bool, true, false, ◌||◌, arith, Bool-cases, ◌⊎◌, inl, inr,
}
use tv.Prelude.Bits.{test_bit, test_bit-bit_and, bit_and-le, eq_of_test_bit, test_bit-zero}
use tv.Permissions.Bitmask.{Mask, BitmaskEnum, AdminPermission, admin_bits}
use tv.Permissions.AllowDeny.{AllowDeny, permission}
use tv.Permissions.AllowDeny.Bits.{IsWord, minus-lt}
use tv.Permissions.Record.{Permissions, Permission}
use tv.Permissions.Exclusion.{category, mask, test_bit_of_contains, contains-lt}
use tv.Permissions.Checks.{
  has, is_admin, is_super_admin, is_superset_of, has_emote, has_role, has_emote_set, has_badge,
  has_paint, has_user, has_ticket, has_emote_moderation_request, has_admin,
}

abbrev pub is_flags_category : Permission → Bool
is_flags_category (Permission.flags p) = true
is_flags_category _ = false

module _ ⦃lib : BitmaskEnum⦄ where
  pub contains_of_test_bit :
      (a b : ℕ)
      → a < 2 ^ 32
      → b < 2 ^ 32
      → ((i : ℕ) → i < 32 → test_bit b i ≡ true → test_bit a i ≡ true)
      → lib.contains a b ≡ true
  contains_of_test_bit a b h k sub = (lib.contains_iff a b).1 (
      eq_of_test_bit 32 (bit_and a b) b (omega (arith, bit_and-le a b)) k
        (λ i l. ground (arith, test_bit-bit_and a b i, sub i l)))

  -- `contains` is transitive on 32-bit masks.
  pub contains_trans :
      (a b c : ℕ)
      → a < 2 ^ 32
      → lib.contains a b ≡ true
      → lib.contains b c ≡ true
      → lib.contains a c ≡ true
  contains_trans a b c h p q =
      let kb : b < 2 ^ 32 = contains-lt a b p h in
      contains_of_test_bit a c h (contains-lt b c q kb)
        (λ i l e. test_bit_of_contains a b i p (test_bit_of_contains b c i q e))

  permission-lt : (s : AllowDeny) → IsWord s → permission s < 2 ^ 32
  unfolding permission
  permission-lt s w = minus-lt s.allow s.deny w.allow_word

  -- The test of one category passes on to every part of the mask.
  category_mono :
      (s : AllowDeny) (m p super : Mask) (admin : Bool)
      → IsWord s
      → lib.contains m p ≡ true
      → (admin || lib.contains (permission s) m || lib.contains (permission s) super) ≡ true
      → (admin || lib.contains (permission s) p || lib.contains (permission s) super) ≡ true
  category_mono s m p super admin w h e =
      ground (arith, contains_trans (permission s) m p (permission-lt s w))

  intersects_of_test_bit :
      (a b i : ℕ) → test_bit a i ≡ true → test_bit b i ≡ true → lib.intersects a b ≡ true
  intersects_of_test_bit a b i h k = (lib.intersects_iff a b).1 (λ z. shared z)
    where
      shared : bit_and a b ≡ 0 → ⊥
      shared z =
          let e : test_bit (bit_and a b) i ≡ test_bit 0 i = ap (λ m. test_bit m i) z in
          ground (arith, test_bit-bit_and a b i, test_bit-zero i)

module _ {Json : Type 0} ⦃lib : BitmaskEnum⦄ (s other : Permissions Json) where
  pub is_admin_of_super : is_super_admin s ≡ true → is_admin s ≡ true
  unfolding is_super_admin is_admin
  is_admin_of_super h =
      intersects_of_test_bit (permission s.admin) 3 1
        (test_bit_of_contains (permission s.admin) 2 1 h refl) refl

  -- A super administrator has every permission outside the `flags` category.
  has_of_super :
      (p : Permission)
      → is_super_admin s ≡ true
      → is_admin s ≡ true
      → is_flags_category p ≡ false
      → has s p ≡ true
  unfolding has has_emote has_role has_emote_set has_badge has_paint has_user has_ticket
      has_emote_moderation_request has_admin
  has_of_super (Permission.flags p) h a c = cc
  has_of_super (Permission.admin p) h a c = ground arith
  has_of_super (Permission.emote p) h a c = ground arith
  has_of_super _ h a c = ground arith

  -- The nine tests that a role passes when the actor is no super administrator.
  covered :
      is_superset_of s other ≡ true
      → is_super_admin s ≡ false
      → (has s (Permission.badge other.badge.allow) ≡ true)
        × (has s (Permission.paint other.paint.allow) ≡ true)
        × (has s (Permission.emote_set other.emote_set.allow) ≡ true)
        × (has s (Permission.emote other.emote.allow) ≡ true)
        × (has s (Permission.role other.role.allow) ≡ true)
        × (has s (Permission.user other.user.allow) ≡ true)
        × (has s (Permission.ticket other.ticket.allow) ≡ true)
        × (has s (Permission.admin other.admin.allow) ≡ true)
        × (has s (Permission.emote_moderation_request other.emote_moderation_request.allow) ≡ true)
  unfolding is_superset_of
  covered h n = ground arith

  has_admin_mono :
      (m p : Mask)
      → is_super_admin s ≡ false
      → IsWord s.admin
      → p ≢ admin_bits AdminPermission.super_admin
      → lib.contains m p ≡ true
      → has_admin s m ≡ true
      → has_admin s p ≡ true
  unfolding has_admin
  has_admin_mono m p n w ne k h =
      ground (arith, contains_trans (permission s.admin) m p (permission-lt s.admin w))

  has_of_covered :
      (p : Permission)
      → is_superset_of s other ≡ true
      → is_super_admin s ≡ false
      → IsWord (category s p)
      → is_flags_category p ≡ false
      → p ≢ Permission.admin (admin_bits AdminPermission.super_admin)
      → lib.contains (category other p).allow (mask p) ≡ true
      → has s p ≡ true
  unfolding has has_emote has_role has_emote_set has_badge has_paint has_user has_ticket
      has_emote_moderation_request
  has_of_covered (Permission.emote p) h n w c x k =
      category_mono s.emote other.emote.allow p _ _ w k (covered h n).3
  has_of_covered (Permission.role p) h n w c x k =
      category_mono s.role other.role.allow p _ _ w k (covered h n).4
  has_of_covered (Permission.emote_set p) h n w c x k =
      category_mono s.emote_set other.emote_set.allow p _ _ w k (covered h n).2
  has_of_covered (Permission.badge p) h n w c x k =
      category_mono s.badge other.badge.allow p _ _ w k (covered h n).0
  has_of_covered (Permission.paint p) h n w c x k =
      category_mono s.paint other.paint.allow p _ _ w k (covered h n).1
  has_of_covered (Permission.user p) h n w c x k =
      category_mono s.user other.user.allow p _ _ w k (covered h n).5
  has_of_covered (Permission.ticket p) h n w c x k =
      category_mono s.ticket other.ticket.allow p _ _ w k (covered h n).6
  has_of_covered (Permission.emote_moderation_request p) h n w c x k =
      category_mono s.emote_moderation_request other.emote_moderation_request.allow p _ _ w k
        (covered h n).8
  has_of_covered (Permission.admin p) h n w c x k =
      has_admin_mono other.admin.allow p n w (λ e. x (ap Permission.admin e)) k (covered h n).7
  has_of_covered (Permission.flags p) h n w c x k = cc

  -- A role that passes `is_superset_of` grants nothing that the actor lacks: the actor has every
  -- permission, outside the `flags` category, that the role's allowed mask of its category
  -- contains. The bare `SuperAdmin` mask is excepted unless the actor is a super administrator;
  -- the actor's masks of that category are 32-bit patterns.
  pub is_superset_of-has :
      (p : Permission)
      → is_superset_of s other ≡ true
      → IsWord (category s p)
      → is_flags_category p ≡ false
      → ((is_super_admin s ≡ true)
          ⊎ (p ≢ Permission.admin (admin_bits AdminPermission.super_admin)))
      → lib.contains (category other p).allow (mask p) ≡ true
      → has s p ≡ true
  is_superset_of-has p h w c (inl super) k = has_of_super p super (is_admin_of_super super) c
  is_superset_of-has p h w c (inr ne) k = elim (Bool-cases (is_super_admin s)) [
    | inl super ↦ has_of_super p super (is_admin_of_super super) c
    | inr n ↦ has_of_covered p h n w c ne k
  ]

  -- An administrator who is no super administrator passes `is_superset_of` for every role whose
  -- allowed `admin` mask is not the bare `SuperAdmin` bit, also if it allows `SuperAdmin` beside
  -- another bit; the actor has no `SuperAdmin` permission.
  pub is_superset_of-escalates :
      is_admin s ≡ true
      → is_super_admin s ≡ false
      → other.admin.allow ≢ admin_bits AdminPermission.super_admin
      → (is_superset_of s other ≡ true)
        × (has s (Permission.admin (admin_bits AdminPermission.super_admin)) ≡ false)
  unfolding is_superset_of has has_emote has_role has_emote_set has_badge has_paint has_user
      has_ticket has_emote_moderation_request has_admin
  is_superset_of-escalates a n ne = (ground arith, ground arith)
