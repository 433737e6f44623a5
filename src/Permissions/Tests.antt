-- ===== src/Permissions/Tests.antt =====
-- The permission theorems at concrete masks and roles, with the crate's operations written out.
use tv.Prelude.{
  ℕ, zero, suc, ◌≡◌, true, false, ◌&&◌, arith, none, List, [], ◌∷◌, inr, if◌then◌else◌, map, get_or,
  nat_eq, refl,
}
use tv.Prelude.Bits.{test_bit, bit_not, test_bit-zero}
use tv.Prelude.Int.{ℤ, pos, negsuc}
use tv.Prelude.Text.{bytes}
use tv.Permissions.Bitmask.{UserPermission, user_bits, AdminPermission, admin_bits}
use tv.Permissions.Crate.{crate}
use tv.Permissions.AllowDeny as Pair
use tv.Permissions.AllowDeny.{AllowDeny, permission}
use tv.Permissions.AllowDeny.Bits.{IsDisjoint, permission-merge, merge-IsDisjoint}
use tv.Permissions.Record.{Permissions, Permission, default, allow, deny}
use tv.Permissions.Checks.{
  has, denied, is_admin, is_super_admin, is_superset_of, has_emote, has_role, has_emote_set,
  has_badge, has_paint, has_user, has_ticket, has_emote_moderation_request, has_admin,
}
use tv.Permissions.Exclusion.{has-denied_exclusive}
use tv.Permissions.Superset.{is_superset_of-has, is_superset_of-escalates}
use tv.Permissions.Computed.{Role, held, compute_permissions, compute_highest_role_rank}
use tv.Permissions.Computed.Verdict.{verdict, compute_permissions-verdict}
use tv.Permissions.Computed.Rank.{IsHighest, compute_highest_role_rank-max}

abbrev base : AllowDeny
base = record { allow = 6; deny = 8 }

abbrev later : AllowDeny
later = record { allow = 8; deny = 2 }

permission-merge_example :
    test_bit (permission (Pair.merge base later)) 1
    ≡ (if test_bit 2 1 then false else if test_bit 8 1 then true else test_bit (permission base) 1)
permission-merge_example = permission-merge base later 1 (omega arith) (omega arith) (omega arith)

bits_disjoint : (i : ℕ) → (test_bit 6 i && test_bit 8 i) ≡ false
bits_disjoint zero = refl
bits_disjoint (suc zero) = refl
bits_disjoint (suc (suc zero)) = refl
bits_disjoint (suc (suc (suc zero))) = refl
bits_disjoint (suc (suc (suc (suc i)))) = rw test_bit-zero

merge-IsDisjoint_example : IsDisjoint (Pair.merge base later)
merge-IsDisjoint_example = merge-IsDisjoint base later (λ i l. bits_disjoint i) (omega arith)

-- A user who may log in and has lost `ManageAny`.
abbrev member : Permissions ℕ
member =
    deny (allow default (Permission.user (user_bits UserPermission.login)))
      (Permission.user (user_bits UserPermission.manage_any))

has-denied_exclusive_example :
    (has member (Permission.user 128) && denied member (Permission.user 128)) ≡ false
unfolding allow deny Pair.allow Pair.deny default Pair.default bit_not
has-denied_exclusive_example =
    has-denied_exclusive member (Permission.user 128) refl (omega arith) (omega arith)

-- An administrator who is no super administrator, and a role that allows both.
abbrev administrator : Permissions ℕ
administrator = allow default (Permission.admin (admin_bits AdminPermission.admin))

abbrev both : Permissions ℕ
both = allow default (Permission.admin 3)

is_superset_of-escalates_example :
    (is_superset_of administrator both ≡ true)
    × (has administrator (Permission.admin (admin_bits AdminPermission.super_admin)) ≡ false)
unfolding allow Pair.allow default Pair.default bit_not is_admin is_super_admin permission
is_superset_of-escalates_example =
    is_superset_of-escalates administrator both refl refl (λ h. omega arith)

-- The moderator may hand out a role that may moderate, and so may moderate.
abbrev moderator : Permissions ℕ
moderator = allow default (Permission.user 1026)

abbrev helper : Permissions ℕ
helper = allow default (Permission.user 1024)

is_superset_of-has_example : has moderator (Permission.user 1024) ≡ true
unfolding allow Pair.allow default Pair.default bit_not is_admin is_super_admin permission
    is_superset_of has has_emote has_role has_emote_set has_badge has_paint has_user has_ticket
    has_emote_moderation_request has_admin
is_superset_of-has_example =
    is_superset_of-has moderator helper (Permission.user 1024) refl (omega arith) refl
      (inr (λ h. cc)) refl

abbrev role_of : ℕ → ℤ → Permissions ℕ → Role ℕ
role_of id rank permissions = record {
  id = id;
  name = bytes "role";
  description = none;
  tags = [];
  created_by = 1;
  permissions = permissions;
  hoist = false;
  color = none;
  rank = rank;
  applied_rank = none;
  updated_at = pos 0;
  search_updated_at = none;
}

abbrev roles : List (Role ℕ)
roles = role_of 1 (negsuc 4) helper ∷ role_of 2 (pos 0) member ∷ role_of 3 (pos 7) moderator ∷ []

compute_permissions-verdict_example :
    test_bit (permission (compute_permissions roles (1 ∷ 2 ∷ [])).user) 10
    ≡ get_or (verdict (map (λ r. r.permissions.user) (held roles (1 ∷ 2 ∷ []))) 10) false
unfolding allow deny Pair.allow Pair.deny default Pair.default bit_not
compute_permissions-verdict_example =
    compute_permissions-verdict roles (1 ∷ 2 ∷ []) (Permission.user 0) 10 (omega arith)
      (omega arith)

compute_highest_role_rank-max_example :
    IsHighest (2 ∷ 1 ∷ []) (compute_highest_role_rank roles (2 ∷ 1 ∷ [])) roles
compute_highest_role_rank-max_example =
    compute_highest_role_rank-max (2 ∷ 1 ∷ []) roles (omega arith)
