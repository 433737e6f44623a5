-- ===== src/Permissions/Computed/Verdict.antt =====
-- The permissions computed from roles, bit by bit (apps/api/src/dataloader/full_user.rs).
use mathlib.Core.List.{map-map}
use tv.Prelude.{
  nat_eq, ℕ, ◌<◌, ◌≡◌, refl, Bool, true, false, Option, none, some, List, [], ◌∷◌, map, foldl,
  arith, if◌then◌else◌, or_else, get_or, All, contains, Bool-cases, inl, inr, ◌∙◌,
}
use tv.Prelude.Bits.{test_bit, test_bit-zero}
use tv.Ids.{RoleId}
use tv.Permissions.Bitmask.{BitmaskEnum}
use tv.Permissions.AllowDeny as Pair
use tv.Permissions.AllowDeny.{AllowDeny, permission, merge}
use tv.Permissions.AllowDeny.Bits.{IsWord, merge-IsWord, permission-merge, test_bit-permission}
use tv.Permissions.Record.{Permissions, Permission, merge_ref, default}
use tv.Permissions.Exclusion.{category}
use tv.Permissions.Computed.{Role, held, compute_permissions}

-- What one pair of masks says of a bit, if it says anything.
abbrev pub mention : AllowDeny → ℕ → Option Bool
mention a i =
    if test_bit a.deny i then some false else if test_bit a.allow i then some true else none

-- What the last pair that mentions the bit says.
abbrev pub verdict : List AllowDeny → ℕ → Option Bool
verdict [] i = none
verdict (a ∷ rest) i = or_else (verdict rest i) (mention a i)

module _ {Json : Type 0} where
  category-merge_ref :
      (s other : Permissions Json) (p : Permission)
      → category (merge_ref s other) p ≡ merge (category s p) (category other p)
  unfolding merge_ref
  category-merge_ref s other (Permission.emote p) = refl
  category-merge_ref s other _ = refl

  module _ (p : Permission) (i : ℕ) (l : i < 32) where
    merge_mention :
        (s other : Permissions Json)
        → IsWord (category s p)
        → IsWord (category other p)
        → test_bit (permission (category (merge_ref s other) p)) i
          ≡ get_or (mention (category other p) i) (test_bit (permission (category s p)) i)
    merge_mention s other w v =
        rw category-merge_ref
          (ground (arith, permission-merge (category s p) (category other p) i w v l))

    fold_verdict :
        (s : Permissions Json) (ps : List (Permissions Json))
        → IsWord (category s p)
        → All (λ q. IsWord (category q p)) ps
        → test_bit (permission (category (foldl merge_ref s ps) p)) i
          ≡ get_or (verdict (map (λ q. category q p) ps) i) (test_bit (permission (category s p)) i)
    fold_verdict s [] w ws = refl
    fold_verdict s (q ∷ ps) w ws =
        let next : IsWord (category (merge_ref s q) p) =
          rw category-merge_ref (merge-IsWord (category s p) (category q p) w ws.0) in
        ground (arith, merge_mention s q w ws.0, fold_verdict (merge_ref s q) ps next ws.1)

module _ ⦃lib : BitmaskEnum⦄ where
  default-IsWord : IsWord Pair.default
  unfolding Pair.default
  default-IsWord = omega (arith, lib.none_lem)

  default-bit : (i : ℕ) → i < 32 → test_bit (permission Pair.default) i ≡ false
  unfolding Pair.default
  default-bit i l =
      test_bit-permission Pair.default i default-IsWord l ∙ rw (lib.none_lem, test_bit-zero)

  category-default :
      (Json : Type 0) (p : Permission) → category {Json = Json} default p ≡ Pair.default
  unfolding default
  category-default Json (Permission.emote p) = refl
  category-default Json _ = refl

module _ {Json : Type 0} ⦃lib : BitmaskEnum⦄ where
  pub All-held :
      (P : Permissions Json → Type 0) (roles : List (Role Json)) (ids : List RoleId)
      → All (λ r. P r.permissions) roles
      → All P (map (λ r. r.permissions) (held roles ids))
  All-held P [] ids h = tt
  All-held P (r ∷ roles) ids h = elim (Bool-cases (contains ids r.id)) [
    | inl mine ↦ rw (mine, All) (h.0, All-held P roles ids h.1)
    | inr other ↦ rw (other, All) (All-held P roles ids h.1)
  ]

  -- Of the roles that the user holds, the last of the list that mentions a bit of a category
  -- decides it, a denial before an allowance, and a bit that none mentions is off, if the roles'
  -- masks of the category are 32-bit patterns.
  pub compute_permissions-verdict :
      (roles : List (Role Json)) (ids : List RoleId) (p : Permission) (i : ℕ)
      → i < 32
      → All (λ r. IsWord (category r.permissions p)) roles
      → test_bit (permission (category (compute_permissions roles ids) p)) i
        ≡ get_or (verdict (map (λ r. category r.permissions p) (held roles ids)) i) false
  unfolding compute_permissions
  compute_permissions-verdict roles ids p i l h =
      let w : IsWord (category {Json = Json} default p) =
        rw (category-default Json p) default-IsWord in
      let off : test_bit (permission (category {Json = Json} default p)) i ≡ false =
        rw (category-default Json p) (default-bit i l) in
      fold_verdict p i l default (map (λ r. r.permissions) (held roles ids)) w
        (All-held (λ q. IsWord (category q p)) roles ids h)
      ∙ simp (map-map, off)
