-- ===== src/Permissions/Computed/Color.antt =====
-- The colour shown for a user (apps/api/src/dataloader/full_user.rs).
use mathlib.Core.List.{reverse-append}
use tv.Prelude.{
  nat_eq, ◌≡◌, refl, arith, Option, none, List, [], ◌∷◌, ◌++◌, map, reverse, keep, find_map-append,
  or_else, contains,
}
use tv.Prelude.Int.{ℤ}
use tv.Ids.{RoleId}
use tv.Permissions.Computed.{Role, held, compute_highest_role_color}

-- The last entry that is there.
abbrev pub last_some : List (Option ℤ) → Option ℤ
last_some [] = none
last_some (c ∷ cs) = or_else (last_some cs) c

module _ {Json : Type 0} (ids : List RoleId) where
  keep-append :
      (xs ys : List (Role Json))
      → keep (λ r. contains ids r.id) (xs ++ ys)
        ≡ keep (λ r. contains ids r.id) xs ++ keep (λ r. contains ids r.id) ys
  keep-append [] ys = refl
  keep-append (r ∷ xs) ys = ground (arith, keep-append xs ys)

  -- The colour is that of the last role of the list that the user holds and that has a colour, and
  -- there is none if no held role has one.
  pub compute_highest_role_color-last :
      (roles : List (Role Json))
      → compute_highest_role_color roles ids ≡ last_some (map (λ r. r.color) (held roles ids))
  unfolding compute_highest_role_color
  compute_highest_role_color-last [] = refl
  compute_highest_role_color-last (r ∷ roles) =
      let e : reverse (r ∷ roles) ≡ reverse roles ++ r ∷ [] = reverse-append (r ∷ []) roles in
      let below = keep (λ q. contains ids q.id) (reverse roles) in
      let rest = compute_highest_role_color-last roles in
      rw
        (
          e,
          keep-append (reverse roles) (r ∷ []),
          find_map-append (λ (q : Role Json). q.color) below
              (keep (λ q. contains ids q.id) (r ∷ [])),
        )
        (ground (arith, rest))
