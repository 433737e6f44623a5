-- ===== src/Permissions/Computed/Rank.antt =====
-- The highest rank among a user's roles (apps/api/src/dataloader/full_user.rs).
use mathlib.Core.List.{Memᴰ}
use tv.Prelude.{
  nat_eq, ◌≡◌, refl, ◌⊎◌, true, false, Option, none, some, List, [], ◌∷◌, ◌++◌, reverse,
  reverse-append, arith, if◌then◌else◌, or_else, get_or, All, find_map, find_map-append, contains,
  Bool-cases, inl, inr, ap, sym, ◌∙◌,
}
use tv.Prelude.Int.{ℤ, negsuc, ◌≤ℤ◌}
use tv.Ids.{RoleId}
use tv.Permissions.Computed.{Role, compute_highest_role_rank}

module _ {Json : Type 0} (ids : List RoleId) where
  abbrev rank_if_held : Role Json → Option ℤ
  rank_if_held r = if contains ids r.id then some r.rank else none

  -- `sort_by_key(|r| r.rank)`: no role ranks above one that stands after it.
  abbrev pub IsSorted : List (Role Json) → Type 0
  IsSorted [] = Unit
  IsSorted (r ∷ roles) = All (λ q. r.rank ≤ℤ q.rank) roles × IsSorted roles

  highest : List (Role Json) → Option ℤ
  highest roles = find_map rank_if_held (reverse roles)

  highest-cons :
      (r : Role Json) (roles : List (Role Json))
      → highest (r ∷ roles) ≡ or_else (highest roles) (rank_if_held r)
  unfolding highest
  highest-cons r roles =
      let e : reverse (r ∷ roles) ≡ reverse roles ++ r ∷ [] = reverse-append (r ∷ []) roles in
      rw e (find_map-append rank_if_held (reverse roles) (r ∷ []) ∙ ground arith)

  abbrev pub IsHeld : Role Json → Type 0
  IsHeld r = contains ids r.id ≡ true

  -- The rank found is that of a held role, and none is found only if no role is held.
  abbrev Found : Option ℤ → List (Role Json) → Type 0
  Found best roles =
      ((r : Role Json) × Memᴰ r roles × IsHeld r × (best ≡ some r.rank))
      ⊎ (best ≡ none) × All (λ q. contains ids q.id ≡ false) roles

  highest-Found : (roles : List (Role Json)) → Found (highest roles) roles
  unfolding highest
  highest-Found [] = inr (refl, tt)
  highest-Found (r ∷ roles) = rw highest-cons (elim (highest-Found roles) [
    | inl (q, there, mine, e) ↦ inl (q, Memᴰ.tail there, mine, rw e)
    | inr (e, others) ↦ elim (Bool-cases (contains ids r.id)) [
      | inl mine ↦ inl (r, Memᴰ.head refl, mine, rw (e, mine))
      | inr other ↦ inr (rw (e, other), (other, others))
    ]
  ])

  highest_lem :
      (roles : List (Role Json))
      → compute_highest_role_rank roles ids ≡ get_or (highest roles) (negsuc 0)
  unfolding highest compute_highest_role_rank
  highest_lem roles = refl

  -- A rank found among later roles is at least that of a role that none of them ranks below.
  found_above :
      (low best : ℤ) (roles : List (Role Json))
      → All (λ q. low ≤ℤ q.rank) roles
      → highest roles ≡ some best
      → low ≤ℤ best
  unfolding highest
  found_above low best [] h e = cc
  found_above low best (r ∷ roles) h e =
      ground (arith, highest-cons r roles, found_above low best roles h.1)

  none_above :
      (best : ℤ) (roles : List (Role Json))
      → All (λ q. contains ids q.id ≡ false) roles
      → All (λ q. IsHeld q → q.rank ≤ℤ best) roles
  none_above best [] h = tt
  none_above best (r ∷ roles) h = ((λ mine. cc), none_above best roles h.1)

  highest-bounds :
      (best : ℤ) (roles : List (Role Json))
      → IsSorted roles
      → highest roles ≡ some best
      → All (λ q. IsHeld q → q.rank ≤ℤ best) roles
  highest-bounds best [] s e = tt
  highest-bounds best (r ∷ roles) s e = elim (highest-Found roles) [
    | inl (q, there, mine, f) ↦
        let g : highest roles ≡ some best = ground (arith, highest-cons r roles) in
        ((λ held. found_above r.rank best roles s.0 g), highest-bounds best roles s.1 g)
    | inr (f, others) ↦
        ((λ held. ground (arith, highest-cons r roles)), none_above best roles others)
  ]

  abbrev pub IsHighest : ℤ → List (Role Json) → Type 0
  IsHighest top roles =
      All (λ q. IsHeld q → q.rank ≤ℤ top) roles
      × (((r : Role Json) × Memᴰ r roles × IsHeld r × (top ≡ r.rank))
          ⊎ (top ≡ negsuc 0) × All (λ q. contains ids q.id ≡ false) roles)

  highest-IsHighest :
      (top : ℤ) (roles : List (Role Json))
      → IsSorted roles
      → top ≡ get_or (highest roles) (negsuc 0)
      → IsHighest top roles
  highest-IsHighest top roles s c = elim (highest-Found roles) [
    | inl (r, there, mine, e) ↦
        let t : top ≡ r.rank = c ∙ rw e in
        (highest-bounds top roles s (e ∙ ap some (sym t)), inl (r, there, mine, t))
    | inr (e, others) ↦ (none_above top roles others, inr (c ∙ rw e, others))
  ]

  -- With the roles sorted by rank, `compute_highest_role_rank` is at least the rank of every role
  -- that the user holds, and it is the rank of one of them, or -1 if the user holds none.
  pub compute_highest_role_rank-max :
      (roles : List (Role Json))
      → IsSorted roles
      → IsHighest (compute_highest_role_rank roles ids) roles
  compute_highest_role_rank-max roles s =
      highest-IsHighest (compute_highest_role_rank roles ids) roles s (highest_lem roles)
