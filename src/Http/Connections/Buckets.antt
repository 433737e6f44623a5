-- ===== src/Http/Connections/Buckets.antt =====
-- What the loops of `acquire` and `release` do to the count of a range
-- (shared/src/http/ratelimit.rs).
use tv.Prelude.{
  ℕ, ◌+◌, ◌-◌, ◌%◌, ◌^◌, ◌<◌, ◌≡◌, ◌≢◌, false, some, List, [], ◌∷◌, arith, Eq, ◌==◌, if◌then◌else◌,
  All, contains, count, Distinct, Bool-cases, inl, inr,
}
use tv.Prelude.HashMap.{
  HashMap, get, insert, remove, IsUnique, get-insert, get-remove, IsUnique-insert, IsUnique-remove,
}
use tv.Http.Connections.{tally, bump, release_one, release_all}

module _ {ℓ} {K : Type ℓ} ⦃e : Eq K⦄ where
  -- No key stands twice, and no count is 0.
  pub record IsClean (m : HashMap K ℕ) : Type ℓ where
    pub unique : IsUnique m
    pub positive : (k : K) → get m k ≢ some 0

  tally-insert :
      (m : HashMap K ℕ) (k j : K) (v : ℕ)
      → tally (insert m k v) j ≡ (if e.beq k j then v else tally m j)
  tally-insert m k j v = ground (arith, get-insert m k j v)

  -- There is room for one more at each of the keys.
  abbrev pub HasRoom : HashMap K ℕ → List K → Type 0
  HasRoom m ks = All (λ k. tally m k + 1 < 2 ^ 64) ks

  HasRoom-insert :
      (m : HashMap K ℕ) (k : K) (v : ℕ) (ks : List K)
      → contains ks k ≡ false
      → HasRoom m ks
      → HasRoom (insert m k v) ks
  HasRoom-insert m k v [] c h = tt
  HasRoom-insert m k v (x ∷ ks) c h = (
    ground (arith, e.beq_iff k x, e.beq_iff x k, tally-insert m k x v),
    HasRoom-insert m k v ks (ground arith) h.1,
  )

  -- The loop of `acquire` adds one at each key.
  pub tally-bump :
      (m : HashMap K ℕ) (ks : List K) (j : K)
      → Distinct ks
      → HasRoom m ks
      → tally (bump m ks) j ≡ tally m j + count j ks
  unfolding bump
  tally-bump m [] j d h = omega arith
  tally-bump m (k ∷ ks) j d h =
      let v = (tally m k + 1) % 2 ^ 64 in
      ground (
        arith,
        e.beq_iff k j,
        tally-insert m k j v,
        tally-bump (insert m k v) ks j d.1 (HasRoom-insert m k v ks d.0 h.1),
      )

  IsClean-insert : (m : HashMap K ℕ) (k : K) (v : ℕ) → v ≢ 0 → IsClean m → IsClean (insert m k v)
  IsClean-insert m k v ne c = record {
    unique = IsUnique-insert m k v c.unique;
    positive = λ j h. ground (arith, get-insert m k j v, c.positive j);
  }

  pub IsClean-bump :
      (m : HashMap K ℕ) (ks : List K) → Distinct ks → HasRoom m ks → IsClean m → IsClean (bump m ks)
  unfolding bump
  IsClean-bump m [] d h c = c
  IsClean-bump m (k ∷ ks) d h c =
      let v = (tally m k + 1) % 2 ^ 64 in
      IsClean-bump (insert m k v) ks d.1 (HasRoom-insert m k v ks d.0 h.1)
        (IsClean-insert m k v (omega arith) c)

  IsClean-remove : (m : HashMap K ℕ) (k : K) → IsClean m → IsClean (remove m k)
  IsClean-remove m k c = record {
    unique = IsUnique-remove m k c.unique;
    positive = λ j h. ground (arith, get-remove m k j c.unique, c.positive j);
  }

  -- A count that is a `u64`, and at least 1.
  abbrev pub IsHeld : HashMap K ℕ → K → Type 0
  IsHeld m k = (0 < tally m k) × (tally m k < 2 ^ 64)

  -- The two outcomes of a round at a key that is held.
  release_one_last : (m : HashMap K ℕ) (k : K) → tally m k ≡ 1 → release_one m k ≡ remove m k
  unfolding release_one
  release_one_last m k h = ground arith

  release_one_more :
      (m : HashMap K ℕ) (k : K)
      → 1 < tally m k
      → tally m k < 2 ^ 64
      → release_one m k ≡ insert m k ((tally m k + 2 ^ 64 - 1) % 2 ^ 64)
  unfolding release_one
  release_one_more m k h l = ground arith

  release_one-IsClean :
      (m : HashMap K ℕ) (k : K) → IsClean m → IsHeld m k → IsClean (release_one m k)
  release_one-IsClean m k c h = elim (Bool-cases (tally m k == 1)) [
    | inl last ↦ rw (release_one_last m k (ground arith)) (IsClean-remove m k c)
    | inr more ↦
        rw (release_one_more m k (ground arith) h.1) (IsClean-insert m k _ (ground arith) c)
  ]

  tally-release_one :
      (m : HashMap K ℕ) (k j : K)
      → IsClean m
      → IsHeld m k
      → tally (release_one m k) j ≡ (if e.beq k j then tally m j - 1 else tally m j)
  unfolding release_one
  tally-release_one m k j c h = ground (
    arith,
    e.beq_iff k j,
    get-remove m k j c.unique,
    get-insert m k j ((tally m k + 2 ^ 64 - 1) % 2 ^ 64),
  )

  IsHeld-release_one :
      (m : HashMap K ℕ) (k : K) (ks : List K)
      → contains ks k ≡ false
      → IsClean m
      → IsHeld m k
      → All (IsHeld m) ks
      → All (IsHeld (release_one m k)) ks
  IsHeld-release_one m k [] d c h hs = tt
  IsHeld-release_one m k (x ∷ ks) d c h hs = (
    ground (arith, e.beq_iff k x, e.beq_iff x k, tally-release_one m k x c h),
    IsHeld-release_one m k ks (ground arith) c h hs.1,
  )

  -- The loop of `release` takes one off each key, never below 0, and leaves no count of 0.
  pub tally-release_all :
      (m : HashMap K ℕ) (ks : List K) (j : K)
      → Distinct ks
      → IsClean m
      → All (IsHeld m) ks
      → tally (release_all m ks) j + count j ks ≡ tally m j
  unfolding release_all
  tally-release_all m [] j d c h = omega arith
  tally-release_all m (k ∷ ks) j d c h = ground (
    arith,
    e.beq_iff k j,
    tally-release_one m k j c h.0,
    tally-release_all (release_one m k) ks j d.1 (release_one-IsClean m k c h.0)
        (IsHeld-release_one m k ks d.0 c h.0 h.1),
  )

  pub IsClean-release_all :
      (m : HashMap K ℕ) (ks : List K)
      → Distinct ks
      → IsClean m
      → All (IsHeld m) ks
      → IsClean (release_all m ks)
  unfolding release_all
  IsClean-release_all m [] d c h = c
  IsClean-release_all m (k ∷ ks) d c h =
      IsClean-release_all (release_one m k) ks d.1 (release_one-IsClean m k c h.0)
        (IsHeld-release_one m k ks d.0 c h.0 h.1)
