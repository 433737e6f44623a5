-- ===== src/Http/Connections/Worlds.antt =====
-- The limiter over time (shared/src/http/ratelimit.rs): connections come, are refused or get a
-- guard, and guards are dropped in any order. The mutex makes each step whole.
use tv.Prelude.{
  ℕ, ◌+◌, ◌%◌, ◌^◌, ◌<◌, ◌≤◌, ◌≡◌, refl, ap, ◌∙◌, Bool, true, false, ◌⊎◌, none, some, List, [], ◌∷◌,
  ◌++◌, map, any, arith, Eq, ltb, if◌then◌else◌, All, count, Distinct, count-contains, Bool-cases,
  inl, inr,
}
use tv.Prelude.HashMap.{HashMap}
use tv.Http.Connections.{
  IpAddr, IpNets, RateLimiter, RateLimitDropGuard, Limit, LimitType, limit_type_eq, tally, bump,
  get_limits, ranges, release, drop_guard, acquire, to_canonical,
}
use tv.Http.Connections.Buckets.{
  IsClean, HasRoom, IsHeld, tally-bump, IsClean-bump, tally-release_all, IsClean-release_all,
}

-- What a failed search says of every element.
any-false {ℓ} :
    {A : Type ℓ} (p : A → Bool) (xs : List A) → any p xs ≡ false → All (λ x. p x ≡ false) xs
any-false p [] h = tt
any-false p (x ∷ xs) h = (ground arith, any-false p xs (ground arith))

module _ (nets : IpNets) (s : RateLimiter nets) where
  instance abbrev pub keys : Eq (LimitType nets)
  keys = limit_type_eq nets

  abbrev pub Buckets : Type 0
  Buckets = HashMap (LimitType nets) ℕ

  -- No address is counted twice in one bucket, and limits are less than the greatest `u64`: at that
  -- limit the sum in `acquire` wraps to 0, and the connection is let in.
  pub record IsWellFormed : Type 0 where
    pub distinct : (ip : IpAddr) → Distinct (ranges nets s ip)
    pub word : (ip : IpAddr) → All (λ l. l.connections + 1 < 2 ^ 64) (get_limits nets s ip)

  -- What `acquire` did when it let a connection in.
  abbrev pub Accepted : Buckets → RateLimitDropGuard nets → Buckets → Type 0
  Accepted m g m' =
      (g.limited ≡ false) × (m' ≡ m)
      ⊎ (g.limited ≡ true)
        × (m' ≡ bump m (ranges nets s g.ip))
        × All (λ l. (tally m l.range + 1) % 2 ^ 64 ≤ l.connections) (get_limits nets s g.ip)

  room_of_false :
      (m : Buckets) (limits : List (Limit nets))
      → any (λ l. ltb l.connections ((tally m l.range + 1) % 2 ^ 64)) limits ≡ false
      → All (λ l. (tally m l.range + 1) % 2 ^ 64 ≤ l.connections) limits
  room_of_false m [] h = tt
  room_of_false m (l ∷ limits) h = (ground arith, room_of_false m limits (ground arith))

  pub acquire-Accepted :
      (ip : IpAddr) (m : Buckets) (g : RateLimitDropGuard nets) (m' : Buckets)
      → acquire nets s ip m ≡ some (g, m')
      → Accepted m g m'
  unfolding acquire
  acquire-Accepted ip m g m' e =
      ground (arith, room_of_false m (get_limits nets s (to_canonical ip)))

  -- The keys that a guard counts in, and how many guards count in a key.
  abbrev pub charges : RateLimitDropGuard nets → List (LimitType nets)
  charges g = if g.limited then ranges nets s g.ip else []

  abbrev pub charged : LimitType nets → List (RateLimitDropGuard nets) → ℕ
  charged k [] = 0
  charged k (g ∷ guards) = count k (charges g) + charged k guards

  charged-append :
      (k : LimitType nets) (a b : List (RateLimitDropGuard nets))
      → charged k (a ++ b) ≡ charged k a + charged k b
  charged-append k [] b = omega arith
  charged-append k (g ∷ a) b = omega (arith, charged-append k a b)

  pub record World : Type 0 where
    pub buckets : Buckets
    pub guards : List (RateLimitDropGuard nets)

  abbrev pub start : World
  start = record { buckets = []; guards = [] }

  pub data Step (w : World) : World → Type 0 where
    accept :
        (ip : IpAddr) (g : RateLimitDropGuard nets) (m : Buckets)
        → acquire nets s ip w.buckets ≡ some (g, m)
        → Step w (record { buckets = m; guards = g ∷ w.guards })
    refuse : (ip : IpAddr) → acquire nets s ip w.buckets ≡ none → Step w w
    finish :
        (before : List (RateLimitDropGuard nets)) (g : RateLimitDropGuard nets)
        (after : List (RateLimitDropGuard nets))
        → w.guards ≡ before ++ g ∷ after
        → Step w (record { buckets = drop_guard nets s g w.buckets; guards = before ++ after })

  pub data Reach : World → Type 0 where
    here : Reach start
    next : {w v : World} → Reach w → Step w v → Reach v

  pub record Inv (w : World) : Type 0 where
    pub clean : IsClean w.buckets
    pub small : (k : LimitType nets) → tally w.buckets k + 1 < 2 ^ 64
    pub conserved : (k : LimitType nets) → tally w.buckets k ≡ charged k w.guards

  -- What the test of `acquire` says of a count that has not wrapped.
  pub unwrapped_limits :
      (m : Buckets) (limits : List (Limit nets))
      → ((k : LimitType nets) → tally m k + 1 < 2 ^ 64)
      → All (λ l. (tally m l.range + 1) % 2 ^ 64 ≤ l.connections) limits
      → All (λ l. tally m l.range + 1 ≤ l.connections) limits
  unwrapped_limits m [] small h = tt
  unwrapped_limits m (l ∷ limits) small h =
      (omega (arith, small l.range, h.0), unwrapped_limits m limits small h.1)

  -- Room for one more beside the new connection, which every limit leaves.
  abbrev Spare : Buckets → List (LimitType nets) → Type 0
  Spare m ks = All (λ k. tally m k + 2 < 2 ^ 64) ks

  Spare-of_limits :
      (m : Buckets) (limits : List (Limit nets))
      → All (λ l. l.connections + 1 < 2 ^ 64) limits
      → All (λ l. tally m l.range + 1 ≤ l.connections) limits
      → Spare m (map (λ l. l.range) limits)
  Spare-of_limits m [] h k = tt
  Spare-of_limits m (l ∷ limits) h k = (omega arith, Spare-of_limits m limits h.1 k.1)

  pub HasRoom-of_small :
      (m : Buckets) (ks : List (LimitType nets))
      → ((k : LimitType nets) → tally m k + 1 < 2 ^ 64)
      → HasRoom m ks
  HasRoom-of_small m [] small = tt
  HasRoom-of_small m (k ∷ ks) small = (small k, HasRoom-of_small m ks small)

  ranges_spare :
      (m : Buckets) (ip : IpAddr)
      → ((k : LimitType nets) → tally m k + 1 < 2 ^ 64)
      → All (λ l. l.connections + 1 < 2 ^ 64) (get_limits nets s ip)
      → All (λ l. (tally m l.range + 1) % 2 ^ 64 ≤ l.connections) (get_limits nets s ip)
      → Spare m (ranges nets s ip)
  unfolding ranges
  ranges_spare m ip small h k =
      Spare-of_limits m (get_limits nets s ip) h (unwrapped_limits m (get_limits nets s ip) small k)

  count_room :
      (m : Buckets) (ks : List (LimitType nets)) (j : LimitType nets)
      → Distinct ks
      → Spare m ks
      → tally m j + 1 < 2 ^ 64
      → tally m j + count j ks + 1 < 2 ^ 64
  count_room m [] j d h l = omega arith
  count_room m (k ∷ ks) j d h l =
      ground (arith, keys.beq_iff k j, count-contains ks k d.0, count_room m ks j d.1 h.1 l)

  IsHeld-of_count :
      (m : Buckets) (ks : List (LimitType nets))
      → ((k : LimitType nets) → tally m k + 1 < 2 ^ 64)
      → ((k : LimitType nets) → count k ks ≤ tally m k)
      → All (IsHeld m) ks
  IsHeld-of_count m [] l h = tt
  IsHeld-of_count m (k ∷ ks) l h = (
    (ground (arith, keys.beq_iff k k, h k), omega (arith, l k)),
    IsHeld-of_count m ks l (λ j. ground (arith, h j)),
  )

  module _ (wf : IsWellFormed) where
    Accepted-Inv :
        (w : World) (g : RateLimitDropGuard nets) (m : Buckets)
        → Inv w
        → Accepted w.buckets g m
        → Inv (record { buckets = m; guards = g ∷ w.guards })
    Accepted-Inv w g m v (inl (unlimited, same)) = rw same (record {
      clean = v.clean;
      small = v.small;
      conserved = λ k. rw unlimited (v.conserved k ∙ omega arith);
    })
    Accepted-Inv w g m v (inr (limited, e, room)) =
        let ks = ranges nets s g.ip in
        let free : HasRoom w.buckets ks = HasRoom-of_small w.buckets ks v.small in
        let spare : Spare w.buckets ks = ranges_spare w.buckets g.ip v.small (wf.word g.ip) room in
        let add = λ (k : LimitType nets). tally-bump w.buckets ks k (wf.distinct g.ip) free in
        rw e (record {
          clean = IsClean-bump w.buckets ks (wf.distinct g.ip) free v.clean;
          small = λ k. rw (add k) (count_room w.buckets ks k (wf.distinct g.ip) spare (v.small k));
          conserved = λ k. rw limited (omega (arith, add k, v.conserved k));
        })

    drop-Inv :
        (w : World) (g : RateLimitDropGuard nets) (guards : List (RateLimitDropGuard nets))
        → Inv w
        → ((k : LimitType nets) → charged k w.guards ≡ count k (charges g) + charged k guards)
        → Inv (record { buckets = drop_guard nets s g w.buckets; guards = guards })
    unfolding drop_guard release
    drop-Inv w g guards v total = elim (Bool-cases g.limited) [
      | inr unlimited ↦ rw unlimited (record {
        clean = v.clean;
        small = v.small;
        conserved = λ k. ground (arith, v.conserved k, total k);
      })
      | inl limited ↦
          let ks = ranges nets s g.ip in
          let held : All (IsHeld w.buckets) ks =
            IsHeld-of_count w.buckets ks v.small (λ k. ground (arith, v.conserved k, total k)) in
          let less = λ (k : LimitType nets).
            tally-release_all w.buckets ks k (wf.distinct g.ip) v.clean held in
          rw limited (record {
            clean = IsClean-release_all w.buckets ks (wf.distinct g.ip) v.clean held;
            small = λ k. omega (arith, less k, v.small k);
            conserved = λ k. ground (arith, less k, v.conserved k, total k);
          })
    ]

    Step-Inv : {w v : World} → Step w v → Inv w → Inv v
    Step-Inv {w} (accept ip g m e) v = Accepted-Inv w g m v (acquire-Accepted ip w.buckets g m e)
    Step-Inv (refuse ip e) v = v
    Step-Inv {w} (finish before g after e) v = drop-Inv w g (before ++ after) v (λ k.
        ap (charged k) e
        ∙ omega (arith, charged-append k before (g ∷ after), charged-append k before after))

    -- In every state reached by letting connections in, refusing them and dropping guards in any
    -- order, the count of a range is the number of times that live guards count in it, no entry is
    -- 0, and one more fits a `u64`, if the limits of an address are of different ranges and less
    -- than the greatest `u64`.
    pub Reach-Inv : {w : World} → Reach w → Inv w
    Reach-Inv here = record {
      clean = record { unique = tt; positive = λ k h. cc };
      small = λ k. omega arith;
      conserved = λ k. refl;
    }
    Reach-Inv (next r st) = Step-Inv st (Reach-Inv r)
