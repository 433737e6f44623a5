-- ===== src/Http/Connections/Limits.antt =====
-- What a caller of the limiter may rely on (shared/src/http/ratelimit.rs): the limits, and the
-- buckets that are left behind.
use tv.Prelude.{
  ◌+◌, ◌≤◌, ◌≡◌, true, some, none, List, [], ◌∷◌, arith, Eq, All, count, Distinct, count-contains,
  inl, inr,
}
use tv.Prelude.HashMap.{get}
use tv.Http.Connections.{
  IpAddr, IpNets, RateLimiter, RateLimitDropGuard, Limit, LimitType, limit_type_eq, tally,
  get_limits, ranges, acquire,
}
use tv.Http.Connections.Buckets.{HasRoom, tally-bump}
use tv.Http.Connections.Worlds.{
  Buckets, IsWellFormed, World, Reach, Reach-Inv, unwrapped_limits, HasRoom-of_small,
  acquire-Accepted,
}

count_one {ℓ} : {K : Type ℓ} ⦃e : Eq K⦄ → (ks : List K) (j : K) → Distinct ks → count j ks ≤ 1
count_one [] j d = omega arith
count_one ⦃e⦄ (k ∷ ks) j d =
    ground (arith, e.beq_iff k j, count-contains ks k d.0, count_one ks j d.1)

module _ (nets : IpNets) (s : RateLimiter nets) (wf : IsWellFormed nets s) where
  instance abbrev pub limit_keys : Eq (LimitType nets)
  limit_keys = limit_type_eq nets

  within :
      (m m' : Buckets nets s) (limits : List (Limit nets))
      → ((k : LimitType nets) → tally m' k ≤ tally m k + 1)
      → All (λ l. tally m l.range + 1 ≤ l.connections) limits
      → All (λ l. tally m' l.range ≤ l.connections) limits
  within m m' [] more room = tt
  within m m' (l ∷ limits) more room = (omega (arith, more l.range), within m m' limits more room.1)

  -- In every state that is reached, a connection that is let in and counted leaves the count of
  -- each of its ranges within that range's limit, if the limits of an address are of different
  -- ranges and less than the greatest `u64`.
  pub acquire-within :
      {w : World nets s} (ip : IpAddr) (g : RateLimitDropGuard nets) (m' : Buckets nets s)
      → Reach nets s w
      → acquire nets s ip w.buckets ≡ some (g, m')
      → g.limited ≡ true
      → All (λ l. tally m' l.range ≤ l.connections) (get_limits nets s g.ip)
  acquire-within {w} ip g m' r e counted =
      let m = w.buckets in
      let small = (Reach-Inv nets s wf r).small in
      elim (acquire-Accepted nets s ip m g m' e) [
        | inl (unlimited, same) ↦ cc
        | inr (limited, b, room) ↦
            let ks = ranges nets s g.ip in
            let free : HasRoom m ks = HasRoom-of_small nets s m ks small in
            within m m' (get_limits nets s g.ip)
              (λ k. rw b (
                omega (
                  arith,
                  tally-bump m ks k (wf.distinct g.ip) free,
                  count_one ks k (wf.distinct g.ip),
                )))
              (unwrapped_limits nets s m (get_limits nets s g.ip) small room)
      ]

  -- When every guard has been dropped, in whatever order, no bucket is left in the map, if the
  -- limits of an address are of different ranges and less than the greatest `u64`.
  pub Reach-drained :
      {w : World nets s}
      → Reach nets s w
      → w.guards ≡ []
      → (k : LimitType nets) → get w.buckets k ≡ none
  Reach-drained r gone k =
      let v = Reach-Inv nets s wf r in ground (arith, v.conserved k, v.clean.positive k)
