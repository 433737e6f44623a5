-- ===== src/Http/Connections.antt =====
-- Limits on concurrent connections per address range (shared/src/http/ratelimit.rs, with the
-- configuration of shared/src/config.rs). The crate ipnet is an interface; `std::net::IpAddr` is
-- a number with its version. The buckets, behind a mutex in the source, are passed in and out;
-- metrics are left out.
pub mod Buckets
pub mod Worlds
pub mod Limits
mod Tests
use tv.Prelude.{
  ℕ, ◌+◌, ◌-◌, ◌%◌, ◌/◌, ◌^◌, ◌≡◌, ◌↔◌, Bool, true, false, Option, none, some, List, [], ◌∷◌, map,
  arith, Eq, ltb, not, ap, is_nil, ◌==◌, if◌then◌else◌, any, keep, get_or,
}
use tv.Prelude.HashMap.{HashMap, get, insert, remove}

pub data IpAddr : Type 0 where
  v4 : ℕ → IpAddr
  v6 : ℕ → IpAddr

-- `IpAddr::to_canonical`: an IPv4-mapped IPv6 address becomes the IPv4 address.
abbrev pub to_canonical : IpAddr → IpAddr
to_canonical (v4 x) = v4 x
to_canonical (v6 x) = if x / 2 ^ 32 == 0xffff then v4 (x % 2 ^ 32) else v6 x

-- The crate ipnet. `new_v4 ip prefix` is `Ipv4Net::new(ip, prefix).ok()`, as an `IpNet`.
pub record IpNets : Type 1 where
  pub IpNet : Type 0
  pub contains : IpNet → IpAddr → Bool
  pub new_v4 : ℕ → ℕ → Option IpNet
  pub new_v6 : ℕ → ℕ → Option IpNet
  pub trunc : IpNet → IpNet
  pub beq : IpNet → IpNet → Bool
  pub beq_iff : (a b : IpNet) → (beq a b ≡ true) ↔ (a ≡ b)

-- `*ip_buckets.get(&range).unwrap_or(&0)`
abbrev pub tally {ℓ} : {K : Type ℓ} ⦃e : Eq K⦄ → HashMap K ℕ → K → ℕ
tally ⦃e⦄ m k = get_or (get m k) 0

module _ {ℓ} {K : Type ℓ} ⦃e : Eq K⦄ where
  -- The loop of `acquire`: `*entry(range).or_insert(0) += 1`, on a `u64`.
  unfoldable pub bump : HashMap K ℕ → List K → HashMap K ℕ
  bump m [] = m
  bump m (k ∷ ks) = bump (insert m k ((tally m k + 1) % 2 ^ 64)) ks

  -- One round of the loop of `release`: `*value -= 1`, and `remove` at 0.
  unfoldable pub release_one : HashMap K ℕ → K → HashMap K ℕ
  release_one m k = elim (get m k) [
    | none ↦ m
    | some value ↦
        let value' = (value + 2 ^ 64 - 1) % 2 ^ 64 in
        if value' == 0 then remove m k else insert m k value'
  ]

  unfoldable pub release_all : HashMap K ℕ → List K → HashMap K ℕ
  release_all m [] = m
  release_all m (k ∷ ks) = release_all (release_one m k) ks

module _ (nets : IpNets) where
  open nets use {IpNet, contains, new_v4, new_v6, trunc}

  pub data LimitType : Type 0 where
    subnet : IpNet → LimitType
    bucket : IpNet → LimitType

  pub record Limit : Type 0 where
    pub range : LimitType
    pub connections : ℕ

  pub record RangeBucket : Type 0 where
    pub range : IpNet
    pub concurrent_connections : Option ℕ

  pub record PrefixBucket : Type 0 where
    pub concurrent_connections : ℕ
    pub prefix_length : ℕ

  -- `RateLimiter` without its buckets.
  pub record RateLimiter : Type 0 where
    pub enabled : Bool
    pub limited_subnets : List RangeBucket
    pub ipv4_buckets : List PrefixBucket
    pub ipv6_buckets : List PrefixBucket

  -- `limited` stands for `limiter` being `Some`.
  pub record RateLimitDropGuard : Type 0 where
    pub ip : IpAddr
    pub limited : Bool

  unfoldable pub limit_type_beq : LimitType → LimitType → Bool
  limit_type_beq (subnet a) (subnet b) = nets.beq a b
  limit_type_beq (bucket a) (bucket b) = nets.beq a b
  limit_type_beq _ _ = false

  pub limit_type_beq_iff : (a b : LimitType) → (limit_type_beq a b ≡ true) ↔ (a ≡ b)
  unfolding limit_type_beq
  limit_type_beq_iff (subnet a) (subnet b) =
      ((λ h. ap subnet ((nets.beq_iff a b).0 h)), (λ h. (nets.beq_iff a b).1 (ground arith)))
  limit_type_beq_iff (bucket a) (bucket b) =
      ((λ h. ap bucket ((nets.beq_iff a b).0 h)), (λ h. (nets.beq_iff a b).1 (ground arith)))
  limit_type_beq_iff (subnet a) (bucket b) = ((λ h. cc), (λ h. cc))
  limit_type_beq_iff (bucket a) (subnet b) = ((λ h. cc), (λ h. cc))

  -- The derived equality of the keys of `ip_buckets`.
  instance abbrev pub limit_type_eq : Eq LimitType
  limit_type_eq = record { beq = limit_type_beq; beq_iff = limit_type_beq_iff }

  -- `min_by` keeps the first of its minima: this says that `b` is less than `a`.
  abbrev prefers : RangeBucket → RangeBucket → Bool
  prefers b a = elim a.concurrent_connections [
    | some x ↦ elim b.concurrent_connections [ some y ↦ ltb y x | none ↦ false ]
    | none ↦ elim b.concurrent_connections [ some y ↦ true | none ↦ false ]
  ]

  min_from : RangeBucket → List RangeBucket → RangeBucket
  min_from best [] = best
  min_from best (s ∷ rest) = min_from (if prefers s best then s else best) rest

  min_by : List RangeBucket → Option RangeBucket
  unfolding min_from
  min_by [] = none
  min_by (s ∷ rest) = some (min_from s rest)

  abbrev bucket_limits : (ℕ → Option IpNet) → List PrefixBucket → List Limit
  bucket_limits new [] = []
  bucket_limits new (limit ∷ rest) = elim (new limit.prefix_length) [
    | none ↦ bucket_limits new rest
    | some ip ↦
        record { range = bucket (trunc ip); connections = limit.concurrent_connections }
        ∷ bucket_limits new rest
  ]

  unfoldable pub get_limits : RateLimiter → IpAddr → List Limit
  unfolding min_by
  get_limits s ip = elim (min_by (keep (λ r. contains r.range ip) s.limited_subnets)) [
    | some limit ↦ elim limit.concurrent_connections [
      | none ↦ []
      | some connections ↦ record { range = subnet limit.range; connections = connections } ∷ []
    ]
    | none ↦ elim ip [
      | v4 x ↦ bucket_limits (new_v4 x) s.ipv4_buckets
      | v6 x ↦ bucket_limits (new_v6 x) s.ipv6_buckets
    ]
  ]

  unfoldable pub ranges : RateLimiter → IpAddr → List LimitType
  ranges s ip = map (λ l. l.range) (get_limits s ip)

  unfoldable pub release : RateLimiter → IpAddr → HashMap LimitType ℕ → HashMap LimitType ℕ
  release s ip m = release_all m (ranges s ip)

  -- `drop` of a guard.
  unfoldable pub drop_guard :
      RateLimiter → RateLimitDropGuard → HashMap LimitType ℕ → HashMap LimitType ℕ
  drop_guard s g m = if g.limited then release s g.ip m else m

  -- The three refusals of `acquire` are `none`; a refusal changes nothing.
  unfoldable pub acquire :
      RateLimiter → IpAddr → HashMap LimitType ℕ → Option (RateLimitDropGuard × HashMap LimitType ℕ)
  acquire s ip m =
      if not s.enabled
      then some (record { ip = ip; limited = false }, m)
      else let ip' = to_canonical ip in
        let limits = get_limits s ip' in
        if is_nil limits
        then some (record { ip = ip'; limited = false }, m)
        else if any (λ l. l.connections == 0) limits
        then none
        else if any (λ l. ltb l.connections ((tally m l.range + 1) % 2 ^ 64)) limits
        then none
        else some (record { ip = ip'; limited = true }, bump m (ranges s ip'))
