-- ===== src/Http/Connections/Tests.antt =====
-- The limiter at one bucket per /24 of two connections, with the crate ipnet written out for
-- IPv4.
use tv.Prelude.{
  ◌+◌, ℕ, ◌-◌, ◌*◌, ◌/◌, ◌^◌, ◌<◌, ◌≤◌, ◌≡◌, ◌↔◌, refl, Bool, true, false, ◌&&◌, ◌==◌, arith, none,
  some, [], ◌∷◌, Distinct, All,
}
use tv.Prelude.HashMap.{get}
use tv.Http.Connections.{
  IpAddr, v4, v6, IpNets, RateLimiter, RateLimitDropGuard, bucket, limit_type_beq, tally, bump,
  get_limits, ranges, drop_guard, acquire,
}
use tv.Http.Connections.Worlds.{
  Buckets, keys, IsWellFormed, World, accept, finish, Reach, here, next, Inv, Reach-Inv,
}
use tv.Http.Connections.Limits.{limit_keys, acquire-within, Reach-drained}

abbrev Net : Type 0
Net = ℕ × ℕ

abbrev net_beq : Net → Net → Bool
net_beq a b = a.0 == b.0 && a.1 == b.1

net_beq_iff : (a b : Net) → (net_beq a b ≡ true) ↔ (a ≡ b)
net_beq_iff (a, p) (b, q) = ((λ h. ground arith), (λ h. ground arith))

abbrev ipv4_only : IpNets
ipv4_only = record {
  IpNet = Net;
  contains =
      λ net ip. elim ip [ v4 x ↦ x / 2 ^ (32 - net.1) == net.0 / 2 ^ (32 - net.1) | v6 x ↦ false ];
  new_v4 = λ ip prefix. some (ip, prefix);
  new_v6 = λ ip prefix. none;
  trunc = λ net. (net.0 / 2 ^ (32 - net.1) * 2 ^ (32 - net.1), net.1);
  beq = net_beq;
  beq_iff = net_beq_iff;
}

abbrev limiter : RateLimiter ipv4_only
limiter = record {
  enabled = true;
  limited_subnets = [];
  ipv4_buckets = record { concurrent_connections = 2; prefix_length = 24 } ∷ [];
  ipv6_buckets = [];
}

limiter-Distinct :
    (ip : IpAddr) → Distinct ⦃e = keys ipv4_only limiter⦄ (ranges ipv4_only limiter ip)
unfolding ranges get_limits
limiter-Distinct (v4 x) = (refl, tt)
limiter-Distinct (v6 x) = tt

limiter_word :
    (ip : IpAddr) → All (λ l. l.connections + 1 < 2 ^ 64) (get_limits ipv4_only limiter ip)
unfolding get_limits
limiter_word (v4 x) = (omega arith, tt)
limiter_word (v6 x) = tt

limiter-IsWellFormed : IsWellFormed ipv4_only limiter
limiter-IsWellFormed = record { distinct = limiter-Distinct; word = limiter_word }

-- 10.0.0.7
abbrev client : IpAddr
client = v4 167772167

abbrev guard : RateLimitDropGuard ipv4_only
guard = record { ip = client; limited = true }

abbrev one_counted : Buckets ipv4_only limiter
one_counted = (bucket (167772160, 24), 1) ∷ []

client_accepted : acquire ipv4_only limiter client [] ≡ some (guard, one_counted)
unfolding acquire get_limits ranges bump limit_type_beq
client_accepted = refl

abbrev busy : World ipv4_only limiter
busy = record { buckets = one_counted; guards = guard ∷ [] }

busy-Reach : Reach ipv4_only limiter busy
busy-Reach = next here (accept client guard one_counted client_accepted)

Reach-Inv_example : Inv ipv4_only limiter busy
Reach-Inv_example = Reach-Inv ipv4_only limiter limiter-IsWellFormed busy-Reach

acquire-within_example :
    All
      (λ l. tally ⦃e = keys ipv4_only limiter⦄ one_counted l.range ≤ l.connections)
      (get_limits ipv4_only limiter client)
acquire-within_example =
    acquire-within ipv4_only limiter limiter-IsWellFormed client guard one_counted here
      client_accepted refl

-- The client has gone again.
abbrev quiet : World ipv4_only limiter
quiet = record { buckets = drop_guard ipv4_only limiter guard one_counted; guards = [] }

Reach-drained_example :
    get ⦃e = keys ipv4_only limiter⦄ quiet.buckets (bucket (167772160, 24)) ≡ none
Reach-drained_example =
    Reach-drained ipv4_only limiter limiter-IsWellFormed (next busy-Reach (finish [] guard [] refl))
      refl (bucket (167772160, 24))
