-- ===== src/Relay/Limiter/Tests.antt =====
-- A limiter with two callers (internal/relay/ratelimit.go).
use burndrop.Common.{bytes_eq}
use burndrop.Common.{insert}
use burndrop.Common.{lookup}
use burndrop.Common.{
  ℕ, ◌-◌, ◌*◌, suc, Bytes, codes, Bool, true, false, List, [], ◌∷◌, ◌≡◌, refl, arith,
}
use burndrop.Relay.Limiter.{new_limiter, allow_all, idle_ttl}
use burndrop.Relay.Limiter.Bounded.{IsSeenSince, last_time, allow_all-IsSeenSince}

-- A stand-in for a token bucket: the number of events that are left, never refilled.
abbrev take_token : ℕ → ℕ → Bool × ℕ
take_token now ℕ.zero = (false, 0)
take_token now (suc n) = (true, n)

abbrev events : List (ℕ × Bytes)
events = (5, codes "a") ∷ (700000000000, codes "b") ∷ []

buckets_run :
    (allow_all 1 take_token events (new_limiter 0)).buckets
    ≡ (codes "b", record { lim = 0; seen = 700000000000 }) ∷ []
unfolding allow_all insert bytes_eq lookup
buckets_run = refl

allow_all-IsSeenSince_example :
    IsSeenSince
      (last_time 0 events - 2 * idle_ttl)
      (allow_all 1 take_token events (new_limiter 0)).buckets
allow_all-IsSeenSince_example =
    allow_all-IsSeenSince 1 take_token 0 events (omega arith, (omega arith, tt))
