-- ===== src/Relay/Config/Bounds.antt =====
-- The lifetimes that a valid configuration gives to slots.
use burndrop.Common.{ℕ, ◌*◌, ◌≤◌, ◌<◌, true, ◌≡◌, arith}
use burndrop.Relay.Config.{
  Config, min_ttl, absolute_max_ttl, clamp_ttl, ttls_valid, less, is_negative, as_duration,
}

-- Under a valid configuration every requested number of seconds
-- gives a lifetime from one minute to the maximum, which is at most seven days.
pub clamp_ttl_bounds :
    (c : Config) (seconds : ℕ)
    → ttls_valid c ≡ true
    → (min_ttl ≤ clamp_ttl c seconds)
      × (clamp_ttl c seconds ≤ c.max_ttl)
      × (c.max_ttl ≤ absolute_max_ttl)
unfolding clamp_ttl ttls_valid less is_negative
clamp_ttl_bounds c seconds v = ground arith

-- Under a valid configuration, a requested lifetime from one minute to the maximum is the lifetime
-- given.
pub clamp_ttl_exact :
    (c : Config) (seconds : ℕ)
    → ttls_valid c ≡ true
    → min_ttl ≤ seconds * 1000000000
    → seconds * 1000000000 ≤ c.max_ttl
    → clamp_ttl c seconds ≡ seconds * 1000000000
unfolding clamp_ttl ttls_valid less is_negative as_duration
clamp_ttl_exact c seconds v lo hi = ground arith

-- Under a valid configuration, a request of 9223372037 to 18446744073 seconds, whose product with a
-- second is a negative int64, gets the minimum.
pub clamp_ttl_wraps :
    (c : Config) (seconds : ℕ)
    → ttls_valid c ≡ true
    → 9223372036 < seconds
    → seconds ≤ 18446744073
    → clamp_ttl c seconds ≡ min_ttl
unfolding clamp_ttl ttls_valid less is_negative as_duration
clamp_ttl_wraps c seconds v lo hi = ground arith
