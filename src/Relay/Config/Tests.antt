-- ===== src/Relay/Config/Tests.antt =====
-- The lifetimes of slots (internal/relay/config.go) under the default configuration.
use burndrop.Common.{◌≤◌, true, ◌≡◌, refl, arith}
use burndrop.Relay.Config.{Config, min_ttl, absolute_max_ttl, clamp_ttl, ttls_valid}
use burndrop.Relay.Config.Bounds.{clamp_ttl_bounds, clamp_ttl_wraps}

abbrev usual : Config
usual = record {
  default_ttl = 3600000000000;
  max_ttl = 86400000000000;
  max_ciphertext_bytes = 65840;
  max_waiters = 1000;
}

usual_valid : ttls_valid usual ≡ true
unfolding ttls_valid
usual_valid = refl

clamp_ttl_bounds_example :
    (min_ttl ≤ clamp_ttl usual 7)
    × (clamp_ttl usual 7 ≤ usual.max_ttl)
    × (usual.max_ttl ≤ absolute_max_ttl)
clamp_ttl_bounds_example = clamp_ttl_bounds usual 7 usual_valid

clamp_ttl_wraps_example : clamp_ttl usual 10000000000 ≡ min_ttl
clamp_ttl_wraps_example = clamp_ttl_wraps usual 10000000000 usual_valid (omega arith) (omega arith)
