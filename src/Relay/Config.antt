-- ===== src/Relay/Config.antt =====
-- internal/relay/config.go: the lifetime of a slot and the rules on the limits. A Go int64 is its
-- 64-bit pattern, a number below 2 ^ 64 that is negative from 2 ^ 63 on; a product wraps around.
pub mod Bounds
mod Tests
use burndrop.Common.{ℕ, ◌*◌, ◌%◌, ◌^◌, Bool, true, false, ◌||◌, ◌&&◌, ltb, leb, ◌==◌, if◌then◌else◌}

-- The rules on lifetimes and limits read these fields.
pub record Config : Type 0 where
  pub default_ttl : ℕ
  pub max_ttl : ℕ
  pub max_ciphertext_bytes : ℕ
  pub max_waiters : ℕ

-- 60 * time.Second
abbrev pub min_ttl : ℕ
min_ttl = 60000000000

-- 7 * 24 * time.Hour
abbrev pub absolute_max_ttl : ℕ
absolute_max_ttl = 604800000000000

-- 30 * time.Second
abbrev pub max_long_poll : ℕ
max_long_poll = 30000000000

unfoldable pub is_negative : ℕ → Bool
is_negative n = leb 0x8000000000000000 n

-- time.Duration(seconds) * time.Second
unfoldable pub as_duration : ℕ → ℕ
as_duration seconds = seconds * 1000000000 % 0x10000000000000000

unfoldable pub less : ℕ → ℕ → Bool
unfolding is_negative
less a b =
    if is_negative a && is_negative b
    then ltb a b
    else if is_negative a
    then true
    else if is_negative b
    then false
    else ltb a b

unfoldable pub clamp_ttl : Config → ℕ → ℕ
unfolding less as_duration
clamp_ttl c seconds =
    if (seconds == 0) || less seconds 0
    then c.default_ttl
    else if less (as_duration seconds) min_ttl
    then min_ttl
    else if less c.max_ttl (as_duration seconds)
    then c.max_ttl
    else as_duration seconds

-- What `Validate` demands of the lifetimes.
unfoldable pub ttls_valid : Config → Bool
unfolding less
ttls_valid c =
    if less c.default_ttl min_ttl || less c.max_ttl min_ttl
    then false
    else if less absolute_max_ttl c.max_ttl
    then false
    else if less c.max_ttl c.default_ttl
    then false
    else true
