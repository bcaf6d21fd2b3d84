-- ===== src/Relay/Limiter.antt =====
-- internal/relay/ratelimit.go: one token bucket for each key. The bucket itself, of golang.org/x/time/rate,
-- is a parameter: its type, a new bucket, and the answer for one event at a time. Times are nanoseconds.
pub mod Bounded
mod Tests
use burndrop.Common.{
  ℕ, ◌+◌, ◌-◌, Bytes, Map, lookup, insert, Bool, true, false, Option, none, some, List, [], ◌∷◌,
  ltb, if◌then◌else◌,
}

module _ (B : Type 0) where
  pub record Bucket : Type 0 where
    pub lim : B
    pub seen : ℕ

  pub record Limiter : Type 0 where
    pub buckets : Map Bucket
    pub last_gc : ℕ

-- 10 * time.Minute
abbrev pub idle_ttl : ℕ
idle_ttl = 600000000000

module _ {B : Type 0} where
  abbrev pub new_limiter : ℕ → Limiter B
  new_limiter now = record { buckets = []; last_gc = now }

  -- The bucket of a key, new if there is none, seen now.
  unfoldable pub seen_at : ℕ → B → Option (Bucket B) → Bucket B
  seen_at now fresh none = record { lim = fresh; seen = now }
  seen_at now fresh (some b) = record b { seen = now }

  unfoldable pub drop_idle : ℕ → Map (Bucket B) → Map (Bucket B)
  drop_idle now [] = []
  drop_idle now ((k, b) ∷ m) =
      let rest = drop_idle now m in if ltb idle_ttl (now - b.seen) then rest else (k, b) ∷ rest

  unfoldable pub gc : ℕ → Limiter B → Limiter B
  unfolding drop_idle
  gc now l = record { buckets = drop_idle now l.buckets; last_gc = now }

  unfoldable pub collect : ℕ → Limiter B → Limiter B
  unfolding gc
  collect now l = if ltb idle_ttl (now - l.last_gc) then gc now l else l

  -- The event of the bucket, whose state it changes.
  unfoldable pub take_one : Bytes → ℕ → Bucket B → Bool × B → Limiter B → Bool × Limiter B
  take_one key now b (allowed, lim) l =
      (allowed, record l { buckets = insert key (record b { lim = lim }) l.buckets })

  unfoldable pub allow : B → (ℕ → B → Bool × B) → ℕ → Bytes → Limiter B → Bool × Limiter B
  unfolding seen_at collect take_one
  allow fresh allow_n now key l =
      let b = seen_at now fresh (lookup key l.buckets) in
      take_one key now b (allow_n now b.lim)
        (collect now (record l { buckets = insert key b l.buckets }))

  -- A sequence of events, each with its time and its key.
  unfoldable pub allow_all : B → (ℕ → B → Bool × B) → List (ℕ × Bytes) → Limiter B → Limiter B
  unfolding allow
  allow_all fresh allow_n [] l = l
  allow_all fresh allow_n ((now, key) ∷ es) l =
      allow_all fresh allow_n es (allow fresh allow_n now key l).1
