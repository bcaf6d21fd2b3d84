-- ===== src/Relay/Limiter/Bounded.antt =====
-- Which buckets a limiter keeps (internal/relay/ratelimit.go).
use burndrop.Common.{
  ℕ, ◌-◌, ◌*◌, ◌≤◌, Bytes, bytes_eq, Map, lookup, insert, Bool, Option, none, some, List, [], ◌∷◌,
  ltb, inl, inr, Bool-cases, arith,
}
use burndrop.Relay.Limiter.{
  Bucket, Limiter, idle_ttl, new_limiter, seen_at, drop_idle, gc, collect, take_one, allow,
  allow_all,
}

-- The times of the events do not go back, and start at `t` or later.
abbrev pub IsRising : ℕ → List (ℕ × Bytes) → Type 0
IsRising t [] = Unit
IsRising t ((now, key) ∷ es) = (t ≤ now) × IsRising now es

-- The time of the last event.
abbrev pub last_time : ℕ → List (ℕ × Bytes) → ℕ
last_time t [] = t
last_time t ((now, key) ∷ es) = last_time now es

module _ {B : Type 0} where
  -- Every bucket was seen at `t` or later.
  abbrev pub IsSeenSince : ℕ → Map (Bucket B) → Type 0
  IsSeenSince t [] = Unit
  IsSeenSince t ((k, b) ∷ m) = (t ≤ b.seen) × IsSeenSince t m

  insert-IsSeenSince :
      (t : ℕ) (k : Bytes) (b : Bucket B) (m : Map (Bucket B))
      → t ≤ b.seen
      → IsSeenSince t m
      → IsSeenSince t (insert k b m)
  unfolding insert
  insert-IsSeenSince t k b [] h s = (h, tt)
  insert-IsSeenSince t k b ((j, c) ∷ m) h s = elim (Bool-cases (bytes_eq j k)) [
    | inl e ↦ rw e (h, s.1)
    | inr e ↦ rw e (s.0, insert-IsSeenSince t k b m h s.1)
  ]

  IsSeenSince-weaken : (t u : ℕ) (m : Map (Bucket B)) → u ≤ t → IsSeenSince t m → IsSeenSince u m
  IsSeenSince-weaken t u [] h s = tt
  IsSeenSince-weaken t u ((k, b) ∷ m) h s = (omega arith, IsSeenSince-weaken t u m h s.1)

  drop_idle-IsSeenSince :
      (now : ℕ) (m : Map (Bucket B)) → IsSeenSince (now - idle_ttl) (drop_idle now m)
  unfolding drop_idle
  drop_idle-IsSeenSince now [] = tt
  drop_idle-IsSeenSince now ((k, b) ∷ m) = elim (Bool-cases (ltb idle_ttl (now - b.seen))) [
    | inl e ↦ rw e (drop_idle-IsSeenSince now m)
    | inr e ↦
        let fresh : now - idle_ttl ≤ b.seen = ground arith in
        rw e (fresh, drop_idle-IsSeenSince now m)
  ]

  -- What a limiter keeps between events: the last collection is not later than the time, and every
  -- bucket was seen at most ten minutes before it.
  abbrev pub IsCollected : ℕ → Limiter B → Type 0
  IsCollected t l =
      (l.last_gc ≤ t) × (t - l.last_gc ≤ idle_ttl) × IsSeenSince (l.last_gc - idle_ttl) l.buckets

  collect-IsCollected :
      (now : ℕ) (l : Limiter B)
      → l.last_gc ≤ now
      → IsSeenSince (l.last_gc - idle_ttl) l.buckets
      → IsCollected now (collect now l)
  unfolding collect gc
  collect-IsCollected now l h s = elim (Bool-cases (ltb idle_ttl (now - l.last_gc))) [
    | inl e ↦ rw e (omega arith, omega arith, drop_idle-IsSeenSince now l.buckets)
    | inr e ↦ let recent : now - l.last_gc ≤ idle_ttl = ground arith in rw e (h, recent, s)
  ]

  seen_at-seen : (now : ℕ) (fresh : B) (o : Option (Bucket B)) → now ≤ (seen_at now fresh o).seen
  unfolding seen_at
  seen_at-seen now fresh none = omega arith
  seen_at-seen now fresh (some b) = omega arith

  take_one-IsCollected :
      (key : Bytes) (now : ℕ) (b : Bucket B) (answer : Bool × B) (l : Limiter B)
      → now ≤ b.seen
      → IsCollected now l
      → IsCollected now (take_one key now b answer l).1
  unfolding take_one
  take_one-IsCollected key now b answer l h c = (
    c.0,
    c.1,
    insert-IsSeenSince (l.last_gc - idle_ttl) key (record b { lim = answer.1 }) l.buckets
        (omega arith) c.2,
  )

  allow-IsCollected :
      (fresh : B) (allow_n : ℕ → B → Bool × B) (t now : ℕ) (key : Bytes) (l : Limiter B)
      → t ≤ now
      → IsCollected t l
      → IsCollected now (allow fresh allow_n now key l).1
  unfolding allow
  allow-IsCollected fresh allow_n t now key l h c =
      let b = seen_at now fresh (lookup key l.buckets) in
      let seen = seen_at-seen now fresh (lookup key l.buckets) in
      let with_key : Limiter B = record l { buckets = insert key b l.buckets } in
      let gc_before : l.last_gc ≤ t = c.0 in
      take_one-IsCollected key now b (allow_n now b.lim) (collect now with_key) seen (
        collect-IsCollected now with_key (omega arith)
          (insert-IsSeenSince (l.last_gc - idle_ttl) key b l.buckets (omega arith) c.2))

  allow_all-IsCollected :
      (fresh : B) (allow_n : ℕ → B → Bool × B) (t : ℕ) (es : List (ℕ × Bytes)) (l : Limiter B)
      → IsRising t es
      → IsCollected t l
      → IsCollected (last_time t es) (allow_all fresh allow_n es l)
  unfolding allow_all
  allow_all-IsCollected fresh allow_n t [] l h c = c
  allow_all-IsCollected fresh allow_n t ((now, key) ∷ es) l h c =
      allow_all-IsCollected fresh allow_n now es (allow fresh allow_n now key l).1 h.1
        (allow-IsCollected fresh allow_n t now key l h.0 c)

  -- After any sequence of events whose times do not go back, from a new limiter on, every bucket that is
  -- kept was seen at most twenty minutes before the last event.
  pub allow_all-IsSeenSince :
      (fresh : B) (allow_n : ℕ → B → Bool × B) (start : ℕ) (es : List (ℕ × Bytes))
      → IsRising start es
      → IsSeenSince
          (last_time start es - 2 * idle_ttl)
          (allow_all fresh allow_n es (new_limiter start)).buckets
  allow_all-IsSeenSince fresh allow_n start es h =
      let l = allow_all fresh allow_n es (new_limiter start) in
      let c =
        allow_all-IsCollected fresh allow_n start es (new_limiter start) h
          (omega arith, omega arith, tt) in
      let recent : last_time start es - l.last_gc ≤ idle_ttl = c.1 in
      IsSeenSince-weaken (l.last_gc - idle_ttl) (last_time start es - 2 * idle_ttl) l.buckets
        (omega arith) c.2
