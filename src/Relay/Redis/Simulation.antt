-- ===== src/Relay/Redis/Simulation.antt =====
-- The relation between the Redis store (internal/relay/redis_store.go) and the memory store
-- (internal/relay/memory.go): the same slots, with tokens as text and times as milliseconds on
-- one side, and the same counters.
use burndrop.Common.{
  subst, ℕ, ◌*◌, ◌/◌, Bytes, Map, lookup, insert, lookup-insert, bytes_eq, bytes_eq_iff, Bool, true,
  false, Bool-cases, Option, none, some, if◌then◌else◌, ◌≡◌, refl, sym, ap, ◌∙◌, inl, inr, arith,
}
use burndrop.Crypto.Base64.{encode, decode}
use burndrop.Crypto.Base64.RoundTrip.{AreBytes, decode-encode}
use burndrop.Relay.Slot.{
  Kind, State, created, uploaded, fetched, opened, revoked, expired, Drop, Hash, is_terminal,
  entered_at, state_error_of, state_error, Result,
}
use burndrop.Relay.Slot
use burndrop.Relay.Memory.{Memory, StoreOptions}
use burndrop.Relay.Memory
use burndrop.Relay.Redis.{
  Fields, Redis, stamp, tombstone, retire, release, is_due, refresh, get, time_of, reply_drop,
}

-- The last whole millisecond up to a time.
abbrev pub whole : ℕ → ℕ
whole t = t / 1000000 * 1000000

-- A hash and a slot that say the same. A tombstone has no tokens left to compare.
pub record Same (key : Bytes) (f : Fields) (d : Drop) : Type 0 where
  pub id : d.id ≡ key
  pub kind : f.kind ≡ d.kind
  pub state : f.state ≡ d.state
  pub ct : f.ct ≡ d.ciphertext
  pub commitment : f.commitment ≡ d.commitment
  pub created : time_of f.created ≡ d.created_at
  pub expires : time_of f.expires ≡ d.expires_at
  pub uploaded : time_of f.uploaded ≡ d.uploaded_at
  pub fetched : time_of f.fetched ≡ d.fetched_at
  pub revoked : time_of f.revoked ≡ d.revoked_at
  pub token_a : is_terminal d.state ≡ false → (f.ta ≡ encode d.token_a) × AreBytes d.token_a
  pub token_b : is_terminal d.state ≡ false → (f.tb ≡ encode d.token_b) × AreBytes d.token_b

abbrev pub OptSame : Bytes → Option Fields → Option Drop → Type 0
OptSame id none none = Unit {0}
OptSame id (some f) (some d) = Same id f d
OptSame id none (some d) = ⊥
OptSame id (some f) none = ⊥

pub record Related (r : Redis) (m : Memory) : Type 0 where
  pub slots : (k : Bytes) → OptSame k (lookup k r.slots) (lookup k m.drops)
  pub live : r.live ≡ m.live
  pub bytes : r.bytes ≡ m.bytes
  pub opts : r.opts ≡ m.opts

-- Two answers that agree, with stores that are related again.
pub record Agree {ℓ} {A : Type ℓ} (x : A × Redis) (y : A × Memory) : Type ℓ where
  pub answers : x.0 ≡ y.0
  pub stores : Related x.1 y.1

abbrev pub agree {ℓ} :
    {A : Type ℓ} {a b : A} {r : Redis} {m : Memory} → a ≡ b → Related r m → Agree (a, r) (b, m)
agree e h = record { answers = e; stores = h }

pub if-Agree {ℓ} :
    {A : Type ℓ} {x x' : A × Redis} {y y' : A × Memory} (b c : Bool)
    → b ≡ c
    → Agree x y
    → (c ≡ false → Agree x' y')
    → Agree (if b then x else x') (if c then y else y')
if-Agree true true e h k = h
if-Agree true false e h k = cc
if-Agree false true e h k = cc
if-Agree false false e h k = k refl

some_injective {ℓ} : {A : Type ℓ} {a b : A} → some a ≡ some b → a ≡ b
some_injective e = cc e

pub bytes_eq-encode :
    (a b : Bytes) → AreBytes a → AreBytes b → bytes_eq (encode a) (encode b) ≡ bytes_eq a b
bytes_eq-encode a b ha hb =
    let back : encode a ≡ encode b → a ≡ b =
      λ e. some_injective (sym (decode-encode a ha) ∙ ap decode e ∙ decode-encode b hb) in
    elim (Bool-cases (bytes_eq a b)) [
      | inl same ↦
          (bytes_eq_iff (encode a) (encode b)).1 (ap encode ((bytes_eq_iff a b).0 same)) ∙ sym same
      | inr other ↦ elim (Bool-cases (bytes_eq (encode a) (encode b))) [
        | inl e ↦ cc ((bytes_eq_iff a b).1 (back ((bytes_eq_iff (encode a) (encode b)).0 e)), other)
        | inr n ↦ n ∙ sym other
      ]
    ]

pub insert-OptSame :
    (id : Bytes) (f : Fields) (d : Drop) (slots : Map Fields) (drops : Map Drop)
    → Same id f d
    → ((k : Bytes) → OptSame k (lookup k slots) (lookup k drops))
    → (k : Bytes) → OptSame k (lookup k (insert id f slots)) (lookup k (insert id d drops))
insert-OptSame id f d slots drops s h k =
    rw (lookup-insert id k f slots, lookup-insert id k d drops) (by_test (bytes_eq id k) refl)
  where
    by_test :
        (b : Bool)
        → bytes_eq id k ≡ b
        → OptSame k (if b then some f else lookup k slots) (if b then some d else lookup k drops)
    by_test true e = subst (λ i. Same i f d) ((bytes_eq_iff id k).0 e) s
    by_test false e = h k

entered_at-Same :
    (id : Bytes) (f : Fields) (d : Drop) (s : State)
    → Same id f d
    → entered_at (reply_drop id f) s ≡ entered_at d s
unfolding entered_at reply_drop
entered_at-Same id f d created h = h.created
entered_at-Same id f d uploaded h = h.uploaded
entered_at-Same id f d fetched h = h.fetched
entered_at-Same id f d opened h = h.fetched
entered_at-Same id f d revoked h = h.revoked
entered_at-Same id f d expired h = h.expires

pub state_error-Same :
    (id : Bytes) (f : Fields) (d : Drop)
    → Same id f d
    → state_error_of (reply_drop id f) ≡ state_error_of d
unfolding state_error_of reply_drop
state_error-Same id f d h =
    cc (h.state, entered_at-Same id f d f.state h, ap (entered_at d) h.state)

-- A tombstone of the same state. For `expired` no time is written.
tombstone-Same :
    (s : State) (at : ℕ) (id : Bytes) (f : Fields) (d : Drop)
    → is_terminal s ≡ true
    → Same id f d
    → Same id (tombstone s at f) (Slot.tombstone s (time_of at) d)
unfolding tombstone stamp Slot.tombstone Slot.stamp is_terminal
tombstone-Same created at id f d t h = cc
tombstone-Same uploaded at id f d t h = cc
tombstone-Same fetched at id f d t h = ground arith
tombstone-Same opened at id f d t h = ground arith
tombstone-Same revoked at id f d t h = ground arith
tombstone-Same expired at id f d t h = ground arith

-- The counters and the slot after a slot retired.
pub retire-Related :
    (s : State) (at : ℕ) (id : Bytes) (f : Fields) (d : Drop) (r : Redis) (m : Memory)
    → is_terminal s ≡ true
    → Same id f d
    → Related r m
    → Related (retire s at id f r) (Memory.retire s (time_of at) id d m)
unfolding retire release Memory.retire Memory.notify Memory.write
retire-Related s at id f d r m t h rel = record {
  slots =
      insert-OptSame id (tombstone s at f) (Slot.tombstone s (time_of at) d) r.slots m.drops
        (tombstone-Same s at id f d t h) rel.slots;
  live = ground (arith, rel.live);
  bytes = ground (arith, rel.bytes, h.ct);
  opts = rel.opts;
}

expired_ends : is_terminal expired ≡ true
unfolding is_terminal
expired_ends = refl

-- `expired` is the one state whose tombstone takes no time, so the two stores may pass any.
expire-Related :
    (at : ℕ) (id : Bytes) (f : Fields) (d : Drop) (r : Redis) (m : Memory)
    → Same id f d
    → Related r m
    → Same id (tombstone expired 0 f) (Slot.tombstone expired at d)
      × Related (retire expired 0 id f r) (Memory.retire expired at id d m)
unfolding retire release tombstone stamp Memory.retire Slot.tombstone Slot.stamp
expire-Related at id f d r m h rel = (
  tombstone-Same expired at id f d expired_ends h,
  retire-Related expired at id f d r m expired_ends h rel,
)

is_due-Same :
    (now : ℕ) (id : Bytes) (f : Fields) (d : Drop)
    → Same id f d
    → is_due now f ≡ Memory.is_due (time_of now) d
unfolding is_due Memory.is_due time_of
is_due-Same now id f d h = rw (h.state, ← h.expires) (ground arith)

refresh-Related :
    (now : ℕ) (id : Bytes) (r : Redis) (m : Memory) (o : Option Fields) (p : Option Drop)
    → OptSame id o p
    → Related r m
    → OptSame id (refresh now id r o).0 (Memory.refresh (time_of now) id m p).0
      × Related (refresh now id r o).1 (Memory.refresh (time_of now) id m p).1
unfolding refresh Memory.refresh Memory.expire
refresh-Related now id r m none none h rel = (tt, rel)
refresh-Related now id r m none (some d) h rel = absurd h
refresh-Related now id r m (some f) none h rel = absurd h
refresh-Related now id r m (some f) (some d) h rel =
    rw (is_due-Same now id f d h) (elim (Bool-cases (Memory.is_due (time_of now) d)) [
      | inl due ↦ rw due (expire-Related d.expires_at id f d r m h rel)
      | inr fresh ↦ rw fresh (h, rel)
    ])

pub get-Related :
    (now : ℕ) (id : Bytes) (r : Redis) (m : Memory)
    → Related r m
    → OptSame id (get now id r).0 (Memory.get (time_of now) id m).0
      × Related (get now id r).1 (Memory.get (time_of now) id m).1
unfolding get Memory.get
get-Related now id r m rel =
    refresh-Related now id r m (lookup id r.slots) (lookup id m.drops) (rel.slots id) rel
