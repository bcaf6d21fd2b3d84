-- ===== src/Relay/Redis/Refinement.antt =====
-- The Redis store of internal/relay/redis_store.go answers as the memory store of
-- internal/relay/memory.go does where time goes in whole milliseconds.
use burndrop.Common.{ℕ, Bytes, lookup, List, [], ◌∷◌, map, ◌≡◌, refl, ap}
use burndrop.Crypto.Base64.RoundTrip.{AreBytes}
use burndrop.Relay.Slot.{Drop, Hash, Status, Result}
use burndrop.Relay.Memory.{Memory, StoreOptions, with_defaults, new_memory, over}
use burndrop.Relay.Memory
use burndrop.Relay.Memory.Methods
use burndrop.Relay.Redis.{Redis}
use burndrop.Relay.Redis.Scripts
use burndrop.Relay.Redis.Agreement.{fetch-Agree, open-Agree, revoke-Agree, upload-Agree}
use burndrop.Relay.Redis.Agreement.Created.{HasBytes, whole_times, status-Agree, create-Agree}
use burndrop.Relay.Redis.Simulation.{Related, Agree, agree, whole}

-- A request to a store, with the one reading of the clock that a script takes.
pub data Request : Type 0 where
  creates : Drop → Request
  uploads : Bytes → Hash → Bytes → Bytes → Request
  fetches opens revokes : Bytes → Hash → Request
  asks : Bytes → Request

pub data Answer : Type 0 where
  done : Result (Unit {0}) → Answer
  sent : Result (Bytes × ℕ) → Answer
  described : Result Status → Answer

abbrev pub answer : {S A : Type 0} → (A → Answer) → A × S → Answer × S
answer f (a, s) = (f a, s)

pub serve_redis : ℕ → Request → Redis → Answer × Redis
serve_redis now (creates d) r = answer done (Scripts.create d r)
serve_redis now (uploads id token commitment ct) r =
    answer done (Scripts.upload now id token commitment ct r)
serve_redis now (fetches id token) r = answer sent (Scripts.fetch now id token r)
serve_redis now (opens id token) r = answer sent (Scripts.open_reveal now id token r)
serve_redis now (revokes id token) r = answer done (Scripts.revoke now id token r)
serve_redis now (asks id) r = answer described (Scripts.status now id r)

pub serve_memory : ℕ → Request → Memory → Answer × Memory
serve_memory now (creates d) m = answer done (Memory.create d m)
serve_memory now (uploads id token commitment ct) m =
    answer done (Methods.upload now now id token commitment ct m)
serve_memory now (fetches id token) m = answer sent (Methods.fetch now now id token m)
serve_memory now (opens id token) m = answer sent (Methods.open_reveal now now id token m)
serve_memory now (revokes id token) m = answer done (Methods.revoke now now id token m)
serve_memory now (asks id) m = answer described (Methods.status now id m)

-- Tokens are hashes, so they are strings of bytes.
abbrev pub IsRequest : Request → Type 0
IsRequest (creates d) = HasBytes d
IsRequest (uploads id token commitment ct) = AreBytes token
IsRequest (fetches id token) = AreBytes token
IsRequest (opens id token) = AreBytes token
IsRequest (revokes id token) = AreBytes token
IsRequest (asks id) = Unit {0}

-- A request at a time, with that time and those of a new slot rounded down to milliseconds.
abbrev pub rounded : ℕ × Request → ℕ × Request
rounded (now, creates d) = (whole now, creates (whole_times d))
rounded (now, uploads id token commitment ct) = (whole now, uploads id token commitment ct)
rounded (now, fetches id token) = (whole now, fetches id token)
rounded (now, opens id token) = (whole now, opens id token)
rounded (now, revokes id token) = (whole now, revokes id token)
rounded (now, asks id) = (whole now, asks id)

answer-Agree :
    {A : Type 0} (f : A → Answer) (x : A × Redis) (y : A × Memory)
    → Agree x y
    → Agree (answer f x) (answer f y)
answer-Agree f (a, r) (b, m) h = agree (ap f h.answers) h.stores

serve-Agree :
    (now : ℕ) (q : Request) (r : Redis) (m : Memory)
    → IsRequest q
    → Related r m
    → Agree (serve_redis now q r) (serve_memory (rounded (now, q)).0 (rounded (now, q)).1 m)
unfolding serve_redis serve_memory
serve-Agree now (creates d) r m h rel = answer-Agree done _ _ (create-Agree d r m h rel)
serve-Agree now (uploads id token commitment ct) r m h rel =
    answer-Agree done _ _ (upload-Agree now id token h commitment ct r m rel)
serve-Agree now (fetches id token) r m h rel =
    answer-Agree sent _ _ (fetch-Agree now id token h r m rel)
serve-Agree now (opens id token) r m h rel =
    answer-Agree sent _ _ (open-Agree now id token h r m rel)
serve-Agree now (revokes id token) r m h rel =
    answer-Agree done _ _ (revoke-Agree now id token h r m rel)
serve-Agree now (asks id) r m h rel = answer-Agree described _ _ (status-Agree now id r m rel)

-- The answers to a sequence of requests.
pub answers : {S : Type 0} → (ℕ → Request → S → Answer × S) → List (ℕ × Request) → S → List Answer
answers serve [] s = []
answers serve ((now, q) ∷ qs) s = (serve now q s).0 ∷ answers serve qs (serve now q s).1

abbrev pub AreRequests : List (ℕ × Request) → Type 0
AreRequests [] = Unit {0}
AreRequests ((now, q) ∷ qs) = IsRequest q × AreRequests qs

-- From related stores, the Redis store answers every sequence of requests as the memory store does
-- the rounded one.
answers_refine :
    (qs : List (ℕ × Request)) (r : Redis) (m : Memory)
    → AreRequests qs
    → Related r m
    → answers serve_redis qs r ≡ answers serve_memory (map rounded qs) m
unfolding answers
answers_refine [] r m h rel = refl
answers_refine ((now, q) ∷ qs) r m h rel =
    let s = serve-Agree now q r m h.0 rel in
    cc (
      s.answers,
      answers_refine qs (serve_redis now q r).1
          (serve_memory (rounded (now, q)).0 (rounded (now, q)).1 m).1 h.1 s.stores,
    )

-- The store of a new server.
abbrev pub new_redis : StoreOptions → Redis
new_redis o = record {
  opts = with_defaults o;
  slots = [];
  expiry = [];
  removal = [];
  live = 0;
  bytes = 0;
}

-- A new Redis store answers every sequence of requests as a new memory store with the same options
-- answers that sequence with the time of every request and the times of every created slot rounded
-- down to whole milliseconds, as long as no sweep runs and no slot is evicted.
pub new_answers_refine :
    (o : StoreOptions) (qs : List (ℕ × Request))
    → AreRequests qs
    → answers serve_redis qs (new_redis o) ≡ answers serve_memory (map rounded qs) (new_memory o)
unfolding new_memory lookup
new_answers_refine o qs h =
    answers_refine qs (new_redis o) (new_memory o) h
      (record { slots = λ k. tt; live = refl; bytes = refl; opts = refl })
