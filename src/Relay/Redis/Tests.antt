-- ===== src/Relay/Redis/Tests.antt =====
-- A slot that the server evicted, and a drop on both stores (internal/relay/redis_store.go).
use burndrop.Common.{ℕ, ◌+◌, codes, lookup, none, false, List, [], ◌∷◌, map, ◌≡◌, refl, arith}
use burndrop.Relay.Slot.{Drop, drop, reveal, created, ok, is_terminal}
use burndrop.Relay.Memory.{StoreOptions, new_memory, with_defaults}
use burndrop.Relay.Redis.Refinement.{
  Request, creates, uploads, fetches, asks, answers, serve_redis, serve_memory, new_redis, rounded,
  new_answers_refine,
}
use burndrop.Relay.Redis.{Redis}
use burndrop.Relay.Redis.Scripts.{create, expire, remove, evict}
use burndrop.Relay.Redis.Eviction.{sweep-evict}

abbrev asked : Drop
asked = record {
  id = codes "a";
  kind = drop;
  state = created;
  ciphertext = [];
  commitment = codes "key";
  token_a = 1 ∷ [];
  token_b = 2 ∷ [];
  agent_key_id = [];
  created_at = 10000500;
  expires_at = 50000900;
  uploaded_at = 0;
  fetched_at = 0;
  revoked_at = 0;
}

abbrev requests : List (ℕ × Request)
requests =
    (10000300, creates asked)
    ∷ (12000300, uploads (codes "a") (1 ∷ []) (codes "key") (7 ∷ []))
    ∷ (14000300, fetches (codes "a") (2 ∷ []))
    ∷ (16000300, asks (codes "a"))
    ∷ []

abbrev limits : StoreOptions
limits = record { max_live = 1; max_bytes = 10; tombstone_grace = 3000000 }

-- A reveal with a ciphertext of two bytes.
abbrev sealed : Drop
sealed = record asked { id = codes "r"; kind = reveal; ciphertext = 1 ∷ 2 ∷ [] }

abbrev grown : Redis
grown = (create sealed (new_redis limits)).1

sealed_here : is_terminal sealed.state ≡ false
unfolding is_terminal
sealed_here = refl

sealed_created : (create sealed (new_redis limits)).0 ≡ ok tt
unfolding create with_defaults lookup
sealed_created = refl

sweep-evict_example :
    ((remove (codes "r") (expire 60000000 (codes "r") (evict (codes "r") grown)).0).0.live
      ≡ (new_redis limits).live + 1)
    × ((remove (codes "r") (expire 60000000 (codes "r") (evict (codes "r") grown)).0).0.bytes
        ≡ (new_redis limits).bytes + 2)
    × (lookup
          (codes "r")
          (remove (codes "r") (expire 60000000 (codes "r") (evict (codes "r") grown)).0).0.slots
        ≡ none)
    × ((remove (codes "r") (evict (codes "r") (expire 60000000 (codes "r") grown).0)).0.live
        ≡ (new_redis limits).live)
    × ((remove (codes "r") (evict (codes "r") (expire 60000000 (codes "r") grown).0)).0.bytes
        ≡ (new_redis limits).bytes)
    × (lookup
          (codes "r")
          (remove (codes "r") (evict (codes "r") (expire 60000000 (codes "r") grown).0)).0.slots
        ≡ none)
sweep-evict_example =
    sweep-evict 60000000 sealed (new_redis limits) sealed_created sealed_here (omega arith)

new_answers_refine_example :
    answers serve_redis requests (new_redis limits)
    ≡ answers serve_memory (map rounded requests) (new_memory limits)
new_answers_refine_example =
    new_answers_refine limits requests
      (((omega arith, tt), (omega arith, tt)), ((omega arith, tt), ((omega arith, tt), (tt, tt))))
