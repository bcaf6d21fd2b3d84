-- ===== src/Relay/Auth/Tests.antt =====
-- A bearer header against one agent key (internal/relay/auth.go).
use burndrop.Common.{bytes_eq}
use burndrop.Crypto.Base64.{decode}
use burndrop.Crypto.Text.{rune_at}
use burndrop.Common.{Bytes, codes, true, some, [], ◌∷◌, ◌++◌, ◌≡◌, ◌↔◌, refl}
use burndrop.Relay.Auth.{AgentKey, parse_agent_keys, authenticate}
use burndrop.Relay.Auth.Bearer.{IsBearer, presented}
use burndrop.Relay.Auth.Known.{IsKeyHash, authenticate_iff}

-- A stand-in for SHA-256.
abbrev same_bytes : Bytes → Bytes
same_bytes s = s

abbrev token : Bytes
token = codes "abcdefghijklmnopqrstuvwxyz012345"

abbrev entry : Bytes
entry = codes " ci:sha256:YWJjZGVmZ2hpamtsbW5vcHFyc3R1dnd4eXowMTIzNDU ,"

abbrev key : AgentKey
key = record { id = codes "ci"; hash = token }

keys_parse : parse_agent_keys entry ≡ some (key ∷ [])
unfolding parse_agent_keys rune_at decode bytes_eq
keys_parse = refl

authenticate_runs :
    authenticate same_bytes true (key ∷ []) (codes "bearer  " ++ token) ≡ (codes "ci", true)
unfolding authenticate bytes_eq rune_at
authenticate_runs = refl

authenticate_iff_example :
    ((authenticate same_bytes true (key ∷ []) (codes "bearer  " ++ token)).1 ≡ true) ↔ (
      IsBearer (codes "bearer  " ++ token)
      × IsKeyHash (same_bytes (presented (codes "bearer  " ++ token))) (key ∷ []))
authenticate_iff_example =
    authenticate_iff same_bytes entry (codes "bearer  " ++ token) (key ∷ []) keys_parse
