-- ===== src/Relay/Handlers/Tests.antt =====
-- A drop through the handlers (internal/relay/handlers.go).
use burndrop.Common.{
  ℕ, Bytes, codes, replicate, bytes_eq, lookup, insert, Option, true, some, [], ◌≡◌, refl,
}
use burndrop.Crypto.Base64.{encode, decode, digit}
use burndrop.Crypto.Tokens.{valid_token, valid_commitment}
use burndrop.Relay.Slot.{Hash, is_terminal}
use burndrop.Relay.Config.{Config, clamp_ttl}
use burndrop.Relay.Memory.{Memory, new_memory, create}
use burndrop.Relay.Memory.Methods.{upload, fetch}
use burndrop.Relay.Memory.History.{run}
use burndrop.Relay.Handlers.{
  Tokens, CreateDropRequest, UploadRequest, parsed, sent, now_uploaded, drop_created,
}
use burndrop.Relay.Handlers.Routes.{create_drop, upload_handler, fetch_handler}
use burndrop.Relay.Handlers.Delivery.{fetched-uploaded}

abbrev usual : Config
usual = record {
  default_ttl = 3600000000000;
  max_ttl = 86400000000000;
  max_ciphertext_bytes = 65840;
  max_waiters = 1000;
}

-- A stand-in for SHA-256.
abbrev same : Bytes → Hash
same b = b

abbrev token : ℕ → Bytes
token c = replicate 22 c

abbrev tokens : Tokens
tokens = record { id = token 65; a = token 103; b = token 119 }

abbrev commitment : Bytes
commitment = replicate 43 65

abbrev asked : CreateDropRequest
asked = record { ttl_seconds = 300; commitment = commitment }

empty : Memory
unfolding new_memory
empty = new_memory (record { max_live = 10; max_bytes = 1000; tombstone_grace = 5 })

created_reply :
    (create_drop same usual 10 (some tokens) (some (codes "key")) true (parsed asked) empty).0
    ≡ drop_created (token 65) (token 103) (token 119) (some 300)
unfolding create_drop empty decode valid_commitment create lookup clamp_ttl
created_reply = refl

ready : Memory
unfolding create_drop empty decode
ready = (create_drop same usual 10 (some tokens) (some (codes "key")) true (parsed asked) empty).1

abbrev filled : UploadRequest
filled = record {
  drop_id = token 65;
  upload_token = token 103;
  commitment = commitment;
  ciphertext = replicate 406 65;
}

uploaded_reply :
    (upload_handler same usual 1500000000 1500000000 true (parsed filled) ready).0 ≡ now_uploaded
unfolding upload_handler ready valid_token valid_commitment upload lookup create insert bytes_eq
    is_terminal clamp_ttl
uploaded_reply = refl

sent_reply :
    (fetch_handler same usual 1600000000 1600000000
      (some (codes "key"))
      true
      (parsed (record { drop_id = token 65; token = token 119 }))
      (run [] (upload_handler same usual 1500000000 1500000000 true (parsed filled) ready).1)).0
    ≡ sent (replicate 406 65) (some 1)
unfolding run upload_handler fetch_handler ready valid_token fetch lookup valid_commitment upload
    create insert bytes_eq is_terminal clamp_ttl encode digit
sent_reply = refl

fetched-uploaded_example :
    (decode (replicate 406 65) ≡ decode filled.ciphertext) × (◌≡◌ {A = Option ℕ} (some 1) (some 1))
fetched-uploaded_example =
    fetched-uploaded same usual 1500000000 1500000000 1600000000 1600000000 (some 1) true true
      (some (codes "key")) filled (token 119) (replicate 406 65) ready [] uploaded_reply tt
      sent_reply
