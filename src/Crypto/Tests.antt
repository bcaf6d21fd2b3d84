-- ===== src/Crypto/Tests.antt =====
-- Runs of internal/crypto, and its theorems at concrete inputs.
use burndrop.Common.{codes, ◌≡◌, refl, true, some, [], ◌∷◌, arith}
use burndrop.Crypto.Base64.{encode, decode, strip_newlines}
use burndrop.Crypto.Base64.RoundTrip.{AreBytes, encode-decode}
use burndrop.Crypto.Envelope.{Envelope, secret_bytes, set_secret, valid_secret}
use burndrop.Crypto.Envelope.RoundTrip.{secret_bytes-set_secret}
use burndrop.Crypto.Padding.{unpad}

with_newline : decode (codes "aG\nk") ≡ some (104 ∷ 105 ∷ [])
unfolding decode
with_newline = refl

encode-decode_example :
    (encode (104 ∷ 105 ∷ []) ≡ strip_newlines (codes "aG\nk")) × AreBytes (104 ∷ 105 ∷ [])
encode-decode_example = encode-decode (codes "aG\nk") (104 ∷ 105 ∷ []) with_newline

unpadded : unpad (104 ∷ 128 ∷ 0 ∷ 0 ∷ []) 4 ≡ some (104 ∷ [])
unfolding unpad
unpadded = refl

abbrev note : Envelope
note = record {
  v = 1;
  kind = codes "reveal";
  name = codes "n";
  purpose = [];
  storage = [];
  retention = [];
  fingerprint = [];
  format = [];
  secret = [];
}

secret_bytes-set_secret_example :
    (secret_bytes (set_secret (0 ∷ 200 ∷ []) note) ≡ some (0 ∷ 200 ∷ []))
    × (valid_secret (set_secret (0 ∷ 200 ∷ []) note) ≡ true)
secret_bytes-set_secret_example =
    secret_bytes-set_secret (0 ∷ 200 ∷ []) note (omega arith, (omega arith, tt))
