-- ===== src/Crypto/Envelope/RoundTrip.antt =====
-- An envelope carries any secret, and carries it back.
use burndrop.Common.{Bytes, bytes_eq, true, not, ◌&&◌, some, Bool-cases, ◌≡◌, inl, inr, arith}
use burndrop.Crypto.Base64.RoundTrip.{AreBytes, decode-encode}
use burndrop.Crypto.Text.{valid_utf8}
use burndrop.Crypto.Envelope.{
  Envelope, is_some, valid_secret, secret_bytes, has_binary_control, set_secret,
}

-- The secret that was set is the secret that is read, and the envelope passes the check of its secret.
pub secret_bytes-set_secret :
    (value : Bytes) (e : Envelope)
    → AreBytes value
    → (secret_bytes (set_secret value e) ≡ some value) × (valid_secret (set_secret value e) ≡ true)
unfolding set_secret secret_bytes valid_secret is_some bytes_eq
secret_bytes-set_secret value e h =
    elim (Bool-cases (valid_utf8 value && not (has_binary_control value))) [
      | inl t ↦ ground (arith, t)
      | inr t ↦ let back = decode-encode value h in ground (arith, t, back)
    ]
