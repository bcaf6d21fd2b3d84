-- ===== src/Crypto/Envelope.antt =====
-- internal/crypto/envelope.go: the envelope's checks, and how it carries a secret. The JSON of an
-- envelope is left out; whether a text is an RFC 3339 time is a parameter.
pub mod RoundTrip
use burndrop.Common.{
  suc, ℕ, Bytes, codes, bytes_eq, Bool, true, false, not, ◌&&◌, ◌||◌, Option, none, some, List, [],
  ◌∷◌, ◌++◌, length, ltb, leb, ◌==◌, if◌then◌else◌,
}
use burndrop.Crypto.Base64.{encode, decode}
use burndrop.Crypto.Text.{between, valid_utf8, valid_name, valid_text, valid_retention}

pub record Envelope : Type 0 where
  pub v : ℕ
  pub kind : Bytes
  pub name : Bytes
  pub purpose : Bytes
  pub storage : Bytes
  pub retention : Bytes
  pub fingerprint : Bytes
  pub format : Bytes
  pub secret : Bytes

unfoldable pub is_hex : ℕ → Bool
unfolding between
is_hex c = between b'0' b'9' c || between b'a' b'f' c

-- The expression `fingerprintRe`, group by group; the argument counts the groups after this one.
unfoldable pub matches_groups : ℕ → Bytes → Bool
unfolding is_hex
matches_groups ℕ.zero (a ∷ b ∷ c ∷ d ∷ []) = is_hex a && is_hex b && is_hex c && is_hex d
matches_groups (suc n) (a ∷ b ∷ c ∷ d ∷ e ∷ s) =
    is_hex a && is_hex b && is_hex c && is_hex d && (e == b'-') && matches_groups n s
matches_groups _ _ = false

unfoldable pub is_some : Option Bytes → Bool
is_some none = false
is_some (some b) = true

unfoldable pub valid_secret : Envelope → Bool
unfolding is_some valid_utf8
valid_secret e =
    if bytes_eq e.format (codes "base64") then is_some (decode e.secret) else valid_utf8 e.secret

unfoldable pub valid_envelope : (Bytes → Bool) → Envelope → Bool
unfolding valid_name valid_text valid_retention matches_groups valid_secret
valid_envelope is_rfc3339 e =
    if not (e.v == 1)
    then false
    else if not (bytes_eq e.kind (codes "drop") || bytes_eq e.kind (codes "reveal"))
    then false
    else if not (bytes_eq e.format (codes "text") || bytes_eq e.format (codes "base64"))
    then false
    else if not (valid_name e.name)
    then false
    else if not (valid_text e.purpose) || not (valid_text e.storage)
    then false
    else if bytes_eq e.kind (codes "drop")
    then valid_retention is_rfc3339 e.retention && matches_groups 3 e.fingerprint && valid_secret e
    else if not (
        (length e.retention == 0)
        && (length e.fingerprint == 0)
        && (length e.purpose == 0)
        && (length e.storage == 0))
    then false
    else valid_secret e

unfoldable pub secret_bytes : Envelope → Option Bytes
secret_bytes e = if bytes_eq e.format (codes "base64") then decode e.secret else some e.secret

unfoldable pub has_binary_control : Bytes → Bool
has_binary_control [] = false
has_binary_control (c ∷ b) =
    (ltb c 0x20 && not (c == 9) && not (c == 10) && not (c == 13)) || has_binary_control b

unfoldable pub set_secret : Bytes → Envelope → Envelope
unfolding valid_utf8 has_binary_control
set_secret value e =
    if valid_utf8 value && not (has_binary_control value)
    then record e { format = codes "text"; secret = value }
    else record e { format = codes "base64"; secret = encode value }

unfoldable pub reveal_aad : Bytes → Bool → Bytes
reveal_aad name keeps_copy =
    let c = if keeps_copy then codes "1" else codes "0" in
    codes "burndrop/reveal/v1\n" ++ name ++ codes "\n" ++ c
