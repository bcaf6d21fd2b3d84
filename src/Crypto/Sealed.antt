-- ===== src/Crypto/Sealed.antt =====
-- internal/crypto/crypto.go and password.go: envelopes under encryption, fingerprints, commitments and the key
-- of a reveal with a password. The primitives of golang.org/x/crypto, SHA-256 and the JSON of an envelope are
-- parameters, and the random bytes of a call are an argument, `none` where the source of them fails. An error
-- is `none`. Overwriting a key with zeros takes no step.
pub mod RoundTrip
mod Tests
use burndrop.Common.{
  ℕ, ◌+◌, ◌/◌, ◌%◌, Bytes, codes, Bool, true, false, not, ◌||◌, Option, none, some, List, [], ◌∷◌,
  ◌++◌, length, take, drop, ltb, ◌==◌, if◌then◌else◌,
}
use burndrop.Crypto.Base64.{encode, ◌>>=◌}
use burndrop.Crypto.Envelope.{Envelope, valid_envelope}
use burndrop.Crypto.Padding.{pad, unpad, pad_block}

pub record Primitives : Type 0 where
  pub sha256 : Bytes → Bytes
  pub blake2b : Bytes → Bytes
  -- argon2.IDKey with the limits of password.go
  pub argon2 : Bytes → Bytes → Bytes
  -- box.GenerateKey: the public and the private key
  pub generate_key : Bytes → Bytes × Bytes
  pub seal_anonymous : Bytes → Bytes → Bytes → Bytes
  pub open_anonymous : Bytes → Bytes → Bytes → Option Bytes
  -- the key, the nonce, the text and the additional data
  pub aead_seal : Bytes → Bytes → Bytes → Bytes → Bytes
  pub aead_open : Bytes → Bytes → Bytes → Bytes → Option Bytes
  pub print_envelope : Envelope → Bytes
  pub read_envelope : Bytes → Option Envelope
  pub is_rfc3339 : Bytes → Bool

abbrev pub key_size : ℕ
key_size = 32

abbrev pub nonce_size : ℕ
nonce_size = 24

abbrev pub sealed_overhead : ℕ
sealed_overhead = 48

abbrev pub aead_overhead : ℕ
aead_overhead = 40

-- 64 * 1024
abbrev pub max_plaintext : ℕ
max_plaintext = 65536

abbrev pub salt_size : ℕ
salt_size = 16

-- A digit of hex.EncodeToString.
unfoldable pub hex_digit : ℕ → ℕ
hex_digit d = if ltb d 10 then d + b'0' else d + 87

unfoldable pub hex : Bytes → Bytes
unfolding hex_digit
hex [] = []
hex (c ∷ s) = hex_digit (c / 16) ∷ hex_digit (c % 16) ∷ hex s

-- s[i:j]
unfoldable pub slice : ℕ → ℕ → Bytes → Bytes
slice i n s = take n (drop i s)

unfoldable pub grouped : Bytes → Bytes
unfolding slice
grouped s =
    slice 0 4 s ++ codes "-" ++ slice 4 4 s ++ codes "-" ++ slice 8 4 s ++ codes "-" ++ slice 12 4 s

unfoldable pub key_from_bytes : Bytes → Option Bytes
key_from_bytes b = if not (length b == key_size) then none else some b

module _ (p : Primitives) where
  unfoldable pub fingerprint : Bytes → Bytes
  unfolding grouped hex
  fingerprint public = grouped (hex (take 8 (p.sha256 public)))

  unfoldable pub commitment : Bytes → Bytes
  commitment public = encode (p.sha256 public)

  -- `Encode` of an envelope.
  unfoldable pub encode_envelope : Envelope → Option Bytes
  unfolding valid_envelope
  encode_envelope e =
      if not (valid_envelope p.is_rfc3339 e) then none else some (p.print_envelope e)

  unfoldable pub valid_or_none : Envelope → Option Envelope
  unfolding valid_envelope
  valid_or_none e = if not (valid_envelope p.is_rfc3339 e) then none else some e

  unfoldable pub decode_envelope : Bytes → Option Envelope
  unfolding valid_or_none
  decode_envelope b = do e ← p.read_envelope b; valid_or_none e

  -- The plaintext of an envelope, before it is encrypted.
  unfoldable pub padded : Envelope → Option Bytes
  unfolding encode_envelope pad
  padded e = do
    plain ← encode_envelope e
    if ltb max_plaintext (length plain) then none else some (pad plain pad_block)

  unfoldable pub unpadded : Bytes → Option Envelope
  unfolding decode_envelope unpad
  unpadded b = do plain ← unpad b pad_block; decode_envelope plain

  unfoldable pub open_sealed : Bytes → Bytes → Bytes → Option Bytes
  open_sealed public private sealed =
      if ltb (length sealed) sealed_overhead then none else p.open_anonymous public private sealed

  unfoldable pub seal_envelope : Bytes → Envelope → Option Bytes → Option Bytes
  unfolding padded
  seal_envelope public e random = do
    plain ← padded e
    r ← random
    some (p.seal_anonymous public plain r)

  unfoldable pub open_envelope : Bytes → Bytes → Bytes → Option Envelope
  unfolding open_sealed unpadded
  open_envelope public private sealed =
      if ltb (max_plaintext + pad_block + sealed_overhead) (length sealed)
      then none
      else (do plain ← open_sealed public private sealed; unpadded plain)

  unfoldable pub encrypt_aead : Bytes → Bytes → Bytes → Option Bytes → Option Bytes
  encrypt_aead key plain aad random = do
    nonce ← random
    some (nonce ++ p.aead_seal key nonce plain aad)

  unfoldable pub decrypt_aead : Bytes → Bytes → Bytes → Option Bytes
  decrypt_aead key blob aad =
      if ltb (length blob) aead_overhead
      then none
      else p.aead_open key (take nonce_size blob) (drop nonce_size blob) aad

  unfoldable pub encrypt_envelope : Bytes → Envelope → Bytes → Option Bytes → Option Bytes
  unfolding padded encrypt_aead
  encrypt_envelope key e aad random = do plain ← padded e; encrypt_aead key plain aad random

  unfoldable pub decrypt_envelope : Bytes → Bytes → Bytes → Option Envelope
  unfolding decrypt_aead unpadded
  decrypt_envelope key blob aad =
      if ltb (max_plaintext + pad_block + aead_overhead) (length blob)
      then none
      else (do plain ← decrypt_aead key blob aad; unpadded plain)

  unfoldable pub password_key : Bytes → Bytes → Option Bytes
  password_key password salt =
      if (length password == 0) || not (length salt == salt_size)
      then none
      else some (p.argon2 password salt)

  unfoldable pub combine_keys : Bytes → Bytes → Bytes
  combine_keys link_key password_key =
      p.blake2b (codes "burndrop/reveal-password/v1" ++ link_key ++ password_key)

  unfoldable pub reveal_key_with_password : Bytes → Bytes → Bytes → Option Bytes
  unfolding password_key combine_keys
  reveal_key_with_password link_key password salt = do
    key ← password_key password salt
    some (combine_keys link_key key)
