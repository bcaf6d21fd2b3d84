-- ===== src/Agent/Send/Opened.antt =====
-- What the human finds behind a link that `Send` made.
use burndrop.Common.{Bytes, some, length, not, ◌≡◌, sym, ap, ◌∙◌}
use burndrop.Crypto.Envelope.{Envelope, secret_bytes, set_secret, reveal_aad}
use burndrop.Crypto.Envelope.RoundTrip.{secret_bytes-set_secret}
use burndrop.Crypto.Sealed.{decrypt_envelope}
use burndrop.Crypto.Sealed.RoundTrip.{AreLawful, IsReadBack, decrypt-encrypt}
use burndrop.Agent.Send.{SendInput, reveal_envelope, encrypted}
use burndrop.Agent.Send.Slots.{Sealed}
use burndrop.Agent.World.{Env, World}
use burndrop.Crypto.Base64.RoundTrip.{AreBytes}

module _ {S R : Type 0} (env : Env S R) where
  -- With lawful ciphers, an envelope that the reader reads back, a nonce of 24 bytes and a value of bytes: the
  -- ciphertext that `Send` gives to the relay decrypts, under the key that it was made with and the additional
  -- data that the link tells of, to an envelope whose secret is the value that the store has.
  pub sealed-opens :
      (input : SendInput) (w : World S R) (s : Sealed env input w) (nonce : Bytes)
      → AreLawful env.primitives
      → IsReadBack env.primitives (set_secret s.value (reveal_envelope input.name))
      → AreBytes s.value
      → s.nonce ≡ some nonce
      → length nonce ≡ 24
      → (e : Envelope) × (decrypt_envelope env.primitives s.enc_key s.ct
            (reveal_aad input.name (not input.delete_after))
          ≡ some e)
        × (secret_bytes e ≡ some s.value)
  unfolding encrypted
  sealed-opens input w s nonce laws reads bytes n l =
      let e = set_secret s.value (reveal_envelope input.name) in
      (
        e,
        decrypt-encrypt env.primitives s.enc_key (reveal_aad input.name (not input.delete_after))
            nonce s.ct e laws reads l
            (ap (λ r. encrypted env input s.value s.enc_key r) (sym n) ∙ s.is_encrypted),
        (secret_bytes-set_secret s.value (reveal_envelope input.name) bytes).0,
      )
