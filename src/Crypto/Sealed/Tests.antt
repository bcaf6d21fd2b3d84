-- ===== src/Crypto/Sealed/Tests.antt =====
-- The theorems on internal/crypto/crypto.go at ciphers that copy.
use burndrop.Crypto.Sealed.{seal_envelope}
use burndrop.Common.{
  ℕ, ◌+◌, Bytes, codes, bytes_eq, replicate, length, length-append, length-replicate, drop, true,
  some, [], ◌∷◌, ◌++◌, ◌≡◌, refl, arith,
}
use burndrop.Crypto.Envelope.{Envelope}
use burndrop.Crypto.Padding.{pad}
use burndrop.Crypto.Sealed.{Primitives, open_envelope}
use burndrop.Crypto.Sealed.RoundTrip.{AreLawful, open-seal}

abbrev reveal : Envelope
reveal = record {
  v = 1;
  kind = codes "reveal";
  name = codes "key";
  purpose = [];
  storage = [];
  retention = [];
  fingerprint = [];
  format = codes "text";
  secret = codes "value";
}

abbrev zeros : ℕ → Bytes
zeros n = replicate n 0

abbrev copying : Primitives
copying = record {
  sha256 = λ b. zeros 32;
  blake2b = λ b. zeros 32;
  argon2 = λ p s. zeros 32;
  generate_key = λ r. (zeros 32, zeros 32);
  seal_anonymous = λ k p r. zeros 48 ++ p;
  open_anonymous = λ k l s. some (drop 48 s);
  aead_seal = λ k n p a. zeros 16 ++ p;
  aead_open = λ k n c a. some (drop 16 c);
  print_envelope = λ e. 9 ∷ [];
  read_envelope = λ b. some reveal;
  is_rfc3339 = λ s. true;
}

length-zeros : (n : ℕ) (b : Bytes) → length (zeros n ++ b) ≡ length b + n
length-zeros n b =
    let zero_byte : ℕ = 0 in omega (arith, length-append (zeros n) b, length-replicate n zero_byte)

copying-AreLawful : AreLawful copying
copying-AreLawful = record {
  aead_open-seal = λ k n p a. refl;
  length-aead_seal = λ k n p a. length-zeros 16 p;
  open-seal_anonymous = λ r p s. refl;
  length-seal_anonymous = λ k p r. length-zeros 48 p;
}

open-seal_example :
    open_envelope copying (zeros 32) (zeros 32) (zeros 48 ++ pad (9 ∷ []) 256) ≡ some reveal
unfolding seal_envelope bytes_eq
open-seal_example =
    open-seal copying [] [] (zeros 48 ++ pad (9 ∷ []) 256) reveal copying-AreLawful refl refl
