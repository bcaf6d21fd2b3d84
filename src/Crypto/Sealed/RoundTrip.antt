-- ===== src/Crypto/Sealed/RoundTrip.antt =====
-- Envelopes that are encrypted and opened again.
use burndrop.Common.{
  ℕ, ◌+◌, ◌-◌, ◌%◌, ◌≤◌, Bytes, Bool, true, false, not, Option, none, some, [], ◌∷◌, ◌++◌, length,
  length-append, length-replicate, take, drop, replicate, ltb, if◌then◌else◌, ◌≡◌, refl, sym, ap,
  subst, ◌∙◌, arith,
}
use burndrop.Crypto.Base64.{◌>>=◌}
use burndrop.Crypto.Envelope.{Envelope, valid_envelope}
use burndrop.Crypto.Padding.{pad, unpad, pad_block}
use burndrop.Crypto.Padding.RoundTrip.{unpad-pad}
use burndrop.Crypto.Sealed.{
  Primitives, valid_or_none, decode_envelope, encode_envelope, padded, unpadded, open_sealed,
  open_envelope, seal_envelope, encrypt_aead, decrypt_aead, encrypt_envelope, decrypt_envelope,
}

module _ {A B : Type 0} where
  pub bind-some :
      (o : Option A) (f : A → Option B) (b : B)
      → (o >>= f) ≡ some b
      → (a : A) × (o ≡ some a) × (f a ≡ some b)
  bind-some none f b h = absurd cc
  bind-some (some a) f b h = (a, refl, h)

pub if_none-some :
    {A : Type 0} (b : Bool) (o : Option A) (a : A)
    → (if b then none else o) ≡ some a
    → (b ≡ false) × (o ≡ some a)
if_none-some true o a h = absurd cc
if_none-some false o a h = (refl, h)

if_none-false : {A : Type 0} (b : Bool) (o : Option A) → b ≡ false → (if b then none else o) ≡ o
if_none-false true o h = absurd cc
if_none-false false o h = refl

take-prefix : (xs ys : Bytes) → take (length xs) (xs ++ ys) ≡ xs
take-prefix [] ys = refl
take-prefix (x ∷ xs) ys = ap (λ l. x ∷ l) (take-prefix xs ys)

drop-prefix : (xs ys : Bytes) → drop (length xs) (xs ++ ys) ≡ ys
drop-prefix [] ys = refl
drop-prefix (x ∷ xs) ys = drop-prefix xs ys

pad-length : (plain : Bytes) → length (pad plain 256) ≤ length plain + 256
unfolding pad
pad-length plain =
    let zero_byte : ℕ = 0 in
    let rest = replicate (256 - length plain % 256 - 1) zero_byte in
    let k = length-append plain (0x80 ∷ rest) in
    let l = length-replicate (256 - length plain % 256 - 1) zero_byte in omega (arith, k, l)

-- What the ciphers are documented to do.
pub record AreLawful (p : Primitives) : Type 0 where
  pub aead_open-seal :
      (key nonce plain aad : Bytes)
      → p.aead_open key nonce (p.aead_seal key nonce plain aad) aad ≡ some plain
  pub length-aead_seal :
      (key nonce plain aad : Bytes) → length (p.aead_seal key nonce plain aad) ≡ length plain + 16
  pub open-seal_anonymous :
      (random plain r : Bytes)
      → p.open_anonymous
          (p.generate_key random).0
          (p.generate_key random).1
          (p.seal_anonymous (p.generate_key random).0 plain r)
        ≡ some plain
  pub length-seal_anonymous :
      (public plain r : Bytes) → length (p.seal_anonymous public plain r) ≡ length plain + 48

unnegated : (b : Bool) → not b ≡ false → b ≡ true
unnegated b h = ground arith

same_some : {A : Type 0} (a b : A) → ◌≡◌ {A = Option A} (some a) (some b) → a ≡ b
same_some a b h = cc

not_less : (a b : ℕ) → b ≤ a → ltb a b ≡ false
not_less a b h = ground arith

small_length : (s : Bytes) → ltb 65536 (length s) ≡ false → length s ≤ 65536
small_length s h = ground arith

module _ (p : Primitives) where
  abbrev IsOk : Envelope → Type 0
  IsOk e = valid_envelope p.is_rfc3339 e ≡ true

  -- The reader of envelopes reads back what was printed.
  abbrev pub IsReadBack : Envelope → Type 0
  IsReadBack e = p.read_envelope (p.print_envelope e) ≡ some e

  valid_or_none-some : (e e' : Envelope) → valid_or_none p e ≡ some e' → IsOk e'
  unfolding valid_or_none
  valid_or_none-some e e' h =
      let (v, same) = if_none-some (not (valid_envelope p.is_rfc3339 e)) (some e) e' h in
      subst IsOk (same_some e e' same) (unnegated (valid_envelope p.is_rfc3339 e) v)

  -- An envelope that opens is valid.
  pub opened_valid :
      (public private ct : Bytes) (e : Envelope)
      → open_envelope p public private ct ≡ some e
      → valid_envelope p.is_rfc3339 e ≡ true
  unfolding open_envelope unpadded decode_envelope
  opened_valid public private ct e h =
      let (f, h0) =
        if_none-some (ltb 65840 (length ct)) (open_sealed p public private ct >>= unpadded p) e h in
      let (plain, o, h1) = bind-some (open_sealed p public private ct) (unpadded p) e h0 in
      let (b, u, h2) = bind-some (unpad plain pad_block) (decode_envelope p) e h1 in
      let (e', g, h3) = bind-some (p.read_envelope b) (valid_or_none p) e h2 in
      valid_or_none-some e' e h3

  padded-text :
      (e : Envelope) (plain : Bytes)
      → padded p e ≡ some plain
      → IsOk e × (length (p.print_envelope e) ≤ 65536) × (pad (p.print_envelope e) 256 ≡ plain)
  unfolding padded encode_envelope
  padded-text e plain h =
      let (text, enc, h1) = bind-some (encode_envelope p e) _ plain h in
      let (invalid, printed) = if_none-some (not (valid_envelope p.is_rfc3339 e)) _ text enc in
      let (small, same) = if_none-some (ltb 65536 (length text)) _ plain h1 in
      let is_text = same_some (p.print_envelope e) text printed in
      (
        unnegated (valid_envelope p.is_rfc3339 e) invalid,
        subst (λ t. length t ≤ 65536) (sym is_text) (small_length text small),
        ap (λ t. pad t 256) is_text ∙ same_some (pad text 256) plain same,
      )

  read_padded :
      (e : Envelope) → IsReadBack e → IsOk e → unpadded p (pad (p.print_envelope e) 256) ≡ some e
  unfolding unpadded decode_envelope valid_or_none
  read_padded e reads ok =
      ap (λ o. o >>= decode_envelope p) (unpad-pad (p.print_envelope e) 256 (omega arith))
      ∙ ap (λ o. o >>= valid_or_none p) reads
      ∙ if_none-false (not (valid_envelope p.is_rfc3339 e)) (some e) (ap not ok)

  -- What is padded is at most the largest envelope and a block, and it is read back.
  padded-read :
      (e : Envelope) (plain : Bytes)
      → IsReadBack e
      → padded p e ≡ some plain
      → (length plain ≤ 65792) × (unpadded p plain ≡ some e)
  padded-read e plain reads h =
      let (ok, small, same) = padded-text e plain h in
      let l : length (pad (p.print_envelope e) 256) ≤ 65792 =
        omega (arith, pad-length (p.print_envelope e), small) in
      (
        subst (λ t. length t ≤ 65792) same l,
        subst (λ t. unpadded p t ≡ some e) same (read_padded e reads ok),
      )

  decrypt-blob :
      (key aad nonce plain : Bytes) (e : Envelope)
      → AreLawful p
      → length nonce ≡ 24
      → length plain ≤ 65792
      → unpadded p plain ≡ some e
      → decrypt_envelope p key (nonce ++ p.aead_seal key nonce plain aad) aad ≡ some e
  unfolding decrypt_envelope decrypt_aead
  decrypt-blob key aad nonce plain e laws n small read =
      let sealed = p.aead_seal key nonce plain aad in
      let total : length (nonce ++ sealed) ≡ length plain + 40 =
        omega (arith, length-append nonce sealed, laws.length-aead_seal key nonce plain aad, n) in
      let head = subst (λ k. take k (nonce ++ sealed) ≡ nonce) n (take-prefix nonce sealed) in
      let tail = subst (λ k. drop k (nonce ++ sealed) ≡ sealed) n (drop-prefix nonce sealed) in
      if_none-false (ltb 65832 (length (nonce ++ sealed))) _
        (not_less 65832 (length (nonce ++ sealed)) (omega (arith, total, small)))
      ∙ ap (λ o. o >>= unpadded p)
          (if_none-false (ltb (length (nonce ++ sealed)) 40) _
              (not_less (length (nonce ++ sealed)) 40 (omega (arith, total)))
            ∙ ap (λ a. p.aead_open key a (drop 24 (nonce ++ sealed)) aad) head
            ∙ ap (λ b. p.aead_open key nonce b aad) tail
            ∙ laws.aead_open-seal key nonce plain aad)
      ∙ read

  -- With lawful ciphers, and an envelope that the reader reads back: an envelope that was encrypted with a nonce of 24 bytes is decrypted with the same
  -- key and the same additional data to what it was.
  pub decrypt-encrypt :
      (key aad nonce ct : Bytes) (e : Envelope)
      → AreLawful p
      → IsReadBack e
      → length nonce ≡ 24
      → encrypt_envelope p key e aad (some nonce) ≡ some ct
      → decrypt_envelope p key ct aad ≡ some e
  unfolding encrypt_envelope encrypt_aead
  decrypt-encrypt key aad nonce ct e laws reads n h =
      let (plain, was_padded, h1) = bind-some (padded p e) _ ct h in
      let (small, read) = padded-read e plain reads was_padded in
      let blob = nonce ++ p.aead_seal key nonce plain aad in
      let made : decrypt_envelope p key blob aad ≡ some e =
        decrypt-blob key aad nonce plain e laws n small read in
      subst (λ c. decrypt_envelope p key c aad ≡ some e)
        (same_some (nonce ++ p.aead_seal key nonce plain aad) ct h1) made

  open-sealed :
      (random r plain : Bytes) (e : Envelope)
      → AreLawful p
      → length plain ≤ 65792
      → unpadded p plain ≡ some e
      → open_envelope p
          (p.generate_key random).0
          (p.generate_key random).1
          (p.seal_anonymous (p.generate_key random).0 plain r)
        ≡ some e
  unfolding open_envelope open_sealed
  open-sealed random r plain e laws small read =
      let public = (p.generate_key random).0 in
      let sealed = p.seal_anonymous public plain r in
      let total = laws.length-seal_anonymous public plain r in
      if_none-false (ltb 65840 (length sealed)) _
        (not_less 65840 (length sealed) (omega (arith, total, small)))
      ∙ ap (λ o. o >>= unpadded p)
          (if_none-false (ltb (length sealed) 48) _
              (not_less (length sealed) 48 (omega (arith, total)))
            ∙ laws.open-seal_anonymous random plain r)
      ∙ read

  -- With lawful ciphers, and an envelope that the reader reads back: an envelope that was sealed for the public key of a generated pair is opened with
  -- that pair to what it was.
  pub open-seal :
      (random r ct : Bytes) (e : Envelope)
      → AreLawful p
      → IsReadBack e
      → seal_envelope p (p.generate_key random).0 e (some r) ≡ some ct
      → open_envelope p (p.generate_key random).0 (p.generate_key random).1 ct ≡ some e
  unfolding seal_envelope
  open-seal random r ct e laws reads h =
      let (plain, was_padded, h1) = bind-some (padded p e) _ ct h in
      let (small, read) = padded-read e plain reads was_padded in
      subst (λ c. open_envelope p (p.generate_key random).0 (p.generate_key random).1 c ≡ some e)
        (same_some (p.seal_anonymous (p.generate_key random).0 plain r) ct h1)
        (open-sealed random r plain e laws small read)
