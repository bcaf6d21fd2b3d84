-- ===== src/Crypto/Tokens/Canonical.antt =====
-- A token or commitment that is accepted is the encoding of its bytes, letter by letter.
use burndrop.Common.{
  ℕ, ◌+◌, ◌*◌, ◌/◌, ◌≤◌, Bytes, true, Bool-cases, Option, none, some, [], ◌∷◌, length, ◌≡◌, ◌↔◌,
  inl, inr, refl, sym, ap, ◌∙◌, subst, arith,
}
use burndrop.Crypto.Base64.{encode, decode, is_newline, strip_newlines}
use burndrop.Crypto.Base64.RoundTrip.{AreBytes, decode-encode, encode-decode}
use burndrop.Crypto.Tokens.{has_length, valid_token, valid_commitment}

pub length-encode : (bs : Bytes) → length (encode bs) ≡ (length bs * 4 + 2) / 3
unfolding encode
length-encode [] = refl
length-encode (a ∷ []) = refl
length-encode (a ∷ b ∷ []) = refl
length-encode (a ∷ b ∷ c ∷ rest) = omega (arith, length-encode rest)

length-strip_newlines : (s : Bytes) → length (strip_newlines s) ≤ length s
unfolding strip_newlines
length-strip_newlines [] = omega arith
length-strip_newlines (c ∷ s) = ground (arith, length-strip_newlines s)

-- A text that keeps its length has no line breaks.
strip_newlines_same : (s : Bytes) → length (strip_newlines s) ≡ length s → strip_newlines s ≡ s
unfolding strip_newlines
strip_newlines_same [] e = refl
strip_newlines_same (c ∷ s) e = elim (Bool-cases (is_newline c)) [
  | inl h ↦ absurd (ground (arith, length-strip_newlines s))
  | inr h ↦ ground (arith, strip_newlines_same s)
]

-- The texts that encode `n` bytes.
abbrev pub IsEncoding : ℕ → Bytes → Type 0
IsEncoding n s = (bs : Bytes) × AreBytes bs × (length bs ≡ n) × (s ≡ encode bs)

decodes-IsEncoding :
    (n : ℕ) (s : Bytes) (o : Option Bytes)
    → decode s ≡ o
    → length s ≡ (n * 4 + 2) / 3
    → has_length n o ≡ true
    → IsEncoding n s
unfolding has_length
decodes-IsEncoding n s none e l h = cc
decodes-IsEncoding n s (some bs) e l h =
    let (text, bytes) = encode-decode s bs e in
    let size : length bs ≡ n = ground arith in
    let same : length (strip_newlines s) ≡ length s =
      ap length (sym text) ∙ length-encode bs ∙ ap (λ k. (k * 4 + 2) / 3) size ∙ sym l in
    (bs, bytes, size, sym (strip_newlines_same s same) ∙ sym text)

IsEncoding-decodes :
    (n : ℕ) (s : Bytes)
    → IsEncoding n s
    → (length s ≡ (n * 4 + 2) / 3) × (has_length n (decode s) ≡ true)
unfolding has_length
IsEncoding-decodes n s (bs, bytes, size, text) =
    let known : decode s ≡ some bs = ap decode text ∙ decode-encode bs bytes in
    (
      ap length text ∙ length-encode bs ∙ ap (λ k. (k * 4 + 2) / 3) size,
      subst (λ o. has_length n o ≡ true) (sym known) (ground arith),
    )

-- A text is accepted as a token exactly if it is the encoding of 16 bytes.
pub valid_token_iff : (s : Bytes) → (valid_token s ≡ true) ↔ IsEncoding 16 s
unfolding valid_token
valid_token_iff s = (
  λ h. decodes-IsEncoding 16 s (decode s) refl (ground arith) (ground arith),
  λ e. let (l, h) = IsEncoding-decodes 16 s e in ground (arith, l, h),
)

-- A text is accepted as a commitment exactly if it is the encoding of 32 bytes.
valid_commitment_iff : (s : Bytes) → (valid_commitment s ≡ true) ↔ IsEncoding 32 s
unfolding valid_commitment
valid_commitment_iff s = (
  λ h. decodes-IsEncoding 32 s (decode s) refl (ground arith) (ground arith),
  λ e. let (l, h) = IsEncoding-decodes 32 s e in ground (arith, l, h),
)
