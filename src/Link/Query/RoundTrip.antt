-- ===== src/Link/Query/RoundTrip.antt =====
-- Unescaping inverts escaping, and an escaped text has none of the separators.
use burndrop.Common.{
  ℕ, ◌/◌, ◌%◌, ◌<◌, ◌≢◌, Bytes, true, false, some, [], ◌∷◌, ◌==◌, ◌≡◌, inl, inr, Bool-cases, refl,
  ap, ◌∙◌, arith,
}
use burndrop.Crypto.Base64.RoundTrip.{AreBytes}
use burndrop.Link.Query.{is_unreserved, hex_digit, hex_value, escape, join_hex, keep, unescape}

hex_value-hex_digit : (n : ℕ) → n < 16 → hex_value (hex_digit n) ≡ some n
unfolding hex_value hex_digit
hex_value-hex_digit n h = ground arith

hex_digit_byte :
    (n : ℕ) → n < 16 → (hex_digit n ≢ b'&') × (hex_digit n ≢ b'=') × (hex_digit n ≢ b'#')
unfolding hex_digit
hex_digit_byte n h = ground arith

unreserved_byte :
    (c : ℕ)
    → is_unreserved c ≡ true
    → ((c == b'%') ≡ false) × ((c == b'+') ≡ false) × (c ≢ b'&') × (c ≢ b'=') × (c ≢ b'#')
unfolding is_unreserved
unreserved_byte c h = ground arith

-- A byte other than the percent sign is read alone.
unescape-plain : (c : ℕ) (s : Bytes) → (c == b'%') ≡ false → unescape (c ∷ s) ≡ keep c (unescape s)
unfolding unescape
unescape-plain c [] h = ground arith
unescape-plain c (d ∷ []) h = ground arith
unescape-plain c (d ∷ e ∷ s) h = ground arith

unescape-hex :
    (d e : ℕ) (s : Bytes)
    → unescape (b'%' ∷ d ∷ e ∷ s) ≡ join_hex (hex_value d) (hex_value e) (unescape s)
unfolding unescape
unescape-hex d e s = refl

-- Unescaping inverts escaping on every string of bytes.
pub unescape-escape : (s : Bytes) → AreBytes s → unescape (escape s) ≡ some s
unfolding escape unescape keep join_hex
unescape-escape [] h = refl
unescape-escape (c ∷ s) (lt, h) =
    let ih = unescape-escape s h in
    elim (Bool-cases (c == b' ')) [
      | inl space ↦ rw space (
          unescape-plain b'+' (escape s) refl
          ∙ ap (keep b'+') ih
          ∙ ap (λ x. some (x ∷ s)) (ground arith))
      | inr other ↦ elim (Bool-cases (is_unreserved c)) [
        | inl plain ↦
            let (percent, plus, _, _, _) = unreserved_byte c plain in
            rw (other, plain)
              (unescape-plain c (escape s) percent ∙ ap (keep c) ih ∙ ground (arith, plus))
        | inr coded ↦
            let high = hex_value-hex_digit (c / 16) (omega (arith, lt)) in
            let low = hex_value-hex_digit (c % 16) (omega arith) in
            rw (other, coded)
              (unescape-hex (hex_digit (c / 16)) (hex_digit (c % 16)) (escape s)
                ∙ rw (high, low, ih) (ap (λ x. some (x ∷ s)) (omega arith)))
      ]
    ]

-- The bytes of an escaped text: none is a separator of fields or of keys.
abbrev pub IsClean : Bytes → Type 0
IsClean [] = Unit {0}
IsClean (c ∷ s) = (c ≢ b'&') × (c ≢ b'=') × (c ≢ b'#') × IsClean s

pub escape-IsClean : (s : Bytes) → AreBytes s → IsClean (escape s)
unfolding escape
escape-IsClean [] h = tt
escape-IsClean (c ∷ s) (lt, h) =
    let ih = escape-IsClean s h in
    elim (Bool-cases (c == b' ')) [
      | inl space ↦ rw space (omega arith, omega arith, omega arith, ih)
      | inr other ↦ elim (Bool-cases (is_unreserved c)) [
        | inl plain ↦
            let (_, _, amp, eq, hash) = unreserved_byte c plain in
            rw (other, plain) (amp, eq, hash, ih)
        | inr coded ↦
            let (a, b, d) = hex_digit_byte (c / 16) (omega (arith, lt)) in
            let (a', b', d') = hex_digit_byte (c % 16) (omega arith) in
            rw (other, coded) (omega arith, omega arith, omega arith, (a, b, d, (a', b', d', ih)))
      ]
    ]
