-- ===== src/Storage/StdBase64/Padded.antt =====
-- The padded base64 text of a byte string decodes to the string.
use burndrop.Common.{
  ℕ, ◌+◌, ◌*◌, ◌/◌, ◌%◌, ◌<◌, Bytes, ◌==◌, ◌≡◌, refl, false, some, [], ◌∷◌, arith,
}
use burndrop.Crypto.Base64.{is_newline, strip_newlines}
use burndrop.Crypto.Base64.RoundTrip.{AreBytes}
use burndrop.Storage.StdBase64.{
  digit, value, encode_raw, pad_4, encode, group_2, group_3, last_group, decode_groups, decode,
}

value-digit : (n : ℕ) → n < 64 → value (digit n) ≡ some n
unfolding value digit
value-digit n h = ground arith

digit-ne-newline : (n : ℕ) → is_newline (digit n) ≡ false
unfolding digit is_newline
digit-ne-newline n = ground arith

digit-ne-pad : (n : ℕ) → (digit n == b'=') ≡ false
unfolding digit
digit-ne-pad n = ground arith

strip_newlines-encode : (bs : Bytes) → strip_newlines (encode bs) ≡ encode bs
unfolding strip_newlines encode encode_raw pad_4 is_newline
strip_newlines-encode [] = refl
strip_newlines-encode (a ∷ []) = simp digit-ne-newline
strip_newlines-encode (a ∷ b ∷ []) = simp digit-ne-newline
strip_newlines-encode (a ∷ b ∷ c ∷ rest) = simp (digit-ne-newline, strip_newlines-encode rest)

decode_groups-encode : (bs : Bytes) → AreBytes bs → decode_groups (encode bs) ≡ some bs
unfolding decode_groups encode encode_raw pad_4 group_2 group_3 last_group
decode_groups-encode [] h = refl
decode_groups-encode (a ∷ []) h =
    rw (value-digit (a / 4) (omega arith), value-digit (a % 4 * 16) (omega arith)) (ground arith)
decode_groups-encode (a ∷ b ∷ []) h =
    rw
      (
        digit-ne-pad (b % 16 * 4),
        value-digit (a / 4) (omega arith),
        value-digit (a % 4 * 16 + b / 16) (omega arith),
        value-digit (b % 16 * 4) (omega arith),
      )
      (ground arith)
decode_groups-encode (a ∷ b ∷ c ∷ rest) h =
    rw
      (
        digit-ne-pad (b % 16 * 4 + c / 64),
        digit-ne-pad (c % 64),
        value-digit (a / 4) (omega arith),
        value-digit (a % 4 * 16 + b / 16) (omega arith),
        value-digit (b % 16 * 4 + c / 64) (omega arith),
        value-digit (c % 64) (omega arith),
        decode_groups-encode rest h.1.1.1,
      )
      (ground arith)

pub decode-encode : (bs : Bytes) → AreBytes bs → decode (encode bs) ≡ some bs
unfolding decode
decode-encode bs h = rw strip_newlines-encode (decode_groups-encode bs h)
