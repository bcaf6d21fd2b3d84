-- ===== src/Storage/StdBase64/Ascii.antt =====
-- A padded base64 text is ASCII, and so it is valid UTF-8.
use burndrop.Common.{ℕ, ◌+◌, ◌*◌, ◌/◌, ◌%◌, ◌<◌, Bytes, true, [], ◌∷◌, ◌≡◌, refl, arith}
use burndrop.Crypto.Text.{rune_at, runes_after, runes, all_valid, valid_utf8}
use burndrop.Storage.StdBase64.{digit, encode_raw, pad_4, encode}

abbrev IsAscii : Bytes → Type 0
IsAscii [] = Unit
IsAscii (c ∷ s) = (c < 128) × IsAscii s

IsAscii-valid : (s : Bytes) → IsAscii s → all_valid (runes_after 0 s) ≡ true
unfolding all_valid runes_after rune_at
IsAscii-valid [] h = refl
IsAscii-valid (c ∷ s) h = ground (arith, IsAscii-valid s h.1)

digit-ascii : (n : ℕ) → digit n < 128
unfolding digit
digit-ascii n = ground arith

encode_raw-IsAscii : (bs : Bytes) → IsAscii (encode_raw bs)
unfolding encode_raw
encode_raw-IsAscii [] = tt
encode_raw-IsAscii (a ∷ []) = (digit-ascii (a / 4), (digit-ascii (a % 4 * 16), tt))
encode_raw-IsAscii (a ∷ b ∷ []) =
    (digit-ascii (a / 4), (digit-ascii (a % 4 * 16 + b / 16), (digit-ascii (b % 16 * 4), tt)))
encode_raw-IsAscii (a ∷ b ∷ c ∷ rest) = (
  digit-ascii (a / 4),
  (
    digit-ascii (a % 4 * 16 + b / 16),
    (digit-ascii (b % 16 * 4 + c / 64), (digit-ascii (c % 64), encode_raw-IsAscii rest)),
  ),
)

pad_4-IsAscii : (s : Bytes) → IsAscii s → IsAscii (pad_4 s)
unfolding pad_4
pad_4-IsAscii [] h = tt
pad_4-IsAscii (c ∷ []) h = (h.0, (omega arith, (omega arith, (omega arith, tt))))
pad_4-IsAscii (c ∷ d ∷ []) h = (h.0, (h.1.0, (omega arith, (omega arith, tt))))
pad_4-IsAscii (c ∷ d ∷ e ∷ []) h = (h.0, (h.1.0, (h.1.1.0, (omega arith, tt))))
pad_4-IsAscii (c ∷ d ∷ e ∷ f ∷ s) h =
    (h.0, (h.1.0, (h.1.1.0, (h.1.1.1.0, pad_4-IsAscii s h.1.1.1.1))))

pub valid_utf8-encode : (bs : Bytes) → valid_utf8 (encode bs) ≡ true
unfolding valid_utf8 runes encode
valid_utf8-encode bs =
    IsAscii-valid (pad_4 (encode_raw bs)) (pad_4-IsAscii (encode_raw bs) (encode_raw-IsAscii bs))
