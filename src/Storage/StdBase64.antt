-- ===== src/Storage/StdBase64.antt =====
-- What internal/storage/dotenv.go and internal/agent/redact.go use of Go's base64.StdEncoding and
-- base64.URLEncoding: two alphabets, padding to groups of four, CR and LF skipped, and trailing bits ignored.
pub mod Padded
pub mod Ascii
use burndrop.Common.{
  ℕ, ◌+◌, ◌-◌, ◌*◌, ◌/◌, ◌%◌, Bytes, Bool, true, false, not, ◌&&◌, ◌||◌, Option, none, some, List,
  [], ◌∷◌, ltb, leb, ◌==◌, if◌then◌else◌,
}
use burndrop.Crypto.Base64.{◌>>=◌, strip_newlines}

unfoldable pub digit : ℕ → ℕ
digit n =
    if ltb n 26
    then n + b'A'
    else if ltb n 52
    then n - 26 + b'a'
    else if ltb n 62
    then n - 52 + b'0'
    else if n == 62
    then b'+'
    else b'/'

unfoldable pub value : ℕ → Option ℕ
value c =
    if leb b'A' c && leb c b'Z'
    then some (c - b'A')
    else if leb b'a' c && leb c b'z'
    then some (c - b'a' + 26)
    else if leb b'0' c && leb c b'9'
    then some (c - b'0' + 52)
    else if c == b'+'
    then some 62
    else if c == b'/'
    then some 63
    else none

-- Without padding, as base64.RawStdEncoding.
unfoldable pub encode_raw : Bytes → Bytes
encode_raw [] = []
encode_raw (a ∷ []) = digit (a / 4) ∷ digit (a % 4 * 16) ∷ []
encode_raw (a ∷ b ∷ []) = digit (a / 4) ∷ digit (a % 4 * 16 + b / 16) ∷ digit (b % 16 * 4) ∷ []
encode_raw (a ∷ b ∷ c ∷ rest) =
    digit (a / 4)
    ∷ digit (a % 4 * 16 + b / 16)
    ∷ digit (b % 16 * 4 + c / 64)
    ∷ digit (c % 64)
    ∷ encode_raw rest

-- Fills the last group with `=`, for either alphabet.
unfoldable pub pad_4 : Bytes → Bytes
pad_4 [] = []
pad_4 (c ∷ []) = c ∷ b'=' ∷ b'=' ∷ b'=' ∷ []
pad_4 (c ∷ d ∷ []) = c ∷ d ∷ b'=' ∷ b'=' ∷ []
pad_4 (c ∷ d ∷ e ∷ []) = c ∷ d ∷ e ∷ b'=' ∷ []
pad_4 (c ∷ d ∷ e ∷ f ∷ s) = c ∷ d ∷ e ∷ f ∷ pad_4 s

unfoldable pub encode : Bytes → Bytes
unfolding encode_raw pad_4
encode bs = pad_4 (encode_raw bs)

-- A group with two and with one character of padding.
unfoldable pub group_2 : ℕ → ℕ → Option Bytes
unfolding value
group_2 c d = do w ← value c; x ← value d; some ((w * 4 + x / 16) ∷ [])

unfoldable pub group_3 : ℕ → ℕ → ℕ → Option Bytes
unfolding value
group_3 c d e = do
  w ← value c
  x ← value d
  y ← value e
  some ((w * 4 + x / 16) ∷ (x % 16 * 16 + y / 4) ∷ [])

-- A group with padding is the last one.
unfoldable pub last_group : ℕ → ℕ → ℕ → ℕ → Bytes → Option Bytes
unfolding group_2 group_3
last_group c d e f (g ∷ s) = none
last_group c d e f [] =
    if not (e == b'=') then group_3 c d e else if f == b'=' then group_2 c d else none

unfoldable pub decode_groups : Bytes → Option Bytes
unfolding value last_group
decode_groups [] = some []
decode_groups (c ∷ d ∷ e ∷ f ∷ rest) =
    let tail = decode_groups rest in
    if (e == b'=') || (f == b'=') then last_group c d e f rest else do
      w ← value c
      x ← value d
      y ← value e
      z ← value f
      bs ← tail
      some ((w * 4 + x / 16) ∷ (x % 16 * 16 + y / 4) ∷ (y % 4 * 64 + z) ∷ bs)
decode_groups _ = none

unfoldable pub decode : Bytes → Option Bytes
unfolding decode_groups
decode s = decode_groups (strip_newlines s)
