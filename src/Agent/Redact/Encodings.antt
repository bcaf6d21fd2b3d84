-- ===== src/Agent/Redact/Encodings.antt =====
-- The encodings that internal/agent/redact.go registers: base64 in four variants, hexadecimal, the two
-- escapings of net/url, the inside of the JSON text, and the text without the spaces round it.
use burndrop.Common.{
  ℕ, ◌+◌, ◌-◌, ◌/◌, ◌%◌, Bytes, not, ◌&&◌, ◌||◌, List, [], ◌∷◌, ◌++◌, length, take, drop, ltb, ◌==◌,
  if◌then◌else◌,
}
use burndrop.Crypto.Base64
use burndrop.Crypto.Trim.{trim_space}
use burndrop.Link.Query
use burndrop.Link.Query.{is_unreserved, hex_digit}
use burndrop.Storage.StdBase64
use burndrop.Storage.StdBase64.{pad_4}

-- hex.EncodeToString
unfoldable pub lower_hex_digit : ℕ → ℕ
lower_hex_digit n = if ltb n 10 then n + b'0' else n - 10 + b'a'

unfoldable pub hex : Bytes → Bytes
unfolding lower_hex_digit
hex [] = []
hex (c ∷ s) = lower_hex_digit (c / 16) ∷ lower_hex_digit (c % 16) ∷ hex s

-- url.PathEscape
unfoldable pub path_escape : Bytes → Bytes
path_escape [] = []
path_escape (c ∷ s) =
    let rest = path_escape s in
    if is_unreserved c
      || (c == b'$')
      || (c == b'&')
      || (c == b'+')
      || (c == b'=')
      || (c == b':')
      || (c == b'@')
    then c ∷ rest
    else b'%' ∷ hex_digit (c / 16) ∷ hex_digit (c % 16) ∷ rest

-- The JSON text without its quotes, unless it is the empty string.
unfoldable pub json_forms : Bytes → List Bytes
json_forms js = if ltb 2 (length js) then take (length js - 2) (drop 1 js) ∷ [] else []

unfoldable pub trimmed_forms : Bytes → List Bytes
unfolding trim_space
trimmed_forms value =
    let trimmed = trim_space value in
    if not (length trimmed == length value) && ltb 0 (length trimmed) then trimmed ∷ [] else []

unfoldable pub forms_of : (Bytes → Bytes) → Bytes → List Bytes
unfolding hex path_escape json_forms trimmed_forms
forms_of json_string value =
    (value
      ∷ StdBase64.encode value
      ∷ StdBase64.encode_raw value
      ∷ pad_4 (Base64.encode value)
      ∷ Base64.encode value
      ∷ hex value
      ∷ Query.escape value
      ∷ path_escape value
      ∷ json_forms (json_string value))
    ++ trimmed_forms value
