-- ===== src/Link/Query.antt =====
-- url.QueryEscape and url.QueryUnescape, with which internal/link/link.go writes and reads the value of
-- a field.
pub mod RoundTrip
use burndrop.Common.{
  ℕ, ◌+◌, ◌-◌, ◌*◌, ◌/◌, ◌%◌, Bytes, Bool, ◌&&◌, ◌||◌, Option, none, some, List, [], ◌∷◌, ltb, leb,
  ◌==◌, if◌then◌else◌,
}

-- The bytes that stand for themselves.
unfoldable pub is_unreserved : ℕ → Bool
is_unreserved c =
    (leb b'A' c && leb c b'Z')
    || (leb b'a' c && leb c b'z')
    || (leb b'0' c && leb c b'9')
    || (c == b'-')
    || (c == b'_')
    || (c == b'.')
    || (c == b'~')

unfoldable pub hex_digit : ℕ → ℕ
hex_digit n = if ltb n 10 then n + b'0' else n - 10 + b'A'

unfoldable pub hex_value : ℕ → Option ℕ
hex_value c =
    if leb b'0' c && leb c b'9'
    then some (c - b'0')
    else if leb b'a' c && leb c b'f'
    then some (c - b'a' + 10)
    else if leb b'A' c && leb c b'F'
    then some (c - b'A' + 10)
    else none

unfoldable pub escape : Bytes → Bytes
unfolding is_unreserved
escape [] = []
escape (c ∷ s) =
    let rest = escape s in
    if c == b' '
    then b'+' ∷ rest
    else if is_unreserved c
    then c ∷ rest
    else b'%' ∷ hex_digit (c / 16) ∷ hex_digit (c % 16) ∷ rest

-- The byte of two hexadecimal digits before a text that is unescaped already.
unfoldable pub join_hex : Option ℕ → Option ℕ → Option Bytes → Option Bytes
join_hex (some x) (some y) (some s) = some ((x * 16 + y) ∷ s)
join_hex _ _ _ = none

unfoldable pub keep : ℕ → Option Bytes → Option Bytes
keep c none = none
keep c (some s) = some ((if c == b'+' then b' ' else c) ∷ s)

unfoldable pub unescape : Bytes → Option Bytes
unfolding join_hex keep hex_value
unescape [] = some []
unescape (c ∷ []) = if c == b'%' then none else keep c (some [])
unescape (c ∷ d ∷ []) = let rest = unescape (d ∷ []) in if c == b'%' then none else keep c rest
unescape (c ∷ d ∷ e ∷ s) =
    let rest = unescape (d ∷ e ∷ s) in
    let after = unescape s in
    if c == b'%' then join_hex (hex_value d) (hex_value e) after else keep c rest
