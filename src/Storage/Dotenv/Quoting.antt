-- ===== src/Storage/Dotenv/Quoting.antt =====
-- The keys and values of a .env file (internal/storage/dotenv.go): EnvKey, dotenvQuote, dotenvUnquote
-- and textual. EnvKey gets only checked names, whose characters are ASCII.
pub mod Unquoted
use burndrop.Common.{
  ℕ, zero, suc, ◌+◌, ◌-◌, Bytes, Bool, true, false, not, ◌&&◌, ◌||◌, Option, none, some, List, [],
  ◌∷◌, ◌++◌, length, take, drop, map, ltb, ◌==◌, if◌then◌else◌,
}
use burndrop.Crypto.Base64.{◌>>=◌}
use burndrop.Crypto.Text.{between, rune_at, runes, valid_utf8}

-- strings.ToUpper on an ASCII character.
unfoldable pub to_upper : ℕ → ℕ
unfolding between
to_upper c = if between b'a' b'z' c then c - 32 else c

unfoldable pub env_char : ℕ → ℕ
unfolding between
env_char c = if between b'A' b'Z' c || between b'0' b'9' c then c else b'_'

unfoldable pub env_key : Bytes → Bytes
unfolding env_char to_upper
env_key [] = []
env_key (c ∷ name) = env_char (to_upper c) ∷ env_key name

-- A character of a value; the first byte of a rune above 127 is itself.
unfoldable pub escape : ℕ → Bytes
escape c =
    if c == b'"'
    then b'\\' ∷ b'"' ∷ []
    else if c == b'\\'
    then b'\\' ∷ b'\\' ∷ []
    else if c == 10
    then b'\\' ∷ b'n' ∷ []
    else if c == 13
    then b'\\' ∷ b'r' ∷ []
    else if c == 9
    then b'\\' ∷ b't' ∷ []
    else if c == b'$'
    then b'\\' ∷ b'$' ∷ []
    else c ∷ []

-- An invalid byte is written as U+FFFD.
unfoldable pub quote_rune : Option ℕ → ℕ → Bytes
unfolding escape
quote_rune none c = 0xEF ∷ 0xBF ∷ 0xBD ∷ []
quote_rune (some r) c = escape c

-- The loop over the runes. The first argument counts the bytes that belong to the rune before.
unfoldable pub quote_after : ℕ → Bytes → Bytes
unfolding quote_rune
quote_after k [] = []
quote_after zero (c ∷ s) =
    let (r, width) = rune_at c s in quote_rune r c ++ quote_after (width - 1) s
quote_after (suc k) (c ∷ s) = c ∷ quote_after k s

unfoldable pub quote : Bytes → Bytes
unfolding quote_after
quote s = b'"' ∷ (quote_after 0 s ++ (b'"' ∷ []))

-- The character after a backslash.
unfoldable pub unescaped : ℕ → Option ℕ
unescaped c =
    if c == b'n'
    then some 10
    else if c == b'r'
    then some 13
    else if c == b't'
    then some 9
    else if (c == b'"') || (c == b'\\') || (c == b'$')
    then some c
    else none

-- The loop of dotenvUnquote. The flag is whether a backslash stands before.
unfoldable pub unescape_after : Bool → Bytes → Option Bytes
unfolding unescaped
unescape_after true [] = none
unescape_after false [] = some []
unescape_after true (c ∷ s) =
    let tail = unescape_after false s in do e ← unescaped c; bs ← tail; some (e ∷ bs)
unescape_after false (c ∷ s) =
    let tail = unescape_after (c == b'\\') s in
    if c == b'\\' then tail else (do bs ← tail; some (c ∷ bs))

-- The byte at an index; 0 stands for an index out of range, which the source never reads.
unfoldable pub at : ℕ → Bytes → ℕ
at i [] = 0
at zero (c ∷ s) = c
at (suc i) (c ∷ s) = at i s

unfoldable pub unquote : Bytes → Option Bytes
unfolding unescape_after at
unquote raw =
    if ltb (length raw) 2 || not (at 0 raw == b'"') || not (at (length raw - 1) raw == b'"')
    then none
    else unescape_after false (take (length raw - 2) (drop 1 raw))

-- The control characters that only base64 keeps.
unfoldable pub has_other_control : List (Option ℕ) → Bool
has_other_control [] = false
has_other_control (none ∷ rs) = has_other_control rs
has_other_control (some r ∷ rs) =
    (ltb r 0x20 && not (r == 10) && not (r == 13) && not (r == 9)) || has_other_control rs

unfoldable pub textual : Bytes → Bool
unfolding has_other_control runes
textual v = if not (valid_utf8 v) then false else not (has_other_control (runes v))
