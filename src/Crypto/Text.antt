-- ===== src/Crypto/Text.antt =====
-- The text checks of internal/crypto/envelope.go, with what they use of unicode/utf8 and strings. A
-- text is its bytes. Whether a text is an RFC 3339 time is a parameter.
use burndrop.Common.{
  ℕ, zero, suc, ◌+◌, ◌-◌, ◌*◌, ◌%◌, Bytes, codes, bytes_eq, Bool, true, false, not, ◌&&◌, ◌||◌,
  Option, none, some, List, [], ◌∷◌, length, drop, ltb, leb, ◌==◌, if◌then◌else◌,
}

abbrev pub max_name_len : ℕ
max_name_len = 100

abbrev pub max_text_len : ℕ
max_text_len = 200

unfoldable pub between : ℕ → ℕ → ℕ → Bool
between lo hi c = leb lo c && leb c hi

unfoldable pub is_continuation : ℕ → Bool
is_continuation c = leb 0x80 c && leb c 0xBF

-- utf8.DecodeRune at a lead byte: the rune, unless the bytes are invalid, and its width.
unfoldable pub rune_2 : ℕ → Bytes → Option ℕ × ℕ
unfolding is_continuation
rune_2 c [] = (none, 1)
rune_2 c (d ∷ s) = if is_continuation d then (some (c % 32 * 64 + d % 64), 2) else (none, 1)

unfoldable pub second_of_3 : ℕ → ℕ → Bool
unfolding between
second_of_3 c d =
    if c == 0xE0
    then between 0xA0 0xBF d
    else if c == 0xED
    then between 0x80 0x9F d
    else between 0x80 0xBF d

unfoldable pub rune_3 : ℕ → Bytes → Option ℕ × ℕ
unfolding is_continuation second_of_3
rune_3 c (d ∷ e ∷ s) =
    if second_of_3 c d && is_continuation e
    then (some (c % 16 * 4096 + d % 64 * 64 + e % 64), 3)
    else (none, 1)
rune_3 c _ = (none, 1)

unfoldable pub second_of_4 : ℕ → ℕ → Bool
unfolding between
second_of_4 c d =
    if c == 0xF0
    then between 0x90 0xBF d
    else if c == 0xF4
    then between 0x80 0x8F d
    else between 0x80 0xBF d

unfoldable pub rune_4 : ℕ → Bytes → Option ℕ × ℕ
unfolding is_continuation second_of_4
rune_4 c (d ∷ e ∷ f ∷ s) =
    if second_of_4 c d && is_continuation e && is_continuation f
    then (some (c % 8 * 262144 + d % 64 * 4096 + e % 64 * 64 + f % 64), 4)
    else (none, 1)
rune_4 c _ = (none, 1)

unfoldable pub rune_at : ℕ → Bytes → Option ℕ × ℕ
unfolding rune_2 rune_3 rune_4 between
rune_at c s =
    if ltb c 0x80
    then (some c, 1)
    else if between 0xC2 0xDF c
    then rune_2 c s
    else if between 0xE0 0xEF c
    then rune_3 c s
    else if between 0xF0 0xF4 c
    then rune_4 c s
    else (none, 1)

-- `range` over a text. The first argument counts the bytes that belong to the rune before.
unfoldable pub runes_after : ℕ → Bytes → List (Option ℕ)
unfolding rune_at
runes_after k [] = []
runes_after zero (c ∷ s) = let (r, width) = rune_at c s in r ∷ runes_after (width - 1) s
runes_after (suc k) (c ∷ s) = runes_after k s

unfoldable pub runes : Bytes → List (Option ℕ)
unfolding runes_after
runes s = runes_after 0 s

-- utf8.ValidString
unfoldable pub all_valid : List (Option ℕ) → Bool
all_valid [] = true
all_valid (none ∷ rs) = false
all_valid (some r ∷ rs) = all_valid rs

unfoldable pub valid_utf8 : Bytes → Bool
unfolding all_valid runes
valid_utf8 s = all_valid (runes s)

-- unicode.IsSpace
unfoldable pub is_space : Option ℕ → Bool
unfolding between
is_space none = false
is_space (some r) =
    between 9 13 r
    || (r == 0x20)
    || (r == 0x85)
    || (r == 0xA0)
    || (r == 0x1680)
    || between 0x2000 0x200A r
    || (r == 0x2028)
    || (r == 0x2029)
    || (r == 0x202F)
    || (r == 0x205F)
    || (r == 0x3000)

-- strings.TrimSpace(name) != name: the first or the last rune is a space.
unfoldable pub last_is_space : List (Option ℕ) → Bool
unfolding is_space
last_is_space [] = false
last_is_space (r ∷ []) = is_space r
last_is_space (r ∷ q ∷ rs) = last_is_space (q ∷ rs)

unfoldable pub is_trimmable : List (Option ℕ) → Bool
unfolding last_is_space is_space
is_trimmable [] = false
is_trimmable (r ∷ rs) = is_space r || last_is_space (r ∷ rs)

-- The tests of the loops over runes; an invalid byte is U+FFFD there.
unfoldable pub is_control : Bool → Option ℕ → Bool
is_control newline none = false
is_control newline (some r) = (ltb r 0x20 && not (newline && (r == 10))) || (r == 0x7F)

unfoldable pub has_control : Bool → List (Option ℕ) → Bool
unfolding is_control
has_control newline [] = false
has_control newline (r ∷ rs) = is_control newline r || has_control newline rs

unfoldable pub valid_name : Bytes → Bool
unfolding runes is_trimmable has_control
valid_name name =
    if (length name == 0) || ltb max_name_len (length (runes name))
    then false
    else if is_trimmable (runes name)
    then false
    else if has_control false (runes name)
    then false
    else true

unfoldable pub valid_text : Bytes → Bool
unfolding runes valid_utf8 has_control
valid_text s =
    if ltb max_text_len (length (runes s))
    then false
    else if not (valid_utf8 s)
    then false
    else if has_control true (runes s)
    then false
    else true

-- strings.HasPrefix
unfoldable pub has_prefix : Bytes → Bytes → Bool
has_prefix [] s = true
has_prefix (p ∷ ps) [] = false
has_prefix (p ∷ ps) (c ∷ s) = (p == c) && has_prefix ps s

unfoldable pub valid_retention : (Bytes → Bool) → Bytes → Bool
unfolding has_prefix
valid_retention is_rfc3339 r =
    if bytes_eq r (codes "session") || bytes_eq r (codes "until-revoked")
    then true
    else if has_prefix (codes "until:") r
    then is_rfc3339 (drop 6 r)
    else false
