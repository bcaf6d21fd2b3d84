-- ===== src/Crypto/Base64.antt =====
-- `Encoding` of internal/crypto/crypto.go: Go's base64.RawURLEncoding.Strict(), which has no padding,
-- rejects trailing bits that are not zero, and skips CR and LF wherever they stand.
pub mod RoundTrip
use burndrop.Common.{
  ℕ, ◌+◌, ◌-◌, ◌*◌, ◌/◌, ◌%◌, Bytes, Bool, true, false, not, ◌&&◌, ◌||◌, Option, none, some, List,
  [], ◌∷◌, ltb, leb, ◌==◌, if◌then◌else◌,
}

-- The character of a six-bit digit.
unfoldable pub digit : ℕ → ℕ
digit n =
    if ltb n 26
    then n + b'A'
    else if ltb n 52
    then n - 26 + b'a'
    else if ltb n 62
    then n - 52 + b'0'
    else if n == 62
    then b'-'
    else b'_'

unfoldable pub value : ℕ → Option ℕ
value c =
    if leb b'A' c && leb c b'Z'
    then some (c - b'A')
    else if leb b'a' c && leb c b'z'
    then some (c - b'a' + 26)
    else if leb b'0' c && leb c b'9'
    then some (c - b'0' + 52)
    else if c == b'-'
    then some 62
    else if c == b'_'
    then some 63
    else none

unfoldable pub encode : Bytes → Bytes
encode [] = []
encode (a ∷ []) = digit (a / 4) ∷ digit (a % 4 * 16) ∷ []
encode (a ∷ b ∷ []) = digit (a / 4) ∷ digit (a % 4 * 16 + b / 16) ∷ digit (b % 16 * 4) ∷ []
encode (a ∷ b ∷ c ∷ rest) =
    digit (a / 4)
    ∷ digit (a % 4 * 16 + b / 16)
    ∷ digit (b % 16 * 4 + c / 64)
    ∷ digit (c % 64)
    ∷ encode rest

infixl 5 ◌>>=◌
abbrev pub ◌>>=◌ {ℓ κ} : {A : Type ℓ} {B : Type κ} → Option A → (A → Option B) → Option B
none >>= f = none
some a >>= f = f a

-- The bytes of a group of digits; a short last group must end in zero bits.
unfoldable pub group_2 : ℕ → ℕ → Option Bytes
group_2 w x = if x % 16 == 0 then some ((w * 4 + x / 16) ∷ []) else none

unfoldable pub group_3 : ℕ → ℕ → ℕ → Option Bytes
group_3 w x y = if y % 4 == 0 then some ((w * 4 + x / 16) ∷ (x % 16 * 16 + y / 4) ∷ []) else none

unfoldable pub decode_groups : Bytes → Option Bytes
unfolding group_2 group_3
decode_groups [] = some []
decode_groups (c ∷ []) = none
decode_groups (c ∷ d ∷ []) = do w ← value c; x ← value d; group_2 w x
decode_groups (c ∷ d ∷ e ∷ []) = do w ← value c; x ← value d; y ← value e; group_3 w x y
decode_groups (c ∷ d ∷ e ∷ f ∷ rest) =
    let tail = decode_groups rest in
    do
      w ← value c
      x ← value d
      y ← value e
      z ← value f
      bs ← tail
      some ((w * 4 + x / 16) ∷ (x % 16 * 16 + y / 4) ∷ (y % 4 * 64 + z) ∷ bs)

unfoldable pub is_newline : ℕ → Bool
is_newline c = c == 10 || c == 13

unfoldable pub strip_newlines : Bytes → Bytes
unfolding is_newline
strip_newlines [] = []
strip_newlines (c ∷ s) = let rest = strip_newlines s in if is_newline c then rest else c ∷ rest

unfoldable pub decode : Bytes → Option Bytes
unfolding value decode_groups strip_newlines
decode s = decode_groups (strip_newlines s)
