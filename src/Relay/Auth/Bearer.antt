-- ===== src/Relay/Auth/Bearer.antt =====
-- The shape of a bearer header (internal/relay/auth.go), described apart from the code.
use burndrop.Common.{
  ℕ, zero, suc, ◌+◌, ◌≤◌, ◌<◌, Bytes, codes, bytes_eq_iff, true, false, ◌&&◌, [], ◌∷◌, length, take,
  drop, leb, ◌≡◌, ◌⊎◌, refl, ap, inl, inr, Bool-cases, arith,
}
use burndrop.Crypto.Text.{between}
use burndrop.Crypto.Trim.{trim_space}
use burndrop.Relay.Auth.{lower, token_of, is_bearer}

-- A text that reads as another one when the capitals of ASCII are taken for small letters.
abbrev pub Folds : Bytes → Bytes → Type 0
Folds [] [] = Unit {0}
Folds [] (p ∷ ps) = ⊥
Folds (c ∷ cs) [] = ⊥
Folds (c ∷ cs) (p ∷ ps) = ((c ≡ p) ⊎ ((b'A' ≤ c) × (c ≤ b'Z') × (c + 32 ≡ p))) × Folds cs ps

abbrev NoCapitals : Bytes → Type 0
NoCapitals [] = Unit {0}
NoCapitals (p ∷ ps) = ((p < b'A') ⊎ (b'Z' < p)) × NoCapitals ps

lower-Folds : (s p : Bytes) → lower s ≡ p → Folds s p
unfolding lower between
lower-Folds [] [] h = tt
lower-Folds [] (p ∷ ps) h = absurd cc
lower-Folds (c ∷ cs) [] h = absurd cc
lower-Folds (c ∷ cs) (p ∷ ps) h =
    (head (Bool-cases (leb b'A' c && leb c b'Z')), lower-Folds cs ps cc)
  where
    head :
        (leb b'A' c && leb c b'Z' ≡ true) ⊎ (leb b'A' c && leb c b'Z' ≡ false)
        → (c ≡ p) ⊎ ((b'A' ≤ c) × (c ≤ b'Z') × (c + 32 ≡ p))
    head (inl capital) = inr (ground arith, ground arith, ground arith)
    head (inr other) = inl (ground arith)

Folds-lower : (s p : Bytes) → NoCapitals p → Folds s p → lower s ≡ p
unfolding lower between
Folds-lower [] [] n h = refl
Folds-lower [] (p ∷ ps) n h = absurd h
Folds-lower (c ∷ cs) [] n h = absurd h
Folds-lower (c ∷ cs) (p ∷ ps) n h = ground (arith, Folds-lower cs ps n.1 h.1)

drop-short : (n : ℕ) (s : Bytes) → length s ≤ n → drop n s ≡ []
drop-short zero [] h = refl
drop-short zero (x ∷ s) h = absurd (omega arith)
drop-short (suc n) [] h = refl
drop-short (suc n) (x ∷ s) h = drop-short n s (omega arith)

-- What follows the seven bytes of the scheme, without the white space around it.
abbrev pub presented : Bytes → Bytes
presented header = trim_space (drop 7 header)

abbrev pub IsBearer : Bytes → Type 0
IsBearer header =
    Folds (take 7 header) (codes "bearer ")
    × (16 ≤ length (presented header))
    × (length (presented header) ≤ 256)

pub is_bearer-IsBearer : (header : Bytes) → is_bearer header ≡ true → IsBearer header
unfolding is_bearer token_of lower between
is_bearer-IsBearer header h = (
  lower-Folds (take 7 header) (codes "bearer ")
      (ground (arith, bytes_eq_iff (lower (take 7 header)) (codes "bearer "))),
  ground arith,
  ground arith,
)

long_header : (header : Bytes) → 16 ≤ length (presented header) → 7 < length header
unfolding trim_space
long_header header h = by_length (Bool-cases (leb (length header) 7))
  where
    by_length : (leb (length header) 7 ≡ true) ⊎ (leb (length header) 7 ≡ false) → 7 < length header
    by_length (inl short) =
        absurd (omega (arith, ap (λ s. length (trim_space s)) (drop-short 7 header (ground arith))))
    by_length (inr long) = ground arith

pub IsBearer-is_bearer : (header : Bytes) → IsBearer header → is_bearer header ≡ true
unfolding is_bearer token_of lower between
IsBearer-is_bearer header (folds, low, high) =
    let same : lower (take 7 header) ≡ codes "bearer " =
      Folds-lower (take 7 header) (codes "bearer ") (omega arith) folds in
    let long = long_header header low in
    ground (arith, bytes_eq_iff (lower (take 7 header)) (codes "bearer "))
