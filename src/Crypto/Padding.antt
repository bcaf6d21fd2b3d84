-- ===== src/Crypto/Padding.antt =====
-- `Pad` and `Unpad` of internal/crypto/crypto.go, ISO/IEC 7816-4 padding. A block has at least one
-- byte; every caller passes `PadBlock`.
pub mod RoundTrip
pub mod Canonical
use burndrop.Common.{
  ℕ, zero, suc, ◌+◌, ◌-◌, ◌%◌, Bytes, Bool, ◌||◌, not, Option, none, some, List, [], ◌∷◌, ◌++◌,
  length, take, replicate, ◌==◌, if◌then◌else◌,
}

abbrev pub pad_block : ℕ
pad_block = 256

-- The copy, the marker, and the zero bytes that `make` left behind it.
unfoldable pub pad : Bytes → ℕ → Bytes
pad bytes block =
    let pad_len = block - length bytes % block in bytes ++ 0x80 ∷ replicate (pad_len - 1) 0

-- `data[i]`; the code stays in range.
unfoldable pub byte_at : Bytes → ℕ → ℕ
byte_at [] i = 0
byte_at (x ∷ xs) zero = x
byte_at (x ∷ xs) (suc i) = byte_at xs i

-- The loop down to `stop`, as the number of steps that are left.
unfoldable pub scan : Bytes → ℕ → ℕ → Option Bytes
unfolding byte_at
scan bytes zero i = none
scan bytes (suc n) i =
    let rest = scan bytes n (i - 1) in
    if byte_at bytes i == 0x80
    then some (take i bytes)
    else if byte_at bytes i == 0
    then rest
    else none

unfoldable pub unpad : Bytes → ℕ → Option Bytes
unfolding scan
unpad bytes block =
    if (length bytes == 0) || not (length bytes % block == 0)
    then none
    else scan bytes block (length bytes - 1)
