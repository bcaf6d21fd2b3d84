-- ===== src/Crypto/Tokens.antt =====
-- internal/crypto/tokens.go: the checks on tokens, hashes and commitments. SHA-256 is a parameter,
-- and the random bytes of a new token are an argument.
pub mod Canonical
use burndrop.Common.{
  ℕ, Bytes, Bool, false, not, ◌||◌, Option, none, some, length, ◌==◌, bytes_eq, if◌then◌else◌,
}
use burndrop.Crypto.Base64.{encode, decode}

-- TokenBytes, TokenLen and HashLen
abbrev pub token_bytes : ℕ
token_bytes = 16

abbrev pub token_len : ℕ
token_len = 22

abbrev pub hash_len : ℕ
hash_len = 43

-- sha256.Size
abbrev pub hash_size : ℕ
hash_size = 32

unfoldable pub has_length : ℕ → Option Bytes → Bool
has_length n none = false
has_length n (some b) = length b == n

unfoldable pub valid_token : Bytes → Bool
unfolding has_length
valid_token s = if not (length s == token_len) then false else has_length token_bytes (decode s)

unfoldable pub valid_commitment : Bytes → Bool
unfolding has_length
valid_commitment s = if not (length s == hash_len) then false else has_length hash_size (decode s)

unfoldable pub exactly : ℕ → Option Bytes → Option Bytes
exactly n none = none
exactly n (some b) = if not (length b == n) then none else some b

unfoldable pub parse_hash : Bytes → Option Bytes
unfolding exactly
parse_hash s = exactly hash_size (decode s)

-- A comparison in constant time gives the value of a comparison.
unfoldable pub hash_equal : Bytes → Bytes → Bool
hash_equal a b = bytes_eq a b

-- `RandomToken` on the random bytes that it reads.
unfoldable pub random_token : Bytes → Bytes
random_token random = encode random
