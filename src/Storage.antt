-- ===== src/Storage.antt =====
-- internal/storage/backend.go: the secrets that an agent keeps, their metadata and the rules on names and
-- retention. A time is a number of nanoseconds and 0 is Go's zero time. time.Parse for RFC 3339 is a
-- parameter.
pub mod Memory
pub mod Index
pub mod Manager
pub mod Dotenv
pub mod Registry
pub mod StdBase64
use burndrop.Common.{
  ℕ, Bytes, codes, bytes_eq, Bool, true, false, not, ◌&&◌, ◌||◌, Option, none, some, List, [], ◌∷◌,
  length, drop, ltb, leb, ◌==◌, if◌then◌else◌,
}
use burndrop.Crypto.Text.{between, has_prefix}

pub data StorageError : Type 0 where
  not_found unavailable invalid_name too_large permission bad_retention failed : StorageError

pub data Outcome {ℓ} (A : Type ℓ) : Type ℓ where
  ok : A → Outcome A
  err : StorageError → Outcome A

pub record Metadata : Type 0 where
  pub name : Bytes
  pub backend : Bytes
  pub retention : Bytes
  pub created_at : ℕ
  pub expires_at : ℕ
  pub purpose : Bytes
  pub source : Bytes
  pub sendable : Bool
  pub fingerprint : Bytes
  pub size_bytes : ℕ
  pub kind : Bytes

-- 64 * 1024
abbrev pub max_value_bytes : ℕ
max_value_bytes = 65536

unfoldable pub is_alphanumeric : ℕ → Bool
unfolding between
is_alphanumeric c = between b'A' b'Z' c || between b'a' b'z' c || between b'0' b'9' c

unfoldable pub all_name_chars : Bytes → Bool
unfolding is_alphanumeric
all_name_chars [] = true
all_name_chars (c ∷ s) =
    (is_alphanumeric c || (c == b'.') || (c == b'_') || (c == b'-')) && all_name_chars s

-- The expression `nameRe`.
unfoldable pub matches_name : Bytes → Bool
unfolding all_name_chars
matches_name [] = false
matches_name (c ∷ s) = is_alphanumeric c && all_name_chars s && leb (length s) 99

unfoldable pub has_double_dot : Bytes → Bool
has_double_dot [] = false
has_double_dot (c ∷ []) = false
has_double_dot (c ∷ d ∷ s) = ((c == b'.') && (d == b'.')) || has_double_dot (d ∷ s)

unfoldable pub valid_name : Bytes → Bool
unfolding matches_name has_double_dot
valid_name name = if not (matches_name name) then false else not (has_double_dot name)

unfoldable pub is_expired : ℕ → Metadata → Bool
is_expired now m = not (m.expires_at == 0) && not (ltb now m.expires_at)

-- The date of `until:`.
unfoldable pub after_now : ℕ → Option ℕ → Outcome ℕ
after_now now none = err bad_retention
after_now now (some t) = if not (ltb now t) then err bad_retention else ok t

unfoldable pub parse_retention : (Bytes → Option ℕ) → Bytes → ℕ → Outcome ℕ
unfolding after_now has_prefix
parse_retention rfc3339 policy now =
    if bytes_eq policy (codes "session") || bytes_eq policy (codes "until-revoked")
    then ok 0
    else if has_prefix (codes "until:") policy
    then after_now now (rfc3339 (drop 6 policy))
    else err bad_retention
