-- ===== src/Link/Origin.antt =====
-- `NormalizeOrigin` of internal/link/link.go. url.Parse is a parameter; its result has the parts that the
-- code reads, those of the host also as strings.ToLower gives them, which folds more than ASCII.
use burndrop.Common.{
  ◌+◌, ◌-◌, Bytes, codes, bytes_eq, Bool, not, ◌&&◌, ◌||◌, Option, none, some, [], ◌∷◌, ◌++◌,
  length, take, drop, ltb, leb, ◌==◌, if◌then◌else◌,
}

pub record Url : Type 0 where
  pub scheme : Bytes
  pub opaque_part : Bytes
  pub has_user : Bool
  pub lower_host : Bytes
  pub host_name : Bytes
  pub lower_host_name : Bytes
  pub port : Bytes
  pub path : Bytes
  pub raw_query : Bytes
  pub fragment : Bytes

-- strings.ToLower on the scheme, which url.Parse accepts in ASCII only.
unfoldable pub lower : Bytes → Bytes
lower [] = []
lower (c ∷ s) = (if leb b'A' c && leb c b'Z' then c + 32 else c) ∷ lower s

-- strings.TrimSuffix
unfoldable pub trim_suffix : Bytes → Bytes → Bytes
trim_suffix s suffix =
    if leb (length suffix) (length s) && bytes_eq (drop (length s - length suffix) s) suffix
    then take (length s - length suffix) s
    else s

unfoldable pub is_local : Bytes → Bool
is_local h =
    bytes_eq h (codes "localhost") || bytes_eq h (codes "127.0.0.1") || bytes_eq h (codes "::1")

-- The host without the scheme's default port.
unfoldable pub without_port : Bytes → Url → Bytes
unfolding trim_suffix
without_port scheme u =
    if (bytes_eq scheme (codes "https") && bytes_eq u.port (codes "443"))
      || (bytes_eq scheme (codes "http") && bytes_eq u.port (codes "80"))
    then trim_suffix u.lower_host (codes ":" ++ u.port)
    else u.lower_host

unfoldable pub origin_of : Option Url → Option Bytes
unfolding lower is_local without_port
origin_of none = none
origin_of (some u) =
    let scheme = lower u.scheme in
    let origin = scheme ++ codes "://" ++ without_port scheme u in
    if not (length u.opaque_part == 0)
      || u.has_user
      || not (length u.raw_query == 0)
      || not (length u.fragment == 0)
      || not ((length u.path == 0) || bytes_eq u.path (codes "/"))
    then none
    else if length u.host_name == 0
    then none
    else if bytes_eq scheme (codes "https")
    then some origin
    else if bytes_eq scheme (codes "http")
    then (if is_local u.lower_host_name then some origin else none)
    else none

unfoldable pub normalize_origin : (Bytes → Option Url) → Bytes → Option Bytes
unfolding origin_of
normalize_origin url_parse s = if ltb 512 (length s) then none else origin_of (url_parse s)
