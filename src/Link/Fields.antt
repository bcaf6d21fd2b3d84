-- ===== src/Link/Fields.antt =====
-- internal/link/link.go: the fields of a fragment, written `key=value` with `&` between them. An error
-- is `none`, its text is left out.
pub mod RoundTrip
use burndrop.Common.{
  ℕ, Bytes, Bool, true, false, not, ◌&&◌, ◌||◌, Map, lookup, insert, bytes_eq, codes, Option, none,
  some, List, [], ◌∷◌, ◌++◌, length, ◌==◌, if◌then◌else◌,
}
use burndrop.Link.Query.{escape, unescape}

pub record Field : Type 0 where
  pub key : Bytes
  pub value : Bytes

unfoldable pub encode_fields : List Field → Bytes
unfolding escape
encode_fields [] = []
encode_fields (f ∷ []) = f.key ++ b'=' ∷ escape f.value
encode_fields (f ∷ g ∷ fs) = f.key ++ b'=' ∷ (escape f.value ++ b'&' ∷ encode_fields (g ∷ fs))

-- strings.Split(s, "&")
unfoldable pub onto_first : ℕ → List Bytes → List Bytes
onto_first c [] = (c ∷ []) ∷ []
onto_first c (p ∷ ps) = (c ∷ p) ∷ ps

unfoldable pub split : Bytes → List Bytes
unfolding onto_first
split [] = [] ∷ []
split (c ∷ s) = let rest = split s in if c == b'&' then [] ∷ rest else onto_first c rest

-- The parts of a field before and after the first `=`.
unfoldable pub onto_key : ℕ → Option (Bytes × Bytes) → Option (Bytes × Bytes)
onto_key c none = none
onto_key c (some (key, value)) = some (c ∷ key, value)

unfoldable pub cut : Bytes → Option (Bytes × Bytes)
unfolding onto_key
cut [] = none
cut (c ∷ s) = let rest = cut s in if c == b'=' then some ([], s) else onto_key c rest

unfoldable pub known : List Bytes → Bytes → Bool
known [] key = false
known (a ∷ rest) key = bytes_eq a key || known rest key

unfoldable pub add_value : Bytes → Option Bytes → Map Bytes → Option (Map Bytes)
add_value key none out = none
add_value key (some value) out = some (insert key value out)

unfoldable pub add_new : Bytes → Bytes → Option Bytes → Map Bytes → Option (Map Bytes)
unfolding add_value unescape
add_new key raw (some old) out = none
add_new key raw none out = add_value key (unescape raw) out

unfoldable pub add_part : List Bytes → Option (Bytes × Bytes) → Map Bytes → Option (Map Bytes)
unfolding known add_new
add_part allowed none out = none
add_part allowed (some (key, raw)) out =
    if length key == 0
    then none
    else if not (known allowed key)
    then none
    else add_new key raw (lookup key out) out

-- The loop over the parts; an error stops it.
unfoldable pub add_parts : List Bytes → List Bytes → Option (Map Bytes) → Option (Map Bytes)
unfolding cut add_part
add_parts allowed ps none = none
add_parts allowed [] (some out) = some out
add_parts allowed (p ∷ ps) (some out) = add_parts allowed ps (add_part allowed (cut p) out)

-- `m[key]`
unfoldable pub value_of : Option Bytes → Bytes
value_of none = []
value_of (some v) = v

unfoldable pub field_of : Map Bytes → Bytes → Bytes
unfolding value_of
field_of m key = value_of (lookup key m)

unfoldable pub check_version : Option (Map Bytes) → Option (Map Bytes)
unfolding field_of
check_version none = none
check_version (some m) =
    if not (bytes_eq (field_of m (codes "v")) (codes "1")) then none else some m

unfoldable pub parse_fields : Bytes → List Bytes → Option (Map Bytes)
unfolding split add_parts check_version
parse_fields frag allowed =
    if length frag == 0 then none else check_version (add_parts allowed (split frag) (some []))

unfoldable pub require : Map Bytes → List Bytes → Bool
unfolding field_of
require m [] = true
require m (k ∷ ks) = let rest = require m ks in if length (field_of m k) == 0 then false else rest
