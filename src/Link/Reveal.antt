-- ===== src/Link/Reveal.antt =====
-- Reveal links of internal/link/link.go: their fields, the checks, and the parser. url.Parse is a
-- parameter.
use burndrop.Common.{
  ℕ, Bytes, codes, bytes_eq, Map, Bool, true, false, not, ◌&&◌, ◌||◌, Option, none, some, List, [],
  ◌∷◌, ◌++◌, length, ◌==◌, if◌then◌else◌,
}
use burndrop.Crypto.Base64.{encode, decode}
use burndrop.Crypto.Tokens.{valid_token, exactly}
use burndrop.Crypto.Text.{valid_name}
use burndrop.Link.Fields.{Field, encode_fields, parse_fields, field_of, require}
use burndrop.Link.Origin.{Url, normalize_origin}
use burndrop.Link.Drop.{key_size, decode_key, valid_relay, relay_fields}

-- A nil salt is the empty one.
pub record RevealLink : Type 0 where
  pub relay : Bytes
  pub id : Bytes
  pub reveal_token : Bytes
  pub key : Bytes
  pub name : Bytes
  pub keeps_copy : Bool
  pub salt : Bytes

-- crypto.SaltSize
abbrev pub salt_size : ℕ
salt_size = 16

abbrev pub reveal_keys : List Bytes
reveal_keys =
    codes "v"
    ∷ codes "i"
    ∷ codes "o"
    ∷ codes "k"
    ∷ codes "n"
    ∷ codes "c"
    ∷ codes "s"
    ∷ codes "r"
    ∷ []

unfoldable pub password_protected : RevealLink → Bool
password_protected r = not (length r.salt == 0)

unfoldable pub decode_salt : Bytes → Option Bytes
unfolding exactly
decode_salt s = if not (length s == 22) then none else exactly salt_size (decode s)

unfoldable pub salt_fields : Bytes → List Field
salt_fields s = if length s == 0 then [] else record { key = codes "s"; value = encode s } ∷ []

-- The switch on the field `c`.
unfoldable pub parse_keeps : Bytes → Option Bool
parse_keeps c =
    if bytes_eq c (codes "0")
    then some false
    else if bytes_eq c (codes "1")
    then some true
    else none

-- The salt of the link, none at all if the field is empty.
unfoldable pub parse_salt : Bytes → Option Bytes
unfolding decode_salt
parse_salt s = if length s == 0 then some [] else decode_salt s

module _ (url_parse : Bytes → Option Url) (is_rfc3339 : Bytes → Bool) where
  unfoldable pub validate : RevealLink → Bool
  unfolding valid_relay
  validate r =
      if not (valid_relay url_parse r.relay)
      then false
      else if not (valid_token r.id) || not (valid_token r.reveal_token)
      then false
      else if not (length r.key == key_size)
      then false
      else if not (valid_name r.name)
      then false
      else if not (length r.salt == 0) && not (length r.salt == salt_size)
      then false
      else true

  unfoldable pub fields_of : RevealLink → List Field
  unfolding salt_fields relay_fields
  fields_of r =
      record { key = codes "v"; value = codes "1" }
      ∷ record { key = codes "i"; value = r.id }
      ∷ record { key = codes "o"; value = r.reveal_token }
      ∷ record { key = codes "k"; value = encode r.key }
      ∷ record { key = codes "n"; value = r.name }
      ∷ record { key = codes "c"; value = if r.keeps_copy then codes "1" else codes "0" }
      ∷ (salt_fields r.salt ++ relay_fields url_parse is_rfc3339 r.relay)

  unfoldable pub link_at : RevealLink → Option Bytes → Option Bytes
  unfolding fields_of
  link_at r none = none
  link_at r (some origin) = some (origin ++ codes "/reveal#" ++ encode_fields (fields_of r))

  unfoldable pub build : RevealLink → Bytes → Option Bytes
  unfolding validate link_at
  build r page_origin =
      if not (validate r) then none else link_at r (normalize_origin url_parse page_origin)

  unfoldable pub checked : RevealLink → Option RevealLink
  unfolding validate
  checked r = if not (validate r) then none else some r

  unfoldable pub with_relay : RevealLink → Option Bytes → Option RevealLink
  unfolding checked
  with_relay r none = none
  with_relay r (some origin) = checked (record r { relay = origin })

  unfoldable pub parse_relay : RevealLink → Bytes → Option RevealLink
  unfolding with_relay
  parse_relay r rel =
      if length rel == 0 then checked r else with_relay r (normalize_origin url_parse rel)

  -- The link of the parts that decode; each of them stops the parser if it does not.
  unfoldable pub link_of : Map Bytes → Option Bytes → Option Bool → Option Bytes → Option RevealLink
  unfolding parse_relay field_of
  link_of m (some key) (some keeps) (some salt) =
      parse_relay
        (record {
          relay = [];
          id = field_of m (codes "i");
          reveal_token = field_of m (codes "o");
          key = key;
          name = field_of m (codes "n");
          keeps_copy = keeps;
          salt = salt;
        })
        (field_of m (codes "r"))
  link_of m _ _ _ = none

  unfoldable pub read_link : Option (Map Bytes) → Option RevealLink
  unfolding link_of require decode_key field_of parse_keeps parse_salt
  read_link none = none
  read_link (some m) =
      if not (require m (codes "i" ∷ codes "o" ∷ codes "k" ∷ codes "n" ∷ codes "c" ∷ []))
      then none
      else link_of m (decode_key (field_of m (codes "k"))) (parse_keeps (field_of m (codes "c")))
          (parse_salt (field_of m (codes "s")))

  unfoldable pub parse_reveal : Bytes → Option RevealLink
  unfolding read_link parse_fields
  parse_reveal frag = read_link (parse_fields frag reveal_keys)
