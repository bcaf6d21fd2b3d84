-- ===== src/Link/Drop.antt =====
-- Drop links of internal/link/link.go: their fields, the checks, and the parser. url.Parse and the check
-- of RFC 3339 times are parameters.
pub mod RoundTrip
use burndrop.Common.{
  ℕ, Bytes, codes, Map, Bool, true, false, not, ◌||◌, Option, none, some, List, [], ◌∷◌, ◌++◌,
  length, ◌==◌, if◌then◌else◌,
}
use burndrop.Crypto.Base64.{encode, decode}
use burndrop.Crypto.Tokens.{valid_token, exactly}
use burndrop.Crypto.Text.{valid_name, valid_text, valid_retention}
use burndrop.Link.Fields.{Field, encode_fields, parse_fields, field_of, require}
use burndrop.Link.Origin.{Url, normalize_origin}

pub record DropLink : Type 0 where
  pub relay : Bytes
  pub id : Bytes
  pub upload_token : Bytes
  pub recipient_key : Bytes
  pub name : Bytes
  pub purpose : Bytes
  pub storage : Bytes
  pub retention : Bytes

-- crypto.KeySize
abbrev pub key_size : ℕ
key_size = 32

abbrev pub drop_keys : List Bytes
drop_keys =
    codes "v"
    ∷ codes "i"
    ∷ codes "u"
    ∷ codes "k"
    ∷ codes "n"
    ∷ codes "p"
    ∷ codes "s"
    ∷ codes "t"
    ∷ codes "r"
    ∷ []

unfoldable pub decode_key : Bytes → Option Bytes
unfolding exactly
decode_key s = if not (length s == 43) then none else exactly key_size (decode s)

unfoldable pub is_origin : Option Bytes → Bool
is_origin none = false
is_origin (some o) = true

unfoldable pub valid_relay : (Bytes → Option Url) → Bytes → Bool
unfolding is_origin normalize_origin
valid_relay url_parse r = if length r == 0 then true else is_origin (normalize_origin url_parse r)

module _ (url_parse : Bytes → Option Url) (is_rfc3339 : Bytes → Bool) where
  unfoldable pub validate : DropLink → Bool
  unfolding valid_relay
  validate d =
      if not (valid_relay url_parse d.relay)
      then false
      else if not (valid_token d.id) || not (valid_token d.upload_token)
      then false
      else if not (length d.recipient_key == key_size)
      then false
      else if not (valid_name d.name)
      then false
      else if not (valid_text d.purpose) || not (valid_text d.storage)
      then false
      else valid_retention is_rfc3339 d.retention

  -- The fields of `Build`, and the relay's, which is present only if the link names a relay.
  unfoldable pub relay_field : Option Bytes → List Field
  relay_field none = record { key = codes "r"; value = [] } ∷ []
  relay_field (some origin) = record { key = codes "r"; value = origin } ∷ []

  unfoldable pub relay_fields : Bytes → List Field
  unfolding relay_field
  relay_fields r = if length r == 0 then [] else relay_field (normalize_origin url_parse r)

  unfoldable pub fields_of : DropLink → List Field
  unfolding relay_fields
  fields_of d =
      record { key = codes "v"; value = codes "1" }
      ∷ record { key = codes "i"; value = d.id }
      ∷ record { key = codes "u"; value = d.upload_token }
      ∷ record { key = codes "k"; value = encode d.recipient_key }
      ∷ record { key = codes "n"; value = d.name }
      ∷ record { key = codes "p"; value = d.purpose }
      ∷ record { key = codes "s"; value = d.storage }
      ∷ record { key = codes "t"; value = d.retention }
      ∷ relay_fields d.relay

  unfoldable pub link_at : DropLink → Option Bytes → Option Bytes
  unfolding fields_of
  link_at d none = none
  link_at d (some origin) = some (origin ++ codes "/drop#" ++ encode_fields (fields_of d))

  unfoldable pub build : DropLink → Bytes → Option Bytes
  unfolding validate link_at
  build d page_origin =
      if not (validate d) then none else link_at d (normalize_origin url_parse page_origin)

  -- The rest of `parseDrop`, on the key and on the relay.
  unfoldable pub checked : DropLink → Option DropLink
  unfolding validate
  checked d = if not (validate d) then none else some d

  unfoldable pub with_relay : DropLink → Option Bytes → Option DropLink
  unfolding checked
  with_relay d none = none
  with_relay d (some r) = checked (record d { relay = r })

  unfoldable pub parse_relay : DropLink → Bytes → Option DropLink
  unfolding with_relay
  parse_relay d r = if length r == 0 then checked d else with_relay d (normalize_origin url_parse r)

  unfoldable pub link_of : Map Bytes → Option Bytes → Option DropLink
  unfolding parse_relay field_of
  link_of m none = none
  link_of m (some key) =
      parse_relay
        (record {
          relay = [];
          id = field_of m (codes "i");
          upload_token = field_of m (codes "u");
          recipient_key = key;
          name = field_of m (codes "n");
          purpose = field_of m (codes "p");
          storage = field_of m (codes "s");
          retention = field_of m (codes "t");
        })
        (field_of m (codes "r"))

  unfoldable pub read_link : Option (Map Bytes) → Option DropLink
  unfolding link_of require decode_key field_of
  read_link none = none
  read_link (some m) =
      if not (require m (codes "i" ∷ codes "u" ∷ codes "k" ∷ codes "n" ∷ codes "t" ∷ []))
      then none
      else link_of m (decode_key (field_of m (codes "k")))

  unfoldable pub parse_drop : Bytes → Option DropLink
  unfolding read_link parse_fields
  parse_drop frag = read_link (parse_fields frag drop_keys)
