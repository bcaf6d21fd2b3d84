-- ===== src/Link/Drop/RoundTrip.antt =====
-- The fragment of a drop link that is built parses to the link.
use burndrop.Common.{
  ℕ, ◌<◌, ◌≢◌, Bytes, codes, lookup, insert, bytes_eq, Bool, true, false, Option, some, List, [],
  ◌∷◌, length, ◌==◌, ◌≡◌, refl, sym, ap, ◌∙◌, subst, arith,
}
use burndrop.Crypto.Base64.{digit, encode}
use burndrop.Crypto.Base64.RoundTrip.{AreBytes, decode-encode}
use burndrop.Crypto.Tokens.{valid_token, exactly}
use burndrop.Crypto.Tokens.Canonical.{length-encode}
use burndrop.Crypto.Text.{valid_name, valid_retention, has_prefix}
use burndrop.Link.Fields.{Field, encode_fields, parse_fields, field_of, require, known}
use burndrop.Link.Fields.RoundTrip.{Accepts, insert_all, parse_fields-encode_fields}
use burndrop.Link.Query.RoundTrip.{IsClean}
use burndrop.Link.Origin.{Url}
use burndrop.Link.Drop.{
  DropLink, key_size, drop_keys, decode_key, validate, relay_fields, fields_of, checked,
  parse_relay, link_of, read_link, parse_drop,
}

digit_byte : (n : ℕ) → digit n < 256
unfolding digit
digit_byte n = ground arith

encode-AreBytes : (bs : Bytes) → AreBytes (encode bs)
unfolding encode
encode-AreBytes [] = tt
encode-AreBytes (a ∷ []) = (digit_byte _, (digit_byte _, tt))
encode-AreBytes (a ∷ b ∷ []) = (digit_byte _, (digit_byte _, (digit_byte _, tt)))
encode-AreBytes (a ∷ b ∷ c ∷ rest) =
    (digit_byte _, (digit_byte _, (digit_byte _, (digit_byte _, encode-AreBytes rest))))

decode_key-encode :
    (key : Bytes) → AreBytes key → length key ≡ key_size → decode_key (encode key) ≡ some key
unfolding decode_key exactly
decode_key-encode key h l =
    let long : length (encode key) ≡ 43 = omega (arith, length-encode key, l) in
    let known : exactly key_size (some key) ≡ some key = ground (arith, l) in
    ground (arith, long, ap (exactly key_size) (decode-encode key h) ∙ known)

-- Every text of the link is a string of bytes.
abbrev pub HasBytes : DropLink → Type 0
HasBytes d =
    AreBytes d.relay
    × AreBytes d.id
    × AreBytes d.upload_token
    × AreBytes d.recipient_key
    × AreBytes d.name
    × AreBytes d.purpose
    × AreBytes d.storage
    × AreBytes d.retention

valid_token_long : (s : Bytes) → valid_token s ≡ true → (length s == 0) ≡ false
unfolding valid_token
valid_token_long s h = ground arith

valid_name_long : (s : Bytes) → valid_name s ≡ true → (length s == 0) ≡ false
unfolding valid_name
valid_name_long s h = ground arith

letter-IsClean : (c : ℕ) → (c ≢ b'&') × (c ≢ b'=') × (c ≢ b'#') → IsClean (c ∷ [])
letter-IsClean c (amp, eq, hash) = (amp, eq, hash, tt)

-- The fields of a drop link, with those of its relay last.
abbrev fields_before : DropLink → List Field → List Field
fields_before d tail =
    record { key = codes "v"; value = codes "1" }
    ∷ record { key = codes "i"; value = d.id }
    ∷ record { key = codes "u"; value = d.upload_token }
    ∷ record { key = codes "k"; value = encode d.recipient_key }
    ∷ record { key = codes "n"; value = d.name }
    ∷ record { key = codes "p"; value = d.purpose }
    ∷ record { key = codes "s"; value = d.storage }
    ∷ record { key = codes "t"; value = d.retention }
    ∷ tail

accepted : (d : DropLink) → HasBytes d → Accepts drop_keys [] (fields_before d [])
unfolding known lookup insert bytes_eq
accepted d (r, i, u, k, n, p, s, t) = (
  letter-IsClean b'v' (omega arith),
  omega arith,
  refl,
  refl,
  (omega arith, tt),
  (
    letter-IsClean b'i' (omega arith),
    omega arith,
    refl,
    refl,
    i,
    (
      letter-IsClean b'u' (omega arith),
      omega arith,
      refl,
      refl,
      u,
      (
        letter-IsClean b'k' (omega arith),
        omega arith,
        refl,
        refl,
        encode-AreBytes d.recipient_key,
        (
          letter-IsClean b'n' (omega arith),
          omega arith,
          refl,
          refl,
          n,
          (
            letter-IsClean b'p' (omega arith),
            omega arith,
            refl,
            refl,
            p,
            (
              letter-IsClean b's' (omega arith),
              omega arith,
              refl,
              refl,
              s,
              (letter-IsClean b't' (omega arith), omega arith, refl, refl, t, tt),
            ),
          ),
        ),
      ),
    ),
  ),
)

parsed :
    (d : DropLink)
    → HasBytes d
    → parse_fields (encode_fields (fields_before d [])) drop_keys
      ≡ some (insert_all [] (fields_before d []))
unfolding field_of lookup insert bytes_eq
parsed d h =
    parse_fields-encode_fields drop_keys (record { key = codes "v"; value = codes "1" })
      (record { key = codes "i"; value = d.id }
        ∷ record { key = codes "u"; value = d.upload_token }
        ∷ record { key = codes "k"; value = encode d.recipient_key }
        ∷ record { key = codes "n"; value = d.name }
        ∷ record { key = codes "p"; value = d.purpose }
        ∷ record { key = codes "s"; value = d.storage }
        ∷ record { key = codes "t"; value = d.retention }
        ∷ [])
      (accepted d h) refl

module _ (url_parse : Bytes → Option Url) (is_rfc3339 : Bytes → Bool) where
  valid_retention_long : (s : Bytes) → valid_retention is_rfc3339 s ≡ true → (length s == 0) ≡ false
  unfolding valid_retention has_prefix bytes_eq
  valid_retention_long [] h = ground arith
  valid_retention_long (c ∷ s) h = ground arith

  -- What the checks of a link say of its required fields.
  validate_parts :
      (d : DropLink)
      → validate url_parse is_rfc3339 d ≡ true
      → (valid_token d.id ≡ true)
        × (valid_token d.upload_token ≡ true)
        × (length d.recipient_key ≡ key_size)
        × (valid_name d.name ≡ true)
        × (valid_retention is_rfc3339 d.retention ≡ true)
  unfolding validate
  validate_parts d v = ground arith

  read :
      (d : DropLink)
      → HasBytes d
      → validate url_parse is_rfc3339 (record d { relay = [] }) ≡ true
      → read_link url_parse is_rfc3339 (some (insert_all [] (fields_before d [])))
        ≡ some (record d { relay = [] })
  unfolding read_link link_of parse_relay checked require field_of lookup insert bytes_eq
  read d (r, i, u, k, n, p, s, t) v =
      let (vi, vu, size, vn, vt) = validate_parts (record d { relay = [] }) v in
      let m = insert_all [] (fields_before d []) in
      let key = decode_key-encode d.recipient_key k size in
      let long : length (encode d.recipient_key) ≡ 43 =
        omega (arith, length-encode d.recipient_key, size) in
      let built : link_of url_parse is_rfc3339 m (some d.recipient_key)
          ≡ some (record d { relay = [] }) =
        ground (arith, v) in
      let rest = ap (link_of url_parse is_rfc3339 m) key ∙ built in
      ground (
        arith,
        valid_token_long d.id vi,
        valid_token_long d.upload_token vu,
        long,
        valid_name_long d.name vn,
        valid_retention_long d.retention vt,
        rest,
      )

  -- For a drop link of byte strings that passes the checks and names no relay, the fragment of its
  -- fields parses to the link.
  pub parse_drop-fields_of :
      (d : DropLink)
      → HasBytes d
      → d.relay ≡ []
      → validate url_parse is_rfc3339 d ≡ true
      → parse_drop url_parse is_rfc3339 (encode_fields (fields_of url_parse is_rfc3339 d)) ≡ some d
  unfolding parse_drop fields_of relay_fields
  parse_drop-fields_of d h home v =
      let same : d ≡ record d { relay = [] } = ap (λ r. record d { relay = r }) home in
      let fields : relay_fields url_parse is_rfc3339 d.relay ≡ [] = ground (arith, home) in
      ap (λ tail. parse_drop url_parse is_rfc3339 (encode_fields (fields_before d tail))) fields
      ∙ ap (read_link url_parse is_rfc3339) (parsed d h)
      ∙ read d h (subst (λ e. validate url_parse is_rfc3339 e ≡ true) same v)
      ∙ ap some (sym same)
