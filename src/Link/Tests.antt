-- ===== src/Link/Tests.antt =====
-- A link (internal/link/link.go) built and parsed, and its theorems at concrete inputs.
use burndrop.Common.{
  ℕ, zero, suc, ◌<◌, insert, codes, replicate, Bytes, bytes_eq, Bool, true, false, lookup, Option,
  none, some, [], ◌∷◌, ◌≡◌, refl, arith,
}
use burndrop.Crypto.Base64.{decode}
use burndrop.Crypto.Base64.RoundTrip.{AreBytes}
use burndrop.Crypto.Tokens.{valid_token}
use burndrop.Crypto.Text.{valid_name, valid_text, valid_retention}
use burndrop.Link.Fields.{Field, encode_fields, parse_fields, field_of, known}
use burndrop.Link.Fields.RoundTrip.{insert_all, parse_fields-encode_fields}
use burndrop.Link.Origin.{Url}
use burndrop.Link.Drop.{DropLink, fields_of, validate, parse_drop}
use burndrop.Link.Drop.RoundTrip.{parse_drop-fields_of}

abbrev version : Field
version = record { key = codes "v"; value = codes "1" }

abbrev name : Field
name = record { key = codes "n"; value = codes "a&b" }

parse_fields-encode_fields_example :
    parse_fields (encode_fields (version ∷ name ∷ [])) (codes "v" ∷ codes "n" ∷ [])
    ≡ some (insert_all [] (version ∷ name ∷ []))
unfolding known lookup bytes_eq field_of insert
parse_fields-encode_fields_example =
    parse_fields-encode_fields (codes "v" ∷ codes "n" ∷ []) version (name ∷ [])
      (
        (omega arith, omega arith, omega arith, tt),
        omega arith,
        refl,
        refl,
        (omega arith, tt),
        (
          (omega arith, omega arith, omega arith, tt),
          omega arith,
          refl,
          refl,
          (omega arith, (omega arith, (omega arith, tt))),
          tt,
        ),
      )
      refl

-- Stand-ins for url.Parse and the check of times, which this link does not need.
abbrev no_url : Bytes → Option Url
no_url s = none

abbrev no_time : Bytes → Bool
no_time s = false

abbrev sample : DropLink
sample = record {
  relay = [];
  id = replicate 22 65;
  upload_token = replicate 22 65;
  recipient_key = replicate 32 7;
  name = codes "API key";
  purpose = codes "p";
  storage = [];
  retention = codes "session";
}

sample_valid : validate no_url no_time sample ≡ true
unfolding validate valid_token valid_name valid_text valid_retention decode bytes_eq
sample_valid = refl

bytes_small : (n c : ℕ) → c < 256 → AreBytes (replicate n c)
bytes_small zero c h = tt
bytes_small (suc n) c h = (h, bytes_small n c h)

parse_drop-fields_of_example :
    parse_drop no_url no_time (encode_fields (fields_of no_url no_time sample)) ≡ some sample
parse_drop-fields_of_example =
    parse_drop-fields_of no_url no_time sample
      (
        tt,
        bytes_small 22 65 (omega arith),
        bytes_small 22 65 (omega arith),
        bytes_small 32 7 (omega arith),
        (
          omega arith,
          (
            omega arith,
            (omega arith, (omega arith, (omega arith, (omega arith, (omega arith, tt))))),
          ),
        ),
        (omega arith, tt),
        tt,
        (
          omega arith,
          (
            omega arith,
            (omega arith, (omega arith, (omega arith, (omega arith, (omega arith, tt))))),
          ),
        ),
      )
      refl sample_valid
