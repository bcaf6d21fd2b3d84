-- ===== src/Link/Fields/RoundTrip.antt =====
-- Parsing inverts encoding on fields that the parser allows.
use burndrop.Common.{
  length-append, ◌<◌, ◌≢◌, Bytes, true, Map, lookup, insert, codes, none, some, List, [], ◌∷◌, ◌++◌,
  length, ◌≡◌, refl, ap, subst, bytes_eq_iff, ◌∙◌, arith,
}
use burndrop.Crypto.Base64.RoundTrip.{AreBytes}
use burndrop.Link.Query.{escape}
use burndrop.Link.Query.RoundTrip.{IsClean, unescape-escape, escape-IsClean}
use burndrop.Link.Fields.{
  field_of, Field, encode_fields, onto_first, split, onto_key, cut, known, add_value, add_new,
  add_part, add_parts, check_version, parse_fields,
}

-- The text of one field.
text : Field → Bytes
text f = f.key ++ b'=' ∷ escape f.value

texts : List Field → List Bytes
texts [] = []
texts (f ∷ fs) = text f ∷ texts fs

split-clean :
    (xs ys p : Bytes) (ps : List Bytes)
    → IsClean xs
    → split ys ≡ p ∷ ps
    → split (xs ++ ys) ≡ (xs ++ p) ∷ ps
unfolding split onto_first
split-clean [] ys p ps h e = e
split-clean (c ∷ xs) ys p ps (amp, eq, hash, h) e = ground (arith, split-clean xs ys p ps h e)

split-text :
    (f : Field) (tail p : Bytes) (ps : List Bytes)
    → IsClean f.key
    → AreBytes f.value
    → split tail ≡ p ∷ ps
    → split (f.key ++ b'=' ∷ (escape f.value ++ tail))
      ≡ (f.key ++ b'=' ∷ (escape f.value ++ p)) ∷ ps
unfolding split onto_first
split-text f tail p ps k v e =
    let inner = split-clean (escape f.value) tail p ps (escape-IsClean f.value v) e in
    split-clean f.key (b'=' ∷ (escape f.value ++ tail)) (b'=' ∷ (escape f.value ++ p)) ps k
      (ground (arith, inner))

cut-clean : (key raw : Bytes) → IsClean key → cut (key ++ b'=' ∷ raw) ≡ some (key, raw)
unfolding cut onto_key
cut-clean [] raw h = refl
cut-clean (c ∷ key) raw (amp, eq, hash, h) = ground (arith, cut-clean key raw h)

append-nil : (xs : Bytes) → xs ++ [] ≡ xs
append-nil [] = refl
append-nil (x ∷ xs) = ap (λ l. x ∷ l) (append-nil xs)

split-last : (f : Field) → IsClean f.key → AreBytes f.value → split (text f) ≡ text f ∷ []
unfolding text split
split-last f k v =
    let whole = split-text f [] [] [] k v refl in
    let same = append-nil (escape f.value) in
    subst (λ e. split (f.key ++ b'=' ∷ e) ≡ (f.key ++ b'=' ∷ e) ∷ []) same whole

-- What the parser asks of the fields, when the map holds `out` already: a key that is allowed, not
-- empty, without separators, and new; and a value of bytes.
abbrev pub Accepts : List Bytes → Map Bytes → List Field → Type 0
Accepts allowed out [] = Unit {0}
Accepts allowed out (f ∷ fs) =
    IsClean f.key
    × (length f.key ≢ 0)
    × (known allowed f.key ≡ true)
    × (lookup f.key out ≡ none)
    × AreBytes f.value
    × Accepts allowed (insert f.key f.value out) fs

-- The map of the fields, in the order of the text.
abbrev pub insert_all : Map Bytes → List Field → Map Bytes
insert_all out [] = out
insert_all out (f ∷ fs) = insert_all (insert f.key f.value out) fs

split-encode_fields :
    (allowed : List Bytes) (out : Map Bytes) (f : Field) (fs : List Field)
    → Accepts allowed out (f ∷ fs)
    → split (encode_fields (f ∷ fs)) ≡ texts (f ∷ fs)
unfolding encode_fields texts text split
split-encode_fields allowed out f [] (k, n, a, l, v, h) = split-last f k v
split-encode_fields allowed out f (g ∷ fs) (k, n, a, l, v, h) =
    let rest = split-encode_fields allowed (insert f.key f.value out) g fs h in
    let tail = b'&' ∷ encode_fields (g ∷ fs) in
    split-text f tail [] (split (encode_fields (g ∷ fs))) k v refl
    ∙ ap (λ e. (f.key ++ b'=' ∷ e) ∷ split (encode_fields (g ∷ fs))) (append-nil (escape f.value))
    ∙ ap (λ ps. text f ∷ ps) rest

add_part-text :
    (allowed : List Bytes) (out : Map Bytes) (f : Field) (fs : List Field)
    → Accepts allowed out (f ∷ fs)
    → add_part allowed (cut (text f)) out ≡ some (insert f.key f.value out)
unfolding add_part add_new add_value text
add_part-text allowed out f fs (k, n, a, l, v, h) =
    rw (cut-clean f.key (escape f.value) k)
      (rw (a, l, unescape-escape f.value v) (ground (arith, n)))

add_parts-texts :
    (allowed : List Bytes) (out : Map Bytes) (fs : List Field)
    → Accepts allowed out fs
    → add_parts allowed (texts fs) (some out) ≡ some (insert_all out fs)
unfolding add_parts texts
add_parts-texts allowed out [] h = refl
add_parts-texts allowed out (f ∷ fs) h =
    ap (add_parts allowed (texts fs)) (add_part-text allowed out f fs h)
    ∙ add_parts-texts allowed (insert f.key f.value out) fs h.5

encode_fields_long : (f : Field) (fs : List Field) → 0 < length (encode_fields (f ∷ fs))
unfolding encode_fields
encode_fields_long f [] = omega (arith, length-append f.key (b'=' ∷ escape f.value))
encode_fields_long f (g ∷ fs) =
    omega (arith, length-append f.key (b'=' ∷ (escape f.value ++ b'&' ∷ encode_fields (g ∷ fs))))

-- A fragment built of fields that the parser accepts, of which `v` is the version, parses to the map
-- of the fields.
pub parse_fields-encode_fields :
    (allowed : List Bytes) (f : Field) (fs : List Field)
    → Accepts allowed [] (f ∷ fs)
    → field_of (insert_all [] (f ∷ fs)) (codes "v") ≡ codes "1"
    → parse_fields (encode_fields (f ∷ fs)) allowed ≡ some (insert_all [] (f ∷ fs))
unfolding parse_fields check_version
parse_fields-encode_fields allowed f fs h version =
    let parts = split-encode_fields allowed [] f fs h in
    let m = insert_all [] (f ∷ fs) in
    let read : add_parts allowed (split (encode_fields (f ∷ fs))) (some []) ≡ some m =
      ap (λ ps. add_parts allowed ps (some [])) parts ∙ add_parts-texts allowed [] (f ∷ fs) h in
    let long = encode_fields_long f fs in
    let accepted : check_version (some m) ≡ some m =
      ground (arith, (bytes_eq_iff (field_of m (codes "v")) (codes "1")).1 version) in
    ground (arith, long, ap check_version read ∙ accepted)
