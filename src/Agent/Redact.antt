-- ===== src/Agent/Redact.antt =====
-- internal/agent/redact.go: the values of secrets, and their common encodings, replaced in text that leaves
-- the process. The JSON text of a string is a parameter. RedactBytes and Redact are one function here.
pub mod Encodings
pub mod Replaced
pub mod Hidden
pub mod SharedValue
mod Tests
use burndrop.Common.{
  ℕ, zero, suc, ◌-◌, Bytes, codes, bytes_eq, Bool, true, false, not, ◌&&◌, ◌||◌, List, [], ◌∷◌,
  ◌++◌, length, ltb, ◌==◌, if◌then◌else◌,
}
use burndrop.Crypto.Text.{has_prefix}
use burndrop.Agent.Redact.Encodings.{forms_of}

pub record RedactForm : Type 0 where
  pub name : Bytes
  pub bytes : Bytes

-- The forms of a redactor; its mutex makes each method one step.
abbrev pub Redactor : Type 0
Redactor = List RedactForm

abbrev pub min_redact_len : ℕ
min_redact_len = 6

unfoldable pub texts : Redactor → List Bytes
texts [] = []
texts (f ∷ fs) = f.bytes ∷ texts fs

unfoldable pub is_seen : Bytes → List Bytes → Bool
is_seen t [] = false
is_seen t (s ∷ seen) = bytes_eq t s || is_seen t seen

-- The loop that appends the new forms.
unfoldable pub new_forms : Bytes → List Bytes → List Bytes → Redactor
unfolding is_seen
new_forms name seen [] = []
new_forms name seen (t ∷ ts) =
    let skip = ltb (length t) min_redact_len || is_seen t seen in
    let rest = new_forms name (if skip then seen else t ∷ seen) ts in
    if skip then rest else record { name = name; bytes = t } ∷ rest

-- sort.SliceStable, the longest first.
unfoldable pub place : RedactForm → Redactor → Redactor
place x [] = x ∷ []
place x (y ∷ ys) = if ltb (length x.bytes) (length y.bytes) then y ∷ place x ys else x ∷ y ∷ ys

unfoldable pub sort_longest : Redactor → Redactor
unfolding place
sort_longest [] = []
sort_longest (x ∷ xs) = place x (sort_longest xs)

unfoldable pub add : (Bytes → Bytes) → Bytes → Bytes → Redactor → Redactor
unfolding texts new_forms sort_longest forms_of
add json_string name value r =
    if ltb (length value) min_redact_len
    then r
    else sort_longest (r ++ new_forms name (texts r) (forms_of json_string value))

unfoldable pub remove : Bytes → Redactor → Redactor
remove name [] = []
remove name (f ∷ fs) =
    let rest = remove name fs in if not (bytes_eq f.name name) then f ∷ rest else rest

-- strings.Contains
unfoldable pub contains : Bytes → Bytes → Bool
unfolding has_prefix
contains t [] = has_prefix t []
contains t (c ∷ s) = has_prefix t (c ∷ s) || contains t s

-- strings.ReplaceAll of a text that is not empty. The first argument counts the bytes left of an
-- occurrence that is replaced already.
unfoldable pub replace_after : ℕ → Bytes → Bytes → Bytes → Bytes
unfolding has_prefix
replace_after k t by [] = []
replace_after (suc k) t by (c ∷ s) = replace_after k t by s
replace_after zero t by (c ∷ s) =
    let rest = replace_after 0 t by s in
    let behind = replace_after (length t - 1) t by s in
    if has_prefix t (c ∷ s) then by ++ behind else c ∷ rest

unfoldable pub replace_all : Bytes → Bytes → Bytes → Bytes
unfolding replace_after
replace_all t by s = replace_after 0 t by s

unfoldable pub marker : Bytes → Bytes
marker name = codes "[redacted:" ++ (name ++ codes "]")

unfoldable pub redact_form : RedactForm → Bytes → Bytes
unfolding contains replace_all marker
redact_form f s = if contains f.bytes s then replace_all f.bytes (marker f.name) s else s

unfoldable pub redact_forms : Redactor → Bytes → Bytes
unfolding redact_form
redact_forms [] s = s
redact_forms (f ∷ fs) s = redact_forms fs (redact_form f s)

unfoldable pub redact : Redactor → Bytes → Bytes
unfolding redact_forms
redact r s = if (length r == 0) || (length s == 0) then s else redact_forms r s

unfoldable pub count : Redactor → ℕ
count r = length r
