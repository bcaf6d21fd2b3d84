-- ===== src/Agent/Redact/Tests.antt =====
-- A redactor with one value (internal/agent/redact.go).
use burndrop.Common.{Bytes, codes, bytes_eq, [], ◌∷◌, ◌++◌, false, ◌≡◌, inl, refl, arith}
use burndrop.Agent.Redact.{contains, redact, add, remove}
use burndrop.Agent.Redact.Encodings.{forms_of, hex}
use burndrop.Agent.Redact.Hidden.{IsOutside}
use burndrop.Agent.Redact.Hidden.Added.{redact-add}
use burndrop.Agent.Redact.Replaced.{IsHideable}
use burndrop.Crypto.Base64
use burndrop.Crypto.Text.{rune_at}
use burndrop.Crypto.Trim.{trim_space}
use burndrop.Link.Query
use burndrop.Storage.StdBase64
use burndrop.Agent.Redact.SharedValue.{redact-remove_shared}

-- A stand-in for json.Marshal on the texts below, which need no escape.
abbrev quoted : Bytes → Bytes
quoted s = b'"' ∷ (s ++ (b'"' ∷ []))

abbrev value : Bytes
value = codes "hunter2"

hex_runs : hex value ≡ codes "68756e74657232"
unfolding hex
hex_runs = refl

trim_runs : trim_space (codes "  a b\n") ≡ codes "a b"
unfolding trim_space rune_at
trim_runs = refl

redact_runs :
    redact (add quoted (codes "key") value []) (codes "x=hunter2;") ≡ codes "x=[redacted:key];"
unfolding redact add StdBase64.encode bytes_eq StdBase64.digit Base64.encode Base64.digit
    Query.escape rune_at
redact_runs = refl

value_IsHideable : IsHideable value
value_IsHideable = (
  λ e. absurd (ground arith),
  λ e. absurd (ground arith),
  (
    λ e. absurd (ground arith),
    λ e. absurd (ground arith),
    (
      λ e. absurd (ground arith),
      λ e. absurd (ground arith),
      (
        λ e. absurd (ground arith),
        λ e. absurd (ground arith),
        (
          λ e. absurd (ground arith),
          λ e. absurd (ground arith),
          (
            λ e. absurd (ground arith),
            λ e. absurd (ground arith),
            (λ e. absurd (ground arith), λ e. absurd (ground arith), tt),
          ),
        ),
      ),
    ),
  ),
)

outside : IsOutside value (add quoted (codes "key") value [])
unfolding add StdBase64.encode bytes_eq StdBase64.digit Base64.encode Base64.digit Query.escape
    rune_at contains
outside = (refl, (refl, (refl, (refl, tt))))

redact-add_example :
    contains value (redact (add quoted (codes "key") value []) (codes "x=hunter2; hunter2")) ≡ false
unfolding forms_of
redact-add_example =
    redact-add quoted value (codes "key") value (codes "x=hunter2; hunter2") [] (omega arith)
      (omega arith) (inl refl) value_IsHideable outside

redact-remove_shared_example :
    redact
      (remove (codes "a") (add quoted (codes "b") value (add quoted (codes "a") value [])))
      (codes "hunter2")
    ≡ codes "hunter2"
redact-remove_shared_example =
    redact-remove_shared quoted (codes "a") (codes "b") value (codes "hunter2") (omega arith)
