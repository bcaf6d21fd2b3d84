-- ===== src/Agent/Redact/Hidden.antt =====
-- What a redactor (internal/agent/redact.go) hides.
pub mod Added
use burndrop.Common.{
  suc, ◌≤◌, Bytes, codes, bytes_eq, bytes_eq_iff, Bool, true, false, ◌||◌, List, [], ◌∷◌, ◌++◌,
  length, ltb, ◌==◌, if◌then◌else◌, ◌≡◌, ◌⊎◌, refl, sym, ap, subst, inl, inr, Bool-cases, arith,
}
use burndrop.Agent.Redact.{
  RedactForm, Redactor, min_redact_len, texts, is_seen, new_forms, place, sort_longest, add,
  contains, replace_all, marker, redact_form, redact_forms, redact,
}
use burndrop.Agent.Redact.Encodings.{forms_of}
use burndrop.Agent.Redact.Replaced.{IsHideable, contains-empty, contains-replaced, contains-itself}

-- The inside of the marker of a name.
abbrev pub inner : Bytes → Bytes
inner name = codes "redacted:" ++ name

-- The text stands in no marker of the forms.
abbrev pub IsOutside : Bytes → Redactor → Type 0
IsOutside g [] = Unit
IsOutside g (f ∷ fs) = (contains g (inner f.name) ≡ false) × IsOutside g fs

-- The text is one of the texts.
abbrev pub IsAmong : Bytes → List Bytes → Type 0
IsAmong g [] = ⊥
IsAmong g (t ∷ ts) = (g ≡ t) ⊎ IsAmong g ts

redact_form-keeps :
    (g : Bytes) (f : RedactForm) (s : Bytes)
    → IsHideable g
    → contains g (inner f.name) ≡ false
    → contains g s ≡ false
    → contains g (redact_form f s) ≡ false
unfolding redact_form replace_all marker
redact_form-keeps g f s q i h = elim (Bool-cases (contains f.bytes s)) [
  | inl e ↦ rw e (contains-replaced f.bytes (inner f.name) g 0 s q i h)
  | inr e ↦ rw e h
]

redact_form-hides :
    (f : RedactForm) (s : Bytes)
    → IsHideable f.bytes
    → contains f.bytes (inner f.name) ≡ false
    → contains f.bytes (redact_form f s) ≡ false
unfolding redact_form replace_all marker
redact_form-hides f s q i = elim (Bool-cases (contains f.bytes s)) [
  | inl e ↦ rw e (contains-itself f.bytes (inner f.name) 0 s q i)
  | inr e ↦ rw e e
]

redact_forms-keeps :
    (g : Bytes) (fs : Redactor) (s : Bytes)
    → IsHideable g
    → IsOutside g fs
    → contains g s ≡ false
    → contains g (redact_forms fs s) ≡ false
unfolding redact_forms
redact_forms-keeps g [] s q i h = h
redact_forms-keeps g (f ∷ fs) s q i h =
    redact_forms-keeps g fs (redact_form f s) q i.1 (redact_form-keeps g f s q i.0 h)

redact_forms-hides :
    (g : Bytes) (fs : Redactor) (s : Bytes)
    → IsHideable g
    → IsOutside g fs
    → IsAmong g (texts fs)
    → contains g (redact_forms fs s) ≡ false
unfolding redact_forms texts
redact_forms-hides g [] s q i h = absurd h
redact_forms-hides g (f ∷ fs) s q i (inl e) = redact_forms-keeps g fs (redact_form f s) q i.1 (
    subst (λ t. contains t (redact_form f s) ≡ false) (sym e)
      (redact_form-hides f s (subst IsHideable e q)
        (subst (λ t. contains t (inner f.name) ≡ false) e i.0)))
redact_forms-hides g (f ∷ fs) s q i (inr h) = redact_forms-hides g fs (redact_form f s) q i.1 h

IsAmong-nonempty : (g : Bytes) (r : Redactor) → IsAmong g (texts r) → (length r == 0) ≡ false
unfolding texts
IsAmong-nonempty g [] h = absurd h
IsAmong-nonempty g (f ∷ fs) h = ground arith

-- Registered text is gone: a text that is registered, is not empty, has no bracket and is in no marker does
-- not occur in what the redactor returns.
pub redact-hides :
    (g : Bytes) (r : Redactor) (s : Bytes)
    → IsHideable g
    → IsOutside g r
    → IsAmong g (texts r)
    → contains g (redact r s) ≡ false
unfolding redact
redact-hides g r [] q i h = rw (IsAmong-nonempty g r h) (contains-empty g q)
redact-hides g r (c ∷ s) q i h =
    let some_text : (suc (length s) == 0) ≡ false = ground arith in
    rw (IsAmong-nonempty g r h, some_text) (redact_forms-hides g r (c ∷ s) q i h)
