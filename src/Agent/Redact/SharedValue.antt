-- ===== src/Agent/Redact/SharedValue.antt =====
-- One value under two names in a redactor (internal/agent/redact.go): `Add` registers each text once, under
-- the first name, and `Remove` of that name forgets it.
use burndrop.Common.{
  ◌≤◌, Bytes, bytes_eq_refl, true, false, ◌||◌, List, [], ◌∷◌, ◌++◌, length, ltb, ◌≡◌, refl, sym,
  ap, subst, ◌∙◌, inl, inr, Bool-cases, arith,
}
use burndrop.Agent.Redact.{
  RedactForm, Redactor, min_redact_len, texts, is_seen, new_forms, place, sort_longest, add, remove,
  redact,
}
use burndrop.Agent.Redact.Encodings.{forms_of}
use burndrop.Agent.Redact.Hidden.{IsAmong}
use burndrop.Agent.Redact.Hidden.Added.{IsAmong-add, add-long}

-- Every form stands under the name.
abbrev IsNamed : Bytes → Redactor → Type 0
IsNamed name [] = Unit
IsNamed name (f ∷ fs) = (f.name ≡ name) × IsNamed name fs

new_forms-IsNamed : (name : Bytes) (seen ts : List Bytes) → IsNamed name (new_forms name seen ts)
unfolding new_forms
new_forms-IsNamed name seen [] = tt
new_forms-IsNamed name seen (t ∷ ts) =
    elim (Bool-cases (ltb (length t) min_redact_len || is_seen t seen)) [
      | inl e ↦ rw e (new_forms-IsNamed name seen ts)
      | inr e ↦ rw e (refl, new_forms-IsNamed name (t ∷ seen) ts)
    ]

place-IsNamed :
    (name : Bytes) (x : RedactForm) (ys : Redactor)
    → x.name ≡ name
    → IsNamed name ys
    → IsNamed name (place x ys)
unfolding place
place-IsNamed name x [] e h = (e, tt)
place-IsNamed name x (y ∷ ys) e h = elim (Bool-cases (ltb (length x.bytes) (length y.bytes))) [
  | inl l ↦ rw l (h.0, place-IsNamed name x ys e h.1)
  | inr l ↦ rw l (e, h)
]

sort_longest-IsNamed :
    (name : Bytes) (r : Redactor) → IsNamed name r → IsNamed name (sort_longest r)
unfolding sort_longest
sort_longest-IsNamed name [] h = tt
sort_longest-IsNamed name (x ∷ xs) h =
    place-IsNamed name x (sort_longest xs) h.0 (sort_longest-IsNamed name xs h.1)

remove-IsNamed : (name : Bytes) (r : Redactor) → IsNamed name r → remove name r ≡ []
unfolding remove
remove-IsNamed name [] h = refl
remove-IsNamed name (f ∷ fs) h = rw (h.0, bytes_eq_refl name, remove-IsNamed name fs h.1) refl

IsAmong-is_seen : (g : Bytes) (seen : List Bytes) → IsAmong g seen → is_seen g seen ≡ true
unfolding is_seen
IsAmong-is_seen g [] h = absurd h
IsAmong-is_seen g (t ∷ seen) (inl e) = rw (← e, bytes_eq_refl g) refl
IsAmong-is_seen g (t ∷ seen) (inr h) = let k = IsAmong-is_seen g seen h in ground arith

-- Texts that are all registered add nothing.
new_forms-seen :
    (name : Bytes) (seen ts : List Bytes)
    → ((g : Bytes) → min_redact_len ≤ length g → IsAmong g ts → IsAmong g seen)
    → new_forms name seen ts ≡ []
unfolding new_forms
new_forms-seen name seen [] h = refl
new_forms-seen name seen (t ∷ ts) h =
    let skip : (ltb (length t) min_redact_len || is_seen t seen) ≡ true =
      elim (Bool-cases (ltb (length t) min_redact_len)) [
        | inl short ↦ ground arith
        | inr long ↦ let k = IsAmong-is_seen t seen (h t (ground arith) (inl refl)) in ground arith
      ] in
    rw skip (new_forms-seen name seen ts (λ g l k. h g l (inr k)))

append_nil : (r : Redactor) → r ++ [] ≡ r
append_nil [] = refl
append_nil (f ∷ r) = ap (λ q. f ∷ q) (append_nil r)

redact-empty : (s : Bytes) → redact [] s ≡ s
unfolding redact
redact-empty s = refl

-- After a value of at least six bytes is added under one name and again under another, and the first
-- name is removed, the redactor returns every text as it is, with the value in it.
pub redact-remove_shared :
    (json_string : Bytes → Bytes) (first second value s : Bytes)
    → min_redact_len ≤ length value
    → redact (remove first (add json_string second value (add json_string first value []))) s ≡ s
redact-remove_shared json_string first second value s l =
    let ts = forms_of json_string value in
    let long : ltb (length value) min_redact_len ≡ false = ground arith in
    let one = add json_string first value [] in
    let named : IsNamed first one =
      subst (IsNamed first) (sym (add-long json_string first value [] long)) (
        sort_longest-IsNamed first ([] ++ new_forms first (texts []) ts)
          (new_forms-IsNamed first (texts []) ts)) in
    let none_new : new_forms second (texts one) ts ≡ [] =
      new_forms-seen second (texts one) ts
        (λ g k h. IsAmong-add json_string g first value [] l k h) in
    let same : add json_string second value one ≡ sort_longest one =
      add-long json_string second value one long
      ∙ ap (λ q. sort_longest (one ++ q)) none_new
      ∙ ap sort_longest (append_nil one) in
    ap (λ q. redact (remove first q) s) same
    ∙ ap (λ q. redact q s)
        (remove-IsNamed first (sort_longest one) (sort_longest-IsNamed first one named))
    ∙ redact-empty s
