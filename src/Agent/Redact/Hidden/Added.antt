-- ===== src/Agent/Redact/Hidden/Added.antt =====
-- What `Add` of internal/agent/redact.go registers, and so hides.
use burndrop.Common.{
  ◌≤◌, Bytes, bytes_eq, bytes_eq_iff, Bool, true, false, ◌||◌, List, [], ◌∷◌, ◌++◌, length, ltb,
  if◌then◌else◌, ◌≡◌, ◌⊎◌, refl, sym, ap, subst, inl, inr, Bool-cases, arith,
}
use burndrop.Agent.Redact.{
  RedactForm, Redactor, min_redact_len, texts, is_seen, new_forms, place, sort_longest, add,
  contains, redact,
}
use burndrop.Agent.Redact.Encodings.{forms_of}
use burndrop.Agent.Redact.Replaced.{IsHideable}
use burndrop.Agent.Redact.Hidden.{IsOutside, IsAmong, redact-hides}

IsAmong-place :
    (g : Bytes) (x : RedactForm) (ys : Redactor)
    → (g ≡ x.bytes) ⊎ IsAmong g (texts ys)
    → IsAmong g (texts (place x ys))
unfolding place texts
IsAmong-place g x [] h = h
IsAmong-place g x (y ∷ ys) (inl e) = elim (Bool-cases (ltb (length x.bytes) (length y.bytes))) [
  | inl l ↦ rw l (inr (IsAmong-place g x ys (inl e)))
  | inr l ↦ rw l (inl e)
]
IsAmong-place g x (y ∷ ys) (inr (inl e)) =
    elim (Bool-cases (ltb (length x.bytes) (length y.bytes))) [
      | inl l ↦ rw l (inl e)
      | inr l ↦ rw l (inr (inl e))
    ]
IsAmong-place g x (y ∷ ys) (inr (inr h)) =
    elim (Bool-cases (ltb (length x.bytes) (length y.bytes))) [
      | inl l ↦ rw l (inr (IsAmong-place g x ys (inr h)))
      | inr l ↦ rw l (inr (inr h))
    ]

IsAmong-sort : (g : Bytes) (r : Redactor) → IsAmong g (texts r) → IsAmong g (texts (sort_longest r))
unfolding sort_longest texts
IsAmong-sort g [] h = h
IsAmong-sort g (x ∷ xs) (inl e) = IsAmong-place g x (sort_longest xs) (inl e)
IsAmong-sort g (x ∷ xs) (inr h) = IsAmong-place g x (sort_longest xs) (inr (IsAmong-sort g xs h))

IsAmong-before : (g : Bytes) (r q : Redactor) → IsAmong g (texts r) → IsAmong g (texts (r ++ q))
unfolding texts
IsAmong-before g [] q h = absurd h
IsAmong-before g (f ∷ r) q (inl e) = inl e
IsAmong-before g (f ∷ r) q (inr h) = inr (IsAmong-before g r q h)

IsAmong-behind : (g : Bytes) (r q : Redactor) → IsAmong g (texts q) → IsAmong g (texts (r ++ q))
unfolding texts
IsAmong-behind g [] q h = h
IsAmong-behind g (f ∷ r) q h = inr (IsAmong-behind g r q h)

is_seen-IsAmong : (g : Bytes) (seen : List Bytes) → is_seen g seen ≡ true → IsAmong g seen
unfolding is_seen
is_seen-IsAmong g [] h = absurd (ground arith)
is_seen-IsAmong g (t ∷ seen) h = elim (Bool-cases (bytes_eq g t)) [
  | inl e ↦ inl ((bytes_eq_iff g t).0 e)
  | inr e ↦ inr (is_seen-IsAmong g seen (ground arith))
]

-- Every form that is long enough was registered before or is registered now.
IsAmong-new_forms :
    (g name : Bytes) (seen ts : List Bytes)
    → min_redact_len ≤ length g
    → IsAmong g ts
    → IsAmong g seen ⊎ IsAmong g (texts (new_forms name seen ts))
unfolding new_forms texts
IsAmong-new_forms g name seen [] l h = absurd h
IsAmong-new_forms g name seen (t ∷ ts) l (inl same) =
    elim (Bool-cases (ltb (length t) min_redact_len || is_seen t seen)) [
      | inl e ↦ inl (subst (λ w. IsAmong w seen) (sym same) (is_seen-IsAmong t seen (seen_long e)))
      | inr e ↦ rw e (inr (inl same))
    ]
  where
    seen_long : (ltb (length t) min_redact_len || is_seen t seen) ≡ true → is_seen t seen ≡ true
    seen_long e = let k = ap length same in ground arith
IsAmong-new_forms g name seen (t ∷ ts) l (inr h) =
    elim (Bool-cases (ltb (length t) min_redact_len || is_seen t seen)) [
      | inl e ↦ rw e (IsAmong-new_forms g name seen ts l h)
      | inr e ↦ rw e (behind (IsAmong-new_forms g name (t ∷ seen) ts l h))
    ]
  where
    behind : {X : Type 0} → ((g ≡ t) ⊎ IsAmong g seen) ⊎ X → IsAmong g seen ⊎ ((g ≡ t) ⊎ X)
    behind (inl (inl e)) = inr (inl e)
    behind (inl (inr k)) = inl k
    behind (inr k) = inr (inr k)

pub add-long :
    (json_string : Bytes → Bytes) (name value : Bytes) (r : Redactor)
    → ltb (length value) min_redact_len ≡ false
    → add json_string name value r
      ≡ sort_longest (r ++ new_forms name (texts r) (forms_of json_string value))
unfolding add
add-long json_string name value r h = add_if (ltb (length value) min_redact_len) h
  where
    add_if :
        (b : Bool)
        → b ≡ false
        → (if b
            then r
            else sort_longest (r ++ new_forms name (texts r) (forms_of json_string value)))
          ≡ sort_longest (r ++ new_forms name (texts r) (forms_of json_string value))
    add_if true h = absurd cc
    add_if false h = refl

add-short :
    (json_string : Bytes → Bytes) (name value : Bytes) (r : Redactor)
    → ltb (length value) min_redact_len ≡ true
    → add json_string name value r ≡ r
unfolding add
add-short json_string name value r h = rw h

-- Every encoding of a value that is long enough is registered once the value is added.
pub IsAmong-add :
    (json_string : Bytes → Bytes) (g name value : Bytes) (r : Redactor)
    → min_redact_len ≤ length value
    → min_redact_len ≤ length g
    → IsAmong g (forms_of json_string value)
    → IsAmong g (texts (add json_string name value r))
IsAmong-add json_string g name value r lv lg h =
    let new = new_forms name (texts r) (forms_of json_string value) in
    subst (λ q. IsAmong g (texts q)) (sym (add-long json_string name value r (ground arith)))
      (IsAmong-sort g (r ++ new)
        (elim (IsAmong-new_forms g name (texts r) (forms_of json_string value) lg h) [
          | inl k ↦ IsAmong-before g r new k
          | inr k ↦ IsAmong-behind g r new k
        ]))

-- What is registered stays registered when a value is added.
pub IsAmong-add_other :
    (json_string : Bytes → Bytes) (g name value : Bytes) (r : Redactor)
    → IsAmong g (texts r)
    → IsAmong g (texts (add json_string name value r))
IsAmong-add_other json_string g name value r h =
    elim (Bool-cases (ltb (length value) min_redact_len)) [
      | inl short ↦
          subst (λ q. IsAmong g (texts q)) (sym (add-short json_string name value r short)) h
      | inr long ↦
          let new = new_forms name (texts r) (forms_of json_string value) in
          subst (λ q. IsAmong g (texts q)) (sym (add-long json_string name value r long))
            (IsAmong-sort g (r ++ new) (IsAmong-before g r new h))
    ]

-- After a value of at least six bytes is added, no encoding of it that has at least six bytes and no
-- bracket, and that is in no marker, occurs in what the redactor returns, whatever the text.
pub redact-add :
    (json_string : Bytes → Bytes) (g name value s : Bytes) (r : Redactor)
    → min_redact_len ≤ length value
    → min_redact_len ≤ length g
    → IsAmong g (forms_of json_string value)
    → IsHideable g
    → IsOutside g (add json_string name value r)
    → contains g (redact (add json_string name value r) s) ≡ false
redact-add json_string g name value s r lv lg h q i =
    redact-hides g (add json_string name value r) s q i
      (IsAmong-add json_string g name value r lv lg h)
