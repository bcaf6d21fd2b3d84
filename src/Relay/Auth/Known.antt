-- ===== src/Relay/Auth/Known.antt =====
-- Who is authenticated (internal/relay/auth.go).
use burndrop.Common.{
  Bytes, bytes_eq, bytes_eq_iff, true, false, Option, none, some, List, [], ◌∷◌, length, ◌==◌,
  if◌then◌else◌, ◌≡◌, ◌⊎◌, ◌↔◌, refl, inl, inr, Bool-cases, arith,
}
use burndrop.Crypto.Tokens.{hash_equal}
use burndrop.Relay.Auth.{
  AgentKey, key_of, parse_rest, parse_parts, parse_entry, cut_at, with_entry, parse_entries,
  parse_agent_keys, split_list, token_of, matched, is_bearer, bearer_id, authenticate,
}
use burndrop.Relay.Auth.Bearer.{IsBearer, presented, is_bearer-IsBearer, IsBearer-is_bearer}

-- One of the keys has the hash.
abbrev pub IsKeyHash : Bytes → List AgentKey → Type 0
IsKeyHash h [] = ⊥
IsKeyHash h (k ∷ ks) = (k.hash ≡ h) ⊎ IsKeyHash h ks

-- Every key has an identifier.
abbrev pub HaveIds : List AgentKey → Type 0
HaveIds [] = Unit
HaveIds (k ∷ ks) = ((length k.id == 0) ≡ false) × HaveIds ks

key_of-id :
    (a b : Bytes) (h : Option Bytes) (k : AgentKey)
    → key_of a b h ≡ some k
    → (length k.id == 0) ≡ false
unfolding key_of
key_of-id a b none k h = absurd cc
key_of-id a b (some x) k h = ground arith

parse_rest-id :
    (a : Bytes) (o : Option (Bytes × Bytes)) (k : AgentKey)
    → parse_rest a o ≡ some k
    → (length k.id == 0) ≡ false
unfolding parse_rest
parse_rest-id a none k h = absurd cc
parse_rest-id a (some (b, x)) k h = key_of-id a b _ k h

parse_parts-id :
    (o : Option (Bytes × Bytes)) (k : AgentKey)
    → parse_parts o ≡ some k
    → (length k.id == 0) ≡ false
unfolding parse_parts
parse_parts-id none k h = absurd cc
parse_parts-id (some (a, rest)) k h = parse_rest-id a _ k h

with_entry-HaveIds :
    (o : Option AgentKey) (rest : Option (List AgentKey)) (keys : List AgentKey)
    → ((k : AgentKey) → o ≡ some k → (length k.id == 0) ≡ false)
    → ((ks : List AgentKey) → rest ≡ some ks → HaveIds ks)
    → with_entry o rest ≡ some keys
    → HaveIds keys
unfolding with_entry
with_entry-HaveIds none rest keys f g h = absurd cc
with_entry-HaveIds (some k) none keys f g h = absurd cc
with_entry-HaveIds (some k) (some ks) keys f g h =
    let e : k ∷ ks ≡ keys = ground arith in rw (← e) (f k refl, g ks refl)

parse_entries-HaveIds :
    (es : List Bytes) (keys : List AgentKey) → parse_entries es ≡ some keys → HaveIds keys
unfolding parse_entries parse_entry
parse_entries-HaveIds [] keys h = let e : [] ≡ keys = cc in rw (← e) tt
parse_entries-HaveIds (e ∷ es) keys h =
    with_entry-HaveIds (parse_entry e) (parse_entries es) keys
      (λ k. parse_parts-id (cut_at b':' e) k) (parse_entries-HaveIds es) h

-- The loop finds an identifier only when it had one or a key matches.
matched-IsKeyHash :
    (keys : List AgentKey) (h id : Bytes)
    → (length (matched keys h id) == 0) ≡ false
    → ((length id == 0) ≡ false) ⊎ IsKeyHash h keys
unfolding matched hash_equal
matched-IsKeyHash [] h id = λ e. inl e
matched-IsKeyHash (k ∷ ks) h id = elim (Bool-cases (bytes_eq k.hash h)) [
  | inl e ↦ λ found. inr (inl ((bytes_eq_iff k.hash h).0 e))
  | inr e ↦ rw e (λ found. later (matched-IsKeyHash ks h id found))
]
  where
    later : {X Y Z : Type 0} → X ⊎ Z → X ⊎ (Y ⊎ Z)
    later (inl x) = inl x
    later (inr z) = inr (inr z)

matched-keeps :
    (keys : List AgentKey) (h id : Bytes)
    → HaveIds keys
    → (length id == 0) ≡ false
    → (length (matched keys h id) == 0) ≡ false
unfolding matched
matched-keeps [] h id ids e = e
matched-keeps (k ∷ ks) h id ids e =
    matched-keeps ks h (if hash_equal k.hash h then k.id else id) ids.1
      (elim (Bool-cases (hash_equal k.hash h)) [ inl t ↦ rw t ids.0 | inr t ↦ rw t e ])

matched-finds :
    (keys : List AgentKey) (h id : Bytes)
    → HaveIds keys
    → IsKeyHash h keys
    → (length (matched keys h id) == 0) ≡ false
unfolding matched hash_equal
matched-finds [] h id ids is_key = absurd is_key
matched-finds (k ∷ ks) h id ids (inl same) =
    rw ((bytes_eq_iff k.hash h).1 same) (matched-keeps ks h k.id ids.1 ids.0)
matched-finds (k ∷ ks) h id ids (inr is_key) =
    matched-finds ks h (if bytes_eq k.hash h then k.id else id) ids.1 is_key

bearer_id-IsKeyHash :
    (sha256 : Bytes → Bytes) (keys : List AgentKey) (header : Bytes)
    → (bearer_id sha256 keys header).1 ≡ true
    → (is_bearer header ≡ true) × IsKeyHash (sha256 (token_of header)) keys
unfolding bearer_id
bearer_id-IsKeyHash sha256 keys header h =
    let b : is_bearer header ≡ true = ground arith in
    let found : (length (matched keys (sha256 (token_of header)) []) == 0) ≡ false = ground arith in
    (b, key (matched-IsKeyHash keys (sha256 (token_of header)) [] found))
  where
    key :
        (true ≡ false) ⊎ IsKeyHash (sha256 (token_of header)) keys
        → IsKeyHash (sha256 (token_of header)) keys
    key (inl e) = absurd cc
    key (inr k) = k

bearer_id-known :
    (sha256 : Bytes → Bytes) (keys : List AgentKey) (header : Bytes)
    → HaveIds keys
    → is_bearer header ≡ true
    → IsKeyHash (sha256 (token_of header)) keys
    → (bearer_id sha256 keys header).1 ≡ true
unfolding bearer_id
bearer_id-known sha256 keys header ids b k =
    rw (b, matched-finds keys (sha256 (token_of header)) [] ids k) refl

-- With agent keys read from the configuration, and agent authentication required, a caller is accepted
-- exactly if the first seven bytes of the header are `Bearer ` in any case, what follows them without
-- the white space around it has 16 to 256 bytes, and its hash is that of one of the keys.
pub authenticate_iff :
    (sha256 : Bytes → Bytes) (text header : Bytes) (keys : List AgentKey)
    → parse_agent_keys text ≡ some keys
    → ((authenticate sha256 true keys header).1 ≡ true)
      ↔ (IsBearer header × IsKeyHash (sha256 (presented header)) keys)
unfolding authenticate parse_agent_keys token_of
authenticate_iff sha256 text header keys h =
    let ids = parse_entries-HaveIds (split_list text) keys h in
    (
      λ accepted.
          let both = bearer_id-IsKeyHash sha256 keys header accepted in
          (is_bearer-IsBearer header both.0, both.1),
      λ both. bearer_id-known sha256 keys header ids (IsBearer-is_bearer header both.0) both.1,
    )
