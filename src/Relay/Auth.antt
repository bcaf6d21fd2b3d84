-- ===== src/Relay/Auth.antt =====
-- internal/relay/auth.go with the agent keys of internal/relay/config.go. SHA-256 is a parameter. The
-- names of anonymous callers are those of the source.
pub mod Bearer
pub mod Known
mod Tests
use burndrop.Common.{
  ℕ, ◌+◌, Bytes, codes, bytes_eq, Bool, true, false, not, ◌&&◌, ◌||◌, Option, none, some, List, [],
  ◌∷◌, length, take, drop, ltb, leb, ◌==◌, if◌then◌else◌,
}
use burndrop.Crypto.Text.{between}
use burndrop.Crypto.Tokens.{hash_equal, parse_hash}
use burndrop.Crypto.Trim.{trim_space}

pub record AgentKey : Type 0 where
  pub id : Bytes
  pub hash : Bytes

-- strings.Split, and the first colon of strings.SplitN.
unfoldable pub onto_first : ℕ → List Bytes → List Bytes
onto_first c [] = (c ∷ []) ∷ []
onto_first c (p ∷ ps) = (c ∷ p) ∷ ps

unfoldable pub split_at : ℕ → Bytes → List Bytes
unfolding onto_first
split_at d [] = [] ∷ []
split_at d (c ∷ s) = let rest = split_at d s in if c == d then [] ∷ rest else onto_first c rest

unfoldable pub onto_cut : ℕ → Option (Bytes × Bytes) → Option (Bytes × Bytes)
onto_cut c none = none
onto_cut c (some (a, b)) = some (c ∷ a, b)

unfoldable pub cut_at : ℕ → Bytes → Option (Bytes × Bytes)
unfolding onto_cut
cut_at d [] = none
cut_at d (c ∷ s) = let rest = cut_at d s in if c == d then some ([], s) else onto_cut c rest

unfoldable pub not_empty : List Bytes → List Bytes
unfolding trim_space
not_empty [] = []
not_empty (p ∷ ps) =
    let rest = not_empty ps in
    if not (length (trim_space p) == 0) then trim_space p ∷ rest else rest

unfoldable pub split_list : Bytes → List Bytes
unfolding split_at not_empty
split_list s = not_empty (split_at b',' s)

-- The hash of an entry whose identifier and algorithm are `a` and `b`.
unfoldable pub key_of : Bytes → Bytes → Option Bytes → Option AgentKey
key_of a b none = none
key_of a b (some hash) =
    if not (bytes_eq b (codes "sha256")) || (length a == 0)
    then none
    else some (record { id = a; hash = hash })

unfoldable pub parse_rest : Bytes → Option (Bytes × Bytes) → Option AgentKey
unfolding key_of parse_hash
parse_rest a none = none
parse_rest a (some (b, hash)) = key_of a b (parse_hash hash)

unfoldable pub parse_parts : Option (Bytes × Bytes) → Option AgentKey
unfolding parse_rest cut_at
parse_parts none = none
parse_parts (some (a, rest)) = parse_rest a (cut_at b':' rest)

unfoldable pub parse_entry : Bytes → Option AgentKey
unfolding parse_parts cut_at
parse_entry entry = parse_parts (cut_at b':' entry)

unfoldable pub has_id : Bytes → List AgentKey → Bool
has_id id [] = false
has_id id (k ∷ ks) = bytes_eq k.id id || has_id id ks

-- An entry in front of those that follow it. That no identifier stands twice does not depend on the
-- direction.
unfoldable pub with_entry : Option AgentKey → Option (List AgentKey) → Option (List AgentKey)
unfolding has_id
with_entry none ks = none
with_entry (some k) none = none
with_entry (some k) (some ks) = if has_id k.id ks then none else some (k ∷ ks)

unfoldable pub parse_entries : List Bytes → Option (List AgentKey)
unfolding with_entry parse_entry
parse_entries [] = some []
parse_entries (e ∷ es) = with_entry (parse_entry e) (parse_entries es)

unfoldable pub parse_agent_keys : Bytes → Option (List AgentKey)
unfolding parse_entries split_list
parse_agent_keys s = parse_entries (split_list s)

-- strings.EqualFold with a text of ASCII letters that have no other folds.
unfoldable pub lower : Bytes → Bytes
unfolding between
lower [] = []
lower (c ∷ s) = (if between b'A' b'Z' c then c + 32 else c) ∷ lower s

abbrev pub bearer_prefix : Bytes
bearer_prefix = codes "Bearer "

unfoldable pub token_of : Bytes → Bytes
unfolding trim_space
token_of header = trim_space (drop (length bearer_prefix) header)

-- The loop over all keys: the last one that matches.
unfoldable pub matched : List AgentKey → Bytes → Bytes → Bytes
unfolding hash_equal
matched [] presented id = id
matched (k ∷ ks) presented id =
    matched ks presented (if hash_equal k.hash presented then k.id else id)

unfoldable pub is_bearer : Bytes → Bool
unfolding lower token_of
is_bearer header =
    if leb (length header) (length bearer_prefix)
      || not (bytes_eq (lower (take (length bearer_prefix) header)) (lower bearer_prefix))
    then false
    else not (ltb (length (token_of header)) 16 || ltb 256 (length (token_of header)))

unfoldable pub bearer_id : (Bytes → Bytes) → List AgentKey → Bytes → Bytes × Bool
unfolding is_bearer matched token_of
bearer_id sha256 keys header =
    if not (is_bearer header)
    then ([], false)
    else (let id = matched keys (sha256 (token_of header)) [] in (id, not (length id == 0)))

abbrev pub anonymous_agent : Bytes
anonymous_agent = codes "anonymous"

unfoldable pub or_anonymous : Bytes × Bool → Bytes × Bool
or_anonymous (id, true) = (id, true)
or_anonymous (id, false) = (anonymous_agent, true)

unfoldable pub authenticate : (Bytes → Bytes) → Bool → List AgentKey → Bytes → Bytes × Bool
unfolding bearer_id or_anonymous
authenticate sha256 auth_required keys header =
    if not auth_required
    then or_anonymous (bearer_id sha256 keys header)
    else bearer_id sha256 keys header
