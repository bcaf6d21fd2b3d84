-- ===== src/Agent/Config.antt =====
-- internal/agent/config.go: the settings of an agent, their checks, and the references to the agent key and the
-- reveal password. time.ParseDuration and RFC 3339 are parameters; a duration is a 64-bit pattern. The
-- tables of the backends are left out.
use burndrop.Common.{
  ℕ, Bytes, codes, bytes_eq, Bool, true, false, not, ◌&&◌, ◌||◌, Option, none, some, List, [], ◌∷◌,
  length, drop, ◌==◌, if◌then◌else◌,
}
use burndrop.Crypto.Base64.{◌>>=◌}
use burndrop.Crypto.Text.{has_prefix}
use burndrop.Crypto.Trim.{trim_space}
use burndrop.Link.Origin.{Url, normalize_origin}
use burndrop.Relay.Config.{is_negative}
use burndrop.Storage.{parse_retention}
use burndrop.Storage.Manager.{succeeded}

pub record Settings : Type 0 where
  pub relay : Bytes
  pub page_origin : Bytes
  pub agent_key : Bytes
  pub storage : Bytes
  pub default_ttl : Bytes
  pub default_retention : Bytes
  pub reveal_password : Bytes
  pub reveal_password_required : Bool
  pub allowed_commands : List Bytes
  pub max_output_bytes : ℕ

abbrev pub known_backends : List Bytes
known_backends =
    codes "keychain"
    ∷ codes "agevault"
    ∷ codes "memory"
    ∷ codes "dotenv"
    ∷ codes "onepassword"
    ∷ codes "bitwarden"
    ∷ codes "vault"
    ∷ codes "infisical"
    ∷ codes "doppler"
    ∷ codes "aws"
    ∷ codes "gcp"
    ∷ codes "azure"
    ∷ []

unfoldable pub is_known : Bytes → List Bytes → Bool
is_known s [] = false
is_known s (k ∷ ks) = bytes_eq k s || is_known s ks

-- A reference that names the keychain or a variable.
unfoldable pub is_reference : Bytes → Bool
unfolding has_prefix
is_reference s = has_prefix (codes "keychain:") s || has_prefix (codes "env:") s

unfoldable pub is_some : {A : Type 0} → Option A → Bool
is_some none = false
is_some (some a) = true

-- time.Hour
abbrev pub hour : ℕ
hour = 3600000000000

-- A duration that parsed, if it is positive.
unfoldable pub positive : Option ℕ → Option ℕ
unfolding is_negative
positive none = none
positive (some d) = if (d == 0) || is_negative d then none else some d

unfoldable pub retention_or_default : Settings → Bytes
retention_or_default c =
    if length c.default_retention == 0 then codes "until-revoked" else c.default_retention

unfoldable pub max_output : Settings → ℕ
max_output c = if c.max_output_bytes == 0 then 32768 else c.max_output_bytes

-- `SetRevealPasswordRequired`
unfoldable pub require_reveal_password : Bool → Settings → Option Settings
require_reveal_password required c =
    if required && (length c.reveal_password == 0)
    then none
    else some (record c { reveal_password_required = required })

module _ (parse_duration : Bytes → Option ℕ) where
  unfoldable pub ttl_or_default : Settings → Option ℕ
  unfolding positive
  ttl_or_default c =
      if length c.default_ttl == 0 then some hour else positive (parse_duration c.default_ttl)

  -- `ttl` of agent.go: the lifetime of one call.
  unfoldable pub ttl_of : Settings → Bytes → Option ℕ
  unfolding ttl_or_default positive
  ttl_of c s = if length s == 0 then ttl_or_default c else positive (parse_duration s)

module _ (parse_duration : Bytes → Option ℕ) (url_parse : Bytes → Option Url)
    (rfc3339 : Bytes → Option ℕ) where
  -- `Validate`, at a time.
  unfoldable pub valid_settings : ℕ → Settings → Bool
  unfolding normalize_origin is_some is_known is_reference ttl_or_default retention_or_default
      is_negative parse_retention succeeded
  valid_settings now c =
      if length c.relay == 0
      then false
      else if not (is_some (normalize_origin url_parse c.relay))
      then false
      else if not (length c.page_origin == 0)
          && not (is_some (normalize_origin url_parse c.page_origin))
      then false
      else if length c.storage == 0
      then false
      else if not (is_known c.storage known_backends)
      then false
      else if not (length c.agent_key == 0)
          && not (bytes_eq c.agent_key (codes "none"))
          && not (is_reference c.agent_key)
      then false
      else if not (length c.reveal_password == 0) && not (is_reference c.reveal_password)
      then false
      else if c.reveal_password_required && (length c.reveal_password == 0)
      then false
      else if not (is_some (ttl_or_default parse_duration c))
      then false
      else if not (succeeded (parse_retention rfc3339 (retention_or_default c) now))
          && not (length c.default_retention == 0)
      then false
      else if is_negative c.max_output_bytes
      then false
      else true

-- strings.Cut at a slash.
unfoldable pub cut_slash : Bytes → Option (Bytes × Bytes)
cut_slash [] = none
cut_slash (c ∷ s) =
    let rest = cut_slash s in
    if c == b'/' then some ([], s) else (do (before, after) ← rest; some (c ∷ before, after))

-- What a reference leads to: a variable that is not empty, or an entry of the keychain.
module _ (getenv : Bytes → Bytes) (keychain : Option (Bytes → Bytes → Option Bytes)) where
  unfoldable pub look_up :
      Option (Bytes × Bytes) → Option (Bytes → Bytes → Option Bytes) → Option Bytes
  look_up none _ = none
  look_up (some (service, entry)) none = none
  look_up (some (service, entry)) (some get) =
      if (length service == 0) || (length entry == 0) then none else get service entry

  unfoldable pub keychain_value : Bytes → Option Bytes
  unfolding look_up cut_slash
  keychain_value ref = look_up (cut_slash (drop (length (codes "keychain:")) ref)) keychain

  unfoldable pub trimmed_variable : Bytes → Option Bytes
  unfolding trim_space
  trimmed_variable name = let v = trim_space (getenv name) in if length v == 0 then none else some v

  unfoldable pub key_at : Bytes → Option Bytes
  unfolding has_prefix trimmed_variable keychain_value trim_space
  key_at ref =
      if bytes_eq ref (codes "none")
      then some []
      else if has_prefix (codes "env:") ref
      then trimmed_variable (drop (length (codes "env:")) ref)
      else if has_prefix (codes "keychain:") ref
      then (do v ← keychain_value ref; some (trim_space v))
      else none

  -- `ResolveAgentKey`, without the name of the source.
  unfoldable pub resolve_agent_key : Settings → Option Bytes
  unfolding key_at trim_space
  resolve_agent_key c =
      if length c.agent_key == 0
      then if not (length (getenv (codes "BURNDROP_API_KEY")) == 0)
        then some (trim_space (getenv (codes "BURNDROP_API_KEY")))
        else key_at (codes "keychain:burndrop/agent-key")
      else key_at c.agent_key

  -- `ResolveRevealPassword`: none if it fails, and the empty password if none is set.
  unfoldable pub resolve_reveal_password : Settings → Option Bytes
  unfolding has_prefix keychain_value
  resolve_reveal_password c =
      let ref = c.reveal_password in
      let variable = getenv (drop (length (codes "env:")) ref) in
      if length ref == 0
      then some []
      else if has_prefix (codes "env:") ref
      then if length variable == 0 then none else some variable
      else if has_prefix (codes "keychain:") ref
      then keychain_value ref
      else none
