-- ===== src/Agent/Send.antt =====
-- `CanSend` and `Send` of internal/agent/agent.go. The texts for the human are left out of the answer.
pub mod Slots
pub mod Sendable
pub mod Opened
use burndrop.Common.{
  ℕ, ◌+◌, Bytes, codes, bytes_eq, Bool, true, false, not, Option, none, some, List, [], ◌∷◌, length,
  ◌==◌, if◌then◌else◌,
}
use burndrop.Client.Calls.{RevealCreated, create_reveal, revoke_reveal}
use burndrop.Crypto.Envelope.{Envelope, set_secret, reveal_aad}
use burndrop.Crypto.Sealed.{encrypt_envelope, reveal_key_with_password}
use burndrop.Link.Reveal.{RevealLink, build}
use burndrop.Storage.{StorageError, invalid_name, not_found, Metadata, valid_name}
use burndrop.Agent.Config.{is_some, ttl_of}
use burndrop.Agent.Exec.{
  AgentError, storage_error, not_sendable, no_reveal_password, password_failed, no_random,
  crypto_failed, bad_link, bad_ttl, Result, done, stopped, Exec, pure, raise, of_option, on_error,
  ◌>>=◌,
}
use burndrop.Agent.Records.{is_internal_kind, save_sent}
use burndrop.Agent.Request.{log_relay_error}
use burndrop.Agent.World.{
  SentRecord, Env, World, page_origin, now, draw, call, call_anyway, store_get, store_stat,
  store_delete, redact_value, log,
}

pub record SendInput : Type 0 where
  pub name : Bytes
  pub ttl : Bytes
  pub delete_after : Bool

pub record SendOutput : Type 0 where
  pub request_id : Bytes
  pub link : Bytes
  pub expires_at : ℕ
  pub keeps_copy : Bool
  pub password_protected : Bool

unfoldable pub failed : Result (Unit {0}) → Bool
failed (done _) = false
failed (stopped e) = true

-- The envelope of a reveal before `SetSecret`.
abbrev pub reveal_envelope : Bytes → Envelope
reveal_envelope name = record {
  v = 1;
  kind = codes "reveal";
  name = name;
  purpose = [];
  storage = [];
  retention = [];
  fingerprint = [];
  format = [];
  secret = [];
}

module _ {S R : Type 0} (env : Env S R) where
  unfoldable pub sendable_meta : Metadata → Exec (World S R) (Unit {0})
  unfolding is_internal_kind
  sendable_meta meta =
      if is_internal_kind meta.kind
      then raise (storage_error not_found)
      else if not meta.sendable
      then raise not_sendable
      else pure tt

  unfoldable pub can_send : Bytes → Exec (World S R) (Unit {0})
  unfolding valid_name store_stat sendable_meta
  can_send name =
      if not (valid_name name)
      then raise (storage_error invalid_name)
      else (do meta ← store_stat env name; sendable_meta meta)

  unfoldable pub salted : Bytes → Bytes → Bytes → Exec (World S R) (Bytes × Bytes)
  unfolding reveal_key_with_password
  salted key password salt = do
    derived ← of_option crypto_failed (reveal_key_with_password env.primitives key password salt)
    pure (derived, salt)

  -- The key of the ciphertext and the salt of the link, which is empty without a password.
  unfoldable pub with_password : Bytes → Bytes → Exec (World S R) (Bytes × Bytes)
  unfolding draw salted
  with_password key password =
      if length password == 0
      then raise no_reveal_password
      else (do bytes ← draw env; salt ← of_option no_random bytes; salted key password salt)

  unfoldable pub from_source : Bytes → Option (Option Bytes) → Exec (World S R) (Bytes × Bytes)
  unfolding with_password
  from_source key none = raise no_reveal_password
  from_source key (some none) = raise password_failed
  from_source key (some (some password)) = with_password key password

  unfoldable pub encryption_key : Bytes → Exec (World S R) (Bytes × Bytes)
  unfolding from_source
  encryption_key key =
      if env.config.reveal_password_required
      then from_source key env.password_source
      else pure (key, [])

  unfoldable pub reveal_link : SendInput → Bytes → Bytes → RevealCreated → RevealLink
  unfolding page_origin
  reveal_link input key salt created = record {
    relay = if not (bytes_eq env.relay_origin (page_origin env)) then env.relay_origin else [];
    id = created.id;
    reveal_token = created.reveal_token;
    key = key;
    name = input.name;
    keeps_copy = not input.delete_after;
    salt = salt;
  }

  unfoldable pub take_back : {A : Type 0} → RevealCreated → AgentError → Exec (World S R) A
  unfolding call_anyway revoke_reveal
  take_back created e = do
    u ← call_anyway env (revoke_reveal env.wire env.api_key created.id created.revoke_token)
    raise e

  -- Whether a copy is kept, after DeleteAfter.
  unfoldable pub drop_copy : SendInput → Exec (World S R) Bool
  unfolding store_delete failed
  drop_copy input =
      if input.delete_after
      then (do r ← store_delete env input.name; pure (failed r))
      else pure true

  unfoldable pub answer_send :
      SendInput → Bytes → RevealCreated → Bytes → Bool → Exec (World S R) SendOutput
  unfolding log
  answer_send input salt created url keeps = do
    u ← log env (codes "send_secret") input.name created.id (codes "created")
    pure (record {
      request_id = created.id;
      link = url;
      expires_at = created.expires_at;
      keeps_copy = keeps;
      password_protected = not (length salt == 0);
    })

  unfoldable pub finish_send :
      SendInput → Bytes → RevealCreated → Bytes → Metadata → Exec (World S R) SendOutput
  unfolding drop_copy answer_send
  finish_send input salt created url meta = do
    keeps ← drop_copy input
    answer_send input salt created url keeps

  unfoldable pub sent_record_of : SendInput → RevealCreated → ℕ → SentRecord
  sent_record_of input created now = record {
    v = 1;
    drop_id = created.id;
    revoke_token = created.revoke_token;
    name = input.name;
    created_at = now;
    expires_at = created.expires_at;
  }

  unfoldable pub record_sent :
      SendInput → Bytes → RevealCreated → Bytes → Exec (World S R) SendOutput
  unfolding now save_sent take_back finish_send sent_record_of
  record_sent input salt created url = do
    t ← now env
    meta ← on_error (save_sent env (sent_record_of input created t)) (take_back created)
    finish_send input salt created url meta

  -- From the slot that the relay has made.
  unfoldable pub make_reveal_link :
      SendInput → Bytes → Bytes → RevealCreated → Exec (World S R) SendOutput
  unfolding build reveal_link page_origin take_back record_sent
  make_reveal_link input key salt created = do
    let link = reveal_link input key salt created
    url ←
        on_error
          (of_option bad_link
            (build env.url_parse (λ s. is_some (env.rfc3339 s)) link (page_origin env)))
          (take_back created)
    record_sent input salt created url

  unfoldable pub make_reveal : SendInput → ℕ → Bytes → Bytes → Bytes → Exec (World S R) SendOutput
  unfolding call create_reveal log_relay_error make_reveal_link
  make_reveal input ttl key salt ct = do
    created ←
        on_error (call env (create_reveal env.wire env.api_key ct ttl))
          (log_relay_error env (codes "send_secret") input.name)
    make_reveal_link input key salt created

  unfoldable pub encrypted : SendInput → Bytes → Bytes → Option Bytes → Option Bytes
  unfolding encrypt_envelope set_secret reveal_aad
  encrypted input value enc_key nonce =
      encrypt_envelope env.primitives enc_key (set_secret value (reveal_envelope input.name))
        (reveal_aad input.name (not input.delete_after)) nonce

  unfoldable pub encrypt_and_send :
      SendInput → ℕ → Bytes → Bytes → Bytes × Bytes → Exec (World S R) SendOutput
  unfolding draw encrypted make_reveal
  encrypt_and_send input ttl value key (enc_key, salt) = do
    nonce ← draw env
    ct ← of_option crypto_failed (encrypted input value enc_key nonce)
    make_reveal input ttl key salt ct

  unfoldable pub send_under : SendInput → ℕ → Bytes → Bytes → Exec (World S R) SendOutput
  unfolding encryption_key encrypt_and_send
  send_under input ttl value key = do k ← encryption_key key; encrypt_and_send input ttl value key k

  -- From a value that may be sent.
  unfoldable pub send_value : SendInput → ℕ → Bytes → Exec (World S R) SendOutput
  unfolding redact_value draw send_under
  send_value input ttl value = do
    u ← redact_value env input.name value
    bytes ← draw env
    key ← of_option no_random bytes
    send_under input ttl value key

  unfoldable pub refuse_send : SendInput → Exec (World S R) SendOutput
  unfolding log
  refuse_send input = do
    u ← log env (codes "send_secret") input.name [] (codes "refused_not_sendable")
    raise not_sendable

  unfoldable pub send_stored : SendInput → ℕ → Bytes × Metadata → Exec (World S R) SendOutput
  unfolding refuse_send send_value
  send_stored input ttl (value, meta) =
      if bytes_eq meta.kind (codes "pending")
      then raise (storage_error not_found)
      else if not meta.sendable
      then refuse_send input
      else send_value input ttl value

  unfoldable pub send_within : SendInput → ℕ → Exec (World S R) SendOutput
  unfolding store_get send_stored
  send_within input ttl = do stored ← store_get env input.name; send_stored input ttl stored

  unfoldable pub send : SendInput → Exec (World S R) SendOutput
  unfolding valid_name ttl_of send_within
  send input = if not (valid_name input.name) then raise (storage_error invalid_name) else (do
    ttl ← of_option bad_ttl (ttl_of env.parse_duration env.config input.ttl)
    send_within input ttl)
