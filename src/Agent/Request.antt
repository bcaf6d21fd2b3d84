-- ===== src/Agent/Request.antt =====
-- `Request` of internal/agent/agent.go. The texts for the human are left out of its answer.
pub mod Saved
use burndrop.Common.{
  ℕ, Bytes, codes, bytes_eq, Bool, true, false, not, Option, none, some, List, [], ◌∷◌, length,
  ◌==◌, if◌then◌else◌,
}
use burndrop.Client.Calls.{DropCreated, create_drop, revoke_drop}
use burndrop.Crypto.Sealed.{fingerprint, commitment}
use burndrop.Crypto.Text.{valid_text}
use burndrop.Crypto.Trim.{trim_space}
use burndrop.Link.Drop.{DropLink, build}
use burndrop.Storage.{StorageError, Metadata, invalid_name, valid_name, parse_retention}
use burndrop.Agent.Config.{is_some, retention_or_default, ttl_of}
use burndrop.Agent.Exec.{
  AgentError, storage_error, bad_purpose, bad_ttl, bad_link, no_random, Exec, done, pure, raise,
  of_option, of_outcome, on_error, ◌>>=◌,
}
use burndrop.Agent.Records.{describe_storage, save_pending}
use burndrop.Agent.World.{PendingRecord, Env, World, page_origin, now, draw, call, call_anyway, log}

pub record RequestInput : Type 0 where
  pub name : Bytes
  pub purpose : Bytes
  pub retention : Bytes
  pub sendable : Bool
  pub ttl : Bytes

pub record RequestOutput : Type 0 where
  pub request_id : Bytes
  pub link : Bytes
  pub fingerprint : Bytes
  pub expires_at : ℕ
  pub storage : Bytes
  pub retention : Bytes

module _ {S R : Type 0} (env : Env S R) where
  unfoldable pub storage_of : Bytes → Bytes
  storage_of retention =
      if bytes_eq retention (codes "session") then codes "memory" else env.backend.name

  unfoldable pub drop_link : RequestInput → Bytes → Bytes → DropCreated → DropLink
  unfolding describe_storage storage_of page_origin
  drop_link input retention public created = record {
    relay = if not (bytes_eq env.relay_origin (page_origin env)) then env.relay_origin else [];
    id = created.id;
    upload_token = created.upload_token;
    recipient_key = public;
    name = input.name;
    purpose = input.purpose;
    storage = describe_storage (storage_of retention);
    retention = retention;
  }

  unfoldable pub pending_of_request :
      RequestInput → Bytes → ℕ → Bytes × Bytes → DropCreated → PendingRecord
  unfolding storage_of fingerprint
  pending_of_request input retention now (public, private) created = record {
    v = 1;
    drop_id = created.id;
    fetch_token = created.fetch_token;
    upload_token = created.upload_token;
    private_key = private;
    public_key = public;
    name = input.name;
    purpose = input.purpose;
    retention = retention;
    storage = storage_of retention;
    sendable = input.sendable;
    fingerprint = fingerprint env.primitives public;
    created_at = now;
    expires_at = created.expires_at;
  }

  -- RevokeDrop after an error, whose own error is dropped.
  unfoldable pub give_back : {A : Type 0} → DropCreated → AgentError → Exec (World S R) A
  unfolding call_anyway revoke_drop
  give_back created e = do
    u ← call_anyway env (revoke_drop env.wire env.api_key created.id created.upload_token)
    raise e

  unfoldable pub answer_request :
      DropCreated → PendingRecord → Bytes → Metadata → Exec (World S R) RequestOutput
  unfolding log
  answer_request created r url meta = do
    u ← log env (codes "request_secret") r.name created.id (codes "created")
    pure (record {
      request_id = created.id;
      link = url;
      fingerprint = r.fingerprint;
      expires_at = created.expires_at;
      storage = r.storage;
      retention = r.retention;
    })

  unfoldable pub record_request :
      DropCreated → PendingRecord → Bytes → Exec (World S R) RequestOutput
  unfolding save_pending give_back answer_request
  record_request created r url = do
    meta ← on_error (save_pending env r) (give_back created)
    answer_request created r url meta

  -- From the slot that the relay has made.
  unfoldable pub make_link :
      RequestInput → Bytes → ℕ → Bytes × Bytes → DropCreated → Exec (World S R) RequestOutput
  unfolding build drop_link page_origin give_back pending_of_request record_request
  make_link input retention now keys created = do
    let r = pending_of_request input retention now keys created
    let link = drop_link input retention keys.0 created
    url ←
        on_error
          (of_option bad_link
            (build env.url_parse (λ s. is_some (env.rfc3339 s)) link (page_origin env)))
          (give_back created)
    record_request created r url

  unfoldable pub log_relay_error : {A : Type 0} → Bytes → Bytes → AgentError → Exec (World S R) A
  unfolding log
  log_relay_error event name e = do u ← log env event name [] (codes "relay_error"); raise e

  unfoldable pub asked_retention : RequestInput → Bytes
  unfolding retention_or_default
  asked_retention input =
      if length input.retention == 0 then retention_or_default env.config else input.retention

  unfoldable pub ask_relay : RequestInput → Bytes → ℕ → ℕ → Bytes → Exec (World S R) RequestOutput
  unfolding create_drop commitment call log_relay_error make_link
  ask_relay input retention now ttl random = do
    let keys = env.primitives.generate_key random
    created ←
        on_error
          (call env (create_drop env.wire env.api_key (commitment env.primitives keys.0) ttl))
          (log_relay_error (codes "request_secret") input.name)
    make_link input retention now keys created

  unfoldable pub with_ttl : RequestInput → Bytes → ℕ → ℕ → Exec (World S R) RequestOutput
  unfolding draw ask_relay
  with_ttl input retention now ttl = do
    bytes ← draw env
    random ← of_option no_random bytes
    ask_relay input retention now ttl random

  -- From the checks on the input.
  unfoldable pub make_slot : RequestInput → Exec (World S R) RequestOutput
  unfolding asked_retention now with_ttl parse_retention
  make_slot input = do
    let retention = asked_retention input
    t ← now env
    e ← (λ w. (of_outcome (parse_retention env.rfc3339 retention t), w))
    ttl ← of_option bad_ttl (ttl_of env.parse_duration env.config input.ttl)
    with_ttl input retention t ttl

  unfoldable pub request : RequestInput → Exec (World S R) RequestOutput
  unfolding valid_name valid_text trim_space make_slot
  request input =
      if not (valid_name input.name)
      then raise (storage_error invalid_name)
      else if not (valid_text input.purpose)
      then raise bad_purpose
      else if length (trim_space input.purpose) == 0
      then raise bad_purpose
      else make_slot input
