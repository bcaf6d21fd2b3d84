-- ===== src/Agent/Fetch.antt =====
-- `Fetch` of internal/agent/agent.go. What the turns of the wait for the upload meet is an argument, and so
-- is the relay after them. The message of an answer is left out.
pub mod Matches
pub mod Stored
pub mod Opened
pub mod Delivered
use burndrop.Common.{
  ℕ, ◌+◌, ◌-◌, ◌^◌, Bytes, codes, bytes_eq, Bool, true, false, not, ◌&&◌, ◌||◌, Option, none, some,
  List, [], ◌∷◌, length, ◌==◌, if◌then◌else◌,
}
use burndrop.Client.{
  Status, CallError, refused, timed_out, broken, Turn, Waited, changed, deadline_exceeded,
  cancelled, gave_up, wait_while,
}
use burndrop.Client.Calls.{fetch, is_code}
use burndrop.Crypto.Envelope.{Envelope, secret_bytes}
use burndrop.Crypto.Sealed.{key_from_bytes, open_envelope}
use burndrop.Relay.Config.{is_negative, as_duration, less}
use burndrop.Storage.{Metadata}
use burndrop.Agent.Exec.{
  AgentError, relay_error, no_pending, ambiguous, crypto_failed, unexpected_state, still_waiting,
  context_ended, Result, done, stopped, Exec, pure, raise, of_option, on_error, ◌>>=◌,
}
use burndrop.Agent.Records.{
  PendingRequest, describe_storage, no_metadata, load_pending, delete_pending, pending,
}
use burndrop.Agent.World.{PendingRecord, Env, World, now, call, store_put, redact_value, log}

pub record FetchInput : Type 0 where
  pub request_id : Bytes
  -- The 64-bit pattern of an int.
  pub wait_seconds : ℕ

pub record FetchOutput : Type 0 where
  pub status : Bytes
  pub request_id : Bytes
  pub name : Bytes
  pub storage : Bytes
  pub retention : Bytes
  pub fingerprint : Bytes
  pub size_bytes : ℕ
  pub expires_at : ℕ

-- What the wait for the upload meets, and the relay after it.
pub record Poll (R : Type 0) : Type 0 where
  pub turns : List Turn
  pub relay : R
  -- Whether the context ends at a deadline of its own, where it ends.
  pub ends_by_deadline : Bool

-- MaxFetchWait
abbrev pub max_fetch_wait : ℕ
max_fetch_wait = 300000000000

unfoldable pub wait_of : ℕ → ℕ
unfolding as_duration less
wait_of seconds =
    let wait = if seconds == 0 then 30000000000 else as_duration seconds in
    if less max_fetch_wait wait then max_fetch_wait else wait

-- now.Add of a duration.
unfoldable pub deadline_after : ℕ → ℕ → ℕ
unfolding is_negative
deadline_after now wait = if is_negative wait then now - (2 ^ 64 - wait) else now + wait

-- Whether an envelope is what the request asked for.
unfoldable pub check_envelope : Envelope → PendingRecord → Bool
unfolding describe_storage
check_envelope e r =
    if not (bytes_eq e.kind (codes "drop"))
    then false
    else if not (bytes_eq e.name r.name)
    then false
    else if not (length e.fingerprint == 0) && not (bytes_eq e.fingerprint r.fingerprint)
    then false
    else if not (bytes_eq e.retention r.retention)
    then false
    else if not (bytes_eq e.purpose r.purpose)
    then false
    else if not (bytes_eq e.storage (describe_storage r.storage))
    then false
    else true

unfoldable pub output_of : PendingRecord → Bytes → FetchOutput
output_of r status = record {
  status = status;
  request_id = r.drop_id;
  name = r.name;
  storage = r.storage;
  retention = r.retention;
  fingerprint = r.fingerprint;
  size_bytes = 0;
  expires_at = r.expires_at;
}

-- The metadata of a value that was received.
unfoldable pub received : PendingRecord → Metadata
received r = record no_metadata {
  retention = r.retention;
  purpose = r.purpose;
  source = codes "drop";
  sendable = r.sendable;
  fingerprint = r.fingerprint;
}

-- The status that the wait ends with: the last one seen if it ended at the deadline. No status is the
-- state "".
unfoldable pub state_of : Option Status → Bytes
state_of none = []
state_of (some s) = s.state

unfoldable pub only_request : List PendingRequest → Result Bytes
only_request [] = stopped no_pending
only_request (p ∷ []) = done p.request_id
only_request (p ∷ q ∷ rs) = stopped ambiguous

module _ {S R : Type 0} (env : Env S R) where
  unfoldable pub log_fetch : PendingRecord → Bytes → Exec (World S R) (Unit {0})
  unfolding log
  log_fetch r result = log env (codes "fetch_secret") r.name r.drop_id result

  -- The record is deleted and the answer is logged.
  unfoldable pub finish : PendingRecord → Bytes → Exec (World S R) FetchOutput
  unfolding delete_pending log_fetch output_of
  finish r status = do
    d ← delete_pending env r.drop_id
    u ← log_fetch r status
    pure (output_of r status)

  unfoldable pub fail_store : PendingRecord → {A : Type 0} → AgentError → Exec (World S R) A
  unfolding log_fetch
  fail_store r e = do u ← log_fetch r (codes "store_failed"); raise e

  -- The value of an envelope that passed.
  unfoldable pub answer_stored : PendingRecord → Bytes → Metadata → Exec (World S R) FetchOutput
  unfolding redact_value delete_pending log_fetch output_of
  answer_stored r value meta = do
    u ← redact_value env r.name value
    d ← delete_pending env r.drop_id
    u ← log_fetch r (codes "stored")
    pure (record (output_of r (codes "stored")) {
      storage = meta.backend;
      size_bytes = meta.size_bytes;
    })

  unfoldable pub store_value : PendingRecord → Bytes → Exec (World S R) FetchOutput
  unfolding store_put received fail_store answer_stored
  store_value r value = do
    meta ← on_error (store_put env r.name value (received r)) (fail_store r)
    answer_stored r value meta

  unfoldable pub take_envelope : PendingRecord → Option Envelope → Exec (World S R) FetchOutput
  unfolding finish check_envelope secret_bytes store_value
  take_envelope r none = finish r (codes "rejected")
  take_envelope r (some e) =
      if not (check_envelope e r)
      then finish r (codes "rejected")
      else (do value ← of_option crypto_failed (secret_bytes e); store_value r value)

  unfoldable pub open_with : PendingRecord → Bytes → Bytes → Exec (World S R) FetchOutput
  unfolding key_from_bytes open_envelope take_envelope
  open_with r ct public = do
    private ← of_option crypto_failed (key_from_bytes r.private_key)
    take_envelope r (open_envelope env.primitives public private ct)

  unfoldable pub open_upload : PendingRecord → Bytes × ℕ → Exec (World S R) FetchOutput
  unfolding key_from_bytes open_with
  open_upload r (ct, t) = do
    public ← of_option crypto_failed (key_from_bytes r.public_key)
    open_with r ct public

  unfoldable pub fetch_failed : PendingRecord → AgentError → Exec (World S R) FetchOutput
  unfolding is_code finish
  fetch_failed r (relay_error e) =
      if is_code e (codes "gone") then finish r (codes "gone") else raise (relay_error e)
  fetch_failed r e = raise e

  unfoldable pub after_fetch :
      PendingRecord → Result (Bytes × ℕ) × World S R → Result FetchOutput × World S R
  unfolding open_upload fetch_failed
  after_fetch r (done upload, w) = open_upload r upload w
  after_fetch r (stopped e, w) = fetch_failed r e w

  unfoldable pub fetch_uploaded : PendingRecord → Exec (World S R) FetchOutput
  unfolding call fetch after_fetch
  fetch_uploaded r w =
      after_fetch r (call env (fetch env.wire env.api_key r.drop_id r.fetch_token) w)

  -- The switch on the state.
  unfoldable pub by_state : PendingRecord → Bytes → Exec (World S R) FetchOutput
  unfolding output_of finish fetch_uploaded
  by_state r state =
      if bytes_eq state (codes "created") || (length state == 0)
      then pure (output_of r (codes "waiting"))
      else if bytes_eq state (codes "revoked")
      then finish r (codes "revoked")
      else if bytes_eq state (codes "expired")
      then finish r (codes "expired")
      else if bytes_eq state (codes "fetched")
      then finish r (codes "gone")
      else if bytes_eq state (codes "uploaded")
      then fetch_uploaded r
      else raise unexpected_state

  -- context.DeadlineExceeded, which a timeout of the transport is too, leads to the switch.
  unfoldable pub after_wait : PendingRecord → Bool → Option Waited → Exec (World S R) FetchOutput
  unfolding by_state state_of is_code finish
  after_wait r by_deadline none = raise still_waiting
  after_wait r by_deadline (some (changed s)) = by_state r s.state
  after_wait r by_deadline (some (deadline_exceeded last)) = by_state r (state_of last)
  after_wait r by_deadline (some (cancelled last)) =
      if by_deadline then by_state r (state_of last) else raise context_ended
  after_wait r by_deadline (some (gave_up last timed_out)) = by_state r (state_of last)
  after_wait r by_deadline (some (gave_up last broken)) = raise (relay_error broken)
  after_wait r by_deadline (some (gave_up last (refused e))) =
      if is_code (refused e) (codes "not_found")
      then finish r (codes "expired")
      else raise (relay_error (refused e))

  unfoldable pub request_id_of : FetchInput → Exec (World S R) Bytes
  unfolding pending only_request
  request_id_of input =
      if not (length input.request_id == 0)
      then pure input.request_id
      else (do rs ← pending env; (λ w. (only_request rs, w)))

  -- The relay is what the polls have left.
  unfoldable pub polled : R → Exec (World S R) (Unit {0})
  polled relay w = (done tt, record w { relay = relay })

  unfoldable pub wait_and_fetch : Poll R → FetchInput → PendingRecord → Exec (World S R) FetchOutput
  unfolding wait_of now deadline_after polled wait_while after_wait
  wait_and_fetch poll input r = do
    t ← now env
    u ← polled poll.relay
    let deadline = deadline_after t (wait_of input.wait_seconds)
    after_wait r poll.ends_by_deadline (wait_while (codes "created") deadline none 0 poll.turns)

  unfoldable pub fetch_request : Poll R → FetchInput → Bytes → Exec (World S R) FetchOutput
  unfolding load_pending wait_and_fetch
  fetch_request poll input id = do r ← load_pending env id; wait_and_fetch poll input r

  unfoldable pub fetch_secret : Poll R → FetchInput → Exec (World S R) FetchOutput
  unfolding request_id_of fetch_request
  fetch_secret poll input = do id ← request_id_of input; fetch_request poll input id
