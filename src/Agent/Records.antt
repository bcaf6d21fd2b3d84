-- ===== src/Agent/Records.antt =====
-- The records that an agent keeps in its store (internal/agent/agent.go): pending requests and sent reveals,
-- the words of messages.go for a backend, and `Pending`, `List` and `Delete`. The JSON of a record is a
-- parameter. A field of the parsed JSON is one of the record's.
pub mod Saved
use burndrop.Common.{
  ℕ, ◌+◌, Bytes, codes, bytes_eq, Bool, true, false, not, ◌&&◌, ◌||◌, Option, none, some, List, [],
  ◌∷◌, ◌++◌, length, drop, ltb, leb, ◌==◌, if◌then◌else◌,
}
use burndrop.Crypto.Text.{has_prefix}
use burndrop.Crypto.Tokens.{valid_token}
use burndrop.Storage.{StorageError, not_found, invalid_name, Metadata, valid_name}
use burndrop.Agent.Exec.{
  AgentError, storage_error, no_pending, corrupt, Result, done, stopped, Exec, pure, raise, ◌>>=◌,
}
use burndrop.Agent.World.{
  PendingRecord, SentRecord, Env, World, now, store_put, store_get, store_list, store_delete,
  forget_value, log,
}

-- time.Second
abbrev pub second : ℕ
second = 1000000000

unfoldable pub pending_name : Bytes → Bytes
pending_name id = codes "pending." ++ id

unfoldable pub sent_name : Bytes → Bytes
sent_name id = codes "sent." ++ id

unfoldable pub is_internal_name : Bytes → Bool
unfolding has_prefix
is_internal_name name = has_prefix (codes "pending.") name || has_prefix (codes "sent.") name

unfoldable pub is_internal_kind : Bytes → Bool
is_internal_kind kind = bytes_eq kind (codes "pending") || bytes_eq kind (codes "sent")

-- strings.TrimPrefix
unfoldable pub trim_prefix : Bytes → Bytes → Bytes
unfolding has_prefix
trim_prefix p s = if has_prefix p s then drop (length p) s else s

unfoldable pub describe_storage : Bytes → Bytes
describe_storage backend =
    if bytes_eq backend (codes "keychain")
    then codes "the OS keychain on the agent's machine"
    else if bytes_eq backend (codes "agevault")
    then codes "an encrypted vault file on the agent's machine"
    else if bytes_eq backend (codes "memory")
    then codes "the agent's process memory only"
    else if bytes_eq backend (codes "dotenv")
    then codes "a .env file on the agent's machine"
    else if bytes_eq backend (codes "onepassword")
    then codes "1Password"
    else if bytes_eq backend (codes "bitwarden")
    then codes "Bitwarden"
    else if bytes_eq backend (codes "vault")
    then codes "HashiCorp Vault"
    else if bytes_eq backend (codes "infisical")
    then codes "Infisical"
    else if bytes_eq backend (codes "doppler")
    then codes "Doppler"
    else if bytes_eq backend (codes "aws")
    then codes "AWS Secrets Manager"
    else if bytes_eq backend (codes "gcp")
    then codes "Google Secret Manager"
    else if bytes_eq backend (codes "azure")
    then codes "Azure Key Vault"
    else if length backend == 0
    then codes "the configured storage"
    else backend

-- What a caller of `Put` leaves empty is filled in by the manager.
abbrev pub no_metadata : Metadata
no_metadata = record {
  name = [];
  backend = [];
  retention = [];
  created_at = 0;
  expires_at = 0;
  purpose = [];
  source = [];
  sendable = false;
  fingerprint = [];
  size_bytes = 0;
  kind = [];
}

-- A request that `Pending` lists.
pub record PendingRequest : Type 0 where
  pub request_id : Bytes
  pub name : Bytes
  pub purpose : Bytes
  pub fingerprint : Bytes
  pub retention : Bytes
  pub storage : Bytes
  pub created_at : ℕ
  pub expires_at : ℕ

unfoldable pub request_of : PendingRecord → PendingRequest
request_of r = record {
  request_id = r.drop_id;
  name = r.name;
  purpose = r.purpose;
  fingerprint = r.fingerprint;
  retention = r.retention;
  storage = r.storage;
  created_at = r.created_at;
  expires_at = r.expires_at;
}

-- sort.Slice, the oldest first.
unfoldable pub place : PendingRequest → List PendingRequest → List PendingRequest
place x [] = x ∷ []
place x (y ∷ ys) = if ltb y.created_at x.created_at then y ∷ place x ys else x ∷ y ∷ ys

unfoldable pub sort_oldest : List PendingRequest → List PendingRequest
unfolding place
sort_oldest [] = []
sort_oldest (x ∷ xs) = place x (sort_oldest xs)

-- The loop of `List`.
unfoldable pub shown : List Metadata → List Metadata
unfolding is_internal_kind
shown [] = []
shown (m ∷ ms) = let rest = shown ms in if is_internal_kind m.kind then rest else m ∷ rest

-- A record that parsed, if its version is 1.
unfoldable pub pending_record : Option PendingRecord → Result PendingRecord
pending_record none = stopped corrupt
pending_record (some r) = if not (r.v == 1) then stopped corrupt else done r

unfoldable pub sent_record : Option SentRecord → Result SentRecord
sent_record none = stopped corrupt
sent_record (some r) = if not (r.v == 1) then stopped corrupt else done r

-- The error of `Get` for a record: a missing one is no pending request.
unfoldable pub missing_record : {A : Type 0} → Result A → Result A
missing_record (stopped (storage_error not_found)) = stopped no_pending
missing_record r = r

unfoldable pub result_name : Result (Unit {0}) → Bytes
result_name (done _) = codes "deleted"
result_name (stopped e) = codes "error"

module _ {S R : Type 0} (env : Env S R) where
  -- The retention of a record: up to the expiry of the slot, or the session if that is within a second.
  unfoldable pub record_retention : ℕ → ℕ → Bytes
  record_retention expires_at now =
      if not (ltb (now + second) expires_at)
      then codes "session"
      else codes "until:" ++ env.print_rfc3339 expires_at

  unfoldable pub save_pending : PendingRecord → Exec (World S R) Metadata
  unfolding now record_retention pending_name store_put
  save_pending r = do
    t ← now env
    store_put env (pending_name r.drop_id) (env.print_pending r) (record no_metadata {
      retention = record_retention r.expires_at t;
      purpose = r.purpose;
      source = codes "drop";
      kind = codes "pending";
      fingerprint = r.fingerprint;
    })

  -- `Get` of a record by its name.
  unfoldable pub get_record : Bytes → Exec (World S R) (Bytes × Metadata)
  unfolding store_get missing_record
  get_record name w = let (r, w') = store_get env name w in (missing_record r, w')

  unfoldable pub parse_pending : Bytes × Metadata → Exec (World S R) PendingRecord
  unfolding pending_record
  parse_pending (b, meta) w = (pending_record (env.read_pending b), w)

  unfoldable pub load_pending : Bytes → Exec (World S R) PendingRecord
  unfolding valid_token pending_name get_record parse_pending
  load_pending id =
      if not (valid_token id)
      then raise no_pending
      else (get_record (pending_name id) >>= parse_pending)

  unfoldable pub delete_pending : Bytes → Exec (World S R) (Result (Unit {0}))
  unfolding store_delete pending_name
  delete_pending id = store_delete env (pending_name id)

  unfoldable pub save_sent : SentRecord → Exec (World S R) Metadata
  unfolding now record_retention sent_name store_put
  save_sent r = do
    t ← now env
    store_put env (sent_name r.drop_id) (env.print_sent r) (record no_metadata {
      retention = record_retention r.expires_at t;
      source = codes "capture";
      kind = codes "sent";
    })

  unfoldable pub parse_sent : Bytes × Metadata → Exec (World S R) SentRecord
  unfolding sent_record
  parse_sent (b, meta) w = (sent_record (env.read_sent b), w)

  unfoldable pub load_sent : Bytes → Exec (World S R) SentRecord
  unfolding valid_token sent_name get_record parse_sent
  load_sent id =
      if not (valid_token id) then raise no_pending else (get_record (sent_name id) >>= parse_sent)

  unfoldable pub delete_sent : Bytes → Exec (World S R) (Result (Unit {0}))
  unfolding store_delete sent_name
  delete_sent id = store_delete env (sent_name id)

  -- The loop of `Pending`: a record that does not load is passed over.
  unfoldable pub onto_request :
      (World S R → (Result (List PendingRequest) × World S R))
      → Result PendingRecord × World S R
      → Result (List PendingRequest) × World S R
  unfolding request_of
  onto_request rest (stopped e, w) = rest w
  onto_request rest (done r, w) = (do rs ← rest; pure (request_of r ∷ rs)) w

  unfoldable pub pending_of : List Metadata → Exec (World S R) (List PendingRequest)
  unfolding onto_request load_pending trim_prefix
  pending_of [] w = (done [], w)
  pending_of (m ∷ ms) w =
      let rest = pending_of ms in
      if not (bytes_eq m.kind (codes "pending"))
      then rest w
      else onto_request rest (load_pending (trim_prefix (codes "pending.") m.name) w)

  unfoldable pub pending : Exec (World S R) (List PendingRequest)
  unfolding store_list pending_of sort_oldest
  pending = do all ← store_list env; rs ← pending_of all; pure (sort_oldest rs)

  -- `List`
  unfoldable pub list_shown : Exec (World S R) (List Metadata)
  unfolding store_list shown
  list_shown = do all ← store_list env; pure (shown all)

  -- `Delete`
  unfoldable pub delete_secret : Bytes → Exec (World S R) (Unit {0})
  unfolding valid_name is_internal_name store_delete forget_value log result_name
  delete_secret name =
      if not (valid_name name)
      then raise (storage_error invalid_name)
      else if is_internal_name name
      then raise (storage_error not_found)
      else (do
        r ← store_delete env name
        u ← forget_value env name
        u ← log env (codes "delete_secret") name [] (result_name r)
        (λ w. (r, w)))
