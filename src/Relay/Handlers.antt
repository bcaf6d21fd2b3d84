-- ===== src/Relay/Handlers.antt =====
-- internal/relay/handlers.go: the HTTP handlers on the memory store. What runs before a handler's own
-- code is in its arguments: the key that `authenticate` found, whether the rate limiter allows the
-- request, and what `decodeJSON` made of the body. SHA-256 and the random tokens are arguments too.
-- A reply is its status, its error code or its fields; texts of details are left out. The text of a
-- time is the second that it names, or none where the time is empty or left out.
pub mod Routes
pub mod Polls
pub mod Delivery
mod Tests
use burndrop.Common.{
  ℕ, ◌+◌, ◌-◌, ◌*◌, ◌/◌, Bytes, Bool, true, false, not, ◌&&◌, ◌||◌, Option, none, some, [], length,
  ltb, leb, ◌==◌, if◌then◌else◌,
}
use burndrop.Crypto.Base64.{encode, decode}
use burndrop.Crypto.Tokens.{valid_token, valid_commitment}
use burndrop.Relay.Slot.{
  Kind, drop, reveal, State, created, uploaded, Drop, Status, StoreError, not_found, bad_token,
  commitment_mismatch, full, wrong_kind, state_error, Result, ok, err, Hash, zero_hash, is_drop,
  is_created, is_uploaded,
}
use burndrop.Relay.Memory.{Memory, create}
use burndrop.Relay.Memory.Methods.{upload, fetch, open_reveal, revoke, status}
use burndrop.Relay.Config.{Config, clamp_ttl}

-- The codes of error replies, each with the members that it carries beside a text.
pub data ErrorCode : Type 0 where
  unauthorized rate_limited bad_request internal_error missing : ErrorCode
  forbidden mismatch store_full too_large too_many_waiters : ErrorCode
  already_uploaded not_uploaded gone : State → Option ℕ → ErrorCode

-- `statusBody`
pub record StatusBody : Type 0 where
  pub state : State
  pub kind : Kind
  pub created_at : Option ℕ
  pub expires_at : Option ℕ
  pub uploaded_at : Option ℕ
  pub opened_at : Option ℕ
  pub fetched_at : Option ℕ
  pub revoked_at : Option ℕ

pub data Reply : Type 0 where
  failed : ℕ → ErrorCode → Reply
  drop_created : Bytes → Bytes → Bytes → Option ℕ → Reply
  reveal_created : Bytes → Bytes → Bytes → Option ℕ → Reply
  now_uploaded now_revoked : Reply
  sent : Bytes → Option ℕ → Reply
  described : StatusBody → Reply

pub data Operation : Type 0 where
  op_create op_upload op_fetch op_open op_status op_revoke : Operation

-- The body of a request: what `decodeJSON` wrote, or the reply that it sent.
pub data Body (A : Type 0) : Type 0 where
  parsed : A → Body A
  refused : Reply → Body A

-- The three tokens of `newTokens`, unless the system has no randomness.
pub record Tokens : Type 0 where
  pub id : Bytes
  pub a : Bytes
  pub b : Bytes

pub record Agent : Type 0 where
  pub key : Option Bytes
  pub allowed : Bool

pub record CreateDropRequest : Type 0 where
  pub ttl_seconds : ℕ
  pub commitment : Bytes

pub record UploadRequest : Type 0 where
  pub drop_id : Bytes
  pub upload_token : Bytes
  pub commitment : Bytes
  pub ciphertext : Bytes

pub record TokenRequest : Type 0 where
  pub drop_id : Bytes
  pub token : Bytes

pub record CreateRevealRequest : Type 0 where
  pub ttl_seconds : ℕ
  pub ciphertext : Bytes

-- A text of RFC 3339 names a second: the fraction is dropped, and the text of the zero time is empty.
unfoldable pub rfc3339 : ℕ → Option ℕ
rfc3339 t = if t == 0 then none else some (t / 1000000000)

unfoldable pub status_body : Status → StatusBody
unfolding rfc3339 is_drop
status_body st = record {
  state = st.state;
  kind = st.kind;
  created_at = rfc3339 st.created_at;
  expires_at = rfc3339 st.expires_at;
  uploaded_at = rfc3339 st.uploaded_at;
  opened_at = if is_drop st.kind then none else rfc3339 st.fetched_at;
  fetched_at = if is_drop st.kind then rfc3339 st.fetched_at else none;
  revoked_at = rfc3339 st.revoked_at;
}

-- The inner switch on a state error.
unfoldable pub state_reply : Operation → State → ℕ → Reply
unfolding rfc3339
state_reply op_upload uploaded at = failed 409 (already_uploaded uploaded (rfc3339 at))
state_reply op_fetch created at = failed 404 (not_uploaded created (rfc3339 at))
state_reply op s at = failed 410 (gone s (rfc3339 at))

unfoldable pub store_error : StoreError → Operation → Reply
unfolding state_reply
store_error not_found op = failed 404 missing
store_error wrong_kind op = failed 404 missing
store_error bad_token op = failed 403 forbidden
store_error commitment_mismatch op = failed 422 mismatch
store_error full op = failed 503 store_full
store_error (state_error s at) op = state_reply op s at

-- `decodeCiphertext` after the decoding.
unfoldable pub check_ciphertext : Config → ℕ → Option Bytes → Body Bytes
check_ciphertext c min_len none = refused (failed 400 bad_request)
check_ciphertext c min_len (some ct) =
    if ltb c.max_ciphertext_bytes (length ct)
    then refused (failed 413 too_large)
    else if ltb (length ct) min_len
    then refused (failed 400 bad_request)
    else parsed ct

unfoldable pub decode_ciphertext : Config → Bytes → ℕ → Body Bytes
unfolding check_ciphertext
decode_ciphertext c encoded min_len =
    if length encoded == 0
    then refused (failed 400 bad_request)
    else if ltb (c.max_ciphertext_bytes * 4 / 3 + 4) (length encoded)
    then refused (failed 413 too_large)
    else check_ciphertext c min_len (decode encoded)

-- crypto.SealedOverhead + crypto.PadBlock, and crypto.AEADOverhead + crypto.PadBlock
abbrev pub min_sealed : ℕ
min_sealed = 304

abbrev pub min_blob : ℕ
min_blob = 296

-- What the handlers for agents do before their own code.
unfoldable pub as_agent :
    {A : Type 0}
    → Option Bytes
    → Bool
    → Body A
    → Memory
    → (Bytes → A → Reply × Memory)
    → Reply × Memory
as_agent none allowed body m serve = (failed 401 unauthorized, m)
as_agent (some key) false body m serve = (failed 429 rate_limited, m)
as_agent (some key) true (refused reply) m serve = (reply, m)
as_agent (some key) true (parsed req) m serve = serve key req

-- What the handlers for pages do before their own code.
unfoldable pub as_page :
    {A : Type 0} → Bool → Body A → Memory → (A → Reply × Memory) → Reply × Memory
as_page false body m serve = (failed 429 rate_limited, m)
as_page true (refused reply) m serve = (reply, m)
as_page true (parsed req) m serve = serve req

-- Go's comparison of two kinds.
unfoldable pub same_kind : Kind → Kind → Bool
unfolding is_drop
same_kind a b = if is_drop a then is_drop b else not (is_drop b)

-- The reply to what a method of the store returns.
unfoldable pub answer : {A : Type 0} → Operation → (A → Reply) → Result A × Memory → Reply × Memory
unfolding store_error
answer op done (ok a, m) = (done a, m)
answer op done (err e, m) = (store_error e op, m)

-- The slots that the two creating handlers make.
unfoldable pub new_drop : (Bytes → Hash) → Config → ℕ → Bytes → Tokens → CreateDropRequest → Drop
new_drop sha c clock key t req = record {
  id = t.id;
  kind = drop;
  state = created;
  ciphertext = [];
  commitment = req.commitment;
  token_a = sha t.a;
  token_b = sha t.b;
  agent_key_id = key;
  created_at = clock;
  expires_at = clock + clamp_ttl c req.ttl_seconds;
  uploaded_at = 0;
  fetched_at = 0;
  revoked_at = 0;
}

unfoldable pub new_reveal : (Bytes → Hash) → Config → ℕ → Bytes → Tokens → ℕ → Bytes → Drop
new_reveal sha c clock key t ttl ct = record {
  id = t.id;
  kind = reveal;
  state = created;
  ciphertext = ct;
  commitment = [];
  token_a = sha t.a;
  token_b = sha t.b;
  agent_key_id = key;
  created_at = clock;
  expires_at = clock + clamp_ttl c ttl;
  uploaded_at = 0;
  fetched_at = 0;
  revoked_at = 0;
}
