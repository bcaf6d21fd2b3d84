-- ===== src/Client/Calls.antt =====
-- The calls of internal/client/client.go. The HTTP transport and JSON are parameters: a request and its
-- answer, the text of a body, and the text members that an answer holds under given names.
use burndrop.Common.{
  ℕ, ◌+◌, ◌/◌, ◌%◌, Bytes, codes, bytes_eq, Map, lookup, Bool, true, false, not, ◌&&◌, Option, none,
  some, List, [], ◌∷◌, ◌++◌, length, take, ltb, ◌==◌, if◌then◌else◌,
}
use burndrop.Crypto.Base64.{encode, decode}
use burndrop.Client.{Status, Error, CallError, refused, timed_out, broken}

-- A member of a JSON body.
pub data Member : Type 0 where
  text : Bytes → Member
  number : ℕ → Member

pub record HttpRequest : Type 0 where
  pub path : Bytes
  pub authorization : Option Bytes
  pub body : Bytes

-- What the transport answers: a status and a body, or a failure.
pub data HttpReply : Type 0 where
  replied : ℕ → Bytes → HttpReply
  unreachable : Bool → HttpReply

pub record Wire (R : Type 0) : Type 0 where
  pub send : HttpRequest → R → HttpReply × R
  pub print : List (Bytes × Member) → Bytes
  pub members : List Bytes → Bytes → Option (Map Bytes)
  pub rfc3339 : Bytes → Option ℕ

-- 30 * time.Second
abbrev pub max_wait : ℕ
max_wait = 30000000000

unfoldable pub limited : Bytes → Bytes
limited body = take 1048576 body

pub data Called {ℓ} (A : Type ℓ) : Type ℓ where
  returned : A → Called A
  failed_with : CallError → Called A

-- A member of an answer, empty if there is none.
unfoldable pub text_or_empty : Option Bytes → Bytes
text_or_empty none = []
text_or_empty (some s) = s

unfoldable pub member_of : Map Bytes → Bytes → Bytes
unfolding text_or_empty
member_of m name = text_or_empty (lookup name m)

-- The digits of a status.
unfoldable pub decimal : ℕ → Bytes
decimal n =
    if ltb n 10
    then (n + b'0') ∷ []
    else if ltb n 100
    then (n / 10 + b'0') ∷ (n % 10 + b'0') ∷ []
    else (n / 100 + b'0') ∷ (n / 10 % 10 + b'0') ∷ (n % 10 + b'0') ∷ []

pub record DropCreated : Type 0 where
  pub id : Bytes
  pub upload_token : Bytes
  pub fetch_token : Bytes
  pub expires_at : ℕ

pub record RevealCreated : Type 0 where
  pub id : Bytes
  pub reveal_token : Bytes
  pub revoke_token : Bytes
  pub expires_at : ℕ

abbrev pub error_members : List Bytes
error_members = codes "error" ∷ codes "detail" ∷ codes "state" ∷ codes "at" ∷ []

abbrev pub status_members : List Bytes
status_members =
    codes "state"
    ∷ codes "kind"
    ∷ codes "created_at"
    ∷ codes "expires_at"
    ∷ codes "uploaded_at"
    ∷ codes "fetched_at"
    ∷ codes "opened_at"
    ∷ codes "revoked_at"
    ∷ []

module _ {R : Type 0} (wire : Wire R) (api_key : Bytes) where
  unfoldable pub time_or_zero : Option ℕ → ℕ
  time_or_zero none = 0
  time_or_zero (some t) = t

  unfoldable pub parse_time : Bytes → ℕ
  unfolding time_or_zero
  parse_time s = if length s == 0 then 0 else time_or_zero (wire.rfc3339 s)

  unfoldable pub error_of : ℕ → Option (Map Bytes) → Error
  unfolding decimal member_of parse_time
  error_of status none = record {
    status = status;
    code = codes "http_" ++ decimal status;
    detail = [];
    state = [];
    at = 0;
  }
  error_of status (some m) =
      if length (member_of m (codes "error")) == 0
      then record {
        status = status;
        code = codes "http_" ++ decimal status;
        detail = [];
        state = [];
        at = 0;
      }
      else record {
        status = status;
        code = member_of m (codes "error");
        detail = member_of m (codes "detail");
        state = member_of m (codes "state");
        at = parse_time (member_of m (codes "at"));
      }

  unfoldable pub decode_error : ℕ → Bytes → Error
  unfolding error_of
  decode_error status body = error_of status (wire.members error_members body)

  -- `do`, up to the decoding of the answer.
  unfoldable pub reply_of : HttpReply → Called Bytes
  unfolding decode_error limited
  reply_of (unreachable timeout) = failed_with (if timeout then timed_out else broken)
  reply_of (replied status body) =
      if not (status / 100 == 2)
      then failed_with (refused (decode_error status (limited body)))
      else returned (limited body)

  unfoldable pub authorization_of : Bool → Option Bytes
  authorization_of auth =
      if auth && not (length api_key == 0) then some (codes "Bearer " ++ api_key) else none

  unfoldable pub post : Bytes → List (Bytes × Member) → Bool → R → Called Bytes × R
  unfolding reply_of authorization_of
  post path members auth r =
      let (reply, r') =
        wire.send
          (record { path = path; authorization = authorization_of auth; body = wire.print members })
          r in
      (reply_of reply, r')

  -- json.Unmarshal into a struct with the given text members.
  unfoldable pub unmarshalled : Option (Map Bytes) → Called (Map Bytes)
  unmarshalled none = failed_with broken
  unmarshalled (some m) = returned m

  unfoldable pub read_members : List Bytes → Called Bytes → Called (Map Bytes)
  unfolding unmarshalled
  read_members names (failed_with e) = failed_with e
  read_members names (returned body) = unmarshalled (wire.members names body)

  unfoldable pub drop_created : Called (Map Bytes) → Called DropCreated
  unfolding member_of parse_time
  drop_created (failed_with e) = failed_with e
  drop_created (returned m) = returned (record {
    id = member_of m (codes "drop_id");
    upload_token = member_of m (codes "upload_token");
    fetch_token = member_of m (codes "fetch_token");
    expires_at = parse_time (member_of m (codes "expires_at"));
  })

  unfoldable pub create_drop : Bytes → ℕ → R → Called DropCreated × R
  unfolding post read_members drop_created
  create_drop commitment ttl r =
      let (reply, r') =
        post (codes "/api/v1/drops")
          ((codes "ttl_seconds", number (ttl / 1000000000))
            ∷ (codes "commitment", text commitment)
            ∷ [])
          true r in
      (
        drop_created (
            read_members
              (codes "drop_id"
                ∷ codes "upload_token"
                ∷ codes "fetch_token"
                ∷ codes "expires_at"
                ∷ [])
              reply),
        r',
      )

  -- A call whose answer is not read.
  unfoldable pub done : Called Bytes → Called (Unit {0})
  done (failed_with e) = failed_with e
  done (returned body) = returned tt

  unfoldable pub upload : Bytes → Bytes → Bytes → Bytes → R → Called (Unit {0}) × R
  unfolding post done
  upload id upload_token commitment ciphertext r =
      let (reply, r') =
        post (codes "/api/v1/drops/upload")
          ((codes "drop_id", text id)
            ∷ (codes "upload_token", text upload_token)
            ∷ (codes "commitment", text commitment)
            ∷ (codes "ciphertext", text (encode ciphertext))
            ∷ [])
          false r in
      (done reply, r')

  unfoldable pub status_of : Called (Map Bytes) → Called Status
  unfolding member_of parse_time
  status_of (failed_with e) = failed_with e
  status_of (returned m) = returned (record {
    state = member_of m (codes "state");
    kind = member_of m (codes "kind");
    created_at = parse_time (member_of m (codes "created_at"));
    expires_at = parse_time (member_of m (codes "expires_at"));
    uploaded_at = parse_time (member_of m (codes "uploaded_at"));
    fetched_at = parse_time (member_of m (codes "fetched_at"));
    opened_at = parse_time (member_of m (codes "opened_at"));
    revoked_at = parse_time (member_of m (codes "revoked_at"));
  })

  unfoldable pub status : Bytes → Bytes → ℕ → Bytes → R → Called Status × R
  unfolding post read_members status_of
  status path id wait wait_while r =
      let seconds = (if ltb max_wait wait then max_wait else wait) / 1000000000 in
      let (reply, r') =
        post path
          ((codes "drop_id", text id)
            ∷ (codes "wait_seconds", number seconds)
            ∷ (codes "wait_while", text wait_while)
            ∷ [])
          false r in
      (status_of (read_members status_members reply), r')

  unfoldable pub drop_status : Bytes → ℕ → Bytes → R → Called Status × R
  unfolding status
  drop_status id wait wait_while r = status (codes "/api/v1/drops/status") id wait wait_while r

  unfoldable pub reveal_status : Bytes → ℕ → Bytes → R → Called Status × R
  unfolding status
  reveal_status id wait wait_while r = status (codes "/api/v1/reveals/status") id wait wait_while r

  unfoldable pub decoded : ℕ → Option Bytes → Called (Bytes × ℕ)
  decoded t none = failed_with broken
  decoded t (some ct) = returned (ct, t)

  -- The ciphertext of an answer, and the time under a member.
  unfoldable pub ciphertext_of : Bytes → Called (Map Bytes) → Called (Bytes × ℕ)
  unfolding member_of parse_time decoded
  ciphertext_of time (failed_with e) = failed_with e
  ciphertext_of time (returned m) =
      decoded (parse_time (member_of m time)) (decode (member_of m (codes "ciphertext")))

  unfoldable pub fetch : Bytes → Bytes → R → Called (Bytes × ℕ) × R
  unfolding post read_members ciphertext_of
  fetch id fetch_token r =
      let (reply, r') =
        post (codes "/api/v1/drops/fetch")
          ((codes "drop_id", text id) ∷ (codes "fetch_token", text fetch_token) ∷ []) true r in
      (
        ciphertext_of (codes "uploaded_at")
            (read_members (codes "ciphertext" ∷ codes "uploaded_at" ∷ []) reply),
        r',
      )

  unfoldable pub reveal_created : Called (Map Bytes) → Called RevealCreated
  unfolding member_of parse_time
  reveal_created (failed_with e) = failed_with e
  reveal_created (returned m) = returned (record {
    id = member_of m (codes "drop_id");
    reveal_token = member_of m (codes "reveal_token");
    revoke_token = member_of m (codes "revoke_token");
    expires_at = parse_time (member_of m (codes "expires_at"));
  })

  unfoldable pub create_reveal : Bytes → ℕ → R → Called RevealCreated × R
  unfolding post read_members reveal_created
  create_reveal ciphertext ttl r =
      let (reply, r') =
        post (codes "/api/v1/reveals")
          ((codes "ttl_seconds", number (ttl / 1000000000))
            ∷ (codes "ciphertext", text (encode ciphertext))
            ∷ [])
          true r in
      (
        reveal_created (
            read_members
              (codes "drop_id"
                ∷ codes "reveal_token"
                ∷ codes "revoke_token"
                ∷ codes "expires_at"
                ∷ [])
              reply),
        r',
      )

  unfoldable pub open_reveal : Bytes → Bytes → R → Called (Bytes × ℕ) × R
  unfolding post read_members ciphertext_of
  open_reveal id reveal_token r =
      let (reply, r') =
        post (codes "/api/v1/reveals/open")
          ((codes "drop_id", text id) ∷ (codes "reveal_token", text reveal_token) ∷ []) false r in
      (
        ciphertext_of (codes "created_at")
            (read_members (codes "ciphertext" ∷ codes "created_at" ∷ []) reply),
        r',
      )

  unfoldable pub revoke_drop : Bytes → Bytes → R → Called (Unit {0}) × R
  unfolding post done
  revoke_drop id token r =
      let (reply, r') =
        post (codes "/api/v1/drops/revoke")
          ((codes "drop_id", text id) ∷ (codes "token", text token) ∷ []) false r in
      (done reply, r')

  unfoldable pub revoke_reveal : Bytes → Bytes → R → Called (Unit {0}) × R
  unfolding post done
  revoke_reveal id token r =
      let (reply, r') =
        post (codes "/api/v1/reveals/revoke")
          ((codes "drop_id", text id) ∷ (codes "token", text token) ∷ []) false r in
      (done reply, r')

-- `IsCode`
unfoldable pub is_code : CallError → Bytes → Bool
is_code timed_out code = false
is_code broken code = false
is_code (refused e) code = bytes_eq e.code code
