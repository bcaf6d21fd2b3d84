-- ===== src/Agent/Tests.antt =====
-- The theorems on the agent's calls at a small world: a relay that counts its calls and answers each path with one
-- body, ciphers that copy, and a JSON reader that knows one record.
mod Runs
use burndrop.Agent.Records.{describe_storage}
use burndrop.Agent.World.{call}
use burndrop.Client.Calls.{fetch}
use burndrop.Crypto.Sealed.{seal_envelope}
use burndrop.Agent.Send.{encrypted}
use burndrop.Agent.Send.{encryption_key}
use burndrop.Agent.World.{store_get}
use burndrop.Crypto.Base64.{digit}
use burndrop.Agent.Fetch.Matches.{is_stored}
use burndrop.Storage.Manager.{get}
use burndrop.Crypto.Base64.{decode}
use burndrop.Crypto.Tokens.{valid_token}
use burndrop.Storage.{valid_name}
use burndrop.Storage.Manager.{put}
use burndrop.Common.{
  ℕ, suc, ◌+◌, Bytes, codes, bytes_eq, lookup, replicate, length, length-append, length-replicate,
  Map, true, false, Option, none, some, [], ◌∷◌, ◌++◌, drop, ltb, leb, ◌&&◌, inl, ◌≢◌,
  if◌then◌else◌, ◌≡◌, refl, arith,
}
use burndrop.Client.{Status, answered}
use burndrop.Client.Calls.{Wire, replied}
use burndrop.Crypto.Base64.{encode}
use burndrop.Crypto.Envelope.{Envelope, set_secret, secret_bytes, reveal_aad}
use burndrop.Crypto.Padding.{pad}
use burndrop.Crypto.Sealed.{Primitives, decrypt_envelope}
use burndrop.Crypto.Sealed.RoundTrip.{AreLawful}
use burndrop.Link.Origin.{Url}
use burndrop.Storage.{not_found, ok, err, Metadata, is_expired}
use burndrop.Storage.Index.{absent}
use burndrop.Storage.Manager.InMemory.{memory_backend, memory_backend-IsBackend}
use burndrop.Storage.Manager.Others.{memory_backend-KeepsOthers}
use burndrop.Storage.Memory.{Entries}
use burndrop.Agent.Config.{Settings}
use burndrop.Agent.Exec.{done, stopped, no_pending}
use burndrop.Agent.World.{PendingRecord, Env, World, store_put}
use burndrop.Agent.Records.{save_pending, load_pending, no_metadata, pending_name}
use burndrop.Agent.Records.Saved.{load_pending-save_pending}
use burndrop.Agent.Request.{RequestInput, request}
use burndrop.Agent.Request.Saved.{SlotEnd, request-SlotEnd}
use burndrop.Agent.Fetch.{Poll, FetchInput, fetch_secret, fetch_uploaded, received}
use burndrop.Agent.Fetch.Delivered.{Delivered, fetch_uploaded-Delivered}
use burndrop.Agent.Fetch.Opened.{Fetched, fetch_secret-Fetched}
use burndrop.Agent.Fetch.Matches.{Matches}
use burndrop.Agent.Send.{SendInput, reveal_envelope, send}
use burndrop.Agent.Send.Slots.{Sealed, SendEnd}
use burndrop.Agent.Send.Sendable.{send-SendEnd}
use burndrop.Agent.Send.Opened.{sealed-opens}

abbrev token : Bytes
token = replicate 22 65

abbrev members_of : Bytes → Option (Map Bytes)
members_of b = some (
    (codes "drop_id", token)
    ∷ (codes "upload_token", token)
    ∷ (codes "fetch_token", token)
    ∷ (codes "reveal_token", token)
    ∷ (codes "revoke_token", token)
    ∷ (codes "expires_at", codes "t")
    ∷ (codes "ciphertext", encode (replicate 48 0 ++ pad (9 ∷ []) 256))
    ∷ [])

abbrev wire : Wire ℕ
wire = record {
  send = λ r n. (replied 200 (1 ∷ []), suc n);
  print = λ m. [];
  members = λ names b. members_of b;
  rfc3339 = λ s. some 9000000000000;
}

abbrev envelope : Envelope
envelope = record {
  v = 1;
  kind = codes "drop";
  name = codes "key";
  purpose = codes "p";
  storage = codes "the agent's process memory only";
  retention = codes "session";
  fingerprint = codes "0000-0000-0000-0000";
  format = codes "text";
  secret = codes "value";
}

abbrev reveal : Envelope
reveal = set_secret (codes "value") (reveal_envelope (codes "key"))

abbrev zeros : ℕ → Bytes
zeros n = replicate n 0

abbrev primitives : Primitives
primitives = record {
  sha256 = λ b. zeros 32;
  blake2b = λ b. zeros 32;
  argon2 = λ p s. zeros 32;
  generate_key = λ r. (replicate 32 1, replicate 32 2);
  seal_anonymous = λ k p r. zeros 48 ++ p;
  open_anonymous = λ k l s. some (drop 48 s);
  aead_seal = λ k n p a. zeros 16 ++ p;
  aead_open = λ k n c a. some (drop 16 c);
  print_envelope = λ e. if bytes_eq e.kind (codes "drop") then 9 ∷ [] else 8 ∷ [];
  read_envelope = λ b. some (if bytes_eq b (9 ∷ []) then envelope else reveal);
  is_rfc3339 = λ s. true;
}

abbrev pending_record : PendingRecord
pending_record = record {
  v = 1;
  drop_id = token;
  fetch_token = token;
  upload_token = token;
  private_key = replicate 32 2;
  public_key = replicate 32 1;
  name = codes "key";
  purpose = codes "p";
  retention = codes "session";
  storage = codes "memory";
  sendable = true;
  fingerprint = codes "0000-0000-0000-0000";
  created_at = 0;
  expires_at = 9000000000000;
}

abbrev settings : Settings
settings = record {
  relay = codes "https://a";
  page_origin = [];
  agent_key = codes "none";
  storage = codes "memory";
  default_ttl = [];
  default_retention = [];
  reveal_password = [];
  reveal_password_required = false;
  allowed_commands = [];
  max_output_bytes = 0;
}

abbrev site : Url
site = record {
  scheme = codes "https";
  opaque_part = [];
  has_user = false;
  lower_host = codes "a";
  host_name = codes "a";
  lower_host_name = codes "a";
  port = [];
  path = [];
  raw_query = [];
  fragment = [];
}

abbrev env : Env Entries ℕ
env = record {
  backend = memory_backend;
  wire = wire;
  api_key = [];
  primitives = primitives;
  config = settings;
  relay_origin = codes "https://a";
  password_source = none;
  clock = λ n. n;
  random = λ n. some (replicate 32 n);
  rfc3339 = λ s. some 9000000000000;
  print_rfc3339 = λ t. codes "t";
  parse_duration = λ s. none;
  url_parse = λ s. some site;
  json_string = λ s. s;
  print_pending = λ r. 7 ∷ [];
  read_pending = λ b. some pending_record;
  print_sent = λ r. 8 ∷ [];
  read_sent = λ b. none;
}

abbrev stored : Bytes → Metadata
stored name = record no_metadata { name = name; retention = codes "session"; sendable = true }

abbrev world : World Entries ℕ
world = record {
  manager = record {
    persistent = [];
    session =
        (
          codes "pending." ++ token,
          record { value = 7 ∷ []; meta = stored (codes "pending." ++ token) },
        )
        ∷ (codes "key", record { value = codes "value"; meta = stored (codes "key") })
        ∷ [];
    index = record { file = absent; writable = true };
  };
  redactor = [];
  relay = 0;
  events = [];
  readings = 0;
  draws = 0;
}

abbrev empty_world : World Entries ℕ
empty_world = record world {
  manager = record {
    persistent = [];
    session = [];
    index = record { file = absent; writable = true };
  };
}

abbrev uploaded : Status
uploaded = record {
  state = codes "uploaded";
  kind = codes "drop";
  created_at = 0;
  expires_at = 0;
  uploaded_at = 1;
  fetched_at = 0;
  opened_at = 0;
  revoked_at = 0;
}

abbrev poll : Poll ℕ
poll = record {
  turns =
      record { now = 1; answer = answered uploaded; ended = false; ended_in_pause = false } ∷ [];
  relay = 3;
  ends_by_deadline = false;
}

abbrev fetch_input : FetchInput
fetch_input = record { request_id = token; wait_seconds = 0 }

fetch_secret-Fetched_example : Fetched env (fetch_secret env poll fetch_input world)
unfolding is_stored fetch_secret decode get valid_name lookup bytes_eq pad put encode digit
fetch_secret-Fetched_example = fetch_secret-Fetched env poll fetch_input world refl

abbrev request_input : RequestInput
request_input = record {
  name = codes "key";
  purpose = codes "p";
  retention = codes "session";
  sendable = true;
  ttl = [];
}

request-SlotEnd_example : SlotEnd env request_input 0 (request env request_input empty_world)
request-SlotEnd_example = request-SlotEnd env request_input empty_world

abbrev send_input : SendInput
send_input = record { name = codes "key"; ttl = []; delete_after = true }

send-SendEnd_example : SendEnd env send_input world (send env send_input world)
send-SendEnd_example = send-SendEnd env send_input world

abbrev saved_meta : Metadata
saved_meta = record no_metadata {
  name = codes "pending." ++ token;
  backend = codes "memory";
  retention = codes "until:t";
  expires_at = 9000000000000;
  purpose = codes "p";
  source = codes "drop";
  fingerprint = codes "0000-0000-0000-0000";
  size_bytes = 1;
  kind = codes "pending";
}

load_pending-save_pending_example :
    (load_pending env token (save_pending env pending_record empty_world).1).0 ≡ (
      if ltb (0 + 1000000000) 9000000000000 && leb 9000000000000 2
      then stopped no_pending
      else done pending_record)
unfolding valid_token decode lookup save_pending put valid_name bytes_eq
load_pending-save_pending_example =
    load_pending-save_pending env pending_record saved_meta empty_world
      (save_pending env pending_record empty_world).1
      (save_pending env pending_record empty_world).1 memory_backend-IsBackend refl refl refl refl
      refl refl refl

length-zeros : (n : ℕ) (b : Bytes) → length (zeros n ++ b) ≡ length b + n
length-zeros n b =
    let zero_byte : ℕ = 0 in omega (arith, length-append (zeros n) b, length-replicate n zero_byte)

primitives-AreLawful : AreLawful primitives
primitives-AreLawful = record {
  aead_open-seal = λ k n p a. refl;
  length-aead_seal = λ k n p a. length-zeros 16 p;
  open-seal_anonymous = λ r p s. refl;
  length-seal_anonymous = λ k p r. length-zeros 48 p;
}

sealed_value : Sealed env send_input world
unfolding store_get get valid_name lookup bytes_eq encryption_key encrypted
sealed_value = record {
  value = codes "value";
  meta = stored (codes "key");
  after = record world { readings = 1 };
  got = refl;
  is_sendable = refl;
  key = zeros 32;
  enc_key = zeros 32;
  salt = [];
  before_key = world;
  after_key = world;
  keyed = refl;
  nonce = some (zeros 24);
  ct = zeros 24 ++ (zeros 16 ++ pad (8 ∷ []) 256);
  is_encrypted = refl;
}

sealed-opens_example :
    (e : Envelope) × (decrypt_envelope primitives
        (zeros 32)
        (zeros 24 ++ (zeros 16 ++ pad (8 ∷ []) 256))
        (reveal_aad (codes "key") false)
      ≡ some e)
    × (secret_bytes e ≡ some (codes "value"))
unfolding set_secret bytes_eq sealed_value encode
sealed-opens_example =
    sealed-opens env send_input world sealed_value (zeros 24) primitives-AreLawful refl
      (omega arith, (omega arith, (omega arith, (omega arith, (omega arith, tt))))) refl refl

abbrev uploaded_ct : Bytes
uploaded_ct = zeros 48 ++ pad (9 ∷ []) 256

abbrev value_meta : Metadata
value_meta = record no_metadata {
  name = codes "key";
  backend = codes "memory";
  retention = codes "session";
  purpose = codes "p";
  source = codes "drop";
  sendable = true;
  fingerprint = codes "0000-0000-0000-0000";
  size_bytes = 5;
}

abbrev after_fetch : World Entries ℕ
after_fetch = record world { relay = 1 }

envelope-Matches : Matches envelope pending_record
unfolding describe_storage bytes_eq
envelope-Matches = record {
  kind = refl;
  name = refl;
  fingerprint = refl;
  retention = refl;
  purpose = refl;
  storage = refl;
}

other_name : pending_record.name ≢ pending_name token
unfolding pending_name
other_name e = ground (arith, e)

fetch_uploaded-Delivered_example :
    Delivered env 7
      (codes "key")
      (codes "value")
      value_meta
      after_fetch
      (fetch_uploaded env pending_record world)
unfolding bytes_eq secret_bytes seal_envelope call fetch decode lookup encode digit store_put put
    valid_name received
fetch_uploaded-Delivered_example =
    fetch_uploaded-Delivered env 7 pending_record envelope [] [] uploaded_ct (codes "value") 0
      value_meta world after_fetch
      (store_put env (codes "key") (codes "value") (received pending_record) after_fetch).1
      primitives-AreLawful refl memory_backend-IsBackend memory_backend-KeepsOthers refl refl refl
      envelope-Matches refl refl refl (inl refl) other_name refl
