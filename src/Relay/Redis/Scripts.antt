-- ===== src/Relay/Redis/Scripts.antt =====
-- The scripts of internal/relay/redis_store.go, each with the method that runs it and the errors to
-- which `slot` maps the reply's code. A function on a slot is a script, whose `now` is in milliseconds;
-- the whole method takes the time and converts it, as `run` does.
use burndrop.Common.{
  ℕ, ◌+◌, Bytes, lookup, insert, delete, not, ◌&&◌, Option, none, some, length, ltb, leb, bytes_eq,
  if◌then◌else◌,
}
use burndrop.Crypto.Base64.{encode}
use burndrop.Relay.Slot.{
  uploaded, fetched, opened, revoked, expired, Hash, Drop, Status, not_found, bad_token,
  commitment_mismatch, full, wrong_kind, Result, ok, err, is_drop, is_created, is_uploaded,
  is_terminal, status_of, state_error_of,
}
use burndrop.Relay.Memory.{over}
use burndrop.Relay.Redis.{Fields, Redis, release, retire, get, millis, time_of, reply_drop}

-- The hash that `Create` writes.
unfoldable pub fields_of : Drop → Fields
unfolding millis
fields_of d = record {
  kind = d.kind;
  state = d.state;
  ct = d.ciphertext;
  commitment = d.commitment;
  ta = encode d.token_a;
  tb = encode d.token_b;
  agent = d.agent_key_id;
  created = millis d.created_at;
  expires = millis d.expires_at;
  uploaded = millis d.uploaded_at;
  fetched = millis d.fetched_at;
  revoked = millis d.revoked_at;
}

unfoldable pub create_if_new : Drop → Redis → Option Fields → Result (Unit {0}) × Redis
unfolding over fields_of millis
create_if_new d r (some _) = (err full, r)
create_if_new d r none =
    if ltb 0 r.opts.max_live && leb r.opts.max_live r.live
    then (err full, r)
    else if over r.opts.max_bytes (r.bytes + length d.ciphertext)
    then (err full, r)
    else (
      ok tt,
      record r {
        slots = insert d.id (fields_of d) r.slots;
        bytes = r.bytes + length d.ciphertext;
        live = r.live + 1;
        expiry = insert d.id (millis d.expires_at) r.expiry;
        removal = insert d.id (millis (d.expires_at + r.opts.tombstone_grace)) r.removal;
      },
    )

-- redisCreate
unfoldable pub create : Drop → Redis → Result (Unit {0}) × Redis
unfolding create_if_new
create d r = create_if_new d r (lookup d.id r.slots)

unfoldable pub upload_slot :
    ℕ → Bytes → Hash → Bytes → Bytes → Option Fields → Redis → Result (Unit {0}) × Redis
unfolding over is_drop is_created
upload_slot now id token commitment ct none r = (err not_found, r)
upload_slot now id token commitment ct (some f) r =
    if not (is_drop f.kind)
    then (err wrong_kind, r)
    else if is_terminal f.state
    then (err (state_error_of (reply_drop id f)), r)
    else if not (bytes_eq f.ta (encode token))
    then (err bad_token, r)
    else if not (is_created f.state)
    then (err (state_error_of (reply_drop id f)), r)
    else if not (bytes_eq f.commitment commitment)
    then (err commitment_mismatch, r)
    else if over r.opts.max_bytes (r.bytes + length ct)
    then (err full, r)
    else (
      ok tt,
      record r {
        slots = insert id (record f { ct = ct; state = uploaded; uploaded = now }) r.slots;
        bytes = r.bytes + length ct;
      },
    )

-- redisUpload
unfoldable pub upload : ℕ → Bytes → Hash → Bytes → Bytes → Redis → Result (Unit {0}) × Redis
unfolding millis get upload_slot
upload now id token commitment ct r =
    let (found, r') = get (millis now) id r in
    upload_slot (millis now) id token commitment ct found r'

unfoldable pub fetch_slot : ℕ → Bytes → Hash → Option Fields → Redis → Result (Bytes × ℕ) × Redis
unfolding retire time_of is_drop is_uploaded
fetch_slot now id token none r = (err not_found, r)
fetch_slot now id token (some f) r =
    if not (is_drop f.kind)
    then (err wrong_kind, r)
    else if is_terminal f.state
    then (err (state_error_of (reply_drop id f)), r)
    else if not (bytes_eq f.tb (encode token))
    then (err bad_token, r)
    else if not (is_uploaded f.state)
    then (err (state_error_of (reply_drop id f)), r)
    else (ok (f.ct, time_of f.uploaded), retire fetched now id f r)

-- redisFetch
unfoldable pub fetch : ℕ → Bytes → Hash → Redis → Result (Bytes × ℕ) × Redis
unfolding millis get fetch_slot
fetch now id token r =
    let (found, r') = get (millis now) id r in fetch_slot (millis now) id token found r'

unfoldable pub open_slot : ℕ → Bytes → Hash → Option Fields → Redis → Result (Bytes × ℕ) × Redis
unfolding retire time_of is_drop
open_slot now id token none r = (err not_found, r)
open_slot now id token (some f) r =
    if is_drop f.kind
    then (err wrong_kind, r)
    else if is_terminal f.state
    then (err (state_error_of (reply_drop id f)), r)
    else if not (bytes_eq f.ta (encode token))
    then (err bad_token, r)
    else (ok (f.ct, time_of f.created), retire opened now id f r)

-- redisOpen
unfoldable pub open_reveal : ℕ → Bytes → Hash → Redis → Result (Bytes × ℕ) × Redis
unfolding millis get open_slot
open_reveal now id token r =
    let (found, r') = get (millis now) id r in open_slot (millis now) id token found r'

unfoldable pub revoke_slot : ℕ → Bytes → Hash → Option Fields → Redis → Result (Unit {0}) × Redis
unfolding retire
revoke_slot now id token none r = (err not_found, r)
revoke_slot now id token (some f) r =
    if is_terminal f.state
    then (err (state_error_of (reply_drop id f)), r)
    else if not (bytes_eq f.ta (encode token)) && not (bytes_eq f.tb (encode token))
    then (err bad_token, r)
    else (ok tt, retire revoked now id f r)

-- redisRevoke
unfoldable pub revoke : ℕ → Bytes → Hash → Redis → Result (Unit {0}) × Redis
unfolding millis get revoke_slot
revoke now id token r =
    let (found, r') = get (millis now) id r in revoke_slot (millis now) id token found r'

unfoldable pub status_slot : Bytes → Option Fields → Result Status
unfolding status_of reply_drop
status_slot id none = err not_found
status_slot id (some f) = ok (status_of (reply_drop id f))

-- redisStatus
unfoldable pub status : ℕ → Bytes → Redis → Result Status × Redis
unfolding millis get status_slot
status now id r = let (found, r') = get (millis now) id r in (status_slot id found, r')

unfoldable pub expire_slot : ℕ → Bytes → Option Fields → Redis → Redis × ℕ
unfolding retire
expire_slot now id none r = (record r { expiry = delete id r.expiry }, 0)
expire_slot now id (some f) r =
    if is_terminal f.state
    then (record r { expiry = delete id r.expiry }, 0)
    else if ltb now f.expires
    then (r, 0)
    else (retire expired 0 id f r, 1)

-- redisExpire: the store, and whether the script returned 1
unfoldable pub expire : ℕ → Bytes → Redis → Redis × ℕ
unfolding millis expire_slot
expire now id r = expire_slot (millis now) id (lookup id r.slots) r

unfoldable pub remove_slot : Bytes → Option Fields → Redis → Redis × ℕ
remove_slot id none r = (record r { expiry = delete id r.expiry }, 0)
remove_slot id (some f) r =
    let r' = (if is_terminal f.state then r else release id f r) in
    (record r' { slots = delete id r'.slots; expiry = delete id r'.expiry }, 1)

-- redisRemove
unfoldable pub remove : Bytes → Redis → Redis × ℕ
unfolding remove_slot release
remove id r = remove_slot id (lookup id r.slots) (record r { removal = delete id r.removal })

-- PEXPIRE: the server deletes the slot's hash on its own once the grace period is over, and nothing
-- else with it.
unfoldable pub evict : Bytes → Redis → Redis
evict id r = record r { slots = delete id r.slots }
