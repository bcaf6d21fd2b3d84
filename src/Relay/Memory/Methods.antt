-- ===== src/Relay/Memory/Methods.antt =====
-- The methods of internal/relay/memory.go on one slot.
use burndrop.Common.{ℕ, ◌+◌, Bytes, not, ◌&&◌, Option, none, some, length, bytes_eq, if◌then◌else◌}
use burndrop.Relay.Slot.{
  uploaded, fetched, opened, revoked, Hash, Drop, Status, not_found, bad_token, commitment_mismatch,
  full, wrong_kind, Result, ok, err, is_drop, is_created, is_uploaded, is_terminal, status_of,
  state_error_of,
}
use burndrop.Relay.Memory.{Memory, get, notify, write, retire, over}

-- Each method below is its part after `get`, on the slot that `get` returned, and the whole.
-- The write of a successful upload.
unfoldable pub fill : ℕ → Bytes → Bytes → Drop → Memory → Memory
unfolding notify write
fill at id ct d m =
    notify id
      (record (write id (record d { ciphertext = ct; state = uploaded; uploaded_at = at }) m) {
        bytes = m.bytes + length ct;
      })

unfoldable pub upload_slot :
    ℕ → Bytes → Hash → Bytes → Bytes → Option Drop → Memory → Result (Unit {0}) × Memory
unfolding fill over is_drop is_created
upload_slot at id token commitment ct none m = (err not_found, m)
upload_slot at id token commitment ct (some d) m =
    if not (is_drop d.kind)
    then (err wrong_kind, m)
    else if is_terminal d.state
    then (err (state_error_of d), m)
    else if not (bytes_eq d.token_a token)
    then (err bad_token, m)
    else if not (is_created d.state)
    then (err (state_error_of d), m)
    else if not (bytes_eq d.commitment commitment)
    then (err commitment_mismatch, m)
    else if over m.opts.max_bytes (m.bytes + length ct)
    then (err full, m)
    else (ok tt, fill at id ct d m)

unfoldable pub upload : ℕ → ℕ → Bytes → Hash → Bytes → Bytes → Memory → Result (Unit {0}) × Memory
unfolding get upload_slot
upload now at id token commitment ct m =
    let (found, m') = get now id m in upload_slot at id token commitment ct found m'

unfoldable pub fetch_slot : ℕ → Bytes → Hash → Option Drop → Memory → Result (Bytes × ℕ) × Memory
unfolding retire is_drop is_uploaded
fetch_slot at id token none m = (err not_found, m)
fetch_slot at id token (some d) m =
    if not (is_drop d.kind)
    then (err wrong_kind, m)
    else if is_terminal d.state
    then (err (state_error_of d), m)
    else if not (bytes_eq d.token_b token)
    then (err bad_token, m)
    else if not (is_uploaded d.state)
    then (err (state_error_of d), m)
    else (ok (d.ciphertext, d.uploaded_at), retire fetched at id d m)

unfoldable pub fetch : ℕ → ℕ → Bytes → Hash → Memory → Result (Bytes × ℕ) × Memory
unfolding get fetch_slot
fetch now at id token m = let (found, m') = get now id m in fetch_slot at id token found m'

unfoldable pub open_slot : ℕ → Bytes → Hash → Option Drop → Memory → Result (Bytes × ℕ) × Memory
unfolding retire is_drop
open_slot at id token none m = (err not_found, m)
open_slot at id token (some d) m =
    if is_drop d.kind
    then (err wrong_kind, m)
    else if is_terminal d.state
    then (err (state_error_of d), m)
    else if not (bytes_eq d.token_a token)
    then (err bad_token, m)
    else (ok (d.ciphertext, d.created_at), retire opened at id d m)

unfoldable pub open_reveal : ℕ → ℕ → Bytes → Hash → Memory → Result (Bytes × ℕ) × Memory
unfolding get open_slot
open_reveal now at id token m = let (found, m') = get now id m in open_slot at id token found m'

unfoldable pub revoke_slot : ℕ → Bytes → Hash → Option Drop → Memory → Result (Unit {0}) × Memory
unfolding retire
revoke_slot at id token none m = (err not_found, m)
revoke_slot at id token (some d) m =
    if is_terminal d.state
    then (err (state_error_of d), m)
    else if not (bytes_eq d.token_a token) && not (bytes_eq d.token_b token)
    then (err bad_token, m)
    else (ok tt, retire revoked at id d m)

unfoldable pub revoke : ℕ → ℕ → Bytes → Hash → Memory → Result (Unit {0}) × Memory
unfolding get revoke_slot
revoke now at id token m = let (found, m') = get now id m in revoke_slot at id token found m'

unfoldable pub status_slot : Option Drop → Result Status
unfolding status_of
status_slot none = err not_found
status_slot (some d) = ok (status_of d)

unfoldable pub status : ℕ → Bytes → Memory → Result Status × Memory
unfolding get status_slot
status now id m = let (found, m') = get now id m in (status_slot found, m')
