-- ===== src/Relay/Handlers/Routes.antt =====
-- internal/relay/handlers.go: the handlers, each from the request's body to the reply and the store.
-- `clock` is the handler's reading of the clock, `seen`, `now` and `at` are those of the store.
use burndrop.Common.{ℕ, Bytes, Bool, not, ◌||◌, Option, none, some, if◌then◌else◌}
use burndrop.Crypto.Base64.{encode}
use burndrop.Crypto.Tokens.{valid_token, valid_commitment}
use burndrop.Relay.Slot.{Kind, Status, Result, ok, err, Hash}
use burndrop.Relay.Memory.{Memory, create}
use burndrop.Relay.Memory.Methods.{upload, fetch, open_reveal, revoke, status}
use burndrop.Relay.Config.{Config}
use burndrop.Relay.Handlers.{
  failed, drop_created, reveal_created, now_uploaded, now_revoked, sent, Reply, bad_request,
  internal_error, missing, op_create, op_upload, op_fetch, op_open, op_revoke, Body, parsed,
  refused, Tokens, CreateDropRequest, UploadRequest, TokenRequest, CreateRevealRequest, store_error,
  decode_ciphertext, min_sealed, min_blob, as_agent, as_page, same_kind, answer, new_drop, rfc3339,
  new_reveal,
}

module _ (sha : Bytes → Hash) (c : Config) where
  unfoldable pub store_drop :
      ℕ → Bytes → Option Tokens → CreateDropRequest → Memory → Reply × Memory
  unfolding answer new_drop rfc3339
  store_drop clock key none req m = (failed 500 internal_error, m)
  store_drop clock key (some t) req m =
      let d = new_drop sha c clock key t req in
      answer op_create (λ _. drop_created t.id t.a t.b (rfc3339 d.expires_at)) (create d m)

  unfoldable pub create_drop :
      ℕ → Option Tokens → Option Bytes → Bool → Body CreateDropRequest → Memory → Reply × Memory
  unfolding as_agent store_drop
  create_drop clock tokens key allowed body m = as_agent key allowed body m (λ k req.
      if not (valid_commitment req.commitment)
      then (failed 400 bad_request, m)
      else store_drop clock k tokens req m)

  unfoldable pub upload_ciphertext : ℕ → ℕ → UploadRequest → Body Bytes → Memory → Reply × Memory
  unfolding answer
  upload_ciphertext now at req (refused reply) m = (reply, m)
  upload_ciphertext now at req (parsed ct) m =
      answer op_upload (λ _. now_uploaded)
        (upload now at req.drop_id (sha req.upload_token) req.commitment ct m)

  unfoldable pub upload_handler : ℕ → ℕ → Bool → Body UploadRequest → Memory → Reply × Memory
  unfolding as_page upload_ciphertext decode_ciphertext
  upload_handler now at allowed body m = as_page allowed body m (λ req.
      if not (valid_token req.drop_id) || not (valid_token req.upload_token)
      then (failed 400 bad_request, m)
      else if not (valid_commitment req.commitment)
      then (failed 400 bad_request, m)
      else upload_ciphertext now at req (decode_ciphertext c req.ciphertext min_sealed) m)

  unfoldable pub fetch_handler :
      ℕ → ℕ → Option Bytes → Bool → Body TokenRequest → Memory → Reply × Memory
  unfolding as_agent answer rfc3339
  fetch_handler now at key allowed body m = as_agent key allowed body m (λ k req.
      if not (valid_token req.drop_id) || not (valid_token req.token)
      then (failed 400 bad_request, m)
      else answer op_fetch (λ r. sent (encode r.0) (rfc3339 r.1))
          (fetch now at req.drop_id (sha req.token) m))

  unfoldable pub store_reveal : ℕ → Bytes → Option Tokens → ℕ → Body Bytes → Memory → Reply × Memory
  unfolding answer new_reveal rfc3339
  store_reveal clock key tokens ttl (refused reply) m = (reply, m)
  store_reveal clock key none ttl (parsed ct) m = (failed 500 internal_error, m)
  store_reveal clock key (some t) ttl (parsed ct) m =
      let d = new_reveal sha c clock key t ttl ct in
      answer op_create (λ _. reveal_created t.id t.a t.b (rfc3339 d.expires_at)) (create d m)

  unfoldable pub create_reveal :
      ℕ → Option Tokens → Option Bytes → Bool → Body CreateRevealRequest → Memory → Reply × Memory
  unfolding as_agent store_reveal decode_ciphertext
  create_reveal clock tokens key allowed body m = as_agent key allowed body m (λ k req.
      store_reveal clock k tokens req.ttl_seconds (decode_ciphertext c req.ciphertext min_blob) m)

  unfoldable pub open_handler : ℕ → ℕ → Bool → Body TokenRequest → Memory → Reply × Memory
  unfolding as_page answer rfc3339
  open_handler now at allowed body m = as_page allowed body m (λ req.
      if not (valid_token req.drop_id) || not (valid_token req.token)
      then (failed 400 bad_request, m)
      else answer op_open (λ r. sent (encode r.0) (rfc3339 r.1))
          (open_reveal now at req.drop_id (sha req.token) m))

  -- The check of the kind, on the answer of `Status`.
  unfoldable pub revoke_known :
      Kind → ℕ → ℕ → TokenRequest → Result Status × Memory → Reply × Memory
  unfolding answer same_kind store_error
  revoke_known k now at req (err e, m) = (store_error e op_revoke, m)
  revoke_known k now at req (ok st, m) =
      if not (same_kind st.kind k)
      then (failed 404 missing, m)
      else answer op_revoke (λ _. now_revoked) (revoke now at req.drop_id (sha req.token) m)

  unfoldable pub revoke_handler :
      Kind → ℕ → ℕ → ℕ → Bool → Body TokenRequest → Memory → Reply × Memory
  unfolding as_page revoke_known
  revoke_handler k seen now at allowed body m = as_page allowed body m (λ req.
      if not (valid_token req.drop_id) || not (valid_token req.token)
      then (failed 400 bad_request, m)
      else revoke_known k now at req (status seen req.drop_id m))
