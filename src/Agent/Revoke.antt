-- ===== src/Agent/Revoke.antt =====
-- `Revoke` and `LoadRedactions` of internal/agent/agent.go.
use burndrop.Common.{Bytes, codes, not, List, [], ◌∷◌, length, ◌==◌, if◌then◌else◌}
use burndrop.Client.{refused}
use burndrop.Client.Calls.{Called, returned, failed_with, is_code, revoke_drop, revoke_reveal}
use burndrop.Storage.{Metadata}
use burndrop.Agent.Exec.{relay_error, no_pending, Result, done, stopped, Exec, pure, ◌>>=◌}
use burndrop.Agent.Records.{load_pending, delete_pending, load_sent, delete_sent}
use burndrop.Agent.World.{PendingRecord, Env, World, store_get, redact_value, log}

-- `revokeState`
unfoldable pub revoke_state : Called (Unit {0}) → Result Bytes
unfolding is_code
revoke_state (returned _) = done (codes "revoked")
revoke_state (failed_with (refused e)) =
    if not (length e.state == 0)
    then done e.state
    else if is_code (refused e) (codes "not_found")
    then done (codes "expired")
    else stopped (relay_error (refused e))
revoke_state (failed_with e) = stopped (relay_error e)

module _ {S R : Type 0} (env : Env S R) where
  unfoldable pub call_revoke : (R → Called (Unit {0}) × R) → Exec (World S R) Bytes
  unfolding revoke_state
  call_revoke f w = let (r, relay) = f w.relay in (revoke_state r, record w { relay = relay })

  unfoldable pub revoke_sent : Bytes → Exec (World S R) Bytes
  unfolding load_sent call_revoke revoke_reveal delete_sent log
  revoke_sent id = do
    r ← load_sent env id
    state ← call_revoke (revoke_reveal env.wire env.api_key r.drop_id r.revoke_token)
    d ← delete_sent env r.drop_id
    u ← log env (codes "revoke_request") r.name r.drop_id state
    pure state

  unfoldable pub revoke_pending : PendingRecord → Exec (World S R) Bytes
  unfolding call_revoke revoke_drop delete_pending log
  revoke_pending r = do
    state ← call_revoke (revoke_drop env.wire env.api_key r.drop_id r.upload_token)
    d ← delete_pending env r.drop_id
    u ← log env (codes "revoke_request") r.name r.drop_id state
    pure state

  unfoldable pub after_load : Bytes → Result PendingRecord × World S R → Result Bytes × World S R
  unfolding revoke_sent revoke_pending
  after_load id (stopped no_pending, w) = revoke_sent id w
  after_load id (stopped e, w) = (stopped e, w)
  after_load id (done r, w) = revoke_pending r w

  unfoldable pub revoke : Bytes → Exec (World S R) Bytes
  unfolding load_pending after_load
  revoke id w = after_load id (load_pending env id w)

  unfoldable pub onto_redactor :
      Bytes → Result (Bytes × Metadata) × World S R → Result (Unit {0}) × World S R
  unfolding redact_value
  onto_redactor name (stopped e, w) = (done tt, w)
  onto_redactor name (done (value, meta), w) = redact_value env name value w

  unfoldable pub load_redactions : List Bytes → Exec (World S R) (Unit {0})
  unfolding onto_redactor store_get
  load_redactions [] w = (done tt, w)
  load_redactions (n ∷ ns) w = load_redactions ns (onto_redactor n (store_get env n w)).1
