-- ===== src/Agent/World.antt =====
-- The state of an agent (internal/agent/agent.go) and what it meets: the relay, the clock, the random bytes
-- and the audit log. Of an event of the log the model keeps the event, the name, the id and the result.
use burndrop.Common.{
  ℕ, ◌+◌, Bytes, Bool, Option, none, some, List, [], ◌∷◌, ◌++◌, length, ◌==◌, if◌then◌else◌,
}
use burndrop.Client.Calls.{Wire, Called}
use burndrop.Crypto.Sealed.{Primitives}
use burndrop.Link.Origin.{Url, normalize_origin}
use burndrop.Storage.{Metadata}
use burndrop.Storage.Manager.{Backend, Manager}
use burndrop.Storage.Manager
use burndrop.Storage.Manager.Purge.{list}
use burndrop.Agent.Redact.{Redactor, add, remove}
use burndrop.Agent.Config.{Settings}
use burndrop.Agent.Exec.{Result, Exec, done, of_outcome, of_called}

pub record PendingRecord : Type 0 where
  pub v : ℕ
  pub drop_id : Bytes
  pub fetch_token : Bytes
  pub upload_token : Bytes
  pub private_key : Bytes
  pub public_key : Bytes
  pub name : Bytes
  pub purpose : Bytes
  pub retention : Bytes
  pub storage : Bytes
  pub sendable : Bool
  pub fingerprint : Bytes
  pub created_at : ℕ
  pub expires_at : ℕ

pub record SentRecord : Type 0 where
  pub v : ℕ
  pub drop_id : Bytes
  pub revoke_token : Bytes
  pub name : Bytes
  pub created_at : ℕ
  pub expires_at : ℕ

pub record Event : Type 0 where
  pub event : Bytes
  pub name : Bytes
  pub drop_id : Bytes
  pub result : Bytes

-- What is outside of the repository's code: `S` is the state of a backend and `R` that of the relay.
-- The n-th reading of the clock and the n-th draw of random bytes are functions of n.
pub record Env (S R : Type 0) : Type 0 where
  pub backend : Backend S
  pub wire : Wire R
  pub api_key : Bytes
  pub primitives : Primitives
  pub config : Settings
  pub relay_origin : Bytes
  -- PasswordSource: none if it is nil, and what it answers
  pub password_source : Option (Option Bytes)
  pub clock : ℕ → ℕ
  pub random : ℕ → Option Bytes
  pub rfc3339 : Bytes → Option ℕ
  pub print_rfc3339 : ℕ → Bytes
  pub parse_duration : Bytes → Option ℕ
  pub url_parse : Bytes → Option Url
  pub json_string : Bytes → Bytes
  pub print_pending : PendingRecord → Bytes
  pub read_pending : Bytes → Option PendingRecord
  pub print_sent : SentRecord → Bytes
  pub read_sent : Bytes → Option SentRecord

pub record World (S R : Type 0) : Type 0 where
  pub manager : Manager S
  pub redactor : Redactor
  pub relay : R
  pub events : List Event
  pub readings : ℕ
  pub draws : ℕ

unfoldable pub value_or : Bytes → Option Bytes → Bytes
value_or s none = s
value_or s (some t) = t

module _ {S R : Type 0} (env : Env S R) where
  -- PageOrigin, as `New` sets it.
  unfoldable pub page_origin : Bytes
  unfolding value_or normalize_origin
  page_origin =
      let page = env.config.page_origin in
      if length page == 0
      then env.relay_origin
      else value_or page (normalize_origin env.url_parse page)

  unfoldable pub now : Exec (World S R) ℕ
  now w = (done (env.clock w.readings), record w { readings = w.readings + 1 })

  unfoldable pub draw : Exec (World S R) (Option Bytes)
  draw w = (done (env.random w.draws), record w { draws = w.draws + 1 })

  -- A call of the client.
  unfoldable pub call : {A : Type 0} → (R → Called A × R) → Exec (World S R) A
  call f w = let (r, relay) = f w.relay in (of_called r, record w { relay = relay })

  -- A call of the client whose error is dropped.
  unfoldable pub call_anyway : {A : Type 0} → (R → Called A × R) → Exec (World S R) (Unit {0})
  call_anyway f w = let (r, relay) = f w.relay in (done tt, record w { relay = relay })

  -- The methods of the storage manager, each of which reads the clock once if it reads it.
  unfoldable pub store_put : Bytes → Bytes → Metadata → Exec (World S R) Metadata
  store_put name value meta w =
      let (r, m) =
        Manager.put env.backend env.rfc3339 (env.clock w.readings) name value meta w.manager in
      (of_outcome r, record w { manager = m; readings = w.readings + 1 })

  unfoldable pub store_get : Bytes → Exec (World S R) (Bytes × Metadata)
  store_get name w =
      let (r, m) = Manager.get env.backend env.rfc3339 (env.clock w.readings) name w.manager in
      (of_outcome r, record w { manager = m; readings = w.readings + 1 })

  unfoldable pub store_stat : Bytes → Exec (World S R) Metadata
  store_stat name w = (
    of_outcome (Manager.stat env.backend env.rfc3339 (env.clock w.readings) name w.manager),
    record w { readings = w.readings + 1 },
  )

  unfoldable pub store_list : Exec (World S R) (List Metadata)
  store_list w =
      let (r, m) = list env.backend env.rfc3339 (env.clock w.readings) w.manager in
      (of_outcome r, record w { manager = m; readings = w.readings + 1 })

  -- `Delete`, whose result is a value here: some callers drop it.
  unfoldable pub store_delete : Bytes → Exec (World S R) (Result (Unit {0}))
  store_delete name w =
      let (r, m) = Manager.remove env.backend env.rfc3339 name w.manager in
      (done (of_outcome r), record w { manager = m })

  unfoldable pub redact_value : Bytes → Bytes → Exec (World S R) (Unit {0})
  redact_value name value w =
      (done tt, record w { redactor = add env.json_string name value w.redactor })

  unfoldable pub forget_value : Bytes → Exec (World S R) (Unit {0})
  forget_value name w = (done tt, record w { redactor = remove name w.redactor })

  unfoldable pub log : Bytes → Bytes → Bytes → Bytes → Exec (World S R) (Unit {0})
  log event name drop_id result w = (
    done tt,
    record w {
      events =
          w.events
          ++ record { event = event; name = name; drop_id = drop_id; result = result } ∷ [];
    },
  )
