-- ===== src/Agent/Fetch/Stored.antt =====
-- What `Fetch` of internal/agent/agent.go has written when it answers that a value is stored.
use burndrop.Common.{
  ℕ, Bytes, bytes_eq, codes, lookup, true, none, if◌then◌else◌, ◌≡◌, ◌≢◌, ◌⊎◌, refl, sym, ap, subst,
  ◌∙◌,
}
use burndrop.Storage.{not_found, ok, err, Metadata, is_expired}
use burndrop.Storage.Manager
use burndrop.Storage.Manager.{Manager, session_policy}
use burndrop.Storage.Manager.Laws.{IsBackend}
use burndrop.Storage.Manager.Others.{KeepsOthers, get-remove_other}
use burndrop.Storage.Manager.Reads.{get-put}
use burndrop.Agent.Exec.{Result, done, stopped, continue, caught}
use burndrop.Agent.Fetch.{FetchOutput, received, answer_stored, fail_store, store_value}
use burndrop.Agent.Fetch.Matches.{is_stored}
use burndrop.Agent.Records.{no_metadata, pending_name}
use burndrop.Agent.Records.Saved.{of_outcome-done}
use burndrop.Agent.Redact.{add}
use burndrop.Agent.World.{PendingRecord, Env, World, store_put}

module _ {S R : Type 0} (env : Env S R) where
  -- The store took the value under the name of the request, with the metadata of the request; then the
  -- record of the request was deleted, and the redactor was given the value.
  pub record Stored (r : PendingRecord) (value : Bytes) (before : World S R)
      (x : Result FetchOutput × World S R) : Type 0 where
    pub meta : Metadata
    pub taken : World S R
    pub put :
        store_put env r.name value
          (record no_metadata {
            retention = r.retention;
            purpose = r.purpose;
            source = codes "drop";
            sendable = r.sendable;
            fingerprint = r.fingerprint;
          })
          before
        ≡ (done meta, taken)
    pub manager :
        x.1.manager
        ≡ (Manager.remove env.backend env.rfc3339 (pending_name r.drop_id) taken.manager).1
    pub redactor : x.1.redactor ≡ add env.json_string r.name value before.redactor

  put-Stored :
      (r : PendingRecord) (value : Bytes) (v : World S R) (x : Result Metadata × World S R)
      → store_put env r.name value (received r) v ≡ x
      → is_stored (continue (answer_stored env r value) (caught (fail_store env r) x)) ≡ true
      → Stored r value v (continue (answer_stored env r value) (caught (fail_store env r) x))
  unfolding is_stored answer_stored fail_store received store_put
  put-Stored r value v (stopped e, u) put h = absurd cc
  put-Stored r value v (done meta, u) put h = record {
    meta = meta;
    taken = u;
    put = put;
    manager = refl;
    redactor = ap (λ x. add env.json_string r.name value x.1.redactor) (sym put);
  }

  pub store_value-Stored :
      (r : PendingRecord) (value : Bytes) (v : World S R)
      → is_stored (store_value env r value v) ≡ true
      → Stored r value v (store_value env r value v)
  unfolding store_value
  store_value-Stored r value v h =
      put-Stored r value v (store_put env r.name value (received r) v) refl h

  read_taken :
      (later : ℕ) (name value : Bytes) (asked meta : Metadata) (v u : World S R)
      → IsBackend env.backend
      → (bytes_eq asked.retention session_policy ≡ true) ⊎ (lookup name v.manager.session ≡ none)
      → store_put env name value asked v ≡ (done meta, u)
      → (Manager.get env.backend env.rfc3339 later name u.manager).0
        ≡ (if is_expired later meta then err not_found else ok (value, meta))
  unfolding store_put
  read_taken later name value asked meta v u law free put =
      subst
        (λ m.
          (Manager.get env.backend env.rfc3339 later name m).0
          ≡ (if is_expired later meta then err not_found else ok (value, meta)))
        (ap (λ x. x.1.manager) put)
        (get-put env.backend env.rfc3339 _ later name value asked meta v.manager law
          (of_outcome-done _ meta (ap (λ x. x.0) put)) free)

  -- What was stored is read from the store that the call leaves, unless it has expired, provided the
  -- backend keeps what is put and leaves other names alone, the value is a session secret or hidden by
  -- none, and it does not have the name of the record.
  pub Stored-reads :
      (later : ℕ) (r : PendingRecord) (value : Bytes) (v : World S R)
      (x : Result FetchOutput × World S R) (s : Stored r value v x)
      → IsBackend env.backend
      → KeepsOthers env.backend
      → (bytes_eq r.retention session_policy ≡ true) ⊎ (lookup r.name v.manager.session ≡ none)
      → r.name ≢ pending_name r.drop_id
      → (Manager.get env.backend env.rfc3339 later r.name x.1.manager).0
        ≡ (if is_expired later s.meta then err not_found else ok (value, s.meta))
  Stored-reads later r value v x s law others free other =
      ap (λ m. (Manager.get env.backend env.rfc3339 later r.name m).0) s.manager
      ∙ get-remove_other env.backend env.rfc3339 later r.name (pending_name r.drop_id)
          s.taken.manager others other
      ∙ read_taken later r.name value _ s.meta v s.taken law free s.put
