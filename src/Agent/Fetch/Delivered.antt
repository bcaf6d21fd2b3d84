-- ===== src/Agent/Fetch/Delivered.antt =====
-- What `Fetch` of internal/agent/agent.go does with an upload that was sealed for a pending request.
use burndrop.Common.{
  ℕ, Bytes, bytes_eq, Bool, true, false, not, none, some, length, lookup, if◌then◌else◌, ◌≡◌, ◌≢◌,
  ◌⊎◌, refl, sym, ap, subst, ◌∙◌, arith,
}
use burndrop.Client.Calls.{fetch}
use burndrop.Crypto.Envelope.{Envelope, secret_bytes}
use burndrop.Crypto.Sealed.{key_from_bytes, seal_envelope, open_envelope}
use burndrop.Crypto.Sealed.RoundTrip.{AreLawful, IsReadBack, open-seal}
use burndrop.Storage.{not_found, ok, err, Metadata, is_expired}
use burndrop.Storage.Manager
use burndrop.Storage.Manager.{session_policy}
use burndrop.Storage.Manager.Laws.{IsBackend}
use burndrop.Storage.Manager.Others.{KeepsOthers}
use burndrop.Agent.Redact.{add}
use burndrop.Agent.Exec.{Result, done, Exec, continue, caught, of_option, crypto_failed}
use burndrop.Agent.Fetch.{
  FetchOutput, received, check_envelope, answer_stored, fail_store, store_value, take_envelope,
  open_with, open_upload, after_fetch, fetch_uploaded,
}
use burndrop.Agent.Fetch.Stored.{store_value-Stored, Stored-reads}
use burndrop.Agent.Fetch.Matches.{Matches, is_stored, matching_passes}
use burndrop.Agent.Records.{pending_name}
use burndrop.Agent.World.{PendingRecord, Env, World, call, store_put}

key_read : (k : Bytes) → length k ≡ 32 → key_from_bytes k ≡ some k
unfolding key_from_bytes
key_read k h = ground arith

if_false :
    {W A : Type 0} (b : Bool) (f g : Exec W A) (w : W) → b ≡ false → (if b then f else g) w ≡ g w
if_false true f g w h = absurd cc
if_false false f g w h = refl

done_injective : {A : Type 0} {a b : A} → done a ≡ done b → a ≡ b
done_injective e = cc e

module _ {S R : Type 0} (env : Env S R) where
  -- The answer says that the value is stored, the redactor knows it, and a read of the name at the time
  -- `later` finds it in the store, unless it has expired by its metadata.
  pub record Delivered (later : ℕ) (name value : Bytes) (meta : Metadata) (before : World S R)
      (x : Result FetchOutput × World S R) : Type 0 where
    pub stored : is_stored x ≡ true
    pub redacted : x.1.redactor ≡ add env.json_string name value before.redactor
    pub read :
        (Manager.get env.backend env.rfc3339 later name x.1.manager).0
        ≡ (if is_expired later meta then err not_found else ok (value, meta))

  answered :
      (r : PendingRecord) (value : Bytes) (meta : Metadata) (v u : World S R)
      → store_put env r.name value (received r) v ≡ (done meta, u)
      → store_value env r value v ≡ answer_stored env r value meta u
  unfolding store_value
  answered r value meta v u put =
      ap (λ x. continue (answer_stored env r value) (caught (fail_store env r) x)) put

  taken :
      (r : PendingRecord) (e : Envelope) (value : Bytes) (v : World S R)
      → Matches e r
      → secret_bytes e ≡ some value
      → take_envelope env r (some e) v ≡ store_value env r value v
  unfolding take_envelope
  taken r e value v m secret =
      if_false (not (check_envelope e r)) _ _ v (ap not (matching_passes e r m))
      ∙ ap (λ o. continue (store_value env r) (of_option crypto_failed o v)) secret

  opened :
      (r : PendingRecord) (e : Envelope) (ct : Bytes) (t : ℕ) (v : World S R)
      → length r.public_key ≡ 32
      → length r.private_key ≡ 32
      → open_envelope env.primitives r.public_key r.private_key ct ≡ some e
      → open_upload env r (ct, t) v ≡ take_envelope env r (some e) v
  unfolding open_upload open_with
  opened r e ct t v a b opens =
      ap (λ o. continue (open_with env r ct) (of_option crypto_failed o v))
        (key_read r.public_key a)
      ∙ ap
          (λ o.
            continue
              (λ private.
                take_envelope env r (open_envelope env.primitives r.public_key private ct))
              (of_option crypto_failed o v))
          (key_read r.private_key b)
      ∙ ap (λ o. take_envelope env r o v) opens

  fetched :
      (r : PendingRecord) (ct : Bytes) (t : ℕ) (w v : World S R)
      → call env (fetch env.wire env.api_key r.drop_id r.fetch_token) w ≡ (done (ct, t), v)
      → fetch_uploaded env r w ≡ open_upload env r (ct, t) v
  unfolding fetch_uploaded after_fetch
  fetched r ct t w v c = ap (after_fetch env r) c

  answer-is_stored :
      (r : PendingRecord) (value : Bytes) (meta : Metadata) (u : World S R)
      → is_stored (answer_stored env r value meta u) ≡ true
  unfolding answer_stored is_stored bytes_eq
  answer-is_stored r value meta u = refl

  store_value-Delivered :
      (later : ℕ) (r : PendingRecord) (value : Bytes) (meta : Metadata) (v u : World S R)
      → IsBackend env.backend
      → KeepsOthers env.backend
      → (bytes_eq r.retention session_policy ≡ true) ⊎ (lookup r.name v.manager.session ≡ none)
      → r.name ≢ pending_name r.drop_id
      → store_put env r.name value (received r) v ≡ (done meta, u)
      → Delivered later r.name value meta v (store_value env r value v)
  unfolding received
  store_value-Delivered later r value meta v u law others free other put =
      let h : is_stored (store_value env r value v) ≡ true =
        ap is_stored (answered r value meta v u put) ∙ answer-is_stored r value meta u in
      let s = store_value-Stored env r value v h in
      let same : s.meta ≡ meta = done_injective (ap (λ x. x.0) (sym s.put ∙ put)) in
      record {
        stored = h;
        redacted = s.redactor;
        read =
            subst
              (λ m.
                (Manager.get env.backend env.rfc3339 later r.name
                  (store_value env r value v).1.manager).0
                ≡ (if is_expired later m then err not_found else ok (value, m)))
              same
              (Stored-reads env later r value v (store_value env r value v) s law others free
                other);
      }

  -- With lawful ciphers, an envelope that the reader reads back, and a backend that keeps what is put and
  -- leaves other names alone: when the envelope says what the pending request said, is sealed for its public
  -- key, of a generated pair, the relay gives the ciphertext to the fetch, and the store takes its secret
  -- with the metadata of the request, as a session secret or under a name that no session secret has and in
  -- any case not that of the request's own record: the fetch of the upload answers that the value is stored,
  -- the redactor knows it, and a read of the name at any later time finds the value with the metadata that
  -- the store returned, or nothing once it has expired by them.
  pub fetch_uploaded-Delivered :
      (later : ℕ) (r : PendingRecord) (e : Envelope) (random seed ct value : Bytes) (t : ℕ)
      (meta : Metadata) (w v u : World S R)
      → AreLawful env.primitives
      → IsReadBack env.primitives e
      → IsBackend env.backend
      → KeepsOthers env.backend
      → (r.public_key, r.private_key) ≡ env.primitives.generate_key random
      → length r.public_key ≡ 32
      → length r.private_key ≡ 32
      → Matches e r
      → secret_bytes e ≡ some value
      → seal_envelope env.primitives r.public_key e (some seed) ≡ some ct
      → call env (fetch env.wire env.api_key r.drop_id r.fetch_token) w ≡ (done (ct, t), v)
      → (bytes_eq r.retention session_policy ≡ true) ⊎ (lookup r.name v.manager.session ≡ none)
      → r.name ≢ pending_name r.drop_id
      → store_put env r.name value (received r) v ≡ (done meta, u)
      → Delivered later r.name value meta v (fetch_uploaded env r w)
  fetch_uploaded-Delivered later r e random seed ct value t meta w v u laws reads law others keys a
        b m secret sealed c free other put =
      let opens : open_envelope env.primitives r.public_key r.private_key ct ≡ some e =
        subst (λ k. open_envelope env.primitives k.0 k.1 ct ≡ some e) (sym keys)
          (open-seal env.primitives random seed ct e laws reads
            (subst (λ k. seal_envelope env.primitives k.0 e (some seed) ≡ some ct) keys sealed)) in
      let same = fetched r ct t w v c ∙ opened r e ct t v a b opens ∙ taken r e value v m secret in
      subst (Delivered later r.name value meta v) (sym same)
        (store_value-Delivered later r value meta v u law others free other put)
