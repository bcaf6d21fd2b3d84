-- ===== src/Agent/Fetch/Opened.antt =====
-- What `Fetch` stores, where it answers that it stored something.
use burndrop.Common.{
  ℕ, Bytes, codes, bytes_eq, Bool, true, false, not, ◌||◌, Option, none, some, length, ◌==◌,
  if◌then◌else◌, ◌≡◌, refl, sym, ap, ◌∙◌, arith,
}
use burndrop.Client.{
  Waited, changed, deadline_exceeded, cancelled, gave_up, timed_out, broken, refused,
}
use burndrop.Client.Calls.{fetch, is_code}
use burndrop.Crypto.Envelope.{Envelope, secret_bytes}
use burndrop.Crypto.Sealed.{key_from_bytes, open_envelope}
use burndrop.Crypto.Sealed.RoundTrip.{opened_valid}
use burndrop.Agent.Exec.{
  Result, done, stopped, AgentError, Exec, continue, relay_error, of_option, crypto_failed,
}
use burndrop.Agent.Fetch.{
  FetchInput, FetchOutput, Poll, check_envelope, finish, store_value, take_envelope, open_upload,
  open_with, fetch_failed, after_fetch, fetch_uploaded, by_state, after_wait, request_id_of,
  fetch_secret, fetch_request, wait_and_fetch, state_of, output_of,
}
use burndrop.Agent.Records.{load_pending}
use burndrop.Agent.World.{PendingRecord, Env, World, call}
use burndrop.Agent.Fetch.Stored.{Stored, store_value-Stored}
use burndrop.Agent.Fetch.Matches.{Matches, check_envelope-Matches, is_stored, key_same}

module _ {S R : Type 0} (env : Env S R) where
  -- The record, the ciphertext, the envelope and the value of a call that stored something, the state in
  -- which it stored it, and what it wrote.
  pub record Genuine (r : PendingRecord) (result : Result FetchOutput × World S R) : Type 0 where
    pub ct : Bytes
    pub uploaded_at : ℕ
    pub envelope : Envelope
    pub value : Bytes
    pub before : World S R
    pub after : World S R
    pub fetched :
        call env (fetch env.wire env.api_key r.drop_id r.fetch_token) before
        ≡ (done (ct, uploaded_at), after)
    pub opens : open_envelope env.primitives r.public_key r.private_key ct ≡ some envelope
    pub matches : Matches envelope r
    pub secret : secret_bytes envelope ≡ some value
    pub stored : Stored env r value after result

  abbrev Justified : PendingRecord → Result FetchOutput × World S R → Type 0
  Justified r x = is_stored x ≡ true → Genuine r x

  not_stored :
      (r : PendingRecord) (x : Result FetchOutput × World S R) → is_stored x ≡ false → Justified r x
  not_stored r x n h = absurd cc

  if_Justified :
      (r : PendingRecord) (b : Bool) (f g : Exec (World S R) FetchOutput) (w : World S R)
      → (b ≡ true → Justified r (f w))
      → (b ≡ false → Justified r (g w))
      → Justified r ((if b then f else g) w)
  if_Justified r true f g w jf jg = jf refl
  if_Justified r false f g w jf jg = jg refl

  of_option-Justified :
      {A : Type 0} (r : PendingRecord) (f : A → Exec (World S R) FetchOutput) (x : AgentError)
      (o : Option A) (w : World S R)
      → ((a : A) → o ≡ some a → Justified r (f a w))
      → Justified r (continue f (of_option x o w))
  unfolding is_stored
  of_option-Justified r f x none w j h = absurd cc
  of_option-Justified r f x (some a) w j h = j a refl h

  finish-Justified :
      (r : PendingRecord) (s : Bytes) (w : World S R)
      → bytes_eq s (codes "stored") ≡ false
      → Justified r (finish env r s w)
  unfolding is_stored finish output_of
  finish-Justified r s w n = not_stored r (finish env r s w) n

  take_envelope-Justified :
      (r : PendingRecord) (w v : World S R) (ct : Bytes) (t : ℕ) (o : Option Envelope)
      → call env (fetch env.wire env.api_key r.drop_id r.fetch_token) w ≡ (done (ct, t), v)
      → open_envelope env.primitives r.public_key r.private_key ct ≡ o
      → Justified r (take_envelope env r o v)
  unfolding take_envelope bytes_eq
  take_envelope-Justified r w v ct t none c opens = finish-Justified r (codes "rejected") v refl
  take_envelope-Justified r w v ct t (some e) c opens =
      if_Justified r (not (check_envelope e r)) _ _ v
        (λ _. finish-Justified r (codes "rejected") v refl)
        (λ passed.
          of_option-Justified r (store_value env r) crypto_failed (secret_bytes e) v
            (λ value secret h. record {
              ct = ct;
              uploaded_at = t;
              envelope = e;
              value = value;
              before = w;
              after = v;
              fetched = c;
              opens = opens;
              matches =
                  check_envelope-Matches env.primitives.is_rfc3339 e r
                    (opened_valid env.primitives r.public_key r.private_key ct e opens)
                    (ground arith);
              secret = secret;
              stored = store_value-Stored env r value v h;
            }))

  open_upload-Justified :
      (r : PendingRecord) (w v : World S R) (ct : Bytes) (t : ℕ)
      → call env (fetch env.wire env.api_key r.drop_id r.fetch_token) w ≡ (done (ct, t), v)
      → Justified r (open_upload env r (ct, t) v)
  unfolding open_upload open_with
  open_upload-Justified r w v ct t c =
      of_option-Justified r (open_with env r ct) crypto_failed (key_from_bytes r.public_key) v
        (λ public p.
          of_option-Justified r
            (λ private. take_envelope env r (open_envelope env.primitives public private ct))
            crypto_failed (key_from_bytes r.private_key) v
            (λ private q.
              take_envelope-Justified r w v ct t (open_envelope env.primitives public private ct) c
                (ap (λ k. open_envelope env.primitives k r.private_key ct)
                    (sym (key_same r.public_key public p))
                  ∙ ap (λ k. open_envelope env.primitives public k ct)
                      (sym (key_same r.private_key private q)))))

  fetch_failed-Justified :
      (r : PendingRecord) (e : AgentError) (w : World S R) → Justified r (fetch_failed env r e w)
  unfolding fetch_failed is_stored bytes_eq
  fetch_failed-Justified r (relay_error e) w =
      if_Justified r (is_code e (codes "gone")) _ _ w
        (λ _. finish-Justified r (codes "gone") w refl)
        (λ _. not_stored r (stopped (relay_error e), w) refl)
  fetch_failed-Justified r e w = not_stored r (stopped e, w) refl

  after_fetch-Justified :
      (r : PendingRecord) (w : World S R) (x : Result (Bytes × ℕ) × World S R)
      → call env (fetch env.wire env.api_key r.drop_id r.fetch_token) w ≡ x
      → Justified r (after_fetch env r x)
  unfolding after_fetch
  after_fetch-Justified r w (stopped e, v) c = fetch_failed-Justified r e v
  after_fetch-Justified r w (done (ct, t), v) c = open_upload-Justified r w v ct t c

  by_state-Justified :
      (r : PendingRecord) (s : Bytes) (w : World S R) → Justified r (by_state env r s w)
  unfolding by_state is_stored bytes_eq fetch_uploaded
  by_state-Justified r s w =
      if_Justified r (bytes_eq s (codes "created") || (length s == 0)) _ _ w
        (λ _. not_stored r _ refl)
        (λ _.
          if_Justified r (bytes_eq s (codes "revoked")) _ _ w
            (λ _. finish-Justified r (codes "revoked") w refl)
            (λ _.
              if_Justified r (bytes_eq s (codes "expired")) _ _ w
                (λ _. finish-Justified r (codes "expired") w refl)
                (λ _.
                  if_Justified r (bytes_eq s (codes "fetched")) _ _ w
                    (λ _. finish-Justified r (codes "gone") w refl)
                    (λ _.
                      if_Justified r (bytes_eq s (codes "uploaded")) _ _ w
                        (λ _.
                          after_fetch-Justified r w
                            (call env (fetch env.wire env.api_key r.drop_id r.fetch_token) w) refl)
                        (λ _. not_stored r _ refl)))))

  after_wait-Justified :
      (r : PendingRecord) (d : Bool) (o : Option Waited) (w : World S R)
      → Justified r (after_wait env r d o w)
  unfolding after_wait is_stored bytes_eq
  after_wait-Justified r d none w = not_stored r _ refl
  after_wait-Justified r d (some (changed s)) w = by_state-Justified r s.state w
  after_wait-Justified r d (some (deadline_exceeded last)) w =
      by_state-Justified r (state_of last) w
  after_wait-Justified r d (some (cancelled last)) w =
      if_Justified r d _ _ w (λ _. by_state-Justified r (state_of last) w)
        (λ _. not_stored r _ refl)
  after_wait-Justified r d (some (gave_up last timed_out)) w =
      by_state-Justified r (state_of last) w
  after_wait-Justified r d (some (gave_up last broken)) w = not_stored r _ refl
  after_wait-Justified r d (some (gave_up last (refused e))) w =
      if_Justified r (is_code (refused e) (codes "not_found")) _ _ w
        (λ _. finish-Justified r (codes "expired") w refl) (λ _. not_stored r _ refl)

  -- The pending request that was loaded, the state after that, and what was stored for it.
  pub record Fetched (result : Result FetchOutput × World S R) : Type 0 where
    pub id : Bytes
    pub r : PendingRecord
    pub start : World S R
    pub loaded : World S R
    pub loads : load_pending env id start ≡ (done r, loaded)
    pub genuine : Genuine r result

  fetch_request-Fetched :
      (poll : Poll R) (input : FetchInput) (id : Bytes) (u : World S R)
      (x : Result PendingRecord × World S R)
      → load_pending env id u ≡ x
      → is_stored (continue (wait_and_fetch env poll input) x) ≡ true
      → Fetched (continue (wait_and_fetch env poll input) x)
  unfolding wait_and_fetch is_stored
  fetch_request-Fetched poll input id u (stopped e, v) l h = absurd cc
  fetch_request-Fetched poll input id u (done r, v) l h = record {
    id = id;
    r = r;
    start = u;
    loaded = v;
    loads = l;
    genuine = after_wait-Justified r poll.ends_by_deadline _ _ h;
  }

  fetch_named-Fetched :
      (poll : Poll R) (input : FetchInput) (x : Result Bytes × World S R)
      → is_stored (continue (fetch_request env poll input) x) ≡ true
      → Fetched (continue (fetch_request env poll input) x)
  unfolding fetch_request is_stored
  fetch_named-Fetched poll input (stopped e, v) h = absurd cc
  fetch_named-Fetched poll input (done id, v) h =
      fetch_request-Fetched poll input id v (load_pending env id v) refl h

  -- Where a call of `Fetch` answers that it stored a value: it loaded a pending request; the relay gave it a
  -- ciphertext for the slot and the fetch token of that request; the keys of the request open the ciphertext;
  -- the envelope in it says the name, the purpose, the retention, the storage and the fingerprint of the
  -- request; the store took the secret of that envelope under the name of the request, with its retention,
  -- purpose, sendable mark and fingerprint; the store that the call leaves is that one after the deletion of
  -- the request's record, and the redactor that it leaves is the one before with the secret added.
  pub fetch_secret-Fetched :
      (poll : Poll R) (input : FetchInput) (w : World S R)
      → is_stored (fetch_secret env poll input w) ≡ true
      → Fetched (fetch_secret env poll input w)
  unfolding fetch_secret
  fetch_secret-Fetched poll input w h = fetch_named-Fetched poll input (request_id_of env input w) h
