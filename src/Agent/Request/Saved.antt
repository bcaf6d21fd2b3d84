-- ===== src/Agent/Request/Saved.antt =====
-- What `Request` leaves at the relay and in the store.
use burndrop.Common.{
  ℕ, ◌+◌, Bytes, codes, Bool, true, false, not, Option, none, some, length, ◌==◌, if◌then◌else◌,
  ◌≡◌, refl, sym, ap, ◌∙◌,
}
use burndrop.Client.{CallError}
use burndrop.Client.Calls.{Called, returned, failed_with, DropCreated, create_drop, revoke_drop}
use burndrop.Crypto.Sealed.{commitment}
use burndrop.Crypto.Text.{valid_text}
use burndrop.Crypto.Trim.{trim_space}
use burndrop.Storage.{Metadata, Outcome, ok, err, valid_name, parse_retention}
use burndrop.Agent.Config.{ttl_of}
use burndrop.Agent.Exec.{
  Result, done, stopped, AgentError, Exec, continue, caught, ◌>>=◌, of_option, bad_link, bad_ttl,
  no_random, raise, of_outcome, of_called,
}
use burndrop.Agent.Records.{save_pending}
use burndrop.Agent.Request.{
  RequestInput, RequestOutput, answer_request, record_request, ask_relay, with_ttl,
  pending_of_request, give_back, make_link, make_slot, request, asked_retention, log_relay_error,
}
use burndrop.Agent.World.{PendingRecord, Env, World, call, call_anyway, log, store_put, draw, now}

module _ {S R : Type 0} (env : Env S R) where
  -- The record of a request, and the hash that the relay was given: the commitment to its public key.
  pub record Made (input : RequestInput) (hash : Bytes) (created : DropCreated) (r : PendingRecord)
      : Type 0 where
    pub random : Bytes
    pub retention : Bytes
    pub asked_at : ℕ
    pub hashed : hash ≡ commitment env.primitives (env.primitives.generate_key random).0
    pub is_record :
        r
        ≡ pending_of_request env input retention asked_at
            (env.primitives.generate_key random)
            created

  -- How a request ends for the relay, from its state before: no call, a create call that failed, one
  -- whose slot the next call asked to revoke, or one whose slot is recorded. A create call also fails
  -- when its reply is lost or cannot be read, and what the revoke call answers is not looked at.
  pub data SlotEnd (input : RequestInput) (before : R)
      : Result RequestOutput × World S R → Type 0 where
    untouched :
        (e : AgentError) (w : World S R) → w.relay ≡ before → SlotEnd input before (stopped e, w)
    create_failed :
        (e : AgentError) (w : World S R) (hash : Bytes) (ttl : ℕ) (x : CallError)
        → create_drop env.wire env.api_key hash ttl before ≡ (failed_with x, w.relay)
        → SlotEnd input before (stopped e, w)
    revoke_called :
        (e : AgentError) (w : World S R) (hash : Bytes) (ttl : ℕ) (created : DropCreated)
        (relay : R)
        → create_drop env.wire env.api_key hash ttl before ≡ (returned created, relay)
        → w.relay ≡ (revoke_drop env.wire env.api_key created.id created.upload_token relay).1
        → SlotEnd input before (stopped e, w)
    kept :
        (out : RequestOutput) (w : World S R) (hash : Bytes) (ttl : ℕ) (created : DropCreated)
        (r : PendingRecord) (meta : Metadata) (v u : World S R)
        → create_drop env.wire env.api_key hash ttl before ≡ (returned created, w.relay)
        → out.request_id ≡ created.id
        → out.fingerprint ≡ r.fingerprint
        → Made input hash created r
        → save_pending env r v ≡ (done meta, u)
        → w.manager ≡ u.manager
        → SlotEnd input before (done out, w)

  save_pending-relay :
      (r : PendingRecord) (w : World S R) → (save_pending env r w).1.relay ≡ w.relay
  unfolding save_pending now store_put
  save_pending-relay r w = refl

  saved-SlotEnd :
      (input : RequestInput) (r : PendingRecord) (created : DropCreated) (before : R) (hash : Bytes)
      (ttl : ℕ) (w : World S R) (url : Bytes) (x : Result Metadata × World S R)
      → create_drop env.wire env.api_key hash ttl before ≡ (returned created, w.relay)
      → Made input hash created r
      → save_pending env r w ≡ x
      → x.1.relay ≡ w.relay
      → SlotEnd input before
          (continue (answer_request env created r url) (caught (give_back env created) x))
  unfolding answer_request give_back call_anyway log
  saved-SlotEnd input r created before hash ttl w url (done meta, u) c i s keep =
      kept _ _ hash ttl created r meta w u (c ∙ ap (λ l. (returned created, l)) (sym keep)) refl
        refl i s refl
  saved-SlotEnd input r created before hash ttl w url (stopped e, u) c i s keep =
      revoke_called _ _ hash ttl created w.relay c
        (ap (λ l. (revoke_drop env.wire env.api_key created.id created.upload_token l).1) keep)

  linked-SlotEnd :
      (input : RequestInput) (r : PendingRecord) (created : DropCreated) (before : R) (hash : Bytes)
      (ttl : ℕ) (w : World S R) (url : Option Bytes)
      → create_drop env.wire env.api_key hash ttl before ≡ (returned created, w.relay)
      → Made input hash created r
      → SlotEnd input before (
          continue
            (record_request env created r)
            (caught (give_back env created) (of_option bad_link url w)))
  unfolding record_request give_back call_anyway
  linked-SlotEnd input r created before hash ttl w none c i =
      revoke_called _ _ hash ttl created w.relay c refl
  linked-SlotEnd input r created before hash ttl w (some url) c i =
      saved-SlotEnd input r created before hash ttl w url (save_pending env r w) c i refl
        (save_pending-relay r w)

  asked-SlotEnd :
      (input : RequestInput) (retention : Bytes) (t ttl : ℕ) (random : Bytes) (w : World S R)
      (x : Called DropCreated × R)
      → create_drop env.wire env.api_key
          (commitment env.primitives (env.primitives.generate_key random).0)
          ttl
          w.relay
        ≡ x
      → SlotEnd input w.relay (
          continue (make_link env input retention t (env.primitives.generate_key random)) (
            caught
              (log_relay_error env (codes "request_secret") input.name)
              (of_called x.0, record w { relay = x.1 })))
  unfolding make_link log_relay_error log
  asked-SlotEnd input retention t ttl random w (failed_with e, l) c = create_failed _ _ _ ttl e c
  asked-SlotEnd input retention t ttl random w (returned created, l) c =
      linked-SlotEnd input
        (pending_of_request env input retention t (env.primitives.generate_key random) created)
        created w.relay (commitment env.primitives (env.primitives.generate_key random).0) ttl
        (record w { relay = l }) _ c
        (record {
          random = random;
          retention = retention;
          asked_at = t;
          hashed = refl;
          is_record = refl;
        })

  drawn-SlotEnd :
      (input : RequestInput) (retention : Bytes) (t ttl : ℕ) (w : World S R) (random : Option Bytes)
      → SlotEnd input w.relay
          (continue (ask_relay env input retention t ttl) (of_option no_random random w))
  unfolding ask_relay call
  drawn-SlotEnd input retention t ttl w none = untouched _ _ refl
  drawn-SlotEnd input retention t ttl w (some random) =
      asked-SlotEnd input retention t ttl random w _ refl

  timed-SlotEnd :
      (input : RequestInput) (retention : Bytes) (t : ℕ) (w : World S R) (ttl : Option ℕ)
      → SlotEnd input w.relay (continue (with_ttl env input retention t) (of_option bad_ttl ttl w))
  unfolding with_ttl draw
  timed-SlotEnd input retention t w none = untouched _ _ refl
  timed-SlotEnd input retention t w (some ttl) =
      drawn-SlotEnd input retention t ttl (record w { draws = w.draws + 1 }) (env.random w.draws)

  retained-SlotEnd :
      (input : RequestInput) (retention : Bytes) (t : ℕ) (w : World S R) (expires : Outcome ℕ)
      → SlotEnd input w.relay (
          continue
            (λ e.
              of_option bad_ttl (ttl_of env.parse_duration env.config input.ttl)
              >>= with_ttl env input retention t)
            (of_outcome expires, w))
  retained-SlotEnd input retention t w (err e) = untouched _ _ refl
  retained-SlotEnd input retention t w (ok expires) =
      timed-SlotEnd input retention t w (ttl_of env.parse_duration env.config input.ttl)

  if_SlotEnd :
      (input : RequestInput) (b : Bool) (e : AgentError) (f : Exec (World S R) RequestOutput)
      (w : World S R)
      → SlotEnd input w.relay (f w)
      → SlotEnd input w.relay ((if b then raise e else f) w)
  if_SlotEnd input true e f w s = untouched e w refl
  if_SlotEnd input false e f w s = s

  -- However a request ends: the relay was not called for a slot; or the create call failed and was the
  -- last one; or it returned a slot and the last call was one that asks to revoke that slot with its
  -- upload token, and in these three cases the answer is an error; or the create call returned a slot and
  -- was the last one, the answer has the id of the slot, the relay was given the commitment to the public
  -- key of a generated pair, and what was saved last is the record of the request with that pair, its
  -- fingerprint, which the answer shows, and the slot's id and tokens.
  pub request-SlotEnd :
      (input : RequestInput) (w : World S R) → SlotEnd input w.relay (request env input w)
  unfolding request make_slot now
  request-SlotEnd input w = if_SlotEnd input (not (valid_name input.name)) _ _ w (
      if_SlotEnd input (not (valid_text input.purpose)) _ _ w (
        if_SlotEnd input (length (trim_space input.purpose) == 0) _ _ w (
          retained-SlotEnd input (asked_retention env input) (env.clock w.readings)
            (record w { readings = w.readings + 1 })
            (parse_retention env.rfc3339 (asked_retention env input) (env.clock w.readings)))))
