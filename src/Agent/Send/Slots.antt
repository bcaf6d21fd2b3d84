-- ===== src/Agent/Send/Slots.antt =====
-- The slots that `Send` makes, and how its calls end for the relay.
use burndrop.Common.{
  ℕ, ◌+◌, Bytes, codes, Bool, true, false, Option, none, some, if◌then◌else◌, ◌≡◌, refl, sym, ap,
  subst, ◌∙◌,
}
use burndrop.Client.{CallError}
use burndrop.Client.Calls.{
  Called, returned, failed_with, RevealCreated, create_reveal, revoke_reveal,
}
use burndrop.Link.Reveal.{build}
use burndrop.Storage.{Metadata}
use burndrop.Agent.Config.{is_some}
use burndrop.Agent.Exec.{
  Result, done, stopped, AgentError, Exec, continue, caught, of_option, bad_link, of_called,
}
use burndrop.Agent.Records.{save_sent}
use burndrop.Agent.Request.{log_relay_error}
use burndrop.Agent.Send.{
  SendInput, SendOutput, reveal_link, take_back, drop_copy, answer_send, finish_send,
  sent_record_of, record_sent, make_reveal_link, make_reveal, encrypted, encryption_key,
}
use burndrop.Agent.World.{
  Env, World, page_origin, call, call_anyway, log, now, store_get, store_put, store_delete,
}

module _ {S R : Type 0} (env : Env S R) where
  -- What is encrypted: a stored value that may be sent, and the key and the salt that it is encrypted with.
  pub record Sealed (input : SendInput) (w : World S R) : Type 0 where
    pub value : Bytes
    pub meta : Metadata
    pub after : World S R
    pub got : store_get env input.name w ≡ (done (value, meta), after)
    pub is_sendable : meta.sendable ≡ true
    pub key : Bytes
    pub enc_key : Bytes
    pub salt : Bytes
    pub before_key : World S R
    pub after_key : World S R
    pub keyed : encryption_key env key before_key ≡ (done (enc_key, salt), after_key)
    pub nonce : Option Bytes
    pub ct : Bytes
    pub is_encrypted : encrypted env input value enc_key nonce ≡ some ct

  -- How a call of `Send` ends for the relay: it was not called, or it was given the ciphertext of a value
  -- that may be sent, in a call that failed, in one whose slot the next call asked to revoke, or in one
  -- whose slot is that of the answer. A create call also fails when its reply is lost or cannot be read,
  -- and what the revoke call answers is not looked at.
  pub data SendEnd (input : SendInput) (w : World S R)
      : Result SendOutput × World S R → Type 0 where
    untouched :
        (e : AgentError) (v : World S R) → v.relay ≡ w.relay → SendEnd input w (stopped e, v)
    create_failed :
        (e : AgentError) (v : World S R) (s : Sealed input w) (ttl : ℕ) (x : CallError)
        → create_reveal env.wire env.api_key s.ct ttl w.relay ≡ (failed_with x, v.relay)
        → SendEnd input w (stopped e, v)
    revoke_called :
        (e : AgentError) (v : World S R) (s : Sealed input w) (ttl : ℕ) (created : RevealCreated)
        (relay : R)
        → create_reveal env.wire env.api_key s.ct ttl w.relay ≡ (returned created, relay)
        → v.relay ≡ (revoke_reveal env.wire env.api_key created.id created.revoke_token relay).1
        → SendEnd input w (stopped e, v)
    sent :
        (out : SendOutput) (v : World S R) (s : Sealed input w) (ttl : ℕ) (created : RevealCreated)
        → create_reveal env.wire env.api_key s.ct ttl w.relay ≡ (returned created, v.relay)
        → out.request_id ≡ created.id
        → build env.url_parse
            (λ t. is_some (env.rfc3339 t))
            (reveal_link env input s.key s.salt created)
            (page_origin env)
          ≡ some out.link
        → SendEnd input w (done out, v)

  save_sent-relay :
      (input : SendInput) (created : RevealCreated) (t : ℕ) (w : World S R)
      → (save_sent env (sent_record_of env input created t) w).1.relay ≡ w.relay
  unfolding save_sent now store_put
  save_sent-relay input created t w = refl

  record Kept (v : World S R) (x : Result Bool × World S R) : Type 0 where
    keeps : Bool
    end : World S R
    same : x ≡ (done keeps, end)
    relay : end.relay ≡ v.relay

  if_Kept :
      (b : Bool) (f g : Exec (World S R) Bool) (v : World S R)
      → Kept v (f v)
      → Kept v (g v)
      → Kept v ((if b then f else g) v)
  if_Kept true f g v kf kg = kf
  if_Kept false f g v kf kg = kg

  drop_copy-Kept : (input : SendInput) (v : World S R) → Kept v (drop_copy env input v)
  unfolding drop_copy store_delete
  drop_copy-Kept input v =
      if_Kept input.delete_after _ _ v (record { keeps = _; end = _; same = refl; relay = refl })
        (record { keeps = true; end = v; same = refl; relay = refl })

  finish_send-SendEnd :
      (input : SendInput) (w : World S R) (s : Sealed input w) (ttl : ℕ) (created : RevealCreated)
      (url : Bytes) (meta : Metadata) (v : World S R)
      → create_reveal env.wire env.api_key s.ct ttl w.relay ≡ (returned created, v.relay)
      → build env.url_parse
          (λ t. is_some (env.rfc3339 t))
          (reveal_link env input s.key s.salt created)
          (page_origin env)
        ≡ some url
      → SendEnd input w (finish_send env input s.salt created url meta v)
  unfolding finish_send answer_send log
  finish_send-SendEnd input w s ttl created url meta v c b =
      let k = drop_copy-Kept input v in
      subst (λ x. SendEnd input w (continue (answer_send env input s.salt created url) x))
        (sym k.same)
        (sent _ _ s ttl created (c ∙ ap (λ l. (returned created, l)) (sym k.relay)) refl b)

  record_sent-SendEnd :
      (input : SendInput) (w : World S R) (s : Sealed input w) (ttl : ℕ) (created : RevealCreated)
      (url : Bytes) (x : Result Metadata × World S R) (relay : R)
      → create_reveal env.wire env.api_key s.ct ttl w.relay ≡ (returned created, relay)
      → build env.url_parse
          (λ t. is_some (env.rfc3339 t))
          (reveal_link env input s.key s.salt created)
          (page_origin env)
        ≡ some url
      → x.1.relay ≡ relay
      → SendEnd input w
          (continue (finish_send env input s.salt created url) (caught (take_back env created) x))
  unfolding take_back call_anyway
  record_sent-SendEnd input w s ttl created url (done meta, v) relay c b keep =
      finish_send-SendEnd input w s ttl created url meta v
        (c ∙ ap (λ l. (returned created, l)) (sym keep)) b
  record_sent-SendEnd input w s ttl created url (stopped e, v) relay c b keep =
      revoke_called _ _ s ttl created relay c
        (ap (λ l. (revoke_reveal env.wire env.api_key created.id created.revoke_token l).1) keep)

  linked-SendEnd :
      (input : SendInput) (w : World S R) (s : Sealed input w) (ttl : ℕ) (created : RevealCreated)
      (url : Option Bytes) (v : World S R)
      → create_reveal env.wire env.api_key s.ct ttl w.relay ≡ (returned created, v.relay)
      → build env.url_parse
          (λ t. is_some (env.rfc3339 t))
          (reveal_link env input s.key s.salt created)
          (page_origin env)
        ≡ url
      → SendEnd input w (
          continue
            (record_sent env input s.salt created)
            (caught (take_back env created) (of_option bad_link url v)))
  unfolding take_back call_anyway record_sent now
  linked-SendEnd input w s ttl created none v c b = revoke_called _ _ s ttl created v.relay c refl
  linked-SendEnd input w s ttl created (some url) v c b =
      let t = env.clock v.readings in
      record_sent-SendEnd input w s ttl created url _ v.relay c b
        (save_sent-relay input created t (record v { readings = v.readings + 1 }))

  made-SendEnd :
      (input : SendInput) (w : World S R) (s : Sealed input w) (ttl : ℕ) (v : World S R)
      (x : Called RevealCreated × R)
      → create_reveal env.wire env.api_key s.ct ttl w.relay ≡ x
      → SendEnd input w (
          continue (make_reveal_link env input s.key s.salt) (
            caught
              (log_relay_error env (codes "send_secret") input.name)
              (of_called x.0, record v { relay = x.1 })))
  unfolding make_reveal_link log_relay_error log
  made-SendEnd input w s ttl v (failed_with e, l) c = create_failed _ _ s ttl e c
  made-SendEnd input w s ttl v (returned created, l) c =
      linked-SendEnd input w s ttl created _ (record v { relay = l }) c refl

  pub make_reveal-SendEnd :
      (input : SendInput) (w : World S R) (s : Sealed input w) (ttl : ℕ) (v : World S R)
      → v.relay ≡ w.relay
      → SendEnd input w (make_reveal env input ttl s.key s.salt s.ct v)
  unfolding make_reveal call
  make_reveal-SendEnd input w s ttl v same =
      made-SendEnd input w s ttl v (create_reveal env.wire env.api_key s.ct ttl v.relay)
        (ap (create_reveal env.wire env.api_key s.ct ttl) (sym same))
