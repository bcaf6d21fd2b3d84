-- ===== src/Agent/Send/Sendable.antt =====
-- What `Send` gives to the relay: only the ciphertext of a value that may be sent.
use burndrop.Common.{
  ℕ, ◌+◌, Bytes, bytes_eq, codes, Bool, true, false, not, Option, none, some, length, ◌==◌,
  if◌then◌else◌, ◌≡◌, refl, ◌∙◌, arith,
}
use burndrop.Storage.{Metadata, valid_name}
use burndrop.Agent.Config.{ttl_of}
use burndrop.Agent.Exec.{
  Result, done, stopped, Exec, continue, of_option, bad_ttl, no_random, crypto_failed, pure,
}
use burndrop.Agent.Send.{
  SendInput, SendOutput, make_reveal, encrypted, encrypt_and_send, send_under, send_value,
  refuse_send, send_stored, send_within, send, encryption_key, from_source, with_password, salted,
}
use burndrop.Agent.World.{Env, World, log, draw, store_get, redact_value}
use burndrop.Crypto.Sealed.{reveal_key_with_password}
use burndrop.Agent.Send.Slots.{SendEnd, untouched, make_reveal-SendEnd}

unnegated : (b : Bool) → not b ≡ false → b ≡ true
unnegated b h = ground arith

module _ {S R : Type 0} (env : Env S R) where
  if_Same :
      (b : Bool) (f g : Exec (World S R) (Bytes × Bytes)) (w : World S R)
      → (f w).1.relay ≡ w.relay
      → (g w).1.relay ≡ w.relay
      → ((if b then f else g) w).1.relay ≡ w.relay
  if_Same true f g w sf sg = sf
  if_Same false f g w sf sg = sg

  derived-relay :
      (salt : Bytes) (o : Option Bytes) (w : World S R)
      → (continue {B = Bytes × Bytes}
          (λ derived. pure (derived, salt))
          (of_option crypto_failed o w)).1.relay
        ≡ w.relay
  derived-relay salt none w = refl
  derived-relay salt (some k) w = refl

  salted-relay :
      (key password : Bytes) (o : Option Bytes) (w : World S R)
      → (continue (salted env key password) (of_option no_random o w)).1.relay ≡ w.relay
  unfolding salted
  salted-relay key password none w = refl
  salted-relay key password (some salt) w =
      derived-relay salt (reveal_key_with_password env.primitives key password salt) w

  from_source-relay :
      (key : Bytes) (source : Option (Option Bytes)) (w : World S R)
      → (from_source env key source w).1.relay ≡ w.relay
  unfolding from_source with_password draw
  from_source-relay key none w = refl
  from_source-relay key (some none) w = refl
  from_source-relay key (some (some password)) w =
      if_Same (length password == 0) _ _ w refl
        (salted-relay key password (env.random w.draws) (record w { draws = w.draws + 1 }))

  encryption_key-relay :
      (key : Bytes) (w : World S R) → (encryption_key env key w).1.relay ≡ w.relay
  unfolding encryption_key
  encryption_key-relay key w =
      if_Same env.config.reveal_password_required _ _ w
        (from_source-relay key env.password_source w) refl

  -- A stored value that may be sent.
  record Found (input : SendInput) (w : World S R) (value : Bytes) : Type 0 where
    meta : Metadata
    after : World S R
    got : store_get env input.name w ≡ (done (value, meta), after)
    is_sendable : meta.sendable ≡ true

  encrypted-SendEnd :
      (input : SendInput) (w : World S R) (ttl : ℕ) (value key enc_key salt : Bytes)
      (u v x : World S R) (random ct : Option Bytes)
      → Found input w value
      → encryption_key env key u ≡ (done (enc_key, salt), v)
      → encrypted env input value enc_key random ≡ ct
      → x.relay ≡ w.relay
      → SendEnd env input w
          (continue (make_reveal env input ttl key salt) (of_option crypto_failed ct x))
  encrypted-SendEnd input w ttl value key enc_key salt u v x random none f k c same =
      untouched _ _ same
  encrypted-SendEnd input w ttl value key enc_key salt u v x random (some ct) f k c same =
      make_reveal-SendEnd env input w
        (record {
          value = value;
          meta = f.meta;
          after = f.after;
          got = f.got;
          is_sendable = f.is_sendable;
          key = key;
          enc_key = enc_key;
          salt = salt;
          before_key = u;
          after_key = v;
          keyed = k;
          nonce = random;
          ct = ct;
          is_encrypted = c;
        })
        ttl x same

  keyed-SendEnd :
      (input : SendInput) (w : World S R) (ttl : ℕ) (value key : Bytes) (u : World S R)
      (x : Result (Bytes × Bytes) × World S R)
      → Found input w value
      → encryption_key env key u ≡ x
      → x.1.relay ≡ w.relay
      → SendEnd env input w (continue (encrypt_and_send env input ttl value key) x)
  unfolding encrypt_and_send draw
  keyed-SendEnd input w ttl value key u (stopped e, v) f k same = untouched e v same
  keyed-SendEnd input w ttl value key u (done (enc_key, salt), v) f k same =
      encrypted-SendEnd input w ttl value key enc_key salt u v (record v { draws = v.draws + 1 })
        (env.random v.draws) _ f k refl same

  drawn-SendEnd :
      (input : SendInput) (w : World S R) (ttl : ℕ) (value : Bytes) (u : World S R)
      (key : Option Bytes)
      → Found input w value
      → u.relay ≡ w.relay
      → SendEnd env input w (continue (send_under env input ttl value) (of_option no_random key u))
  unfolding send_under
  drawn-SendEnd input w ttl value u none f same = untouched _ _ same
  drawn-SendEnd input w ttl value u (some key) f same =
      keyed-SendEnd input w ttl value key u (encryption_key env key u) f refl
        (encryption_key-relay key u ∙ same)

  if_SendEnd :
      (b : Bool) (f g : Exec (World S R) SendOutput) (input : SendInput) (w v : World S R)
      → SendEnd env input w (f v)
      → (b ≡ false → SendEnd env input w (g v))
      → SendEnd env input w ((if b then f else g) v)
  if_SendEnd true f g input w v sf sg = sf
  if_SendEnd false f g input w v sf sg = sg refl

  stored-SendEnd :
      (input : SendInput) (w : World S R) (ttl : ℕ) (x : Result (Bytes × Metadata) × World S R)
      → store_get env input.name w ≡ x
      → x.1.relay ≡ w.relay
      → SendEnd env input w (continue (send_stored env input ttl) x)
  unfolding send_stored refuse_send send_value redact_value draw log
  stored-SendEnd input w ttl (stopped e, v) g same = untouched e v same
  stored-SendEnd input w ttl (done (value, meta), v) g same =
      if_SendEnd (bytes_eq meta.kind (codes "pending")) _ _ input w v (untouched _ _ same) (λ _.
        if_SendEnd (not meta.sendable) _ _ input w v (untouched _ _ same) (λ n.
          drawn-SendEnd input w ttl value _ (env.random v.draws)
            (record { meta = meta; after = v; got = g; is_sendable = unnegated meta.sendable n })
            same))

  store_get-relay : (name : Bytes) (w : World S R) → (store_get env name w).1.relay ≡ w.relay
  unfolding store_get
  store_get-relay name w = refl

  timed-SendEnd :
      (input : SendInput) (w : World S R) (ttl : Option ℕ)
      → SendEnd env input w (continue (send_within env input) (of_option bad_ttl ttl w))
  unfolding send_within
  timed-SendEnd input w none = untouched _ _ refl
  timed-SendEnd input w (some ttl) =
      stored-SendEnd input w ttl (store_get env input.name w) refl (store_get-relay input.name w)

  -- However a call of `Send` ends: the relay was not called, or the create call gave it the ciphertext of
  -- the value that the store has under the name, whose metadata are marked sendable. Then either the
  -- create call failed and was the last one, or it returned a slot and the last call was one that asks to
  -- revoke that slot with its revoke token, and in both cases the answer is an error; or the create call
  -- returned a slot and was the last one, and the answer has the id of the slot and the link of the slot,
  -- the key and the salt.
  pub send-SendEnd : (input : SendInput) (w : World S R) → SendEnd env input w (send env input w)
  unfolding send
  send-SendEnd input w =
      if_SendEnd (not (valid_name input.name)) _ _ input w w (untouched _ _ refl)
        (λ _. timed-SendEnd input w (ttl_of env.parse_duration env.config input.ttl))
