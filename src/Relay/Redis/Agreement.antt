-- ===== src/Relay/Redis/Agreement.antt =====
-- Each script of internal/relay/redis_store.go agrees with its method of internal/relay/memory.go.
pub mod Created
use burndrop.Common.{
  ℕ, ◌+◌, Bytes, lookup, bytes_eq, true, false, not, ◌&&◌, Option, none, some, length, leb, ltb,
  ◌≡◌, refl, ap, ◌∙◌,
}
use burndrop.Crypto.Base64.{encode}
use burndrop.Crypto.Base64.RoundTrip.{AreBytes}
use burndrop.Relay.Slot.{
  uploaded, fetched, opened, revoked, Drop, Hash, err, is_terminal, is_drop, is_created,
  is_uploaded, status_of,
}
use burndrop.Relay.Memory.{Memory, StoreOptions, with_defaults, new_memory, over}
use burndrop.Relay.Memory
use burndrop.Relay.Memory.Methods
use burndrop.Relay.Redis.{Fields, Redis, millis, time_of, reply_drop}
use burndrop.Relay.Redis.Scripts
use burndrop.Relay.Redis.Simulation.{
  Same, OptSame, Related, Agree, agree, if-Agree, bytes_eq-encode, insert-OptSame, state_error-Same,
  retire-Related, get-Related, whole,
}

terminal_states :
    (is_terminal fetched ≡ true) × (is_terminal opened ≡ true) × (is_terminal revoked ≡ true)
unfolding is_terminal
terminal_states = (refl, refl, refl)

token-Same :
    (text : Bytes) (stored token : Hash)
    → AreBytes token
    → (text ≡ encode stored) × AreBytes stored
    → bytes_eq text (encode token) ≡ bytes_eq stored token
token-Same text stored token h (e, k) =
    ap (λ t. bytes_eq t (encode token)) e ∙ bytes_eq-encode stored token k h

module _ (now : ℕ) (id : Bytes) (token : Hash) (bytes : AreBytes token) where
  fetch_slot-Agree :
      (o : Option Fields) (p : Option Drop) (r : Redis) (m : Memory)
      → OptSame id o p
      → Related r m
      → Agree
          (Scripts.fetch_slot (millis now) id token o r)
          (Methods.fetch_slot (time_of (millis now)) id token p m)
  unfolding Scripts.fetch_slot Methods.fetch_slot
  fetch_slot-Agree none none r m h rel = agree refl rel
  fetch_slot-Agree none (some d) r m h rel = absurd h
  fetch_slot-Agree (some f) none r m h rel = absurd h
  fetch_slot-Agree (some f) (some d) r m h rel =
      if-Agree _ _ (ap (λ k. not (is_drop k)) h.kind) (agree refl rel) λ k.
        if-Agree _ _ (ap is_terminal h.state) (agree (ap err (state_error-Same id f d h)) rel)
          λ live.
            if-Agree _ _ (ap not (token-Same f.tb d.token_b token bytes (h.token_b live)))
              (agree refl rel)
              λ t.
                if-Agree _ _ (ap (λ s. not (is_uploaded s)) h.state)
                  (agree (ap err (state_error-Same id f d h)) rel)
                  λ u.
                    agree (cc (h.ct, h.uploaded))
                      (retire-Related fetched (millis now) id f d r m terminal_states.0 h rel)

  open_slot-Agree :
      (o : Option Fields) (p : Option Drop) (r : Redis) (m : Memory)
      → OptSame id o p
      → Related r m
      → Agree
          (Scripts.open_slot (millis now) id token o r)
          (Methods.open_slot (time_of (millis now)) id token p m)
  unfolding Scripts.open_slot Methods.open_slot
  open_slot-Agree none none r m h rel = agree refl rel
  open_slot-Agree none (some d) r m h rel = absurd h
  open_slot-Agree (some f) none r m h rel = absurd h
  open_slot-Agree (some f) (some d) r m h rel =
      if-Agree _ _ (ap is_drop h.kind) (agree refl rel) λ k.
        if-Agree _ _ (ap is_terminal h.state) (agree (ap err (state_error-Same id f d h)) rel)
          λ live.
            if-Agree _ _ (ap not (token-Same f.ta d.token_a token bytes (h.token_a live)))
              (agree refl rel)
              λ t.
                agree (cc (h.ct, h.created))
                  (retire-Related opened (millis now) id f d r m terminal_states.1 h rel)

  revoke_slot-Agree :
      (o : Option Fields) (p : Option Drop) (r : Redis) (m : Memory)
      → OptSame id o p
      → Related r m
      → Agree
          (Scripts.revoke_slot (millis now) id token o r)
          (Methods.revoke_slot (time_of (millis now)) id token p m)
  unfolding Scripts.revoke_slot Methods.revoke_slot
  revoke_slot-Agree none none r m h rel = agree refl rel
  revoke_slot-Agree none (some d) r m h rel = absurd h
  revoke_slot-Agree (some f) none r m h rel = absurd h
  revoke_slot-Agree (some f) (some d) r m h rel =
      if-Agree _ _ (ap is_terminal h.state) (agree (ap err (state_error-Same id f d h)) rel) λ live.
        let a = token-Same f.ta d.token_a token bytes (h.token_a live) in
        let b = token-Same f.tb d.token_b token bytes (h.token_b live) in
        if-Agree (not (bytes_eq f.ta (encode token)) && not (bytes_eq f.tb (encode token)))
          (not (bytes_eq d.token_a token) && not (bytes_eq d.token_b token)) (cc (a, b))
          (agree refl rel)
          λ t. agree refl (retire-Related revoked (millis now) id f d r m terminal_states.2 h rel)

  module _ (commitment ct : Bytes) where
    filled-Same :
        (f : Fields) (d : Drop)
        → is_terminal d.state ≡ false
        → Same id f d
        → Same id
            (record f { ct = ct; state = uploaded; uploaded = millis now })
            (record d { ciphertext = ct; state = uploaded; uploaded_at = time_of (millis now) })
    filled-Same f d live h = record {
      id = h.id;
      kind = h.kind;
      state = refl;
      ct = refl;
      commitment = h.commitment;
      created = h.created;
      expires = h.expires;
      uploaded = refl;
      fetched = h.fetched;
      revoked = h.revoked;
      token_a = λ _. h.token_a live;
      token_b = λ _. h.token_b live;
    }

    upload_slot-Agree :
        (o : Option Fields) (p : Option Drop) (r : Redis) (m : Memory)
        → OptSame id o p
        → Related r m
        → Agree
            (Scripts.upload_slot (millis now) id token commitment ct o r)
            (Methods.upload_slot (time_of (millis now)) id token commitment ct p m)
    unfolding Scripts.upload_slot Methods.upload_slot Methods.fill Memory.notify Memory.write
    upload_slot-Agree none none r m h rel = agree refl rel
    upload_slot-Agree none (some d) r m h rel = absurd h
    upload_slot-Agree (some f) none r m h rel = absurd h
    upload_slot-Agree (some f) (some d) r m h rel =
        if-Agree _ _ (ap (λ k. not (is_drop k)) h.kind) (agree refl rel) λ k.
          if-Agree _ _ (ap is_terminal h.state) (agree (ap err (state_error-Same id f d h)) rel)
            λ live.
              if-Agree _ _ (ap not (token-Same f.ta d.token_a token bytes (h.token_a live)))
                (agree refl rel)
                λ t.
                  if-Agree _ _ (ap (λ s. not (is_created s)) h.state)
                    (agree (ap err (state_error-Same id f d h)) rel)
                    λ c.
                      if-Agree _ _ (ap (λ x. not (bytes_eq x commitment)) h.commitment)
                        (agree refl rel)
                        λ e.
                          if-Agree (over r.opts.max_bytes (r.bytes + length ct))
                            (over m.opts.max_bytes (m.bytes + length ct)) (cc (rel.opts, rel.bytes))
                            (agree refl rel)
                            λ room. agree refl (record {
                              slots =
                                  insert-OptSame id _ _ r.slots m.drops (filled-Same f d live h)
                                    rel.slots;
                              live = rel.live;
                              bytes = ap (λ n. n + length ct) rel.bytes;
                              opts = rel.opts;
                            })

  pub fetch-Agree :
      (r : Redis) (m : Memory)
      → Related r m
      → Agree (Scripts.fetch now id token r) (Methods.fetch (whole now) (whole now) id token m)
  unfolding Scripts.fetch Methods.fetch millis time_of
  fetch-Agree r m rel =
      let (o, s) = get-Related (millis now) id r m rel in fetch_slot-Agree _ _ _ _ o s

  pub open-Agree :
      (r : Redis) (m : Memory)
      → Related r m
      → Agree
          (Scripts.open_reveal now id token r)
          (Methods.open_reveal (whole now) (whole now) id token m)
  unfolding Scripts.open_reveal Methods.open_reveal millis time_of
  open-Agree r m rel =
      let (o, s) = get-Related (millis now) id r m rel in open_slot-Agree _ _ _ _ o s

  pub revoke-Agree :
      (r : Redis) (m : Memory)
      → Related r m
      → Agree (Scripts.revoke now id token r) (Methods.revoke (whole now) (whole now) id token m)
  unfolding Scripts.revoke Methods.revoke millis time_of
  revoke-Agree r m rel =
      let (o, s) = get-Related (millis now) id r m rel in revoke_slot-Agree _ _ _ _ o s

  pub upload-Agree :
      (commitment ct : Bytes) (r : Redis) (m : Memory)
      → Related r m
      → Agree
          (Scripts.upload now id token commitment ct r)
          (Methods.upload (whole now) (whole now) id token commitment ct m)
  unfolding Scripts.upload Methods.upload millis time_of
  upload-Agree commitment ct r m rel =
      let (o, s) = get-Related (millis now) id r m rel in
      upload_slot-Agree commitment ct _ _ _ _ o s
