-- ===== src/Relay/Handlers/Delivery.antt =====
-- What reaches the agent through the two handlers is what the page sent.
use burndrop.Common.{
  ℕ, ◌/◌, ◌==◌, if◌then◌else◌, Bytes, Bool, true, false, Option, none, some, List, ◌≡◌, refl, sym,
  ap, ◌∙◌, subst, arith,
}
use burndrop.Crypto.Base64.{encode, decode}
use burndrop.Crypto.Base64.RoundTrip.{decode-encode, encode-decode}
use burndrop.Relay.Slot.{Hash, StoreError, Result, ok, err}
use burndrop.Relay.Config.{Config}
use burndrop.Relay.Memory.{Memory}
use burndrop.Relay.Memory.Methods.{upload, fetch}
use burndrop.Relay.Memory.Schedule.{All}
use burndrop.Relay.Memory.Gone.{Other}
use burndrop.Relay.Memory.History.{Call, run, Allowed, Always}
use burndrop.Relay.Memory.Delivery.{fetch-upload}
use burndrop.Relay.Handlers.{
  failed, sent, now_uploaded, Reply, Operation, op_upload, op_fetch, Body, parsed, refused,
  UploadRequest, state_reply, store_error, check_ciphertext, decode_ciphertext, min_sealed, answer,
  as_agent, as_page, rfc3339,
}
use burndrop.Relay.Handlers.Routes.{upload_handler, fetch_handler, upload_ciphertext}

is_failed : Reply → Bool
is_failed (failed status code) = true
is_failed _ = false

store_error-is_failed : (e : StoreError) (op : Operation) → is_failed (store_error e op) ≡ true
unfolding store_error state_reply is_failed
store_error-is_failed e op = ground arith

-- A reply that is no failure is that of a method that succeeded.
answer-ok :
    {A : Type 0} (op : Operation) (done : A → Reply) (p : Result A × Memory) (r : Reply)
    → is_failed r ≡ false
    → (answer op done p).0 ≡ r
    → (a : A) × (p.0 ≡ ok a) × (done a ≡ r)
unfolding answer
answer-ok op done (ok a, m) r f e = (a, refl, e)
answer-ok op done (err x, m) r f e = cc (e, store_error-is_failed x op)

answer-store :
    {A : Type 0} (op : Operation) (done : A → Reply) (p : Result A × Memory)
    → (answer op done p).1 ≡ p.1
unfolding answer
answer-store op done (ok a, m) = refl
answer-store op done (err x, m) = refl

check_ciphertext-parsed :
    (c : Config) (n : ℕ) (o : Option Bytes) (ct : Bytes)
    → check_ciphertext c n o ≡ parsed ct
    → o ≡ some ct
unfolding check_ciphertext
check_ciphertext-parsed c n none ct h = cc
check_ciphertext-parsed c n (some x) ct h = ground arith

decode_ciphertext-parsed :
    (c : Config) (s : Bytes) (n : ℕ) (ct : Bytes)
    → decode_ciphertext c s n ≡ parsed ct
    → decode s ≡ some ct
unfolding decode_ciphertext
decode_ciphertext-parsed c s n ct h =
    let checked : check_ciphertext c n (decode s) ≡ parsed ct = ground arith in
    check_ciphertext-parsed c n (decode s) ct checked

decode_ciphertext-is_failed :
    (c : Config) (s : Bytes) (n : ℕ) (r : Reply)
    → decode_ciphertext c s n ≡ refused r
    → is_failed r ≡ true
unfolding decode_ciphertext check_ciphertext is_failed
decode_ciphertext-is_failed c s n r h = by_text (decode s) refl
  where
    by_text : (o : Option Bytes) → decode s ≡ o → is_failed r ≡ true
    by_text none e = ground (arith, e)
    by_text (some ct) e = ground (arith, e)

sent_injective : {a b : Bytes} {x y : Option ℕ} → sent a x ≡ sent b y → (a ≡ b) × (x ≡ y)
sent_injective e = (cc, cc)

module _ (sha : Bytes → Hash) (c : Config) where
  -- An upload that is acknowledged was decoded and stored.
  upload_ciphertext-ok :
      (now at : ℕ) (req : UploadRequest) (b : Body Bytes) (m : Memory)
      → ((r : Reply) → b ≡ refused r → is_failed r ≡ true)
      → (upload_ciphertext sha c now at req b m).0 ≡ now_uploaded
      → (ct : Bytes) × (b ≡ parsed ct)
        × ((upload now at req.drop_id (sha req.upload_token) req.commitment ct m).0 ≡ ok tt)
        × ((upload_ciphertext sha c now at req b m).1
            ≡ (upload now at req.drop_id (sha req.upload_token) req.commitment ct m).1)
  unfolding upload_ciphertext is_failed
  upload_ciphertext-ok now at req (refused r) m f h = cc (f r refl, h)
  upload_ciphertext-ok now at req (parsed ct) m f h =
      let stored = upload now at req.drop_id (sha req.upload_token) req.commitment ct m in
      let (a, done, same) = answer-ok op_upload (λ _. now_uploaded) stored now_uploaded refl h in
      (ct, refl, done, answer-store op_upload (λ _. now_uploaded) stored)

  upload_handler-ok :
      (now at : ℕ) (page : Bool) (req : UploadRequest) (m : Memory)
      → (upload_handler sha c now at page (parsed req) m).0 ≡ now_uploaded
      → (ct : Bytes) × (decode req.ciphertext ≡ some ct)
        × ((upload now at req.drop_id (sha req.upload_token) req.commitment ct m).0 ≡ ok tt)
        × ((upload_handler sha c now at page (parsed req) m).1
            ≡ (upload now at req.drop_id (sha req.upload_token) req.commitment ct m).1)
  unfolding upload_handler as_page
  upload_handler-ok now at false req m h = cc
  upload_handler-ok now at true req m h =
      let body = decode_ciphertext c req.ciphertext min_sealed in
      let passed : upload_handler sha c now at true (parsed req) m
          ≡ upload_ciphertext sha c now at req body m =
        ground arith in
      let (ct, read, stored, after) =
        upload_ciphertext-ok now at req body m
          (decode_ciphertext-is_failed c req.ciphertext min_sealed)
          (sym (ap (λ p. p.0) passed) ∙ h) in
      (
        ct,
        decode_ciphertext-parsed c req.ciphertext min_sealed ct read,
        stored,
        ap (λ p. p.1) passed ∙ after,
      )

  fetch_handler-ok :
      (now at : ℕ) (key : Option Bytes) (allowed : Bool) (id token text : Bytes) (time : Option ℕ)
      (m : Memory)
      → (fetch_handler sha c now at key allowed
          (parsed (record { drop_id = id; token = token }))
          m).0
        ≡ sent text time
      → (r : Bytes × ℕ) × ((fetch now at id (sha token) m).0 ≡ ok r)
        × (sent (encode r.0) (rfc3339 r.1) ≡ sent text time)
  unfolding fetch_handler as_agent is_failed
  fetch_handler-ok now at none allowed id token text time m h = cc
  fetch_handler-ok now at (some k) false id token text time m h = cc
  fetch_handler-ok now at (some k) true id token text time m h =
      let found = fetch now at id (sha token) m in
      let passed : (answer op_fetch (λ r. sent (encode r.0) (rfc3339 r.1)) found).0
          ≡ sent text time =
        ground arith in
      answer-ok op_fetch (λ r. sent (encode r.0) (rfc3339 r.1)) found (sent text time) refl passed

  -- The bytes of an upload that the relay acknowledged are the bytes of every fetch that it answers:
  -- after the acknowledgement, whatever calls follow, as long as no slot of the same identifier is
  -- created, the text of a fetch reply for the slot decodes to what the uploaded text decodes to, and
  -- its time names the second of the upload, or is empty if that is the zero time.
  pub fetched-uploaded :
      (now at now' at' : ℕ) (time : Option ℕ) (page allowed : Bool) (key : Option Bytes)
      (req : UploadRequest) (token text : Bytes) (m : Memory) (cs : List Call)
      → (upload_handler sha c now at page (parsed req) m).0 ≡ now_uploaded
      → All (Allowed (Other req.drop_id) Always) cs
      → (fetch_handler sha c now' at' key allowed
          (parsed (record { drop_id = req.drop_id; token = token }))
          (run cs (upload_handler sha c now at page (parsed req) m).1)).0
        ≡ sent text time
      → (decode text ≡ decode req.ciphertext)
        × (time ≡ (if at == 0 then none else some (at / 1000000000)))
  unfolding rfc3339
  fetched-uploaded now at now' at' time page allowed key req token text m cs up a down =
      let (ct, decoded, stored, after) = upload_handler-ok now at page req m up in
      let (r, got, reply) =
        fetch_handler-ok now' at' key allowed req.drop_id token text time _ down in
      let same =
        fetch-upload now at now' at' req.drop_id (sha req.upload_token) (sha token) req.commitment
          ct m cs r stored a
          (subst (λ n. (fetch now' at' req.drop_id (sha token) (run cs n)).0 ≡ ok r) after got) in
      let bytes = (encode-decode req.ciphertext ct decoded).1 in
      let (written, dated) = sent_injective reply in
      (
        ap decode (sym written ∙ ap (λ p. encode p.0) same) ∙ decode-encode ct bytes ∙ sym decoded,
        sym dated ∙ ap (λ p. rfc3339 p.1) same,
      )
