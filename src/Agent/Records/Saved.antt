-- ===== src/Agent/Records/Saved.antt =====
-- Pending requests that are saved and loaded.
use burndrop.Common.{
  ℕ, ◌+◌, Bytes, codes, bytes_eq, lookup, ltb, leb, ◌&&◌, ◌++◌, inl, Bool-cases, arith, Bool, true,
  false, not, Option, none, some, if◌then◌else◌, ◌≡◌, inr, refl, sym, ap, subst, ◌∙◌,
}
use burndrop.Crypto.Tokens.{valid_token}
use burndrop.Storage.{Outcome, ok, err, not_found, Metadata, is_expired, parse_retention, after_now}
use burndrop.Storage.Manager
use burndrop.Storage.Manager.{Manager}
use burndrop.Storage.Manager.Laws.{IsBackend}
use burndrop.Storage.Manager.Reads.{get-put}
use burndrop.Storage.Manager.Expires.{put-expires_at}
use burndrop.Crypto.Text.{has_prefix}
use burndrop.Agent.Exec.{done, stopped, no_pending, Exec, continue, of_outcome}
use burndrop.Agent.Records.{
  pending_name, save_pending, load_pending, get_record, parse_pending, pending_record,
  missing_record, record_retention,
}
use burndrop.Agent.World.{PendingRecord, Env, World, now, store_put, store_get}

module _ {A : Type 0} where
  pub of_outcome-done : (o : Outcome A) (a : A) → of_outcome o ≡ done a → o ≡ ok a
  of_outcome-done (ok b) a h = cc
  of_outcome-done (err e) a h = absurd cc

module _ {S R : Type 0} (env : Env S R) where
  pending_record-done :
      (o : Option PendingRecord) (r : PendingRecord)
      → o ≡ some r
      → r.v ≡ 1
      → pending_record o ≡ done r
  unfolding pending_record
  pending_record-done o r s v = rw (s, v)

  read_back :
      (r : PendingRecord) (meta : Metadata) (w : World S R) (gone : Bool)
      → env.read_pending (env.print_pending r) ≡ some r
      → r.v ≡ 1
      → (continue (parse_pending env) (
        missing_record
            (of_outcome (if gone then err not_found else ok (env.print_pending r, meta))),
        w,
      )).0
        ≡ (if gone then stopped no_pending else done r)
  unfolding missing_record parse_pending
  read_back r meta w true same v = refl
  read_back r meta w false same v =
      pending_record-done (env.read_pending (env.print_pending r)) r same v

  with_token :
      (id : Bytes) (w : World S R)
      → valid_token id ≡ true
      → load_pending env id w ≡ continue (parse_pending env) (get_record env (pending_name id) w)
  unfolding load_pending
  with_token id w t = if_valid (valid_token id) _ _ w t
    where
      if_valid :
          (b : Bool) (f g : Exec (World S R) PendingRecord) (w : World S R)
          → b ≡ true
          → (if not b then f else g) w ≡ g w
      if_valid true f g w t = refl
      if_valid false f g w t = absurd cc

  -- The part of a saved record that the manager answers for.
  put_done :
      (r : PendingRecord) (meta : Metadata) (w u : World S R) (later : ℕ)
      → IsBackend env.backend
      → lookup (pending_name r.drop_id) w.manager.session ≡ none
      → save_pending env r w ≡ (done meta, u)
      → (Manager.get env.backend env.rfc3339 later (pending_name r.drop_id) u.manager).0
        ≡ (if is_expired later meta then err not_found else ok (env.print_pending r, meta))
  unfolding save_pending store_put now
  put_done r meta w u later law free saved =
      let answered = of_outcome-done _ meta (ap (λ x. x.0) saved) in
      let manager = ap (λ x. x.1.manager) saved in
      subst
        (λ m.
          (Manager.get env.backend env.rfc3339 later (pending_name r.drop_id) m).0
          ≡ (if is_expired later meta then err not_found else ok (env.print_pending r, meta)))
        manager
        (get-put env.backend env.rfc3339 _ later (pending_name r.drop_id) (env.print_pending r) _
          meta w.manager law answered (inr free))

  -- A record that was saved is loaded until the metadata with which it was saved expire.
  loaded :
      (r : PendingRecord) (meta : Metadata) (w u later : World S R)
      → IsBackend env.backend
      → env.read_pending (env.print_pending r) ≡ some r
      → r.v ≡ 1
      → valid_token r.drop_id ≡ true
      → lookup (pending_name r.drop_id) w.manager.session ≡ none
      → save_pending env r w ≡ (done meta, u)
      → later.manager ≡ u.manager
      → (load_pending env r.drop_id later).0
        ≡ (if is_expired (env.clock later.readings) meta then stopped no_pending else done r)
  unfolding get_record store_get
  loaded r meta w u later law same v token free saved kept =
      let t = env.clock later.readings in
      let name = pending_name r.drop_id in
      let got = Manager.get env.backend env.rfc3339 t name later.manager in
      let answer : got.0
          ≡ (if is_expired t meta then err not_found else ok (env.print_pending r, meta)) =
        subst
          (λ m.
            (Manager.get env.backend env.rfc3339 t name m).0
            ≡ (if is_expired t meta then err not_found else ok (env.print_pending r, meta)))
          (sym kept) (put_done r meta w u t law free saved) in
      let after = record later { manager = got.1; readings = later.readings + 1 } in
      ap (λ x. x.0) (with_token r.drop_id later token)
      ∙ ap (λ o. (continue (parse_pending env) (missing_record (of_outcome o), after)).0) answer
      ∙ read_back r meta after (is_expired t meta) same v

  until_expires_at :
      (expires later t : ℕ)
      → env.rfc3339 (env.print_rfc3339 expires) ≡ some expires
      → parse_retention env.rfc3339 (codes "until:" ++ env.print_rfc3339 expires) later ≡ ok t
      → t ≡ expires
  unfolding parse_retention after_now has_prefix bytes_eq
  until_expires_at expires later t printed h = ground (arith, rw printed at h)

  session_expires_at :
      (later t : ℕ) → parse_retention env.rfc3339 (codes "session") later ≡ ok t → t ≡ 0
  unfolding parse_retention bytes_eq
  session_expires_at later t h = cc

  record_retention-expires_at :
      (expires now later t : ℕ)
      → env.rfc3339 (env.print_rfc3339 expires) ≡ some expires
      → parse_retention env.rfc3339 (record_retention env expires now) later ≡ ok t
      → t ≡ (if ltb (now + 1000000000) expires then expires else 0)
  unfolding record_retention
  record_retention-expires_at expires now later t printed h =
      elim (Bool-cases (ltb (now + 1000000000) expires)) [
        | inl far ↦ rw far (until_expires_at expires later t printed (rw far at h))
        | inr near ↦ rw near (session_expires_at later t (rw near at h))
      ]

  -- The metadata with which a record is saved expire with the record, unless it was kept for the session.
  saved_expires_at :
      (r : PendingRecord) (meta : Metadata) (w u : World S R)
      → env.rfc3339 (env.print_rfc3339 r.expires_at) ≡ some r.expires_at
      → save_pending env r w ≡ (done meta, u)
      → meta.expires_at
        ≡ (if ltb (env.clock w.readings + 1000000000) r.expires_at then r.expires_at else 0)
  unfolding save_pending store_put now
  saved_expires_at r meta w u printed saved =
      record_retention-expires_at r.expires_at (env.clock w.readings) _ meta.expires_at printed (
        put-expires_at env.backend env.rfc3339 (env.clock (w.readings + 1)) (pending_name r.drop_id)
          (env.print_pending r) _ meta w.manager (of_outcome-done _ meta (ap (λ x. x.0) saved)))

  expired_until :
      (start expires later : ℕ) (meta : Metadata)
      → meta.expires_at ≡ (if ltb (start + 1000000000) expires then expires else 0)
      → is_expired later meta ≡ (ltb (start + 1000000000) expires && leb expires later)
  unfolding is_expired
  expired_until start expires later meta h = rw h (ground arith)

  -- With a backend that keeps what is put, records that the JSON reader reads back, an expiry that its
  -- printed form names, and no session secret of the record's name: after a pending request was saved,
  -- loading it by its id, at any later time while the store is the same, gives the record; but if its expiry
  -- was more than a second after it was saved, it gives no pending request from that expiry on.
  pub load_pending-save_pending :
      (r : PendingRecord) (meta : Metadata) (w u later : World S R)
      → IsBackend env.backend
      → env.read_pending (env.print_pending r) ≡ some r
      → env.rfc3339 (env.print_rfc3339 r.expires_at) ≡ some r.expires_at
      → r.v ≡ 1
      → valid_token r.drop_id ≡ true
      → lookup (pending_name r.drop_id) w.manager.session ≡ none
      → save_pending env r w ≡ (done meta, u)
      → later.manager ≡ u.manager
      → (load_pending env r.drop_id later).0 ≡ (
          if ltb (env.clock w.readings + 1000000000) r.expires_at
            && leb r.expires_at (env.clock later.readings)
          then stopped no_pending
          else done r)
  load_pending-save_pending r meta w u later law same printed v token free saved kept =
      loaded r meta w u later law same v token free saved kept
      ∙ ap (λ b. if b then stopped no_pending else done r)
          (expired_until (env.clock w.readings) r.expires_at (env.clock later.readings) meta
            (saved_expires_at r meta w u printed saved))
