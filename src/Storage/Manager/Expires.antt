-- ===== src/Storage/Manager/Expires.antt =====
-- The expiry that `Put` of internal/storage/manager.go gives to a value.
use burndrop.Common.{ℕ, Bytes, bytes_eq, Option, ◌≡◌, sym, ap, ◌∙◌, inl, inr, Bool-cases}
use burndrop.Storage.{Outcome, ok, err, Metadata, parse_retention}
use burndrop.Storage.Index.{Index}
use burndrop.Storage.Memory.{Entries}
use burndrop.Storage.Manager.{
  Backend, Manager, session_policy, to_second, fill, put_session, put_index, put_persistent,
  put_until, put,
}
use burndrop.Storage.Manager.Reads.{put-put_until}

module _ {S : Type 0} (b : Backend S) (rfc3339 : Bytes → Option ℕ) where
  put_session-meta :
      (name value : Bytes) (meta meta' : Metadata) (x : Outcome (Unit {0}) × Entries)
      (m : Manager S)
      → (put_session b rfc3339 name value meta x m).0 ≡ ok meta'
      → meta ≡ meta'
  unfolding put_session
  put_session-meta name value meta meta' (ok u, s) m h = cc
  put_session-meta name value meta meta' (err e, s) m h = absurd cc

  put_index-meta :
      (meta meta' : Metadata) (x : Outcome (Unit {0}) × Index) (m : Manager S)
      → (put_index b rfc3339 meta x m).0 ≡ ok meta'
      → meta ≡ meta'
  unfolding put_index
  put_index-meta meta meta' (ok u, i) m h = cc
  put_index-meta meta meta' (err e, i) m h = absurd cc

  put_persistent-meta :
      (meta meta' : Metadata) (x : Outcome (Unit {0}) × S) (m : Manager S)
      → (put_persistent b rfc3339 meta x m).0 ≡ ok meta'
      → meta ≡ meta'
  unfolding put_persistent
  put_persistent-meta meta meta' (ok u, s) m h = put_index-meta meta meta' _ _ h
  put_persistent-meta meta meta' (err e, s) m h = absurd cc

  put_until-expires_at :
      (now : ℕ) (name value : Bytes) (meta meta' : Metadata) (m : Manager S) (o : Outcome ℕ)
      → (put_until b rfc3339 name value now meta o m).0 ≡ ok meta'
      → o ≡ ok meta'.expires_at
  unfolding put_until fill
  put_until-expires_at now name value meta meta' m (err e) h = absurd cc
  put_until-expires_at now name value meta meta' m (ok t) h =
      elim (Bool-cases (bytes_eq meta.retention session_policy)) [
        | inl session ↦
            ap (λ (x : Metadata). ok x.expires_at)
              (put_session-meta name value _ meta' _ m (rw session at h))
        | inr kept ↦
            ap (λ (x : Metadata). ok x.expires_at) (put_persistent-meta _ meta' _ m (rw kept at h))
      ]

  -- The expiry of the metadata that a put returns is that of the retention, at the second of the put.
  pub put-expires_at :
      (now : ℕ) (name value : Bytes) (meta meta' : Metadata) (m : Manager S)
      → (put b rfc3339 now name value meta m).0 ≡ ok meta'
      → parse_retention rfc3339 meta.retention (to_second now) ≡ ok meta'.expires_at
  put-expires_at now name value meta meta' m h =
      let (v, same) = put-put_until b rfc3339 now name value meta meta' m h in
      put_until-expires_at (to_second now) name value meta meta' m _ (sym (ap (λ p. p.0) same) ∙ h)
