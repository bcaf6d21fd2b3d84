-- ===== src/Storage/Manager/Laws.antt =====
-- What is put is what is read, through the retention policies, and expired values are never returned.
use burndrop.Common.{
  ℕ, Bytes, lookup, lookup-insert, bytes_eq, bytes_eq_refl, true, false, Option, none, some, length,
  ltb, if◌then◌else◌, ◌≡◌, ◌⊎◌, inl, inr, refl, ap, ◌∙◌, arith, Bool-cases,
}
use burndrop.Storage.{
  not_found, Outcome, ok, err, Metadata, max_value_bytes, valid_name, is_expired,
}
use burndrop.Storage.Memory.{Entries, MemoryEntry, backend_name, found, drop_found}
use burndrop.Storage.Memory
use burndrop.Storage.Index.{Index}
use burndrop.Storage.Index
use burndrop.Storage.Manager.{
  Backend, Manager, session_policy, fill, put_session, put_index, put_persistent, put_until,
  get_persistent, get_session, get,
}

-- What the manager relies on: a value that was put is there, with its metadata, and one that was removed
-- is not, whether or not it was there before.
pub record IsBackend {S : Type 0} (b : Backend S) : Type 0 where
  pub get-put :
      (name value : Bytes) (meta : Metadata) (s : S)
      → meta.name ≡ name
      → meta.backend ≡ b.name
      → meta.size_bytes ≡ length value
      → (b.put name value meta s).0 ≡ ok tt
      → b.get name (b.put name value meta s).1 ≡ ok (value, meta)
  pub get-remove :
      (name : Bytes) (s : S)
      → ((b.remove name s).0 ≡ ok tt) ⊎ ((b.remove name s).0 ≡ err not_found)
      → b.get name (b.remove name s).1 ≡ err not_found

-- The metadata of a value in a backend.
abbrev as_stored : Bytes → Bytes → Bytes → Metadata → Metadata
as_stored backend name value g = record g {
  name = name;
  backend = backend;
  size_bytes = length value;
}

module _ {S : Type 0} (b : Backend S) (rfc3339 : Bytes → Option ℕ) where
  get_persistent-unexpired :
      (now : ℕ) (name value : Bytes) (meta : Metadata) (o : Outcome (Bytes × Metadata))
      (m : Manager S)
      → (get_persistent b rfc3339 now name o m).0 ≡ ok (value, meta)
      → is_expired now meta ≡ false
  unfolding get_persistent
  get_persistent-unexpired now name value meta (err e) m h = absurd (ground arith)
  get_persistent-unexpired now name value meta (ok (v, t)) m h =
      elim (Bool-cases (is_expired now t)) [
        | inl old ↦ absurd (ground arith)
        | inr new ↦ ground arith
      ]

  get_session-unexpired :
      (now : ℕ) (name value : Bytes) (meta : Metadata) (o : Outcome (Bytes × Metadata))
      (m : Manager S)
      → (get_session b rfc3339 now name o m).0 ≡ ok (value, meta)
      → is_expired now meta ≡ false
  unfolding get_session
  get_session-unexpired now name value meta (err e) m h =
      get_persistent-unexpired now name value meta (b.get name m.persistent) m h
  get_session-unexpired now name value meta (ok (v, t)) m h = elim (Bool-cases (is_expired now t)) [
    | inl old ↦ absurd (ground arith)
    | inr new ↦ ground arith
  ]

  -- A value that a read returns has not expired at the time of the read, whatever the backend.
  pub get-unexpired :
      (now : ℕ) (name value : Bytes) (meta : Metadata) (m : Manager S)
      → (get b rfc3339 now name m).0 ≡ ok (value, meta)
      → is_expired now meta ≡ false
  unfolding get
  get-unexpired now name value meta m h =
      get_session-unexpired now name value meta (Memory.get name m.session) m (ground arith)

  -- What a read answers that finds a value: the value, unless it has expired.
  abbrev pub current : ℕ → Bytes → Metadata → Outcome (Bytes × Metadata)
  current now value meta = if is_expired now meta then err not_found else ok (value, meta)

  pub get-session_entry :
      (now : ℕ) (name value : Bytes) (meta : Metadata) (m : Manager S)
      → valid_name name ≡ true
      → lookup name m.session ≡ some (record { value = value; meta = meta })
      → (get b rfc3339 now name m).0 ≡ current now value meta
  unfolding get get_session Memory.get found
  get-session_entry now name value meta m v h = rw (v, h) (ground arith)

  pub get-persistent_entry :
      (now : ℕ) (name value : Bytes) (meta : Metadata) (m : Manager S)
      → valid_name name ≡ true
      → lookup name m.session ≡ none
      → b.get name m.persistent ≡ ok (value, meta)
      → (get b rfc3339 now name m).0 ≡ current now value meta
  unfolding get get_session get_persistent Memory.get found
  get-persistent_entry now name value meta m v h e = rw (v, h, e) (ground arith)

  put_session-stored :
      (name value : Bytes) (g meta' : Metadata) (m : Manager S)
      → valid_name name ≡ true
      → (put_session b rfc3339 name value
          (as_stored backend_name name value g)
          (Memory.put name value (as_stored backend_name name value g) m.session)
          m).0
        ≡ ok meta'
      → lookup name
          (put_session b rfc3339 name value
            (as_stored backend_name name value g)
            (Memory.put name value (as_stored backend_name name value g) m.session)
            m).1.session
        ≡ some (record { value = value; meta = meta' })
  unfolding put_session Memory.put
  put_session-stored name value g meta' m v h =
      elim (Bool-cases (ltb max_value_bytes (length value))) [
        | inl large ↦ absurd (ground arith)
        | inr small ↦ ground (
          arith,
          lookup-insert name name
              (record { value = value; meta = as_stored backend_name name value g }) m.session,
          bytes_eq_refl name,
        )
      ]

  put_index-persistent :
      (meta meta' : Metadata) (o : Outcome (Unit {0}) × Index) (m : Manager S)
      → (put_index b rfc3339 meta o m).0 ≡ ok meta'
      → (meta ≡ meta')
        × ((put_index b rfc3339 meta o m).1.persistent ≡ m.persistent)
        × ((put_index b rfc3339 meta o m).1.session ≡ m.session)
        × (o.0 ≡ ok tt)
  unfolding put_index
  put_index-persistent meta meta' (ok u, i) m h = (cc, refl, refl, refl)
  put_index-persistent meta meta' (err e, i) m h = absurd (ground arith)

  put_persistent-stored :
      (meta meta' : Metadata) (o : Outcome (Unit {0}) × S) (m : Manager S)
      → (put_persistent b rfc3339 meta o m).0 ≡ ok meta'
      → (meta ≡ meta')
        × ((put_persistent b rfc3339 meta o m).1.persistent ≡ o.1)
        × ((put_persistent b rfc3339 meta o m).1.session ≡ m.session)
        × (o.0 ≡ ok tt)
  unfolding put_persistent
  put_persistent-stored meta meta' (err e, s) m h = absurd (ground arith)
  put_persistent-stored meta meta' (ok u, s) m h =
      let (e, p, q, _) =
        put_index-persistent meta meta' (Index.put meta m.index) (record m { persistent = s }) h in
      (e, p, q, refl)

  -- A put that succeeds is a put in the session, or one in the backend and the index.
  pub put_until-stored :
      (now : ℕ) (name value : Bytes) (meta meta' : Metadata) (m : Manager S) (o : Outcome ℕ)
      → IsBackend b
      → valid_name name ≡ true
      → (put_until b rfc3339 name value now meta o m).0 ≡ ok meta'
      → ((bytes_eq meta.retention session_policy ≡ true)
          × (lookup name (put_until b rfc3339 name value now meta o m).1.session
              ≡ some (record { value = value; meta = meta' })))
        ⊎ ((bytes_eq meta.retention session_policy ≡ false)
            × ((put_until b rfc3339 name value now meta o m).1.session ≡ m.session)
            × (b.get name (put_until b rfc3339 name value now meta o m).1.persistent
                ≡ ok (value, meta')))
  unfolding put_until fill
  put_until-stored now name value meta meta' m (err e) law v h = absurd (ground arith)
  put_until-stored now name value meta meta' m (ok t) law v h =
      let g = fill name value now t meta in
      elim (Bool-cases (bytes_eq meta.retention session_policy)) [
        | inl session ↦
            inl (session, rw session (put_session-stored name value g meta' m v (rw session at h)))
        | inr kept ↦
            let there = as_stored b.name name value g in
            let (e, p, q, stored) =
              put_persistent-stored there meta' (b.put name value there m.persistent) m
                (rw kept at h) in
            inr (
              kept,
              rw kept q,
              rw kept (
                  ap (b.get name) p
                  ∙ law.get-put name value there m.persistent refl refl refl stored
                  ∙ ap (λ x. ok (value, x)) e),
            )
      ]
