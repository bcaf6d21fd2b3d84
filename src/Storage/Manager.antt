-- ===== src/Storage/Manager.antt =====
-- internal/storage/manager.go: retention over one persistent backend, a session store and the index. The
-- backend is an interface; `now` is the reading of the clock.
pub mod Purge
pub mod Laws
pub mod Reads
pub mod Others
pub mod Expires
pub mod InMemory
mod Tests
use burndrop.Common.{
  ◌==◌, ℕ, ◌+◌, ◌*◌, ◌/◌, Bytes, codes, bytes_eq, Bool, true, false, not, ◌&&◌, ◌||◌, Option, none,
  some, List, [], ◌∷◌, ◌++◌, length, ltb, if◌then◌else◌,
}
use burndrop.Storage.{
  StorageError, not_found, invalid_name, too_large, failed, Outcome, ok, err, Metadata,
  max_value_bytes, valid_name, is_expired, parse_retention,
}
use burndrop.Storage.Memory.{Entries, backend_name, sort_by_name}
use burndrop.Storage.Memory
use burndrop.Storage.Index.{Index}
use burndrop.Storage.Index

-- `Backend` of backend.go, with the methods that the manager calls.
pub record Backend (S : Type 0) : Type 0 where
  pub name : Bytes
  pub put : Bytes → Bytes → Metadata → S → Outcome (Unit {0}) × S
  pub get : Bytes → S → Outcome (Bytes × Metadata)
  pub remove : Bytes → S → Outcome (Unit {0}) × S

pub record Manager (S : Type 0) : Type 0 where
  pub persistent : S
  pub session : Entries
  pub index : Index

abbrev pub session_policy : Bytes
session_policy = codes "session"

-- now().UTC().Truncate(time.Second)
abbrev pub to_second : ℕ → ℕ
to_second now = now / 1000000000 * 1000000000

unfoldable pub succeeded : {A : Type 0} → Outcome A → Bool
succeeded (ok a) = true
succeeded (err e) = false

unfoldable pub is_not_found : {A : Type 0} → Outcome A → Bool
is_not_found (err not_found) = true
is_not_found _ = false

-- The metadata that `Put` fills in, but for the backend's name.
unfoldable pub fill : Bytes → Bytes → ℕ → ℕ → Metadata → Metadata
fill name value now expires meta = record meta {
  name = name;
  created_at = now;
  expires_at = expires;
  size_bytes = length value;
  source = if length meta.source == 0 then codes "drop" else meta.source;
}

module _ {S : Type 0} (b : Backend S) (rfc3339 : Bytes → Option ℕ) where
  unfoldable pub put_session :
      Bytes
      → Bytes
      → Metadata
      → Outcome (Unit {0}) × Entries
      → Manager S
      → Outcome Metadata × Manager S
  put_session name value meta (ok _, session) m = (ok meta, record m { session = session })
  put_session name value meta (err e, session) m = (err e, record m { session = session })

  -- The index is written after the backend; the value stays stored if that fails.
  unfoldable pub put_index :
      Metadata → Outcome (Unit {0}) × Index → Manager S → Outcome Metadata × Manager S
  put_index meta (ok _, index) m = (ok meta, record m { index = index })
  put_index meta (err e, index) m = (err failed, record m { index = index })

  unfoldable pub put_persistent :
      Metadata → Outcome (Unit {0}) × S → Manager S → Outcome Metadata × Manager S
  unfolding put_index Index.put
  put_persistent meta (err e, s) m = (err e, record m { persistent = s })
  put_persistent meta (ok _, s) m =
      put_index meta (Index.put meta m.index) (record m { persistent = s })

  unfoldable pub put_until :
      Bytes → Bytes → ℕ → Metadata → Outcome ℕ → Manager S → Outcome Metadata × Manager S
  unfolding fill put_session put_persistent Memory.put
  put_until name value now meta (err e) m = (err e, m)
  put_until name value now meta (ok expires) m =
      let filled = fill name value now expires meta in
      let here = record filled { backend = backend_name } in
      let there = record filled { backend = b.name } in
      if bytes_eq meta.retention session_policy
      then put_session name value here (Memory.put name value here m.session) m
      else put_persistent there (b.put name value there m.persistent) m

  unfoldable pub put : ℕ → Bytes → Bytes → Metadata → Manager S → Outcome Metadata × Manager S
  unfolding put_until parse_retention
  put now name value meta m =
      if not (valid_name name)
      then (err invalid_name, m)
      else if ltb max_value_bytes (length value)
      then (err too_large, m)
      else put_until name value (to_second now) meta
          (parse_retention rfc3339 meta.retention (to_second now)) m

  unfoldable pub forget : Bytes → Manager S → Manager S
  unfolding Index.remove
  forget name m = record m { index = (Index.remove name m.index).1 }

  unfoldable pub get_persistent :
      ℕ → Bytes → Outcome (Bytes × Metadata) → Manager S → Outcome (Bytes × Metadata) × Manager S
  unfolding forget is_expired
  get_persistent now name (err not_found) m = (err not_found, forget name m)
  get_persistent now name (err e) m = (err e, m)
  get_persistent now name (ok (value, meta)) m =
      if is_expired now meta
      then (err not_found, forget name (record m { persistent = (b.remove name m.persistent).1 }))
      else (ok (value, meta), m)

  unfoldable pub get_session :
      ℕ → Bytes → Outcome (Bytes × Metadata) → Manager S → Outcome (Bytes × Metadata) × Manager S
  unfolding get_persistent is_expired Memory.remove
  get_session now name (err e) m = get_persistent now name (b.get name m.persistent) m
  get_session now name (ok (value, meta)) m =
      if is_expired now meta
      then (err not_found, record m { session = (Memory.remove name m.session).1 })
      else (ok (value, meta), m)

  unfoldable pub get : ℕ → Bytes → Manager S → Outcome (Bytes × Metadata) × Manager S
  unfolding get_session Memory.get
  get now name m =
      if not (valid_name name)
      then (err invalid_name, m)
      else get_session now name (Memory.get name m.session) m

  -- The first session entry of the name, if there is one.
  unfoldable pub named : Bytes → List Metadata → Option Metadata
  named name [] = none
  named name (s ∷ list) = if bytes_eq s.name name then some s else named name list

  unfoldable pub unexpired : ℕ → Outcome Metadata → Outcome Metadata
  unfolding is_expired
  unexpired now (err e) = err e
  unexpired now (ok meta) = if is_expired now meta then err not_found else ok meta

  unfoldable pub stat_named : ℕ → Bytes → Option Metadata → Manager S → Outcome Metadata
  unfolding unexpired Index.get
  stat_named now name none m = unexpired now (Index.get name m.index)
  stat_named now name (some s) m = unexpired now (ok s)

  unfoldable pub stat : ℕ → Bytes → Manager S → Outcome Metadata
  unfolding stat_named named Memory.list
  stat now name m =
      if not (valid_name name)
      then err invalid_name
      else stat_named now name (named name (Memory.list m.session)) m

  unfoldable pub deleted :
      Outcome (Unit {0}) → Outcome (Unit {0}) → Outcome (Unit {0}) → Outcome (Unit {0})
  unfolding succeeded
  deleted session persistent (err e) = err e
  deleted session persistent (ok _) =
      if succeeded session || succeeded persistent then ok tt else persistent

  unfoldable pub remove : Bytes → Manager S → Outcome (Unit {0}) × Manager S
  unfolding deleted Memory.remove Index.remove
  remove name m =
      let (session_result, session) = Memory.remove name m.session in
      let (persistent_result, persistent) = b.remove name m.persistent in
      let (index_result, index) = Index.remove name m.index in
      if not (valid_name name) then (err invalid_name, m) else (
        deleted session_result persistent_result index_result,
        record { persistent = persistent; session = session; index = index },
      )

unfoldable pub close : {S : Type 0} → Manager S → Manager S
close m = record m { session = Memory.close m.session }
