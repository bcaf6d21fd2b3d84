-- ===== src/Storage/Manager/Purge.antt =====
-- `PurgeExpired` and `List` of internal/storage/manager.go.
use burndrop.Common.{
  ℕ, ◌+◌, Bytes, not, ◌&&◌, Option, none, some, List, [], ◌∷◌, ◌++◌, if◌then◌else◌,
}
use burndrop.Storage.{Outcome, ok, err, Metadata, is_expired}
use burndrop.Storage.Memory.{Entries, sort_by_name}
use burndrop.Storage.Memory
use burndrop.Storage.Index.{Index}
use burndrop.Storage.Index
use burndrop.Storage.Manager.{Backend, Manager, succeeded, is_not_found, named}

module _ {S : Type 0} (b : Backend S) (rfc3339 : Bytes → Option ℕ) where
  -- The first loop of `PurgeExpired`.
  unfoldable pub purge_session : ℕ → List Metadata → Entries → ℕ → Entries × ℕ
  unfolding is_expired Memory.remove succeeded
  purge_session now [] session n = (session, n)
  purge_session now (s ∷ list) session n =
      let (r, rest) = Memory.remove s.name session in
      purge_session now list (if is_expired now s then rest else session)
        (if is_expired now s && succeeded r then n + 1 else n)

  unfoldable pub purge_entry : Bytes → Manager S → Outcome (Unit {0}) × Manager S
  unfolding Index.remove is_not_found succeeded
  purge_entry name m =
      let (r, s) = b.remove name m.persistent in
      let (q, index) = Index.remove name m.index in
      if not (succeeded r) && not (is_not_found r)
      then (r, record m { persistent = s })
      else (q, record m { persistent = s; index = index })

  -- The second loop; an error stops it with the count so far.
  unfoldable pub purge_next :
      (Manager S → ℕ → (Outcome ℕ × Manager S))
      → Outcome (Unit {0}) × Manager S
      → ℕ
      → Outcome ℕ × Manager S
  purge_next rest (ok _, m) n = rest m (n + 1)
  purge_next rest (err e, m) n = (err e, m)

  unfoldable pub purge_index : ℕ → List Metadata → Manager S → ℕ → Outcome ℕ × Manager S
  unfolding is_expired purge_entry purge_next
  purge_index now [] m n = (ok n, m)
  purge_index now (i ∷ list) m n =
      let rest = purge_index now list in
      if is_expired now i then purge_next rest (purge_entry i.name m) n else rest m n

  unfoldable pub purge_indexed : ℕ → Outcome (List Metadata) → Manager S → ℕ → Outcome ℕ × Manager S
  unfolding purge_index
  purge_indexed now (err e) m n = (err e, m)
  purge_indexed now (ok list) m n = purge_index now list m n

  unfoldable pub purge_expired : ℕ → Manager S → Outcome ℕ × Manager S
  unfolding purge_indexed purge_session Memory.list Index.list
  purge_expired now m =
      let (session, n) = purge_session now (Memory.list m.session) m.session 0 in
      purge_indexed now (Index.list m.index) (record m { session = session }) n

  -- The index entries that no session entry hides.
  unfoldable pub unseen : List Metadata → List Metadata → List Metadata
  unfolding named
  unseen session [] = []
  unseen session (i ∷ list) = elim (named b rfc3339 i.name session) [
    | none ↦ i ∷ unseen session list
    | some s ↦ unseen session list
  ]

  unfoldable pub merge : Outcome (List Metadata) → List Metadata → Outcome (List Metadata)
  unfolding unseen sort_by_name
  merge (err e) session = err e
  merge (ok indexed) session = ok (sort_by_name (session ++ unseen session indexed))

  unfoldable pub list_purged : Outcome ℕ × Manager S → Outcome (List Metadata) × Manager S
  unfolding merge Memory.list Index.list
  list_purged (err e, m) = (err e, m)
  list_purged (ok n, m) = (merge (Index.list m.index) (Memory.list m.session), m)

  unfoldable pub list : ℕ → Manager S → Outcome (List Metadata) × Manager S
  unfolding list_purged purge_expired
  list now m = list_purged (purge_expired now m)
