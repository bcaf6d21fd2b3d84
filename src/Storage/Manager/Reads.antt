-- ===== src/Storage/Manager/Reads.antt =====
-- Reads after writes, through the retention policies of internal/storage/manager.go.
use burndrop.Common.{
  ℕ, Bytes, lookup, lookup-delete, bytes_eq, bytes_eq_refl, true, false, Option, none, some, length,
  ltb, if◌then◌else◌, ◌≡◌, ◌⊎◌, inl, inr, refl, sym, ap, ◌∙◌, arith, Bool-cases,
}
use burndrop.Storage.{
  not_found, ok, err, Metadata, max_value_bytes, valid_name, is_expired, parse_retention,
}
use burndrop.Storage.Memory.{Entries, MemoryEntry, drop_found, found}
use burndrop.Storage.Memory
use burndrop.Storage.Manager.{
  Backend, Manager, get_session, get_persistent, session_policy, to_second, put_until, put, get,
  remove,
}
use burndrop.Storage.Manager.Laws.{
  IsBackend, put_until-stored, get-session_entry, get-persistent_entry,
}

gone-drop_found :
    (name : Bytes) (m : Entries) (o : Option MemoryEntry)
    → lookup name m ≡ o
    → lookup name (drop_found name o m).1 ≡ none
unfolding drop_found
gone-drop_found name m none e = e
gone-drop_found name m (some x) e = ground (arith, lookup-delete name name m, bytes_eq_refl name)

gone-remove :
    (name : Bytes) (m : Entries)
    → valid_name name ≡ true
    → lookup name (Memory.remove name m).1 ≡ none
unfolding Memory.remove
gone-remove name m v = rw v (gone-drop_found name m (lookup name m) refl)

module _ {S : Type 0} (b : Backend S) (rfc3339 : Bytes → Option ℕ) where
  -- The part of `Put` after its checks.
  pub put-put_until :
      (now : ℕ) (name value : Bytes) (meta meta' : Metadata) (m : Manager S)
      → (put b rfc3339 now name value meta m).0 ≡ ok meta'
      → (valid_name name ≡ true)
        × (put b rfc3339 now name value meta m
            ≡ put_until b rfc3339 name value
                (to_second now)
                meta
                (parse_retention rfc3339 meta.retention (to_second now))
                m)
  unfolding put
  put-put_until now name value meta meta' m h = elim (Bool-cases (valid_name name)) [
    | inl v ↦ elim (Bool-cases (ltb max_value_bytes (length value))) [
      | inl large ↦ absurd (ground arith)
      | inr small ↦ (v, ground arith)
    ]
    | inr n ↦ absurd (ground arith)
  ]

  -- With a backend that keeps what is put: after a put that succeeded, of a session secret or of a name
  -- that no session secret has, a read at any later time returns the value with the metadata that the
  -- put returned, or `not_found` if the expiry has passed.
  pub get-put :
      (now later : ℕ) (name value : Bytes) (meta meta' : Metadata) (m : Manager S)
      → IsBackend b
      → (put b rfc3339 now name value meta m).0 ≡ ok meta'
      → (bytes_eq meta.retention session_policy ≡ true) ⊎ (lookup name m.session ≡ none)
      → (get b rfc3339 later name (put b rfc3339 now name value meta m).1).0
        ≡ (if is_expired later meta' then err not_found else ok (value, meta'))
  get-put now later name value meta meta' m law h free =
      let (v, same) = put-put_until now name value meta meta' m h in
      let m' = (put b rfc3339 now name value meta m).1 in
      let o = parse_retention rfc3339 meta.retention (to_second now) in
      let stored =
        put_until-stored b rfc3339 (to_second now) name value meta meta' m o law v
          (sym (ap (λ p. p.0) same) ∙ h) in
      elim stored [
        | inl (session, entry) ↦
            get-session_entry b rfc3339 later name value meta' m' v
              (ap (λ p. lookup name p.1.session) same ∙ entry)
        | inr (kept, alone, entry) ↦ elim free [
          | inl session ↦ absurd (ground arith)
          | inr none_there ↦
              get-persistent_entry b rfc3339 later name value meta' m' v
                (ap (λ p. lookup name p.1.session) same ∙ ap (lookup name) alone ∙ none_there)
                (ap (λ p. b.get name p.1.persistent) same ∙ entry)
        ]
      ]

  -- With a backend that keeps what is put: after a put that succeeded under another policy than that of
  -- the session, a session secret of the same name hides the value, and a read at a time at which the
  -- session secret has not expired returns the session's value.
  pub get-put_hidden :
      (now later : ℕ) (name value : Bytes) (meta meta' : Metadata) (m : Manager S) (e : MemoryEntry)
      → IsBackend b
      → (put b rfc3339 now name value meta m).0 ≡ ok meta'
      → bytes_eq meta.retention session_policy ≡ false
      → lookup name m.session ≡ some e
      → is_expired later e.meta ≡ false
      → (get b rfc3339 later name (put b rfc3339 now name value meta m).1).0 ≡ ok (e.value, e.meta)
  get-put_hidden now later name value meta meta' m e law h kept there fresh =
      let (v, same) = put-put_until now name value meta meta' m h in
      let m' = (put b rfc3339 now name value meta m).1 in
      let o = parse_retention rfc3339 meta.retention (to_second now) in
      let stored =
        put_until-stored b rfc3339 (to_second now) name value meta meta' m o law v
          (sym (ap (λ p. p.0) same) ∙ h) in
      elim stored [
        | inl (session, entry) ↦ absurd (ground arith)
        | inr (_, alone, entry) ↦
            get-session_entry b rfc3339 later name e.value e.meta m' v
              (ap (λ p. lookup name p.1.session) same ∙ ap (lookup name) alone ∙ there)
            ∙ rw fresh
      ]

  pub remove_parts :
      (name : Bytes) (m : Manager S)
      → valid_name name ≡ true
      → ((remove b rfc3339 name m).1.session ≡ (Memory.remove name m.session).1)
        × ((remove b rfc3339 name m).1.persistent ≡ (b.remove name m.persistent).1)
  unfolding remove
  remove_parts name m v = (rw v, rw v)

  get-absent :
      (later : ℕ) (name : Bytes) (m : Manager S)
      → valid_name name ≡ true
      → lookup name m.session ≡ none
      → b.get name m.persistent ≡ err not_found
      → (get b rfc3339 later name m).0 ≡ err not_found
  unfolding get get_session get_persistent Memory.get found
  get-absent later name m v h e = rw (v, h, e)

  -- With a backend that keeps its law: after a deletion of a valid name for which the backend succeeded
  -- or had nothing, no read finds the name.
  pub get-remove :
      (later : ℕ) (name : Bytes) (m : Manager S)
      → IsBackend b
      → valid_name name ≡ true
      → ((b.remove name m.persistent).0 ≡ ok tt) ⊎ ((b.remove name m.persistent).0 ≡ err not_found)
      → (get b rfc3339 later name (remove b rfc3339 name m).1).0 ≡ err not_found
  get-remove later name m law v h =
      let (session, persistent) = remove_parts name m v in
      get-absent later name (remove b rfc3339 name m).1 v
        (ap (lookup name) session ∙ gone-remove name m.session v)
        (ap (b.get name) persistent ∙ law.get-remove name m.persistent h)
