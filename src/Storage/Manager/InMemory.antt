-- ===== src/Storage/Manager/InMemory.antt =====
-- The memory backend (internal/storage/memory.go) keeps the laws on which the manager relies.
use burndrop.Common.{
  Bytes, lookup, lookup-insert, lookup-delete, bytes_eq_refl, Option, none, some, length, ltb, ◌≡◌,
  ◌⊎◌, inl, inr, refl, Bool-cases, arith,
}
use burndrop.Storage.{not_found, ok, err, Metadata, max_value_bytes, valid_name}
use burndrop.Storage.Memory.{Entries, MemoryEntry, backend_name, found, drop_found}
use burndrop.Storage.Memory
use burndrop.Storage.Manager.{Backend}
use burndrop.Storage.Manager.Laws.{IsBackend}

abbrev pub memory_backend : Backend Entries
memory_backend = record {
  name = backend_name;
  put = Memory.put;
  get = Memory.get;
  remove = Memory.remove;
}

get-kept :
    (name value : Bytes) (meta : Metadata) (s : Entries)
    → meta.name ≡ name
    → meta.backend ≡ backend_name
    → meta.size_bytes ≡ length value
    → (Memory.put name value meta s).0 ≡ ok tt
    → Memory.get name (Memory.put name value meta s).1 ≡ ok (value, meta)
unfolding Memory.put Memory.get found
get-kept name value meta s n k z h =
    let stored : MemoryEntry = record {
      value = value;
      meta = record meta { name = name; backend = backend_name; size_bytes = length value };
    } in
    elim (Bool-cases (valid_name name)) [
      | inr bad ↦ absurd (ground arith)
      | inl v ↦ elim (Bool-cases (ltb max_value_bytes (length value))) [
        | inl large ↦ absurd (ground arith)
        | inr small ↦ ground (arith, lookup-insert name name stored s, bytes_eq_refl name)
      ]
    ]

found-drop_found :
    (name : Bytes) (s : Entries) (o : Option MemoryEntry)
    → lookup name s ≡ o
    → found (lookup name (drop_found name o s).1) ≡ err not_found
unfolding drop_found found
found-drop_found name s none e = rw e
found-drop_found name s (some x) e = ground (arith, lookup-delete name name s, bytes_eq_refl name)

get-dropped :
    (name : Bytes) (s : Entries)
    → ((Memory.remove name s).0 ≡ ok tt) ⊎ ((Memory.remove name s).0 ≡ err not_found)
    → Memory.get name (Memory.remove name s).1 ≡ err not_found
unfolding Memory.get Memory.remove
get-dropped name s h = elim (Bool-cases (valid_name name)) [
  | inr bad ↦ absurd (elim h [ inl a ↦ ground arith | inr a ↦ ground arith ])
  | inl v ↦ rw v (found-drop_found name s (lookup name s) refl)
]

-- The memory backend returns what was put, with the metadata that the manager gave it, and forgets what
-- was removed.
pub memory_backend-IsBackend : IsBackend memory_backend
memory_backend-IsBackend = record { get-put = get-kept; get-remove = get-dropped }
