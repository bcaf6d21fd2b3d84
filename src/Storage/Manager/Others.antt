-- ===== src/Storage/Manager/Others.antt =====
-- What a deletion of internal/storage/manager.go leaves of the other names.
use burndrop.Common.{
  ℕ, Bytes, lookup, lookup-delete, bytes_eq, bytes_eq_iff, false, Option, none, some, ◌≡◌, ◌≢◌,
  refl, sym, ap, ◌∙◌, inl, inr, Bool-cases, arith,
}
use burndrop.Storage.{not_found, Outcome, ok, err, Metadata, valid_name}
use burndrop.Storage.Memory.{Entries, MemoryEntry, found, drop_found}
use burndrop.Storage.Memory
use burndrop.Storage.Manager.{Backend, Manager, get_session, get_persistent, get, remove}
use burndrop.Storage.Manager.Reads.{remove_parts}
use burndrop.Storage.Manager.InMemory.{memory_backend}

-- A backend whose deletion of a name leaves what it answers for every other one.
pub record KeepsOthers {S : Type 0} (b : Backend S) : Type 0 where
  pub get-remove_other :
      (name other : Bytes) (s : S) → name ≢ other → b.get name (b.remove other s).1 ≡ b.get name s

bytes_differ : (a b : Bytes) → b ≢ a → bytes_eq a b ≡ false
bytes_differ a b n = elim (Bool-cases (bytes_eq a b)) [
  | inl e ↦ absurd (n (sym ((bytes_eq_iff a b).0 e)))
  | inr e ↦ e
]

lookup-drop_found :
    (name other : Bytes) (m : Entries) (o : Option MemoryEntry)
    → name ≢ other
    → lookup name (drop_found other o m).1 ≡ lookup name m
unfolding drop_found
lookup-drop_found name other m none n = refl
lookup-drop_found name other m (some e) n =
    rw (lookup-delete other name m, bytes_differ other name n)

lookup-remove_other :
    (name other : Bytes) (m : Entries)
    → name ≢ other
    → lookup name (Memory.remove other m).1 ≡ lookup name m
unfolding Memory.remove
lookup-remove_other name other m n = elim (Bool-cases (valid_name other)) [
  | inl v ↦ rw v (lookup-drop_found name other m (lookup other m) n)
  | inr v ↦ rw v
]

get-remove_entry :
    (name other : Bytes) (m : Entries)
    → name ≢ other
    → Memory.get name (Memory.remove other m).1 ≡ Memory.get name m
unfolding Memory.get
get-remove_entry name other m n = rw (lookup-remove_other name other m n)

pub memory_backend-KeepsOthers : KeepsOthers memory_backend
memory_backend-KeepsOthers = record { get-remove_other = get-remove_entry }

module _ {S : Type 0} (b : Backend S) (rfc3339 : Bytes → Option ℕ) where
  get_persistent-answer :
      (now : ℕ) (name : Bytes) (o : Outcome (Bytes × Metadata)) (m m' : Manager S)
      → (get_persistent b rfc3339 now name o m).0 ≡ (get_persistent b rfc3339 now name o m').0
  unfolding get_persistent
  get_persistent-answer now name (err not_found) m m' = refl
  get_persistent-answer now name (err e) m m' = refl
  get_persistent-answer now name (ok (v, t)) m m' = ground arith

  get_session-answer :
      (now : ℕ) (name : Bytes) (o : Outcome (Bytes × Metadata)) (m m' : Manager S)
      → b.get name m.persistent ≡ b.get name m'.persistent
      → (get_session b rfc3339 now name o m).0 ≡ (get_session b rfc3339 now name o m').0
  unfolding get_session
  get_session-answer now name (err e) m m' h =
      rw h (get_persistent-answer now name (b.get name m'.persistent) m m')
  get_session-answer now name (ok (v, t)) m m' h = ground arith

  -- The answer of a read depends on what the two stores answer.
  get-answer :
      (now : ℕ) (name : Bytes) (m m' : Manager S)
      → lookup name m.session ≡ lookup name m'.session
      → b.get name m.persistent ≡ b.get name m'.persistent
      → (get b rfc3339 now name m).0 ≡ (get b rfc3339 now name m').0
  unfolding get
  get-answer now name m m' s p = elim (Bool-cases (valid_name name)) [
    | inl v ↦ rw v (rw s (get_session-answer now name (found (lookup name m'.session)) m m' p))
    | inr v ↦ rw v
  ]

  invalid_unchanged :
      (other : Bytes) (m : Manager S) → valid_name other ≡ false → (remove b rfc3339 other m).1 ≡ m
  unfolding remove
  invalid_unchanged other m v = rw v

  -- A read after the deletion of another name answers as before it.
  pub get-remove_other :
      (now : ℕ) (name other : Bytes) (m : Manager S)
      → KeepsOthers b
      → name ≢ other
      → (get b rfc3339 now name (remove b rfc3339 other m).1).0 ≡ (get b rfc3339 now name m).0
  get-remove_other now name other m law n = elim (Bool-cases (valid_name other)) [
    | inl v ↦
        let (session, persistent) = remove_parts b rfc3339 other m v in
        get-answer now name (remove b rfc3339 other m).1 m
          (ap (lookup name) session ∙ lookup-remove_other name other m.session n)
          (ap (b.get name) persistent ∙ law.get-remove_other name other m.persistent n)
    | inr v ↦ ap (λ x. (get b rfc3339 now name x).0) (invalid_unchanged other m v)
  ]
