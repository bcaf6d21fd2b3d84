-- ===== src/Storage/Manager/Tests.antt =====
-- Secrets put and read through the manager (internal/storage/manager.go), on the memory backend.
use burndrop.Common.{
  ℕ, Bytes, codes, Option, none, [], ◌∷◌, true, false, inr, if◌then◌else◌, ◌≡◌, refl, bytes_eq,
  lookup,
}
use burndrop.Storage.{ok, err, not_found, Metadata, valid_name, is_expired}
use burndrop.Storage.Memory.{Entries}
use burndrop.Storage.Memory
use burndrop.Storage.Index.{holds}
use burndrop.Storage.Manager.{Manager, put, get, remove}
use burndrop.Storage.Manager.InMemory.{memory_backend, memory_backend-IsBackend}
use burndrop.Storage.Manager.Laws.{get-unexpired}
use burndrop.Storage.Manager.Reads.{get-put, get-remove}

-- A stand-in for time.Parse.
abbrev no_time : Bytes → Option ℕ
no_time s = none

abbrev empty : Manager Entries
empty = record {
  persistent = [];
  session = [];
  index = record { file = holds []; writable = true };
}

abbrev given : Metadata
given = record {
  name = [];
  backend = [];
  retention = codes "until-revoked";
  created_at = 0;
  expires_at = 0;
  purpose = codes "p";
  source = [];
  sendable = false;
  fingerprint = [];
  size_bytes = 0;
  kind = [];
}

abbrev kept : Metadata
kept = record given {
  name = codes "key";
  backend = codes "memory";
  created_at = 2000000000;
  source = codes "drop";
  size_bytes = 2;
}

put_runs :
    (put memory_backend no_time 2500000000 (codes "key") (7 ∷ 8 ∷ []) given empty).0 ≡ ok kept
unfolding put valid_name bytes_eq
put_runs = refl

get-put_example :
    (get memory_backend no_time 9
      (codes "key")
      (put memory_backend no_time 2500000000 (codes "key") (7 ∷ 8 ∷ []) given empty).1).0
    ≡ (if is_expired 9 kept then err not_found else ok (7 ∷ 8 ∷ [], kept))
unfolding lookup
get-put_example =
    get-put memory_backend no_time 2500000000 9 (codes "key") (7 ∷ 8 ∷ []) given kept empty
      memory_backend-IsBackend put_runs (inr refl)

-- The same name in the session.
abbrev hiding : Manager Entries
hiding = record empty { session = (codes "key", record { value = 1 ∷ []; meta = kept }) ∷ [] }

put_hidden_runs :
    (put memory_backend no_time 2500000000 (codes "key") (7 ∷ 8 ∷ []) given hiding).0 ≡ ok kept
unfolding put valid_name bytes_eq
put_hidden_runs = refl

fresh : is_expired 9 kept ≡ false
unfolding is_expired
fresh = refl

valid : valid_name (codes "key") ≡ true
unfolding valid_name
valid = refl

hiding_runs : (get memory_backend no_time 9 (codes "key") hiding).0 ≡ ok (1 ∷ [], kept)
unfolding get valid_name lookup bytes_eq
hiding_runs = refl

get-unexpired_example : is_expired 9 kept ≡ false
get-unexpired_example =
    get-unexpired memory_backend no_time 9 (codes "key") (1 ∷ []) kept hiding hiding_runs

get-remove_example :
    (get memory_backend no_time 9
      (codes "key")
      (remove memory_backend no_time (codes "key") hiding).1).0
    ≡ err not_found
unfolding Memory.remove valid_name lookup
get-remove_example =
    get-remove memory_backend no_time 9 (codes "key") hiding memory_backend-IsBackend valid
      (inr refl)
