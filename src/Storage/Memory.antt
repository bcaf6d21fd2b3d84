-- ===== src/Storage/Memory.antt =====
-- internal/storage/memory.go: the values of a session, in process memory. Zeroing a value that is dropped
-- is not visible in the model.
use burndrop.Common.{
  Bytes, codes, Map, lookup, insert, delete, Bool, true, false, not, Option, none, some, List, [],
  ◌∷◌, length, ltb, if◌then◌else◌,
}
use burndrop.Storage.{
  not_found, invalid_name, too_large, Outcome, ok, err, Metadata, max_value_bytes, valid_name,
}

pub record MemoryEntry : Type 0 where
  pub value : Bytes
  pub meta : Metadata

abbrev pub Entries : Type 0
Entries = Map MemoryEntry

abbrev pub backend_name : Bytes
backend_name = codes "memory"

unfoldable pub put : Bytes → Bytes → Metadata → Entries → Outcome (Unit {0}) × Entries
put name value meta m =
    if not (valid_name name)
    then (err invalid_name, m)
    else if ltb max_value_bytes (length value)
    then (err too_large, m)
    else (
      ok tt,
      insert name
          (record {
            value = value;
            meta = record meta { name = name; backend = backend_name; size_bytes = length value };
          })
          m,
    )

unfoldable pub found : Option MemoryEntry → Outcome (Bytes × Metadata)
found none = err not_found
found (some e) = ok (e.value, e.meta)

unfoldable pub get : Bytes → Entries → Outcome (Bytes × Metadata)
unfolding found
get name m = if not (valid_name name) then err invalid_name else found (lookup name m)

unfoldable pub drop_found : Bytes → Option MemoryEntry → Entries → Outcome (Unit {0}) × Entries
drop_found name none m = (err not_found, m)
drop_found name (some e) m = (ok tt, delete name m)

unfoldable pub remove : Bytes → Entries → Outcome (Unit {0}) × Entries
unfolding drop_found
remove name m =
    if not (valid_name name) then (err invalid_name, m) else drop_found name (lookup name m) m

-- The order of two names, byte by byte.
unfoldable pub name_lt : Bytes → Bytes → Bool
name_lt [] [] = false
name_lt [] (d ∷ t) = true
name_lt (c ∷ s) [] = false
name_lt (c ∷ s) (d ∷ t) = if ltb c d then true else if ltb d c then false else name_lt s t

-- sort.Slice by name. No two entries have one name.
unfoldable pub place : Metadata → List Metadata → List Metadata
unfolding name_lt
place x [] = x ∷ []
place x (y ∷ ys) = if name_lt y.name x.name then y ∷ place x ys else x ∷ y ∷ ys

unfoldable pub sort_by_name : List Metadata → List Metadata
unfolding place
sort_by_name [] = []
sort_by_name (x ∷ xs) = place x (sort_by_name xs)

unfoldable pub metas : Entries → List Metadata
metas [] = []
metas ((k, e) ∷ m) = e.meta ∷ metas m

unfoldable pub list : Entries → List Metadata
unfolding metas sort_by_name
list m = sort_by_name (metas m)

-- `Close` drops every value.
unfoldable pub close : Entries → Entries
close m = []
