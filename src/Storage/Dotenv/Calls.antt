-- ===== src/Storage/Dotenv/Calls.antt =====
-- `Put`, `Get`, `Delete` and `List` of internal/storage/dotenv.go.
use burndrop.Storage.Dotenv.{
  base64_encoding, load, save, Disk, backend_name, DotenvRecord, DotenvFile, EntryJson,
}
use burndrop.Common.{
  Bytes, bytes_eq, Map, lookup, insert, delete, Bool, false, not, ◌&&◌, ◌||◌, Option, none, some,
  List, [], ◌∷◌, length, ltb, if◌then◌else◌,
}
use burndrop.Storage.{
  not_found, invalid_name, too_large, failed, Outcome, ok, err, Metadata, max_value_bytes,
  valid_name,
}
use burndrop.Storage.Memory.{sort_by_name}
use burndrop.Storage.Dotenv.Quoting.{env_key, textual}

-- Whether another name of the file has the key of `name`.
unfoldable pub collides : Bytes → Map DotenvRecord → Bool
unfolding env_key
collides name [] = false
collides name ((other, r) ∷ m) =
    (not (bytes_eq other name) && bytes_eq (env_key other) (env_key name)) || collides name m

unfoldable pub new_record : Bytes → Bytes → Metadata → DotenvRecord
new_record name value meta = record {
  entry = record {
    name = name;
    meta = record meta { name = name; backend = backend_name; size_bytes = length value };
    encoding = if not (textual value) then base64_encoding else [];
  };
  value = value;
}

unfoldable pub put_loaded :
    EntryJson → Bytes → Bytes → Metadata → Option DotenvFile → Disk → Outcome (Unit {0}) × Disk
unfolding collides new_record
put_loaded json name value meta none d = (err failed, d)
put_loaded json name value meta (some f) d =
    if collides name f.entries
    then (err invalid_name, d)
    else save json (record f { entries = insert name (new_record name value meta) f.entries }) d

unfoldable pub put_safe :
    EntryJson → Outcome (Unit {0}) → Bytes → Bytes → Metadata → Disk → Outcome (Unit {0}) × Disk
unfolding put_loaded
put_safe json (err e) name value meta d = (err e, d)
put_safe json (ok u) name value meta d = put_loaded json name value meta (load json d.file) d

unfoldable pub put :
    EntryJson → Outcome (Unit {0}) → Bytes → Bytes → Metadata → Disk → Outcome (Unit {0}) × Disk
unfolding put_safe
put json safe name value meta d =
    if not (valid_name name)
    then (err invalid_name, d)
    else if ltb max_value_bytes (length value)
    then (err too_large, d)
    else put_safe json safe name value meta d

unfoldable pub found : Option DotenvRecord → Outcome (Bytes × Metadata)
found none = err not_found
found (some r) = ok (r.value, r.entry.meta)

unfoldable pub get_loaded : Bytes → Option DotenvFile → Outcome (Bytes × Metadata)
unfolding found
get_loaded name none = err failed
get_loaded name (some f) = found (lookup name f.entries)

unfoldable pub get : EntryJson → Bytes → Disk → Outcome (Bytes × Metadata)
unfolding get_loaded
get json name d =
    if not (valid_name name) then err invalid_name else get_loaded name (load json d.file)

unfoldable pub remove_found :
    EntryJson → Bytes → Option DotenvRecord → DotenvFile → Disk → Outcome (Unit {0}) × Disk
remove_found json name none f d = (err not_found, d)
remove_found json name (some r) f d = save json (record f { entries = delete name f.entries }) d

unfoldable pub remove_loaded :
    EntryJson → Bytes → Option DotenvFile → Disk → Outcome (Unit {0}) × Disk
unfolding remove_found
remove_loaded json name none d = (err failed, d)
remove_loaded json name (some f) d = remove_found json name (lookup name f.entries) f d

unfoldable pub remove : EntryJson → Bytes → Disk → Outcome (Unit {0}) × Disk
unfolding remove_loaded
remove json name d =
    if not (valid_name name)
    then (err invalid_name, d)
    else remove_loaded json name (load json d.file) d

unfoldable pub metas : Map DotenvRecord → List Metadata
metas [] = []
metas ((k, r) ∷ m) = r.entry.meta ∷ metas m

unfoldable pub list_loaded : Option DotenvFile → Outcome (List Metadata)
unfolding metas sort_by_name
list_loaded none = err failed
list_loaded (some f) = ok (sort_by_name (metas f.entries))

unfoldable pub list : EntryJson → Disk → Outcome (List Metadata)
unfolding list_loaded
list json d = list_loaded (load json d.file)
