-- ===== src/Storage/Index.antt =====
-- internal/storage/index.go: the file of names and metadata. Each method reads the whole file and writes it
-- whole, by a rename, so a write that fails leaves the file as it was.
use burndrop.Common.{
  Bytes, Map, lookup, insert, delete, Bool, Option, none, some, List, [], ◌∷◌, if◌then◌else◌,
}
use burndrop.Storage.{not_found, failed, Outcome, ok, err, Metadata}
use burndrop.Storage.Memory.{sort_by_name}

-- What is at the path, and whether it can be written.
pub data Contents : Type 0 where
  absent : Contents
  unreadable : Contents
  holds : Map Metadata → Contents

pub record Index : Type 0 where
  pub file : Contents
  pub writable : Bool

unfoldable pub load : Contents → Option (Map Metadata)
load absent = some []
load unreadable = none
load (holds m) = some m

unfoldable pub save : Map Metadata → Index → Outcome (Unit {0}) × Index
save m i = if i.writable then (ok tt, record i { file = holds m }) else (err failed, i)

unfoldable pub put_loaded : Metadata → Option (Map Metadata) → Index → Outcome (Unit {0}) × Index
unfolding save
put_loaded meta none i = (err failed, i)
put_loaded meta (some m) i = save (insert meta.name meta m) i

unfoldable pub put : Metadata → Index → Outcome (Unit {0}) × Index
unfolding put_loaded load
put meta i = put_loaded meta (load i.file) i

unfoldable pub entry : Option Metadata → Outcome Metadata
entry none = err not_found
entry (some m) = ok m

unfoldable pub get_loaded : Bytes → Option (Map Metadata) → Outcome Metadata
unfolding entry
get_loaded name none = err failed
get_loaded name (some m) = entry (lookup name m)

unfoldable pub get : Bytes → Index → Outcome Metadata
unfolding get_loaded load
get name i = get_loaded name (load i.file)

unfoldable pub delete_known :
    Bytes → Option Metadata → Map Metadata → Index → Outcome (Unit {0}) × Index
unfolding save
delete_known name none m i = (ok tt, i)
delete_known name (some _) m i = save (delete name m) i

unfoldable pub delete_loaded : Bytes → Option (Map Metadata) → Index → Outcome (Unit {0}) × Index
unfolding delete_known
delete_loaded name none i = (err failed, i)
delete_loaded name (some m) i = delete_known name (lookup name m) m i

unfoldable pub remove : Bytes → Index → Outcome (Unit {0}) × Index
unfolding delete_loaded load
remove name i = delete_loaded name (load i.file) i

unfoldable pub values : Map Metadata → List Metadata
values [] = []
values ((k, v) ∷ m) = v ∷ values m

unfoldable pub list_loaded : Option (Map Metadata) → Outcome (List Metadata)
unfolding values sort_by_name
list_loaded none = err failed
list_loaded (some m) = ok (sort_by_name (values m))

unfoldable pub list : Index → Outcome (List Metadata)
unfolding list_loaded load
list i = list_loaded (load i.file)
