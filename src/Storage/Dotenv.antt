-- ===== src/Storage/Dotenv.antt =====
-- internal/storage/dotenv.go: secrets in a .env file. Each call reads the whole file and a change writes it
-- whole, by a rename, so a write that fails leaves the file as it was. The JSON text of an entry is a
-- parameter, and so is the answer of `safe`, which asks git and the file system about the location.
pub mod Calls
pub mod Quoting
pub mod SavedLoaded
pub mod Reads
pub mod Keys
mod Tests
use burndrop.Common.{
  ℕ, zero, suc, ◌+◌, ◌-◌, Bytes, codes, bytes_eq, Map, lookup, insert, delete, Bool, true, false,
  not, ◌&&◌, ◌||◌, Option, none, some, List, [], ◌∷◌, ◌++◌, length, take, drop, ltb, leb, ◌==◌,
  if◌then◌else◌,
}
use burndrop.Crypto.Base64.{◌>>=◌}
use burndrop.Crypto.Text.{has_prefix}
use burndrop.Storage.{
  StorageError, not_found, invalid_name, too_large, failed, Outcome, ok, err, Metadata,
  max_value_bytes, valid_name,
}
use burndrop.Storage.Memory.{name_lt, sort_by_name}
use burndrop.Storage.StdBase64
use burndrop.Storage.Dotenv.Quoting.{env_key, quote, unquote, textual}

pub record DotenvEntry : Type 0 where
  pub name : Bytes
  pub meta : Metadata
  pub encoding : Bytes

pub record DotenvRecord : Type 0 where
  pub entry : DotenvEntry
  pub value : Bytes

pub record DotenvFile : Type 0 where
  pub entries : Map DotenvRecord
  pub others : List Bytes

-- encoding/json on an entry.
pub record EntryJson : Type 0 where
  pub print : DotenvEntry → Bytes
  pub parse : Bytes → Option DotenvEntry

-- What is at the path, and whether it can be written.
pub data Contents : Type 0 where
  absent : Contents
  unreadable : Contents
  holds : Bytes → Contents

pub record Disk : Type 0 where
  pub file : Contents
  pub writable : Bool

abbrev pub dotenv_marker : Bytes
dotenv_marker = codes "# burndrop: "

abbrev pub base64_encoding : Bytes
base64_encoding = codes "base64"

abbrev pub backend_name : Bytes
backend_name = codes "dotenv"

-- bufio.Scanner on lines: one trailing CR is dropped, and a line that the buffer of
-- 4 * MaxValueBytes does not hold is an error.
unfoldable pub push_char : ℕ → List Bytes → List Bytes
push_char c [] = (c ∷ []) ∷ []
push_char c (l ∷ ls) = (c ∷ l) ∷ ls

unfoldable pub split_lines : Bytes → List Bytes
unfolding push_char
split_lines [] = []
split_lines (c ∷ s) = let rest = split_lines s in if c == 10 then [] ∷ rest else push_char c rest

unfoldable pub drop_cr : Bytes → Bytes
drop_cr [] = []
drop_cr (c ∷ []) = if c == 13 then [] else c ∷ []
drop_cr (c ∷ d ∷ s) = c ∷ drop_cr (d ∷ s)

unfoldable pub drop_crs : List Bytes → List Bytes
unfolding drop_cr
drop_crs [] = []
drop_crs (l ∷ ls) = drop_cr l ∷ drop_crs ls

unfoldable pub any_too_long : List Bytes → Bool
any_too_long [] = false
any_too_long (l ∷ ls) = leb 262144 (length l) || any_too_long ls

unfoldable pub checked_entry : Option DotenvEntry → Option DotenvEntry
checked_entry none = none
checked_entry (some e) = if valid_name e.name then some e else none

unfoldable pub marked_entry : EntryJson → Bytes → Option DotenvEntry
unfolding has_prefix checked_entry
marked_entry json line =
    if has_prefix dotenv_marker line
    then checked_entry (json.parse (drop (length dotenv_marker) line))
    else none

unfoldable pub key_prefix : Bytes → Bytes
unfolding env_key
key_prefix name = env_key name ++ codes "="

unfoldable pub decoded : Bytes → Bytes → Option Bytes
decoded encoding v = if bytes_eq encoding base64_encoding then StdBase64.decode v else some v

-- The value on the line behind the marker of `e`, when it is that entry's line.
unfoldable pub value_of : DotenvEntry → Bytes → Option Bytes
unfolding has_prefix key_prefix unquote decoded
value_of e line =
    if has_prefix (key_prefix e.name) line
    then unquote (drop (length (key_prefix e.name)) line) >>= decoded e.encoding
    else none

unfoldable pub add_line : Bytes → DotenvFile → DotenvFile
add_line line f = record f { others = f.others ++ (line ∷ []) }

-- A line that is no entry's line goes to the others, behind the marker that waited for its line.
unfoldable pub add_other : EntryJson → Option DotenvEntry → Bytes → DotenvFile → DotenvFile
unfolding add_line
add_other json none line f = add_line line f
add_other json (some e) line f = add_line line (add_line (dotenv_marker ++ json.print e) f)

unfoldable pub pending_value : Option DotenvEntry → Bytes → Option (DotenvEntry × Bytes)
unfolding value_of
pending_value none line = none
pending_value (some e) line = do v ← value_of e line; some (e, v)

unfoldable pub load_plain :
    EntryJson → Option (DotenvEntry × Bytes) → Option DotenvEntry → Bytes → DotenvFile → DotenvFile
unfolding add_other
load_plain json none pending line f = add_other json pending line f
load_plain json (some (e, v)) pending line f = record f {
  entries = insert e.name (record { entry = e; value = v }) f.entries;
}

-- One turn of the loop: the entry whose line comes next, and the file so far.
unfoldable pub load_line :
    EntryJson
    → Option DotenvEntry
    → Option DotenvEntry
    → Bytes
    → DotenvFile
    → Option DotenvEntry × DotenvFile
unfolding load_plain pending_value
load_line json (some e) pending line f = (some e, f)
load_line json none pending line f =
    (none, load_plain json (pending_value pending line) pending line f)

unfoldable pub load_lines : EntryJson → Option DotenvEntry × DotenvFile → List Bytes → DotenvFile
unfolding load_line marked_entry
load_lines json (pending, f) [] = f
load_lines json (pending, f) (line ∷ lines) =
    load_lines json (load_line json (marked_entry json line) pending line f) lines

abbrev pub empty_file : DotenvFile
empty_file = record { entries = []; others = [] }

unfoldable pub load_text : EntryJson → Bytes → Option DotenvFile
unfolding split_lines drop_crs any_too_long load_lines
load_text json text =
    if any_too_long (split_lines text)
    then none
    else some (load_lines json (none, empty_file) (drop_crs (split_lines text)))

unfoldable pub load : EntryJson → Contents → Option DotenvFile
unfolding load_text
load json absent = some empty_file
load json unreadable = none
load json (holds text) = load_text json text

-- sort.Strings on the names, which are distinct.
unfoldable pub place_named : Bytes → DotenvRecord → Map DotenvRecord → Map DotenvRecord
unfolding name_lt
place_named n r [] = (n, r) ∷ []
place_named n r ((k, q) ∷ m) =
    if name_lt k n then (k, q) ∷ place_named n r m else (n, r) ∷ (k, q) ∷ m

unfoldable pub sort_named : Map DotenvRecord → Map DotenvRecord
unfolding place_named
sort_named [] = []
sort_named ((n, r) ∷ m) = place_named n r (sort_named m)

unfoldable pub stored_text : DotenvRecord → Bytes
stored_text r =
    if bytes_eq r.entry.encoding base64_encoding then StdBase64.encode r.value else r.value

unfoldable pub entry_lines : EntryJson → Map DotenvRecord → List Bytes
unfolding key_prefix quote stored_text
entry_lines json [] = []
entry_lines json ((n, r) ∷ m) =
    (dotenv_marker ++ json.print r.entry)
    ∷ (key_prefix n ++ quote (stored_text r))
    ∷ entry_lines json m

unfoldable pub join_lines : List Bytes → Bytes
join_lines [] = []
join_lines (l ∷ ls) = l ++ (10 ∷ join_lines ls)

unfoldable pub saved_lines : EntryJson → DotenvFile → List Bytes
unfolding sort_named entry_lines
saved_lines json f = f.others ++ entry_lines json (sort_named f.entries)

unfoldable pub save : EntryJson → DotenvFile → Disk → Outcome (Unit {0}) × Disk
unfolding join_lines saved_lines
save json f d =
    if d.writable
    then (ok tt, record d { file = holds (join_lines (saved_lines json f)) })
    else (err failed, d)
