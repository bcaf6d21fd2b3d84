-- ===== src/Storage/Dotenv/Tests.antt =====
-- A secret put in a .env file and read from it (internal/storage/dotenv.go).
use burndrop.Common.{delete}
use burndrop.Common.{insert}
use burndrop.Crypto.Text.{rune_at}
use burndrop.Storage.{valid_name}
use burndrop.Storage.Dotenv.{any_too_long}
use burndrop.Storage.Dotenv.{decoded}
use burndrop.Storage.Dotenv.{drop_cr}
use burndrop.Storage.Dotenv.{marked_entry}
use burndrop.Storage.Dotenv.{save}
use burndrop.Storage.Dotenv.{stored_text}
use burndrop.Storage.Dotenv.Quoting.{textual}
use burndrop.Storage.Dotenv.Quoting.Unquoted.{is_one_line}
use burndrop.Storage.Dotenv.SavedLoaded.Scanned.{has_lf}
use burndrop.Common.{
  Bytes, codes, bytes_eq, lookup, some, [], ◌∷◌, ◌++◌, false, true, ◌≡◌, arith, refl,
}
use burndrop.Crypto.Text.{valid_utf8}
use burndrop.Storage.{Metadata, ok}
use burndrop.Storage.Dotenv.{DotenvFile, EntryJson, Disk, holds, load, saved_lines, join_lines}
use burndrop.Storage.Dotenv.Calls.{new_record, put, get, remove}
use burndrop.Storage.Dotenv.Quoting.{quote}
use burndrop.Storage.Dotenv.SavedLoaded.{IsFile}
use burndrop.Storage.Dotenv.SavedLoaded.Whole.{load-save}
use burndrop.Storage.Dotenv.Reads.{file_with, get-put_saved}
use burndrop.Storage.Dotenv.Keys.{IsDistinct, put-IsDistinct}

abbrev given : Metadata
given = record {
  name = [];
  backend = [];
  retention = codes "until-revoked";
  created_at = 5;
  expires_at = 0;
  purpose = codes "p";
  source = [];
  sendable = false;
  fingerprint = [];
  size_bytes = 0;
  kind = [];
}

-- A stand-in for encoding/json that keeps the name alone.
abbrev name_json : EntryJson
name_json = record {
  print = λ e. e.name;
  parse = λ s. some (record {
    name = s;
    meta = record given { name = s; backend = codes "dotenv"; size_bytes = 3 };
    encoding = [];
  });
}

abbrev old_text : Bytes
old_text = codes "PATH=/bin" ++ (10 ∷ [])

abbrev old_file : DotenvFile
old_file = record { entries = []; others = codes "PATH=/bin" ∷ [] }

abbrev disk : Disk
disk = record { file = holds old_text; writable = true }

-- The bytes `a`, a line break and `$`.
abbrev secret : Bytes
secret = b'a' ∷ 10 ∷ b'$' ∷ []

quote_runs : quote secret ≡ codes "\"a\\n\\$\""
unfolding quote rune_at
quote_runs = refl

put_runs :
    (put name_json (ok tt) (codes "k.1") secret given disk).1.file
    ≡ holds (
        old_text
        ++ (codes "# burndrop: k.1" ++ (10 ∷ []))
        ++ (codes "K_1=\"a\\n\\$\"" ++ (10 ∷ [])))
unfolding put valid_name load save insert bytes_eq textual valid_utf8
put_runs = refl

remove_runs :
    (remove name_json (codes "k.1") (put name_json (ok tt) (codes "k.1") secret given disk).1).1
    ≡ disk
unfolding put remove valid_name load save insert bytes_eq textual valid_utf8 lookup delete
remove_runs = refl

abbrev new_file : DotenvFile
new_file = file_with (codes "k.1") secret given old_file

old_IsFile : IsFile name_json old_file
unfolding has_lf drop_cr marked_entry
old_IsFile = ((((refl, refl), refl), tt), tt, tt)

new_IsFile : IsFile name_json new_file
unfolding has_lf drop_cr marked_entry insert lookup new_record valid_name textual valid_utf8
    is_one_line stored_text bytes_eq decoded
new_IsFile = ((((refl, refl), refl), tt), (refl, tt), ((refl, refl, refl, refl, refl, refl), tt))

load-save_example :
    (g : DotenvFile) × (load name_json (holds (join_lines (saved_lines name_json new_file)))
      ≡ some g)
    × (g.others ≡ new_file.others)
    × ((name : Bytes) → lookup name g.entries ≡ lookup name new_file.entries)
unfolding any_too_long saved_lines insert new_record bytes_eq textual valid_utf8
load-save_example = load-save name_json new_file new_IsFile refl

get-put_saved_example :
    (get name_json (codes "k.1") (put name_json (ok tt) (codes "k.1") secret given disk).1
      ≡ ok (secret, (new_record (codes "k.1") secret given).entry.meta))
    × ((other : Bytes)
        → bytes_eq (codes "k.1") other ≡ false
        → get name_json other (put name_json (ok tt) (codes "k.1") secret given disk).1
          ≡ get name_json other disk)
unfolding load new_record textual valid_utf8 is_one_line saved_lines insert bytes_eq put valid_name
    save
get-put_saved_example =
    get-put_saved name_json (ok tt) (codes "k.1") secret given disk old_file refl old_IsFile refl
      refl (omega arith, (omega arith, (omega arith, tt))) refl refl

put-IsDistinct_example :
    ((put name_json (ok tt) (codes "k.1") secret given disk).1.file
      ≡ holds (join_lines (saved_lines name_json (file_with (codes "k.1") secret given old_file))))
    × IsDistinct (file_with (codes "k.1") secret given old_file).entries
unfolding load lookup put valid_name save
put-IsDistinct_example =
    put-IsDistinct name_json (ok tt) (codes "k.1") secret given disk old_file refl
      (λ a b r q la lb e. absurd (ground arith)) refl
