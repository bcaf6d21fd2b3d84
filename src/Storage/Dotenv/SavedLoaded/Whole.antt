-- ===== src/Storage/Dotenv/SavedLoaded/Whole.antt =====
-- The whole text of a .env file (internal/storage/dotenv.go), saved and loaded.
use burndrop.Common.{
  ℕ, Bytes, Map, lookup, true, false, none, some, List, [], ◌∷◌, ◌++◌, ◌≡◌, refl, ap, ◌∙◌, arith,
}
use burndrop.Storage.Dotenv.{
  DotenvRecord, DotenvFile, EntryJson, dotenv_marker, key_prefix, load_lines, empty_file,
  any_too_long, load_text, load, holds, sort_named, stored_text, entry_lines, join_lines,
  saved_lines,
}
use burndrop.Storage.Dotenv.Quoting.{to_upper, env_char, env_key, quote}
use burndrop.Storage.Dotenv.Quoting.Unquoted.{quote-is_one_line, is_one_line, is_one_line-append}
use burndrop.Storage.Dotenv.SavedLoaded.Scanned.{
  AreLines, split_lines-join_lines, drop_crs-lines, is_one_line-IsLine,
}
use burndrop.Storage.Dotenv.SavedLoaded.Named.{
  AllNamed, insert_all, lookup-insert_all, lookup-sort_named, sort_named-Keyed, AllNamed-sort_named,
}
use burndrop.Storage.Dotenv.SavedLoaded.{
  IsRecord, ArePlain, IsFile, file_of, load_lines-plain, load_lines-entries,
}

env_char-is_one_line :
    (c : ℕ) (s : Bytes) → is_one_line s ≡ true → is_one_line (env_char c ∷ s) ≡ true
unfolding env_char is_one_line
env_char-is_one_line c s h = ground arith

key_prefix-is_one_line : (n : Bytes) → is_one_line (key_prefix n) ≡ true
unfolding key_prefix env_key is_one_line
key_prefix-is_one_line [] = refl
key_prefix-is_one_line (c ∷ n) =
    env_char-is_one_line (to_upper c) (key_prefix n) (key_prefix-is_one_line n)

marker-is_one_line : is_one_line dotenv_marker ≡ true
unfolding is_one_line
marker-is_one_line = refl

lookup-nil : (name : Bytes) → lookup {V = DotenvRecord} name [] ≡ none
unfolding lookup
lookup-nil name = refl

entry_lines-AreLines :
    (json : EntryJson) (m : Map DotenvRecord)
    → AllNamed (IsRecord json) m
    → AreLines (entry_lines json m)
unfolding entry_lines
entry_lines-AreLines json [] h = tt
entry_lines-AreLines json ((n, r) ∷ m) h = (
  is_one_line-IsLine (dotenv_marker ++ json.print r.entry)
      (is_one_line-append dotenv_marker (json.print r.entry) (marker-is_one_line) h.0.3),
  (
    is_one_line-IsLine (key_prefix n ++ quote (stored_text r)) (
        is_one_line-append (key_prefix n) (quote (stored_text r)) (key_prefix-is_one_line n)
          (quote-is_one_line (stored_text r))),
    entry_lines-AreLines json m h.1,
  ),
)

AreLines-append :
    (json : EntryJson) (ls rest : List Bytes)
    → ArePlain json ls
    → AreLines rest
    → AreLines (ls ++ rest)
AreLines-append json [] rest h k = k
AreLines-append json (l ∷ ls) rest h k = (h.0.0, AreLines-append json ls rest h.1 k)

load_text-lines :
    (json : EntryJson) (ls : List Bytes)
    → AreLines ls
    → any_too_long ls ≡ false
    → load_text json (join_lines ls) ≡ some (load_lines json (none, empty_file) ls)
unfolding load_text
load_text-lines json ls h k = rw (split_lines-join_lines ls h, drop_crs-lines ls h, k) refl

-- A file with plain lines beside its entries, each entry writable and each name once, is read back from
-- its saved text with the same other lines and with the same record for every name, if no line of the
-- text is too long for the scanner.
pub load-save :
    (json : EntryJson) (f : DotenvFile)
    → IsFile json f
    → any_too_long (saved_lines json f) ≡ false
    → (g : DotenvFile) × (load json (holds (join_lines (saved_lines json f))) ≡ some g)
      × (g.others ≡ f.others)
      × ((name : Bytes) → lookup name g.entries ≡ lookup name f.entries)
unfolding load saved_lines
load-save json f h k =
    let (plain, keyed, records) = h in
    let sorted = sort_named f.entries in
    let writable = AllNamed-sort_named (IsRecord json) f.entries records in
    (
      file_of (insert_all sorted []) f.others,
      load_text-lines json (f.others ++ entry_lines json sorted)
            (AreLines-append json f.others (entry_lines json sorted) plain
              (entry_lines-AreLines json sorted writable))
            k
          ∙ ap some (
              load_lines-plain json [] [] f.others (entry_lines json sorted) plain
              ∙ load_lines-entries json sorted [] f.others writable),
      refl,
      λ name.
          lookup-insert_all name sorted [] (sort_named-Keyed f.entries keyed) (lookup-nil name)
          ∙ lookup-sort_named name f.entries keyed,
    )
