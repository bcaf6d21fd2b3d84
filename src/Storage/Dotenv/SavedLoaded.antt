-- ===== src/Storage/Dotenv/SavedLoaded.antt =====
-- A .env file that `save` of internal/storage/dotenv.go writes is read back by `load`.
pub mod Whole
pub mod Scanned
pub mod Named
use burndrop.Common.{
  ℕ, zero, suc, ◌+◌, ◌-◌, Bytes, codes, Map, lookup, insert, Keyed, Bool, true, false, not, Option,
  none, some, List, [], ◌∷◌, ◌++◌, length, drop, if◌then◌else◌, ◌≡◌, ◌≢◌, refl, sym, ap, ◌∙◌, arith,
}
use burndrop.Crypto.Base64.{◌>>=◌}
use burndrop.Crypto.Text.{has_prefix, valid_utf8}
use burndrop.Storage.{valid_name}
use burndrop.Storage.Dotenv.{
  DotenvEntry, DotenvRecord, DotenvFile, EntryJson, dotenv_marker, checked_entry, marked_entry,
  key_prefix, decoded, value_of, add_line, add_other, pending_value, load_plain, load_line,
  load_lines, empty_file, drop_crs, drop_cr, split_lines, any_too_long, load_text, load, holds,
  sort_named, stored_text, entry_lines, join_lines, saved_lines,
}
use burndrop.Storage.Dotenv.Quoting.{to_upper, env_char, env_key, quote, unquote}
use burndrop.Storage.Dotenv.Quoting.Unquoted.{
  unquote-quote, quote-is_one_line, is_one_line, is_one_line-append,
}
use Scanned.{AreLines, IsLine, split_lines-join_lines, drop_crs-lines, is_one_line-IsLine}
use Named.{
  AllNamed, insert_all, lookup-insert_all, lookup-sort_named, sort_named-Keyed, AllNamed-sort_named,
}

-- The record of name `n` can be written and read back: its name is the key and is valid, its JSON text is
-- one line and is read back, and the text of its value is valid UTF-8 and stands for the value.
abbrev pub IsRecord : EntryJson → Bytes → DotenvRecord → Type 0
IsRecord json n r =
    (r.entry.name ≡ n)
    × (valid_name n ≡ true)
    × (json.parse (json.print r.entry) ≡ some r.entry)
    × (is_one_line (json.print r.entry) ≡ true)
    × (valid_utf8 (stored_text r) ≡ true)
    × (decoded r.entry.encoding (stored_text r) ≡ some r.value)

-- Lines that are kept as they are and are no marker of an entry.
abbrev pub ArePlain : EntryJson → List Bytes → Type 0
ArePlain json [] = Unit
ArePlain json (l ∷ ls) = (IsLine l × (marked_entry json l ≡ none)) × ArePlain json ls

abbrev pub IsFile : EntryJson → DotenvFile → Type 0
IsFile json f = ArePlain json f.others × Keyed f.entries × AllNamed (IsRecord json) f.entries

has_prefix-append : (p s : Bytes) → has_prefix p (p ++ s) ≡ true
unfolding has_prefix
has_prefix-append [] s = refl
has_prefix-append (c ∷ p) s = ground (arith, has_prefix-append p s)

drop-append : (p s : Bytes) → drop (length p) (p ++ s) ≡ s
drop-append [] s = refl
drop-append (c ∷ p) s = drop-append p s

marked_entry-prefix :
    (json : EntryJson) (l : Bytes)
    → has_prefix dotenv_marker l ≡ true
    → marked_entry json l ≡ checked_entry (json.parse (drop (length dotenv_marker) l))
unfolding marked_entry
marked_entry-prefix json l h = rw h refl

marked_entry-no_prefix :
    (json : EntryJson) (l : Bytes) → has_prefix dotenv_marker l ≡ false → marked_entry json l ≡ none
unfolding marked_entry
marked_entry-no_prefix json l h = rw h refl

-- The marker of an entry is recognised.
marked_entry-marker :
    (json : EntryJson) (e : DotenvEntry)
    → json.parse (json.print e) ≡ some e
    → valid_name e.name ≡ true
    → marked_entry json (dotenv_marker ++ json.print e) ≡ some e
unfolding checked_entry
marked_entry-marker json e h v =
    marked_entry-prefix json (dotenv_marker ++ json.print e)
      (has_prefix-append dotenv_marker (json.print e))
    ∙ ap (λ s. checked_entry (json.parse s)) (drop-append dotenv_marker (json.print e))
    ∙ ap checked_entry h
    ∙ rw v refl

env_char-ne-hash : (c : ℕ) (s : Bytes) → has_prefix dotenv_marker (env_char c ∷ s) ≡ false
unfolding has_prefix env_char
env_char-ne-hash c s = ground arith

-- The line of a value is no marker.
marked_entry-key_prefix :
    (json : EntryJson) (n s : Bytes) → marked_entry json (key_prefix n ++ s) ≡ none
unfolding key_prefix env_key has_prefix
marked_entry-key_prefix json [] s = marked_entry-no_prefix json (b'=' ∷ s) refl
marked_entry-key_prefix json (c ∷ n) s =
    marked_entry-no_prefix json (key_prefix (c ∷ n) ++ s)
      (env_char-ne-hash (to_upper c) ((env_key n ++ codes "=") ++ s))

value_of-line :
    (e : DotenvEntry) (s v : Bytes)
    → valid_utf8 s ≡ true
    → decoded e.encoding s ≡ some v
    → value_of e (key_prefix e.name ++ quote s) ≡ some v
unfolding value_of
value_of-line e s v h k =
    let p = key_prefix e.name in
    rw (has_prefix-append p (quote s), drop-append p (quote s), unquote-quote s h) k

append_assoc : (xs ys zs : List Bytes) → (xs ++ ys) ++ zs ≡ xs ++ (ys ++ zs)
append_assoc [] ys zs = refl
append_assoc (x ∷ xs) ys zs = ap (λ l. x ∷ l) (append_assoc xs ys zs)

append_nil : (xs : List Bytes) → xs ++ [] ≡ xs
append_nil [] = refl
append_nil (x ∷ xs) = ap (λ l. x ∷ l) (append_nil xs)

abbrev file_of : Map DotenvRecord → List Bytes → DotenvFile
file_of m os = record { entries = m; others = os }

load_lines-plain :
    (json : EntryJson) (m : Map DotenvRecord) (os ls rest : List Bytes)
    → ArePlain json ls
    → load_lines json (none, file_of m os) (ls ++ rest)
      ≡ load_lines json (none, file_of m (os ++ ls)) rest
unfolding load_lines load_line pending_value load_plain add_other add_line
load_lines-plain json m os [] rest h = rw (append_nil os) refl
load_lines-plain json m os (l ∷ ls) rest h = rw (h.0.1) (
    load_lines-plain json m (os ++ (l ∷ [])) ls rest h.1
    ∙ ap (λ o. load_lines json (none, file_of m o) rest) (append_assoc os (l ∷ []) ls))

load_lines-entry :
    (json : EntryJson) (e : DotenvEntry) (v marker line : Bytes) (rest : List Bytes)
    (m : Map DotenvRecord) (os : List Bytes)
    → marked_entry json marker ≡ some e
    → marked_entry json line ≡ none
    → value_of e line ≡ some v
    → load_lines json (none, file_of m os) (marker ∷ line ∷ rest)
      ≡ load_lines json (none, file_of (insert e.name (record { entry = e; value = v }) m) os) rest
unfolding load_lines load_line pending_value load_plain
load_lines-entry json e v marker line rest m os h k l = rw (h, k, l) refl

load_lines-nil : (json : EntryJson) (f : DotenvFile) → load_lines json (none, f) [] ≡ f
unfolding load_lines
load_lines-nil json f = refl

load_lines-entries :
    (json : EntryJson) (m acc : Map DotenvRecord) (os : List Bytes)
    → AllNamed (IsRecord json) m
    → load_lines json (none, file_of acc os) (entry_lines json m) ≡ file_of (insert_all m acc) os
unfolding entry_lines insert_all
load_lines-entries json [] acc os h = load_lines-nil json (file_of acc os)
load_lines-entries json ((n, r) ∷ m) acc os h =
    let (name, valid, parsed, one, utf8, back) = h.0 in
    let text = stored_text r in
    load_lines-entry json r.entry r.value (dotenv_marker ++ json.print r.entry)
      (key_prefix n ++ quote text) (entry_lines json m) acc os
      (marked_entry-marker json r.entry parsed (ap valid_name name ∙ valid))
      (marked_entry-key_prefix json n (quote text))
      (ap (λ k. value_of r.entry (key_prefix k ++ quote text)) (sym name)
        ∙ value_of-line r.entry text r.value utf8 back)
    ∙ ap (λ k. load_lines json (none, file_of (insert k r acc) os) (entry_lines json m)) name
    ∙ load_lines-entries json m (insert n r acc) os h.1
