-- ===== src/Storage/Dotenv/Reads.antt =====
-- What a .env file (internal/storage/dotenv.go) answers after a secret was put in it.
use burndrop.Common.{
  Bytes, bytes_eq, bytes_eq_refl, bytes_eq_iff, Map, lookup, insert, lookup-insert, Keyed-insert,
  true, false, not, some, [], ◌∷◌, inl, inr, Bool-cases, if◌then◌else◌, ◌≡◌, refl, sym, ap, ◌∙◌,
  arith,
}
use burndrop.Crypto.Base64.RoundTrip.{AreBytes}
use burndrop.Crypto.Text.{valid_utf8}
use burndrop.Storage.{invalid_name, Outcome, ok, err, Metadata, valid_name}
use burndrop.Storage.StdBase64.Padded.{decode-encode}
use burndrop.Storage.StdBase64.Ascii.{valid_utf8-encode}
use burndrop.Storage.Dotenv.{
  DotenvRecord, DotenvFile, EntryJson, holds, Disk, any_too_long, load, saved_lines, join_lines,
  save, decoded, stored_text,
}
use burndrop.Storage.Dotenv.Calls.{
  collides, new_record, put_loaded, put_safe, put, found, get_loaded, get,
}
use burndrop.Storage.Dotenv.Quoting.{textual}
use burndrop.Storage.Dotenv.Quoting.Unquoted.{is_one_line}
use burndrop.Storage.Dotenv.SavedLoaded.{IsRecord, IsFile}
use burndrop.Storage.Dotenv.SavedLoaded.Whole.{load-save}
use burndrop.Storage.Dotenv.SavedLoaded.Named.{AllNamed}

-- The file after `put`.
abbrev pub file_with : Bytes → Bytes → Metadata → DotenvFile → DotenvFile
file_with name value meta f = record f {
  entries = insert name (new_record name value meta) f.entries;
}

put_loaded-ok :
    (json : EntryJson) (name value : Bytes) (meta : Metadata) (f : DotenvFile) (d : Disk)
    → (put_loaded json name value meta (some f) d).0 ≡ ok tt
    → ((put_loaded json name value meta (some f) d).1.file
        ≡ holds (join_lines (saved_lines json (file_with name value meta f))))
      × (collides name f.entries ≡ false)
unfolding put_loaded save
put_loaded-ok json name value meta f d h = ground arith

put_safe-ok :
    (json : EntryJson) (safe : Outcome (Unit {0})) (name value : Bytes) (meta : Metadata) (d : Disk)
    (f : DotenvFile)
    → load json d.file ≡ some f
    → (put_safe json safe name value meta d).0 ≡ ok tt
    → ((put_safe json safe name value meta d).1.file
        ≡ holds (join_lines (saved_lines json (file_with name value meta f))))
      × (collides name f.entries ≡ false)
unfolding put_safe
put_safe-ok json (err e) name value meta d f h = λ k. absurd (ground arith)
put_safe-ok json (ok u) name value meta d f h = rw h (put_loaded-ok json name value meta f d)

-- A put that succeeds has a valid name whose key is free and wrote the file.
pub put-ok :
    (json : EntryJson) (safe : Outcome (Unit {0})) (name value : Bytes) (meta : Metadata) (d : Disk)
    (f : DotenvFile)
    → load json d.file ≡ some f
    → (put json safe name value meta d).0 ≡ ok tt
    → (valid_name name ≡ true)
      × ((put json safe name value meta d).1.file
          ≡ holds (join_lines (saved_lines json (file_with name value meta f))))
      × (collides name f.entries ≡ false)
unfolding put
put-ok json safe name value meta d f h k =
    ground (arith, put_safe-ok json safe name value meta d f h)

textual-valid : (v : Bytes) → textual v ≡ true → valid_utf8 v ≡ true
unfolding textual
textual-valid v h = ground arith

new_record-stored :
    (name value : Bytes) (meta : Metadata)
    → AreBytes value
    → (valid_utf8 (stored_text (new_record name value meta)) ≡ true)
      × (decoded
            (new_record name value meta).entry.encoding
            (stored_text (new_record name value meta))
          ≡ some value)
unfolding stored_text new_record decoded bytes_eq
new_record-stored name value meta h = elim (Bool-cases (textual value)) [
  | inl e ↦ rw e (textual-valid value e, refl)
  | inr e ↦ rw e (valid_utf8-encode value, decode-encode value h)
]

AllNamed-insert :
    (P : Bytes → DotenvRecord → Type 0) (n : Bytes) (r : DotenvRecord) (m : Map DotenvRecord)
    → P n r
    → AllNamed P m
    → AllNamed P (insert n r m)
unfolding insert
AllNamed-insert P n r [] p h = (p, tt)
AllNamed-insert P n r ((k, q) ∷ m) p h = elim (Bool-cases (bytes_eq k n)) [
  | inl e ↦ rw e (rw ((bytes_eq_iff k n).0 e) p, h.1)
  | inr e ↦ rw e (h.0, AllNamed-insert P n r m p h.1)
]

new_record-name :
    (name value : Bytes) (meta : Metadata) → (new_record name value meta).entry.name ≡ name
unfolding new_record
new_record-name name value meta = refl

new_record-value :
    (name value : Bytes) (meta : Metadata) → (new_record name value meta).value ≡ value
unfolding new_record
new_record-value name value meta = refl

new_record-IsRecord :
    (json : EntryJson) (name value : Bytes) (meta : Metadata)
    → valid_name name ≡ true
    → json.parse (json.print (new_record name value meta).entry)
      ≡ some (new_record name value meta).entry
    → is_one_line (json.print (new_record name value meta).entry) ≡ true
    → AreBytes value
    → IsRecord json name (new_record name value meta)
new_record-IsRecord json name value meta v p o h =
    let (utf8, back) = new_record-stored name value meta h in
    (
      new_record-name name value meta,
      v,
      p,
      o,
      utf8,
      back ∙ ap some (sym (new_record-value name value meta)),
    )

file_with-IsFile :
    (json : EntryJson) (name value : Bytes) (meta : Metadata) (f : DotenvFile)
    → IsRecord json name (new_record name value meta)
    → IsFile json f
    → IsFile json (file_with name value meta f)
file_with-IsFile json name value meta f r h = (
  h.0,
  Keyed-insert name (new_record name value meta) f.entries h.1,
  AllNamed-insert (IsRecord json) name (new_record name value meta) f.entries r h.2,
)

get-found :
    (json : EntryJson) (name : Bytes) (d : Disk) (f : DotenvFile)
    → load json d.file ≡ some f
    → get json name d
      ≡ (if not (valid_name name) then err invalid_name else found (lookup name f.entries))
unfolding get get_loaded
get-found json name d f h = rw h refl

-- After a put that succeeds in a file whose other lines are no markers and whose entries can be written
-- and read back, the put name reads as the value given and every other name reads as before. The JSON
-- text of the new entry is one line and is read back, the value consists of bytes, and no line of the
-- new file is too long for the scanner.
pub get-put_saved :
    (json : EntryJson) (safe : Outcome (Unit {0})) (name value : Bytes) (meta : Metadata) (d : Disk)
    (f : DotenvFile)
    → load json d.file ≡ some f
    → IsFile json f
    → json.parse (json.print (new_record name value meta).entry)
      ≡ some (new_record name value meta).entry
    → is_one_line (json.print (new_record name value meta).entry) ≡ true
    → AreBytes value
    → any_too_long (saved_lines json (file_with name value meta f)) ≡ false
    → (put json safe name value meta d).0 ≡ ok tt
    → (get json name (put json safe name value meta d).1
        ≡ ok (value, (new_record name value meta).entry.meta))
      × ((other : Bytes)
          → bytes_eq name other ≡ false
          → get json other (put json safe name value meta d).1 ≡ get json other d)
unfolding found
get-put_saved json safe name value meta d f h file p o b long k =
    let (v, written, free) = put-ok json safe name value meta d f h k in
    let r = new_record name value meta in
    let (g, loaded, others, same) =
      load-save json (file_with name value meta f)
        (file_with-IsFile json name value meta f (new_record-IsRecord json name value meta v p o b)
          file)
        long in
    let now = (put json safe name value meta d).1 in
    let read : load json now.file ≡ some g = ap (load json) written ∙ loaded in
    (
      get-found json name now g read
          ∙ rw (v, same name, lookup-insert name name r f.entries, bytes_eq_refl name)
              (ap (λ w. ok (w, r.entry.meta)) (new_record-value name value meta)),
      λ other ne.
          get-found json other now g read
          ∙ rw (same other, lookup-insert name other r f.entries, ne)
              (sym (get-found json other d f h)),
    )
