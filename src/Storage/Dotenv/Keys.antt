-- ===== src/Storage/Dotenv/Keys.antt =====
-- The environment keys of a .env file (internal/storage/dotenv.go): EnvKey joins names, and `Put` keeps
-- the keys of a file apart.
use burndrop.Common.{
  Bytes, bytes_eq, bytes_eq_iff, Map, lookup, insert, lookup-insert, false, some, [], ◌∷◌, inl, inr,
  Bool-cases, ◌≡◌, refl, sym, ap, ◌∙◌, arith,
}
use burndrop.Storage.{Outcome, ok, Metadata}
use burndrop.Storage.Dotenv.{
  DotenvRecord, DotenvFile, EntryJson, holds, Disk, load, saved_lines, join_lines,
}
use burndrop.Storage.Dotenv.Calls.{collides, new_record, put}
use burndrop.Storage.Dotenv.Quoting.{env_key}
use burndrop.Storage.Dotenv.Reads.{file_with, put-ok}

-- No two names of the file have one key.
abbrev pub IsDistinct : Map DotenvRecord → Type 0
IsDistinct m =
    (a b : Bytes) (r q : DotenvRecord)
    → lookup a m ≡ some r
    → lookup b m ≡ some q
    → env_key a ≡ env_key b
    → a ≡ b

collides-free :
    (name b : Bytes) (q : DotenvRecord) (m : Map DotenvRecord)
    → collides name m ≡ false
    → lookup b m ≡ some q
    → env_key b ≡ env_key name
    → b ≡ name
unfolding collides lookup
collides-free name b q [] h l e = absurd cc
collides-free name b q ((k, r) ∷ m) h l e = ground (
  arith,
  collides-free name b q m,
  bytes_eq_iff k b,
  bytes_eq_iff k name,
  bytes_eq_iff (env_key k) (env_key name),
)

lookup-other :
    (name j : Bytes) (r : DotenvRecord) (m : Map DotenvRecord)
    → bytes_eq name j ≡ false
    → lookup j (insert name r m) ≡ lookup j m
lookup-other name j r m h = lookup-insert name j r m ∙ rw h refl

insert-IsDistinct :
    (name : Bytes) (r : DotenvRecord) (m : Map DotenvRecord)
    → collides name m ≡ false
    → IsDistinct m
    → IsDistinct (insert name r m)
insert-IsDistinct name r m h distinct a b p q la lb e = elim (Bool-cases (bytes_eq name a)) [
  | inl ea ↦ elim (Bool-cases (bytes_eq name b)) [
    | inl eb ↦ sym ((bytes_eq_iff name a).0 ea) ∙ (bytes_eq_iff name b).0 eb
    | inr nb ↦
        let na = (bytes_eq_iff name a).0 ea in
        sym (
          collides-free name b q m h (sym (lookup-other name b r m nb) ∙ lb)
            (sym e ∙ ap env_key (sym na))
          ∙ na)
  ]
  | inr na ↦ elim (Bool-cases (bytes_eq name b)) [
    | inl eb ↦
        let nb = (bytes_eq_iff name b).0 eb in
        collides-free name a p m h (sym (lookup-other name a r m na) ∙ la) (e ∙ ap env_key (sym nb))
        ∙ nb
    | inr nb ↦
        distinct a b p q (sym (lookup-other name a r m na) ∙ la)
          (sym (lookup-other name b r m nb) ∙ lb) e
  ]
]

-- A put that succeeds keeps the keys of the file apart: when no two names of the file before have one
-- key, the text written is that of a file where no two names have one key.
pub put-IsDistinct :
    (json : EntryJson) (safe : Outcome (Unit {0})) (name value : Bytes) (meta : Metadata) (d : Disk)
    (f : DotenvFile)
    → load json d.file ≡ some f
    → IsDistinct f.entries
    → (put json safe name value meta d).0 ≡ ok tt
    → ((put json safe name value meta d).1.file
        ≡ holds (join_lines (saved_lines json (file_with name value meta f))))
      × IsDistinct (file_with name value meta f).entries
put-IsDistinct json safe name value meta d f h distinct k =
    let (v, written, free) = put-ok json safe name value meta d f h k in
    (written, insert-IsDistinct name (new_record name value meta) f.entries free distinct)
