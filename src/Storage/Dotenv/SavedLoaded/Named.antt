-- ===== src/Storage/Dotenv/SavedLoaded/Named.antt =====
-- The entries of a .env file, sorted by name and put into a new map (internal/storage/dotenv.go).
use burndrop.Common.{
  Bytes, bytes_eq, bytes_eq_iff, Map, lookup, insert, lookup-insert, Keyed, none, some, [], ◌∷◌,
  if◌then◌else◌, ◌≡◌, refl, sym, ap, ◌∙◌, arith, inl, inr, Bool-cases,
}
use burndrop.Storage.Memory.{name_lt}
use burndrop.Storage.Dotenv.{DotenvRecord, place_named, sort_named}

abbrev pub AllNamed : (Bytes → DotenvRecord → Type 0) → Map DotenvRecord → Type 0
AllNamed P [] = Unit
AllNamed P ((n, r) ∷ m) = P n r × AllNamed P m

lookup-place_named :
    (j n : Bytes) (r : DotenvRecord) (m : Map DotenvRecord)
    → lookup n m ≡ none
    → lookup j (place_named n r m) ≡ (if bytes_eq n j then some r else lookup j m)
unfolding lookup place_named
lookup-place_named j n r [] h = refl
lookup-place_named j n r ((k, q) ∷ m) h =
    ground (arith, lookup-place_named j n r m, bytes_eq_iff n j, bytes_eq_iff k j, bytes_eq_iff k n)

place_named-Keyed :
    (n : Bytes) (r : DotenvRecord) (m : Map DotenvRecord)
    → lookup n m ≡ none
    → Keyed m
    → Keyed (place_named n r m)
unfolding place_named lookup
place_named-Keyed n r [] h k = (refl, tt)
place_named-Keyed n r ((i, q) ∷ m) h k =
    ground (
      arith,
      place_named-Keyed n r m,
      lookup-place_named i n r m,
      bytes_eq_iff n i,
      bytes_eq_iff i n,
    )

pub lookup-sort_named :
    (j : Bytes) (m : Map DotenvRecord) → Keyed m → lookup j (sort_named m) ≡ lookup j m
unfolding sort_named lookup
lookup-sort_named j [] h = refl
lookup-sort_named j ((n, r) ∷ m) h =
    lookup-place_named j n r (sort_named m) (lookup-sort_named n m h.1 ∙ h.0)
    ∙ rw (lookup-sort_named j m h.1) refl

pub sort_named-Keyed : (m : Map DotenvRecord) → Keyed m → Keyed (sort_named m)
unfolding sort_named
sort_named-Keyed [] h = tt
sort_named-Keyed ((n, r) ∷ m) h =
    place_named-Keyed n r (sort_named m) (lookup-sort_named n m h.1 ∙ h.0) (sort_named-Keyed m h.1)

AllNamed-place_named :
    (P : Bytes → DotenvRecord → Type 0) (n : Bytes) (r : DotenvRecord) (m : Map DotenvRecord)
    → P n r
    → AllNamed P m
    → AllNamed P (place_named n r m)
unfolding place_named
AllNamed-place_named P n r [] p h = (p, tt)
AllNamed-place_named P n r ((k, q) ∷ m) p h = elim (Bool-cases (name_lt k n)) [
  | inl e ↦ rw e (h.0, AllNamed-place_named P n r m p h.1)
  | inr e ↦ rw e (p, h)
]

pub AllNamed-sort_named :
    (P : Bytes → DotenvRecord → Type 0) (m : Map DotenvRecord)
    → AllNamed P m
    → AllNamed P (sort_named m)
unfolding sort_named
AllNamed-sort_named P [] h = tt
AllNamed-sort_named P ((n, r) ∷ m) h =
    AllNamed-place_named P n r (sort_named m) h.0 (AllNamed-sort_named P m h.1)

-- Every entry put into a map in turn.
unfoldable pub insert_all : Map DotenvRecord → Map DotenvRecord → Map DotenvRecord
insert_all [] acc = acc
insert_all ((n, r) ∷ m) acc = insert_all m (insert n r acc)

lookup-insert_others :
    (j : Bytes) (m acc : Map DotenvRecord)
    → lookup j m ≡ none
    → lookup j (insert_all m acc) ≡ lookup j acc
unfolding insert_all lookup
lookup-insert_others j [] acc h = refl
lookup-insert_others j ((n, r) ∷ m) acc h =
    lookup-insert_others j m (insert n r acc) (ground arith)
    ∙ ground (arith, lookup-insert n j r acc)

pub lookup-insert_all :
    (j : Bytes) (m acc : Map DotenvRecord)
    → Keyed m
    → lookup j acc ≡ none
    → lookup j (insert_all m acc) ≡ lookup j m
unfolding insert_all lookup
lookup-insert_all j [] acc h a = a
lookup-insert_all j ((n, r) ∷ m) acc h a = elim (Bool-cases (bytes_eq n j)) [
  | inl e ↦
      let same : n ≡ j = (bytes_eq_iff n j).0 e in
      rw e (
        lookup-insert_others j m (insert n r acc) (ap (λ k. lookup k m) (sym same) ∙ h.0)
        ∙ lookup-insert n j r acc
        ∙ rw e refl)
  | inr e ↦ rw e (lookup-insert_all j m (insert n r acc) h.1 (lookup-insert n j r acc ∙ rw e a))
]
