-- ===== src/Common/FiniteMap.antt =====
-- Go's maps with string keys, as association lists. `insert` overwrites in place, `delete` drops
-- every entry of a key, and `Keyed` says that no key stands twice.
use Prim.Native.Nat.{ℕ, ◌+◌, ◌≤◌}
use mathlib.Core.Path.{◌≡◌, refl}
use mathlib.Core.Option.{Option, none, some}
use mathlib.Core.List.{List, [], ◌∷◌}
use native.Mathlib.Omega.{arith}
use burndrop.Common.Tests.{if◌then◌else◌}
use burndrop.Common.ByteString.{Bytes, bytes_eq, bytes_eq_iff}

abbrev pub Map {ℓ} : Type ℓ → Type ℓ
Map V = List (Bytes × V)

module _ {ℓ} {V : Type ℓ} where
  unfoldable pub lookup : Bytes → Map V → Option V
  lookup k [] = none
  lookup k ((j, v) ∷ m) = if bytes_eq j k then some v else lookup k m

  unfoldable pub insert : Bytes → V → Map V → Map V
  insert k v [] = (k, v) ∷ []
  insert k v ((j, w) ∷ m) = if bytes_eq j k then (j, v) ∷ m else (j, w) ∷ insert k v m

  unfoldable pub delete : Bytes → Map V → Map V
  delete k [] = []
  delete k ((j, v) ∷ m) = let rest = delete k m in if bytes_eq j k then rest else (j, v) ∷ rest

  pub lookup-insert :
      (k j : Bytes) (v : V) (m : Map V)
      → lookup j (insert k v m) ≡ (if bytes_eq k j then some v else lookup j m)
  unfolding lookup insert
  lookup-insert k j v [] = refl
  lookup-insert k j v ((i, w) ∷ m) =
      ground (arith, bytes_eq_iff k j, bytes_eq_iff i k, bytes_eq_iff i j, lookup-insert k j v m)

  pub lookup-delete :
      (k j : Bytes) (m : Map V)
      → lookup j (delete k m) ≡ (if bytes_eq k j then none else lookup j m)
  unfolding lookup delete
  lookup-delete k j [] = ground arith
  lookup-delete k j ((i, w) ∷ m) =
      ground (arith, bytes_eq_iff k j, bytes_eq_iff i k, bytes_eq_iff i j, lookup-delete k j m)

  abbrev pub Keyed : Map V → Type ℓ
  Keyed [] = Unit
  Keyed ((k, v) ∷ m) = (lookup k m ≡ none) × Keyed m

  pub Keyed-insert : (k : Bytes) (v : V) (m : Map V) → Keyed m → Keyed (insert k v m)
  unfolding insert lookup
  Keyed-insert k v [] h = (refl, tt)
  Keyed-insert k v ((j, w) ∷ m) h =
      ground
        (arith, Keyed-insert k v m h.1, lookup-insert k j v m, bytes_eq_iff j k, bytes_eq_iff k j)

  pub Keyed-delete : (k : Bytes) (m : Map V) → Keyed m → Keyed (delete k m)
  unfolding delete
  Keyed-delete k [] h = tt
  Keyed-delete k ((j, w) ∷ m) h = ground (arith, Keyed-delete k m h.1, lookup-delete k j m)

  -- The sum of a measure over all values.
  unfoldable pub total : (V → ℕ) → Map V → ℕ
  total f [] = 0
  total f ((k, v) ∷ m) = f v + total f m

  abbrev pub weight : (V → ℕ) → Option V → ℕ
  weight f none = 0
  weight f (some v) = f v

  pub total-insert :
      (f : V → ℕ) (k : Bytes) (v : V) (m : Map V)
      → total f (insert k v m) + weight f (lookup k m) ≡ total f m + f v
  unfolding total insert lookup
  total-insert f k v [] = omega arith
  total-insert f k v ((j, w) ∷ m) = ground (arith, total-insert f k v m)

  delete-none : (k : Bytes) (m : Map V) → lookup k m ≡ none → delete k m ≡ m
  unfolding delete lookup
  delete-none k [] h = refl
  delete-none k ((j, w) ∷ m) h = ground (arith, delete-none k m)

  pub total-delete :
      (f : V → ℕ) (k : Bytes) (m : Map V)
      → Keyed m
      → total f (delete k m) + weight f (lookup k m) ≡ total f m
  unfolding total delete lookup
  total-delete f k [] h = omega arith
  total-delete f k ((j, w) ∷ m) h =
      ground (arith, total-delete f k m h.1, delete-none k m, bytes_eq_iff j k)

  pub weight-le-total : (f : V → ℕ) (k : Bytes) (m : Map V) → weight f (lookup k m) ≤ total f m
  unfolding total lookup
  weight-le-total f k [] = omega arith
  weight-le-total f k ((j, w) ∷ m) = ground (arith, weight-le-total f k m)
