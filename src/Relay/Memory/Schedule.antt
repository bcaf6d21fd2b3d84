-- ===== src/Relay/Memory/Schedule.antt =====
-- The timers of internal/relay/memory.go against its slots: sorted, one removal for each slot, and
-- an expiry for each live one.
pub mod Kept
use burndrop.Common.{
  ℕ, ◌+◌, ◌≤◌, ◌<◌, Bytes, Map, lookup, insert, delete, lookup-insert, lookup-delete, bytes_eq,
  bytes_eq_iff, bytes_eq_refl, Bool-cases, inl, inr, ◌≡◌, refl, Bool, true, false, not, ◌&&◌, none,
  some, List, [], ◌∷◌, arith, ltb, if◌then◌else◌,
}
use burndrop.Relay.Slot.{Drop, is_terminal}
use burndrop.Relay.Memory.{ExpiryEntry, push}

abbrev pub All {ℓ κ} : {A : Type ℓ} → (A → Type κ) → List A → Type κ
All P [] = Unit
All P (x ∷ xs) = P x × All P xs

-- No timer is due before `a`.
abbrev pub From : ℕ → List ExpiryEntry → Type 0
From a es = All (λ e. a ≤ e.at) es

abbrev pub IsSorted : List ExpiryEntry → Type 0
IsSorted [] = Unit
IsSorted (e ∷ es) = From e.at es × IsSorted es

unfoldable pub is_for : Bytes → Bool → ExpiryEntry → Bool
is_for k r e = bytes_eq e.id k && (if r then e.remove else not e.remove)

-- The timers of one slot that remove it, or that expire it.
unfoldable pub count : Bytes → Bool → List ExpiryEntry → ℕ
unfolding is_for
count k r [] = 0
count k r (e ∷ es) = (if is_for k r e then 1 else 0) + count k r es

-- The slot of a timer is there, and the timer stands at its expiry or at the end of its grace.
abbrev pub Backed : Map Drop → ℕ → ExpiryEntry → Type 0
Backed drops grace e =
    (d : Drop) × (lookup e.id drops ≡ some d)
    × (e.at ≡ (if e.remove then d.expires_at + grace else d.expires_at))

pub record Scheduled (grace : ℕ) (drops : Map Drop) (timers : List ExpiryEntry) : Type 0 where
  pub sorted : IsSorted timers
  pub backed : All (Backed drops grace) timers
  pub removals : (k : Bytes) (d : Drop) → lookup k drops ≡ some d → count k true timers ≡ 1
  pub expiries :
      (k : Bytes) (d : Drop)
      → lookup k drops ≡ some d
      → is_terminal d.state ≡ false
      → count k false timers ≡ 1

All-push :
    (P : ExpiryEntry → Type 0) (e : ExpiryEntry) (es : List ExpiryEntry)
    → P e
    → All P es
    → All P (push e es)
unfolding push
All-push P e [] p ps = (p, tt)
All-push P e (x ∷ xs) p ps = elim (Bool-cases (ltb e.at x.at)) [
  | inl before ↦ rw before (p, ps)
  | inr after ↦ rw after (ps.0, All-push P e xs p ps.1)
]

From-mono : (a b : ℕ) (es : List ExpiryEntry) → a ≤ b → From b es → From a es
From-mono a b [] h f = tt
From-mono a b (e ∷ es) h f = (omega arith, From-mono a b es h f.1)

push-IsSorted : (e : ExpiryEntry) (es : List ExpiryEntry) → IsSorted es → IsSorted (push e es)
unfolding push
push-IsSorted e [] s = (tt, tt)
push-IsSorted e (x ∷ xs) s =
    ground (arith, push-IsSorted e xs s.1, From-mono e.at x.at xs, All-push (λ y. x.at ≤ y.at) e xs)

count-push :
    (k : Bytes) (r : Bool) (e : ExpiryEntry) (es : List ExpiryEntry)
    → count k r (push e es) ≡ count k r (e ∷ es)
unfolding push count
count-push k r e [] = refl
count-push k r e (x ∷ xs) = ground (arith, count-push k r e xs)

module _ (k : Bytes) (drops : Map Drop) (grace : ℕ) where
  -- A write keeps a timer backed if it keeps the slot's expiry, or makes a new slot.
  Backed-insert_one :
      (d : Drop)
      → ((e : Drop) → lookup k drops ≡ some e → e.expires_at ≡ d.expires_at)
      → (e : ExpiryEntry) → Backed drops grace e
      → Backed (insert k d drops) grace e
  Backed-insert_one d same e b = elim (Bool-cases (bytes_eq k e.id)) [
    | inl hit ↦ (d, rw (lookup-insert, hit), ground (arith, bytes_eq_iff k e.id, same b.0))
    | inr miss ↦ (b.0, rw (lookup-insert, miss) b.1, b.2)
  ]

  pub Backed-insert :
      (d : Drop)
      → ((e : Drop) → lookup k drops ≡ some e → e.expires_at ≡ d.expires_at)
      → (es : List ExpiryEntry) → All (Backed drops grace) es
      → All (Backed (insert k d drops) grace) es
  Backed-insert d same [] b = tt
  Backed-insert d same (e ∷ es) b = (Backed-insert_one d same e b.0, Backed-insert d same es b.1)

  Backed-delete :
      (es : List ExpiryEntry)
      → count k true es ≡ 0
      → count k false es ≡ 0
      → All (Backed drops grace) es
      → All (Backed (delete k drops) grace) es
  unfolding count
  Backed-delete [] r x b = tt
  Backed-delete (e ∷ es) r x b = (
    (b.0.0, rw lookup-delete (ground (arith, bytes_eq_iff e.id k, bytes_eq_iff k e.id)), b.0.2),
    Backed-delete es (omega arith) (omega arith) b.1,
  )

-- Timers that stand later than a slot's expiry do not expire it.
count-expiry_zero :
    (k : Bytes) (d : Drop) (drops : Map Drop) (grace a : ℕ) (es : List ExpiryEntry)
    → lookup k drops ≡ some d
    → d.expires_at < a
    → From a es
    → All (Backed drops grace) es
    → count k false es ≡ 0
unfolding count
count-expiry_zero k d drops grace a [] here lt f b = refl
count-expiry_zero k d drops grace a (e ∷ es) here lt f b =
    ground (arith, bytes_eq_iff e.id k, count-expiry_zero k d drops grace a es here lt f.1 b.1)
