-- ===== src/Agent/Redact/Replaced.antt =====
-- What strings.ReplaceAll leaves of a text (internal/agent/redact.go).
use burndrop.Common.{
  ℕ, zero, suc, ◌-◌, Bytes, true, false, [], ◌∷◌, ◌++◌, length, ◌≡◌, ◌≢◌, refl, ap, ◌∙◌, inl, inr,
  Bool-cases, arith,
}
use burndrop.Crypto.Text.{has_prefix}
use burndrop.Agent.Redact.{contains, replace_after}

-- Neither `[` nor `]` is in the text.
abbrev pub IsPlain : Bytes → Type 0
IsPlain [] = Unit
IsPlain (c ∷ t) = (c ≢ b'[') × (c ≢ b']') × IsPlain t

-- A text that is plain and not empty.
abbrev pub IsHideable : Bytes → Type 0
IsHideable [] = ⊥
IsHideable (c ∷ t) = IsPlain (c ∷ t)

-- A prefix of a text followed by `]` is a prefix of the text.
has_prefix-inner :
    (g x t : Bytes) → IsPlain g → has_prefix g (x ++ (b']' ∷ t)) ≡ true → has_prefix g x ≡ true
unfolding has_prefix
has_prefix-inner [] x t p h = refl
has_prefix-inner (c ∷ g) [] t p h = ground arith
has_prefix-inner (c ∷ g) (d ∷ x) t p h = ground (arith, has_prefix-inner g x t p.2)

has_prefix-open : (g t : Bytes) → IsHideable g → has_prefix g (b'[' ∷ t) ≡ false
unfolding has_prefix
has_prefix-open [] t p = absurd p
has_prefix-open (c ∷ g) t p = ground arith

contains-close : (g t : Bytes) → IsHideable g → contains g t ≡ false → contains g (b']' ∷ t) ≡ false
unfolding contains has_prefix
contains-close [] t p h = absurd p
contains-close (c ∷ g) t p h = ground arith

not_prefix-inner :
    (g x t : Bytes) → IsPlain g → has_prefix g x ≡ false → has_prefix g (x ++ (b']' ∷ t)) ≡ false
not_prefix-inner g x t p h = ground (arith, has_prefix-inner g x t p)

contains-inner :
    (g x t : Bytes)
    → IsHideable g
    → IsPlain g
    → contains g x ≡ false
    → contains g t ≡ false
    → contains g (x ++ (b']' ∷ t)) ≡ false
unfolding contains
contains-inner g [] t q p h k = contains-close g t q k
contains-inner g (c ∷ x) t q p h k =
    ground (arith, not_prefix-inner g (c ∷ x) t p, contains-inner g x t q p)

-- A text that stands neither in the inside of a bracketed text nor behind it does not stand in both
-- together.
contains-bracketed :
    (g x t : Bytes)
    → IsHideable g
    → IsPlain g
    → contains g x ≡ false
    → contains g t ≡ false
    → contains g (b'[' ∷ (x ++ (b']' ∷ t))) ≡ false
unfolding contains
contains-bracketed g x t q p h k =
    ground (arith, has_prefix-open g (x ++ (b']' ∷ t)) q, contains-inner g x t q p h k)

append_assoc : (x y z : Bytes) → (x ++ y) ++ z ≡ x ++ (y ++ z)
append_assoc [] y z = refl
append_assoc (c ∷ x) y z = ap (λ l. c ∷ l) (append_assoc x y z)

abbrev pub bracketed : Bytes → Bytes
bracketed x = b'[' ∷ (x ++ (b']' ∷ []))

IsHideable-IsPlain : (g : Bytes) → IsHideable g → IsPlain g
IsHideable-IsPlain [] q = absurd q
IsHideable-IsPlain (c ∷ g) q = q

pub contains-empty : (g : Bytes) → IsHideable g → contains g [] ≡ false
unfolding contains has_prefix
contains-empty [] q = absurd q
contains-empty (c ∷ g) q = refl

contains-bracketed_before :
    (g x t : Bytes)
    → IsHideable g
    → contains g x ≡ false
    → contains g t ≡ false
    → contains g (bracketed x ++ t) ≡ false
contains-bracketed_before g x t q h k =
    ap (λ l. contains g (b'[' ∷ l)) (append_assoc x (b']' ∷ []) t)
    ∙ contains-bracketed g x t q (IsHideable-IsPlain g q) h k

module _ (f x : Bytes) where
  -- What is a prefix after the replacement was one before.
  has_prefix-replaced :
      (g s : Bytes)
      → IsPlain g
      → has_prefix g (replace_after 0 f (bracketed x) s) ≡ true
      → has_prefix g s ≡ true
  unfolding has_prefix replace_after
  has_prefix-replaced [] s p h = refl
  has_prefix-replaced (c ∷ g) [] p h = h
  has_prefix-replaced (c ∷ g) (d ∷ s) p h = ground (arith, has_prefix-replaced g s p.2)

  contains-kept :
      (g : Bytes) (c : ℕ) (s : Bytes)
      → IsPlain g
      → has_prefix f (c ∷ s) ≡ false
      → has_prefix g (c ∷ s) ≡ false
      → contains g (replace_after 0 f (bracketed x) s) ≡ false
      → contains g (replace_after 0 f (bracketed x) (c ∷ s)) ≡ false
  unfolding contains replace_after
  contains-kept g c s p e n h = ground (arith, has_prefix-replaced g (c ∷ s) p)

  -- A text that is not in a text is not in it after a replacement, unless it is in the inside of the
  -- bracketed text that is put there.
  pub contains-replaced :
      (g : Bytes) (k : ℕ) (s : Bytes)
      → IsHideable g
      → contains g x ≡ false
      → contains g s ≡ false
      → contains g (replace_after k f (bracketed x) s) ≡ false
  unfolding contains replace_after
  contains-replaced g zero [] q i h = h
  contains-replaced g (suc k) [] q i h = h
  contains-replaced g (suc k) (c ∷ s) q i h = contains-replaced g k s q i (ground arith)
  contains-replaced g zero (c ∷ s) q i h = elim (Bool-cases (has_prefix f (c ∷ s))) [
    | inl e ↦ rw e (
        contains-bracketed_before g x (replace_after (length f - 1) f (bracketed x) s) q i
          (contains-replaced g (length f - 1) s q i (ground arith)))
    | inr e ↦
        contains-kept g c s (IsHideable-IsPlain g q) e (ground arith)
          (contains-replaced g 0 s q i (ground arith))
  ]

  -- A text that is replaced is gone, unless it is in the inside of the bracketed text.
  pub contains-itself :
      (k : ℕ) (s : Bytes)
      → IsHideable f
      → contains f x ≡ false
      → contains f (replace_after k f (bracketed x) s) ≡ false
  unfolding replace_after
  contains-itself zero [] q i = contains-empty f q
  contains-itself (suc k) [] q i = contains-empty f q
  contains-itself (suc k) (c ∷ s) q i = contains-itself k s q i
  contains-itself zero (c ∷ s) q i = elim (Bool-cases (has_prefix f (c ∷ s))) [
    | inl e ↦ rw e (
        contains-bracketed_before f x (replace_after (length f - 1) f (bracketed x) s) q i
          (contains-itself (length f - 1) s q i))
    | inr e ↦ contains-kept f c s (IsHideable-IsPlain f q) e e (contains-itself 0 s q i)
  ]
