-- ===== src/Crypto/Padding/Canonical.antt =====
-- What `Unpad` accepts is what `Pad` writes.
use native.Mathlib.Nat.{mod-eq_of_lt}
use burndrop.Common.{
  ℕ, zero, suc, ◌+◌, ◌-◌, ◌%◌, ◌≤◌, ◌<◌, Bytes, Bool-cases, some, [], ◌∷◌, ◌++◌, length,
  length-append, length-replicate, take, drop, replicate, ◌==◌, ◌≡◌, inl, inr, refl, sym, ap, ◌∙◌,
  subst, arith,
}
use burndrop.Crypto.Padding.{pad, byte_at, scan, unpad}
use burndrop.Crypto.Padding.RoundTrip.{lt_or_le, pad_unique}

drop-byte_at : (i : ℕ) (p : Bytes) → i < length p → drop i p ≡ byte_at p i ∷ drop (suc i) p
unfolding byte_at
drop-byte_at i [] h = absurd (omega (arith, h))
drop-byte_at zero (x ∷ p) h = refl
drop-byte_at (suc i) (x ∷ p) h = drop-byte_at i p (omega (arith, h))

take-drop : (i : ℕ) (p : Bytes) → take i p ++ drop i p ≡ p
take-drop zero p = refl
take-drop (suc i) [] = refl
take-drop (suc i) (x ∷ p) = ap (λ l. x ∷ l) (take-drop i p)

length-take : (i : ℕ) (p : Bytes) → i ≤ length p → length (take i p) ≡ i
length-take zero p h = refl
length-take (suc i) [] h = absurd (omega (arith, h))
length-take (suc i) (x ∷ p) h = ap suc (length-take i p (omega (arith, h)))

scan_steps : (p d : Bytes) (n i : ℕ) → scan p n i ≡ some d → 0 < n
unfolding scan
scan_steps p d zero i h = cc
scan_steps p d (suc n) i h = omega arith

-- The shape of a text on which the scan stops: the marker, and zeros after it.
abbrev Padded : Bytes → Bytes → ℕ → ℕ → Type 0
Padded p d n i = (m : ℕ) × (p ≡ d ++ 0x80 ∷ replicate m 0) × (length d ≤ i) × (i < length d + n)

scan-Padded :
    (p d : Bytes) (n i m : ℕ)
    → n ≤ suc i
    → i < length p
    → drop (suc i) p ≡ replicate m 0
    → scan p n i ≡ some d
    → Padded p d n i
unfolding scan
scan-Padded p d zero i m le lt z h = cc
scan-Padded p d (suc n) i m le lt z h =
    let here = drop-byte_at i p lt in
    elim (Bool-cases (byte_at p i == 0x80)) [
      | inl marker ↦
          let found : take i p ≡ d = ground arith in
          let byte : byte_at p i ≡ 0x80 = ground arith in
          let long = length-take i p (omega (arith, lt)) in
          let same = sym (ap length found) ∙ long in
          (m, cc (take-drop i p, here, found, byte, z), omega (arith, same), omega (arith, same))
      | inr other ↦
          let byte : byte_at p i ≡ 0 = ground arith in
          let rest : scan p n (i - 1) ≡ some d = ground arith in
          let steps = scan_steps p d n (i - 1) rest in
          let back : i ≡ suc (i - 1) = omega (arith, steps, le) in
          let zeros : drop (suc (i - 1)) p ≡ replicate (suc m) 0 = cc (here, byte, z, back) in
          let (m', shape, low, high) =
            scan-Padded p d n (i - 1) (suc m) (omega (arith, le, steps)) (omega (arith, lt)) zeros
              rest in
          (m', shape, omega (arith, low), omega (arith, high, back))
    ]

drop_all : (p : Bytes) → drop (length p) p ≡ []
drop_all [] = refl
drop_all (x ∷ p) = drop_all p

-- For blocks of at least one byte, a text whose padding is removed is the padding of the result.
pub pad-unpad : (p d : Bytes) (block : ℕ) → 0 < block → unpad p block ≡ some d → p ≡ pad d block
unfolding unpad pad
pad-unpad p d block h e =
    let some_bytes : 0 < length p = ground arith in
    let aligned : length p % block ≡ 0 = ground arith in
    let run : scan p block (length p - 1) ≡ some d = ground arith in
    let whole : block ≤ length p = elim (lt_or_le (length p) block) [
      | inl short ↦ absurd (omega (arith, sym (mod-eq_of_lt short) ∙ aligned, some_bytes))
      | inr long ↦ long
    ] in
    let last : suc (length p - 1) ≡ length p = omega (arith, some_bytes) in
    let end = subst (λ i. drop i p ≡ []) (sym last) (drop_all p) in
    let (m, shape, low, high) =
      scan-Padded p d block (length p - 1) 0 (omega (arith, whole, last))
        (omega (arith, some_bytes)) end run in
    let total : length p ≡ length d + suc m =
      ap length shape
      ∙ length-append d (0x80 ∷ replicate m 0)
      ∙ ap (λ k. length d + suc k) (length-replicate {A = ℕ} m 0) in
    let size =
      pad_unique (length d) (suc m) block (omega arith) (omega (arith, total, high))
        (ap (λ i. i % block) (sym total) ∙ aligned) in
    let tail : m ≡ block - length d % block - 1 = omega (arith, size) in
    shape ∙ ap (λ k. d ++ 0x80 ∷ replicate k 0) tail
