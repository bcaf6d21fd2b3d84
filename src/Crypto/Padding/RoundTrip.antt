-- ===== src/Crypto/Padding/RoundTrip.antt =====
-- Removing the padding that was added.
use native.Mathlib.Nat.{mod-lt, mod_self, mod-add-mod, mod-eq_of_lt, mod-eq-sub-mod}
use burndrop.Common.{
  ℕ, zero, suc, ◌+◌, ◌-◌, ◌%◌, ◌≤◌, ◌<◌, Bytes, some, [], ◌∷◌, ◌++◌, length, length-append,
  length-replicate, take, replicate, ◌≡◌, ◌⊎◌, inl, inr, refl, sym, ap, ◌∙◌, subst, arith,
}
use burndrop.Crypto.Padding.{pad, byte_at, scan, unpad}

byte_at-append : (xs ys : Bytes) (j : ℕ) → byte_at (xs ++ ys) (length xs + j) ≡ byte_at ys j
unfolding byte_at
byte_at-append [] ys j = ap (byte_at ys) (omega arith)
byte_at-append (x ∷ xs) ys j =
    let next : suc (length xs) + j ≡ suc (length xs + j) = omega arith in
    ap (byte_at (x ∷ xs ++ ys)) next ∙ byte_at-append xs ys j

byte_at-replicate : (n j : ℕ) → byte_at (replicate n 0) j ≡ 0
unfolding byte_at
byte_at-replicate zero j = refl
byte_at-replicate (suc n) zero = refl
byte_at-replicate (suc n) (suc j) = byte_at-replicate n j

take-append : (xs ys : Bytes) → take (length xs) (xs ++ ys) ≡ xs
take-append [] ys = refl
take-append (x ∷ xs) ys = ap (λ l. x ∷ l) (take-append xs ys)

-- The scan passes the zero bytes and stops at the marker.
scan-marker :
    (xs : Bytes) (m n j : ℕ) → j < n → scan (xs ++ 0x80 ∷ replicate m 0) n (length xs + j) ≡ some xs
unfolding scan
scan-marker xs m zero j h = absurd (omega (arith, h))
scan-marker xs m (suc n) zero h =
    ground
      (arith, byte_at-append xs (0x80 ∷ replicate m 0) 0, take-append xs (0x80 ∷ replicate m 0))
scan-marker xs m (suc n) (suc j) h =
    let next : length xs + j ≡ length xs + suc j - 1 = omega arith in
    let rest =
      subst (λ i. scan (xs ++ 0x80 ∷ replicate m 0) n i ≡ some xs) next
        (scan-marker xs m n j (omega (arith, h))) in
    ground (arith, byte_at-append xs (0x80 ∷ replicate m 0) (suc j), byte_at-replicate m j, rest)

padded_aligned : (n block : ℕ) → 0 < block → (n + (block - n % block)) % block ≡ 0
padded_aligned n block h =
    let whole : n % block + (block - n % block) ≡ block = omega (arith, mod-lt n h) in
    sym (mod-add-mod n block (block - n % block)) ∙ ap (λ i. i % block) whole ∙ mod_self block

pub lt_or_le : (a b : ℕ) → (a < b) ⊎ (b ≤ a)
lt_or_le a b = omega arith

-- The only length that aligns a block.
pub pad_unique : (n k block : ℕ) → 0 < k → k ≤ block → (n + k) % block ≡ 0 → k ≡ block - n % block
pad_unique n k block lo hi e =
    let r : n % block < block = mod-lt n (omega (arith, lo, hi)) in
    let sum : (n % block + k) % block ≡ 0 = mod-add-mod n block k ∙ e in
    elim (lt_or_le (n % block + k) block) [
      | inl short ↦ omega (arith, lo, sym (mod-eq_of_lt short) ∙ sum)
      | inr wrap ↦
          let back : (n % block + k - block) % block ≡ 0 = sym (mod-eq-sub-mod wrap) ∙ sum in
          let less : n % block + k - block < block = omega (arith, r, hi) in
          omega (arith, wrap, sym (mod-eq_of_lt less) ∙ back, r)
    ]

-- For blocks of at least one byte, removing the padding gives back what was padded.
pub unpad-pad : (plain : Bytes) (block : ℕ) → 0 < block → unpad (pad plain block) block ≡ some plain
unfolding unpad pad
unpad-pad plain block h =
    let k = block - length plain % block in
    let lt = mod-lt (length plain) h in
    let total : length (pad plain block) ≡ length plain + k = omega (
      arith,
      length-append plain (0x80 ∷ replicate (k - 1) 0),
      length-replicate {A = ℕ} (k - 1) 0,
      lt,
    ) in
    let aligned = ap (λ i. i % block) total ∙ padded_aligned (length plain) block h in
    let last : length (pad plain block) - 1 ≡ length plain + (k - 1) = omega (arith, total, lt) in
    let run =
      subst (λ i. scan (pad plain block) block i ≡ some plain) (sym last)
        (scan-marker plain (k - 1) block (k - 1) (omega (arith, h))) in
    ground (arith, total, aligned, lt, run)
