-- ===== src/Crypto/Base64/RoundTrip.antt =====
-- Every byte string has one encoding up to line breaks, and it decodes to the string.
use burndrop.Common.{
  ℕ, ◌+◌, ◌*◌, ◌/◌, ◌%◌, ◌<◌, Bytes, ◌≡◌, refl, ap, sym, subst, false, Option, none, some, [], ◌∷◌,
  arith,
}
use burndrop.Crypto.Base64.{
  digit, value, encode, ◌>>=◌, group_2, group_3, decode_groups, is_newline, strip_newlines, decode,
}

-- Every element is a byte.
abbrev pub AreBytes : Bytes → Type 0
AreBytes [] = Unit
AreBytes (b ∷ bs) = (b < 256) × AreBytes bs

value-digit : (n : ℕ) → n < 64 → value (digit n) ≡ some n
unfolding value digit
value-digit n h = ground arith

digit-value : (c n : ℕ) → value c ≡ some n → (digit n ≡ c) × (n < 64)
unfolding value digit
digit-value c n h = ground arith

digit-ne-newline : (n : ℕ) → is_newline (digit n) ≡ false
unfolding digit is_newline
digit-ne-newline n = ground arith

strip_newlines-encode : (bs : Bytes) → strip_newlines (encode bs) ≡ encode bs
unfolding strip_newlines encode
strip_newlines-encode [] = refl
strip_newlines-encode (a ∷ []) = simp digit-ne-newline
strip_newlines-encode (a ∷ b ∷ []) = simp digit-ne-newline
strip_newlines-encode (a ∷ b ∷ c ∷ rest) = simp (digit-ne-newline, strip_newlines-encode rest)

decode_groups-encode : (bs : Bytes) → AreBytes bs → decode_groups (encode bs) ≡ some bs
unfolding decode_groups encode group_2 group_3
decode_groups-encode [] h = refl
decode_groups-encode (a ∷ []) h =
    rw (value-digit (a / 4) (omega arith), value-digit (a % 4 * 16) (omega arith)) (ground arith)
decode_groups-encode (a ∷ b ∷ []) h =
    rw
      (
        value-digit (a / 4) (omega arith),
        value-digit (a % 4 * 16 + b / 16) (omega arith),
        value-digit (b % 16 * 4) (omega arith),
      )
      (ground arith)
decode_groups-encode (a ∷ b ∷ c ∷ rest) h =
    rw
      (
        value-digit (a / 4) (omega arith),
        value-digit (a % 4 * 16 + b / 16) (omega arith),
        value-digit (b % 16 * 4 + c / 64) (omega arith),
        value-digit (c % 64) (omega arith),
        decode_groups-encode rest h.1.1.1,
      )
      (ground arith)

-- Decoding inverts encoding on every string of bytes.
pub decode-encode : (bs : Bytes) → AreBytes bs → decode (encode bs) ≡ some bs
unfolding decode
decode-encode bs h = rw strip_newlines-encode (decode_groups-encode bs h)

-- Inversion of a chain of digits.
>>=-eq-some {ℓ κ} :
    {A : Type ℓ} {B : Type κ} (o : Option A) (f : A → Option B) {b : B}
    → (o >>= f) ≡ some b
    → (a : A) × (o ≡ some a) × (f a ≡ some b)
>>=-eq-some none f h = cc
>>=-eq-some (some a) f h = (a, refl, h)

group_2-eq :
    (w x : ℕ) (bs : Bytes)
    → w < 64
    → x < 64
    → group_2 w x ≡ some bs
    → (encode bs ≡ digit w ∷ digit x ∷ []) × AreBytes bs
unfolding group_2 encode
group_2-eq w x bs hw hx h =
    let e : bs ≡ (w * 4 + x / 16) ∷ [] = ground arith in
    let z : x % 16 ≡ 0 = ground arith in
    let l : (w * 4 + x / 16) / 4 ≡ w = omega arith in
    let r : (w * 4 + x / 16) % 4 * 16 ≡ x = omega arith in rw (e, l, r) (refl, (omega arith, tt))

group_3-eq :
    (w x y : ℕ) (bs : Bytes)
    → w < 64
    → x < 64
    → y < 64
    → group_3 w x y ≡ some bs
    → (encode bs ≡ digit w ∷ digit x ∷ digit y ∷ []) × AreBytes bs
unfolding group_3 encode
group_3-eq w x y bs hw hx hy h =
    let e : bs ≡ (w * 4 + x / 16) ∷ (x % 16 * 16 + y / 4) ∷ [] = ground arith in
    let z : y % 4 ≡ 0 = ground arith in
    let l : (w * 4 + x / 16) / 4 ≡ w = omega arith in
    let m : (w * 4 + x / 16) % 4 * 16 + (x % 16 * 16 + y / 4) / 16 ≡ x = omega arith in
    let r : (x % 16 * 16 + y / 4) % 16 * 4 ≡ y = omega arith in
    rw (e, l, m, r) (refl, (omega arith, (omega arith, tt)))

group_4-eq :
    (w x y z : ℕ) (bs : Bytes)
    → w < 64
    → x < 64
    → y < 64
    → z < 64
    → (encode ((w * 4 + x / 16) ∷ (x % 16 * 16 + y / 4) ∷ (y % 4 * 64 + z) ∷ bs)
        ≡ digit w ∷ digit x ∷ digit y ∷ digit z ∷ encode bs)
      × (w * 4 + x / 16 < 256)
      × (x % 16 * 16 + y / 4 < 256)
      × (y % 4 * 64 + z < 256)
unfolding encode
group_4-eq w x y z bs hw hx hy hz =
    let l : (w * 4 + x / 16) / 4 ≡ w = omega arith in
    let m : (w * 4 + x / 16) % 4 * 16 + (x % 16 * 16 + y / 4) / 16 ≡ x = omega arith in
    let r : (x % 16 * 16 + y / 4) % 16 * 4 + (y % 4 * 64 + z) / 64 ≡ y = omega arith in
    let s : (y % 4 * 64 + z) % 64 ≡ z = omega arith in
    (rw (l, m, r, s), omega arith, omega arith, omega arith)

encode-decode_groups : (s bs : Bytes) → decode_groups s ≡ some bs → (encode bs ≡ s) × AreBytes bs
unfolding decode_groups encode
encode-decode_groups [] bs h = let e : bs ≡ [] = cc in rw e (refl, tt)
encode-decode_groups (c ∷ []) bs h = cc
encode-decode_groups (c ∷ d ∷ []) bs h =
    let (w, hw, h₁) = >>=-eq-some (value c) _ h in
    let (x, hx, h₂) = >>=-eq-some (value d) _ h₁ in
    let (ew, lw) = digit-value c w hw in
    let (ex, lx) = digit-value d x hx in rw (← ew, ← ex) (group_2-eq w x bs lw lx h₂)
encode-decode_groups (c ∷ d ∷ e ∷ []) bs h =
    let (w, hw, h₁) = >>=-eq-some (value c) _ h in
    let (x, hx, h₂) = >>=-eq-some (value d) _ h₁ in
    let (y, hy, h₃) = >>=-eq-some (value e) _ h₂ in
    let (ew, lw) = digit-value c w hw in
    let (ex, lx) = digit-value d x hx in
    let (ey, ly) = digit-value e y hy in rw (← ew, ← ex, ← ey) (group_3-eq w x y bs lw lx ly h₃)
encode-decode_groups (c ∷ d ∷ e ∷ f ∷ rest) bs h =
    let (w, hw, h₁) = >>=-eq-some (value c) _ h in
    let (x, hx, h₂) = >>=-eq-some (value d) _ h₁ in
    let (y, hy, h₃) = >>=-eq-some (value e) _ h₂ in
    let (z, hz, h₄) = >>=-eq-some (value f) _ h₃ in
    let (tail, ht, h₅) = >>=-eq-some (decode_groups rest) _ h₄ in
    let (ew, lw) = digit-value c w hw in
    let (ex, lx) = digit-value d x hx in
    let (ey, ly) = digit-value e y hy in
    let (ez, lz) = digit-value f z hz in
    let ih = encode-decode_groups rest tail ht in
    let g = group_4-eq w x y z tail lw lx ly lz in
    let e' : bs ≡ (w * 4 + x / 16) ∷ (x % 16 * 16 + y / 4) ∷ (y % 4 * 64 + z) ∷ tail = cc in
    (cc (ap encode e', g.0, ih.0), subst AreBytes (sym e') (g.1, (g.2, (g.3, ih.1))))

-- A text that decodes is, without its line breaks, the encoding of what it decodes to, which is a
-- string of bytes.
pub encode-decode :
    (s bs : Bytes) → decode s ≡ some bs → (encode bs ≡ strip_newlines s) × AreBytes bs
unfolding decode
encode-decode s bs h = encode-decode_groups (strip_newlines s) bs h
