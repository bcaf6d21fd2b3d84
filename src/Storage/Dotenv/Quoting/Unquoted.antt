-- ===== src/Storage/Dotenv/Quoting/Unquoted.antt =====
-- A quoted value is read back as it was, and stands on one line.
use burndrop.Common.{
  ℕ, zero, suc, ◌-◌, ◌≤◌, Bytes, Bool, true, false, not, ◌&&◌, Option, none, some, [], ◌∷◌, ◌++◌,
  length, length-append, take, ◌==◌, ◌≡◌, ◌∙◌, refl, ap, arith,
}
use burndrop.Crypto.Base64.{◌>>=◌}
use burndrop.Crypto.Text.{
  between, is_continuation, second_of_3, second_of_4, rune_2, rune_3, rune_4, rune_at, runes_after,
  runes, all_valid, valid_utf8,
}
use burndrop.Storage.Dotenv.Quoting.{
  escape, quote_rune, quote_after, quote, unescaped, unescape_after, at, unquote,
}

-- The first `k` bytes belong to a rune above 127.
abbrev pub IsTail : ℕ → Bytes → Type 0
IsTail zero s = Unit
IsTail (suc k) [] = ⊥
IsTail (suc k) (c ∷ s) = (128 ≤ c) × IsTail k s

rune_2-IsTail : (c : ℕ) (s : Bytes) → IsTail ((rune_2 c s).1 - 1) s
unfolding rune_2 is_continuation
rune_2-IsTail c [] = tt
rune_2-IsTail c (d ∷ s) = ground arith

rune_3-IsTail : (c : ℕ) (s : Bytes) → IsTail ((rune_3 c s).1 - 1) s
unfolding rune_3 second_of_3 is_continuation between
rune_3-IsTail c [] = tt
rune_3-IsTail c (d ∷ []) = tt
rune_3-IsTail c (d ∷ e ∷ s) = ground arith

rune_4-IsTail : (c : ℕ) (s : Bytes) → IsTail ((rune_4 c s).1 - 1) s
unfolding rune_4 second_of_4 is_continuation between
rune_4-IsTail c [] = tt
rune_4-IsTail c (d ∷ []) = tt
rune_4-IsTail c (d ∷ e ∷ []) = tt
rune_4-IsTail c (d ∷ e ∷ f ∷ s) = ground arith

rune_at-IsTail : (c : ℕ) (s : Bytes) → IsTail ((rune_at c s).1 - 1) s
unfolding rune_at
rune_at-IsTail c s = ground (arith, rune_2-IsTail c s, rune_3-IsTail c s, rune_4-IsTail c s)

unescape-escape :
    (c : ℕ) (t : Bytes)
    → unescape_after false (escape c ++ t) ≡ (unescape_after false t >>= λ bs. some (c ∷ bs))
unfolding unescape_after escape unescaped
unescape-escape c t = ground arith

unescape-high :
    (c : ℕ) (t : Bytes)
    → 128 ≤ c
    → unescape_after false (c ∷ t) ≡ (unescape_after false t >>= λ bs. some (c ∷ bs))
unfolding unescape_after
unescape-high c t h = ground arith

unescape-quote_rune :
    (r : Option ℕ) (c k : ℕ) (s : Bytes)
    → all_valid (r ∷ runes_after k s) ≡ true
    → (all_valid (runes_after k s) ≡ true → unescape_after false (quote_after k s) ≡ some s)
    → unescape_after false (quote_rune r c ++ quote_after k s) ≡ some (c ∷ s)
unfolding all_valid quote_rune
unescape-quote_rune none c k s h ih = absurd (ground arith)
unescape-quote_rune (some r) c k s h ih =
    unescape-escape c (quote_after k s) ∙ ap (λ o. o >>= λ bs. some (c ∷ bs)) (ih h)

unescape-quote_after :
    (k : ℕ) (s : Bytes)
    → IsTail k s
    → all_valid (runes_after k s) ≡ true
    → unescape_after false (quote_after k s) ≡ some s
unfolding quote_after runes_after unescape_after
unescape-quote_after zero [] t h = refl
unescape-quote_after (suc k) [] t h = absurd t
unescape-quote_after zero (c ∷ s) t h =
    let k = (rune_at c s).1 - 1 in
    unescape-quote_rune ((rune_at c s).0) c k s h (unescape-quote_after k s (rune_at-IsTail c s))
unescape-quote_after (suc k) (c ∷ s) t h =
    unescape-high c (quote_after k s) t.0
    ∙ ap (λ o. o >>= λ bs. some (c ∷ bs)) (unescape-quote_after k s t.1 h)

take-append : (xs ys : Bytes) → take (length xs) (xs ++ ys) ≡ xs
take-append [] ys = refl
take-append (x ∷ xs) ys = ap (λ l. x ∷ l) (take-append xs ys)

at-append : (xs : Bytes) (c : ℕ) → at (length xs) (xs ++ (c ∷ [])) ≡ c
unfolding at
at-append [] c = refl
at-append (x ∷ xs) c = at-append xs c

unquote-quoted : (body : Bytes) → unquote (b'"' ∷ (body ++ (b'"' ∷ []))) ≡ unescape_after false body
unfolding unquote at
unquote-quoted body =
    let n : length (body ++ (b'"' ∷ [])) ≡ suc (length body) =
      length-append body (b'"' ∷ []) ∙ omega arith in
    let one : suc (suc (length body)) - 1 ≡ suc (length body) = omega arith in
    let two : suc (suc (length body)) - 2 ≡ length body = omega arith in
    rw (n, one, two, at-append body b'"', take-append body (b'"' ∷ [])) (ground arith)

-- A value that is valid UTF-8 is read back from its quoted text as it was.
pub unquote-quote : (s : Bytes) → valid_utf8 s ≡ true → unquote (quote s) ≡ some s
unfolding quote valid_utf8 runes
unquote-quote s h = unquote-quoted (quote_after 0 s) ∙ unescape-quote_after 0 s tt h

-- Whether a text has neither LF nor CR.
unfoldable pub is_one_line : Bytes → Bool
is_one_line [] = true
is_one_line (c ∷ s) = not (c == 10) && not (c == 13) && is_one_line s

pub is_one_line-append :
    (s t : Bytes) → is_one_line s ≡ true → is_one_line t ≡ true → is_one_line (s ++ t) ≡ true
unfolding is_one_line
is_one_line-append [] t h k = k
is_one_line-append (c ∷ s) t h k = ground (arith, is_one_line-append s t)

quote_rune-is_one_line : (r : Option ℕ) (c : ℕ) → is_one_line (quote_rune r c) ≡ true
unfolding quote_rune escape is_one_line
quote_rune-is_one_line none c = refl
quote_rune-is_one_line (some r) c = ground arith

quote_after-is_one_line : (k : ℕ) (s : Bytes) → IsTail k s → is_one_line (quote_after k s) ≡ true
unfolding quote_after is_one_line
quote_after-is_one_line zero [] t = refl
quote_after-is_one_line (suc k) [] t = absurd t
quote_after-is_one_line zero (c ∷ s) t =
    let k = (rune_at c s).1 - 1 in
    is_one_line-append (quote_rune ((rune_at c s).0) c) (quote_after k s)
      (quote_rune-is_one_line ((rune_at c s).0) c)
      (quote_after-is_one_line k s (rune_at-IsTail c s))
quote_after-is_one_line (suc k) (c ∷ s) t = ground (arith, quote_after-is_one_line k s)

-- The quoted text of any value has no line break.
pub quote-is_one_line : (s : Bytes) → is_one_line (quote s) ≡ true
unfolding quote is_one_line
quote-is_one_line s =
    is_one_line-append (quote_after 0 s) (b'"' ∷ []) (quote_after-is_one_line 0 s tt) (ground arith)
