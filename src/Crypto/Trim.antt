-- ===== src/Crypto/Trim.antt =====
-- strings.TrimSpace and bytes.TrimSpace, as internal/agent/redact.go and internal/relay/auth.go use them.
use burndrop.Common.{
  ℕ, zero, suc, ◌-◌, Bytes, ◌&&◌, Option, none, List, [], ◌∷◌, ◌++◌, length, drop, ◌==◌,
  if◌then◌else◌,
}
use burndrop.Crypto.Text.{rune_at, is_space}

-- A text cut into its runes, each with its bytes. The first argument counts the bytes that belong to
-- the rune before.
unfoldable pub onto_rune : ℕ → List (Option ℕ × Bytes) → List (Option ℕ × Bytes)
onto_rune c [] = []
onto_rune c ((r, bs) ∷ rs) = (r, c ∷ bs) ∷ rs

unfoldable pub cut_after : Option ℕ → ℕ → Bytes → List (Option ℕ × Bytes)
unfolding onto_rune
cut_after r k [] = (r, []) ∷ []
cut_after r (suc k) (c ∷ s) = onto_rune c (cut_after r k s)
cut_after r zero (c ∷ s) =
    let (q, width) = rune_at c s in (r, []) ∷ onto_rune c (cut_after q (width - 1) s)

-- The first piece is empty.
unfoldable pub cut : Bytes → List (Option ℕ × Bytes)
unfolding cut_after
cut s = drop 1 (cut_after none 0 s)

unfoldable pub trim_left : List (Option ℕ × Bytes) → List (Option ℕ × Bytes)
unfolding is_space
trim_left [] = []
trim_left ((r, bs) ∷ rs) = let rest = trim_left rs in if is_space r then rest else (r, bs) ∷ rs

unfoldable pub trim_right : List (Option ℕ × Bytes) → List (Option ℕ × Bytes)
unfolding is_space
trim_right [] = []
trim_right ((r, bs) ∷ rs) =
    let rest = trim_right rs in if is_space r && (length rest == 0) then [] else (r, bs) ∷ rest

unfoldable pub joined : List (Option ℕ × Bytes) → Bytes
joined [] = []
joined ((r, bs) ∷ rs) = bs ++ joined rs

-- bytes.TrimSpace
unfoldable pub trim_space : Bytes → Bytes
unfolding trim_left trim_right joined cut
trim_space s = joined (trim_right (trim_left (cut s)))
