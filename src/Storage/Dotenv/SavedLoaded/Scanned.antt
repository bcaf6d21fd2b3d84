-- ===== src/Storage/Dotenv/SavedLoaded/Scanned.antt =====
-- The lines of a text, joined and split again (internal/storage/dotenv.go).
use burndrop.Common.{
  Bytes, Bool, true, false, ◌||◌, List, [], ◌∷◌, ◌++◌, ◌==◌, ◌≡◌, refl, ap, ◌∙◌, arith,
}
use burndrop.Storage.Dotenv.{push_char, split_lines, drop_cr, drop_crs, join_lines}
use burndrop.Storage.Dotenv.Quoting.Unquoted.{is_one_line}

unfoldable pub has_lf : Bytes → Bool
has_lf [] = false
has_lf (c ∷ s) = (c == 10) || has_lf s

-- A line that the scanner gives back as it was written.
abbrev pub IsLine : Bytes → Type 0
IsLine l = (has_lf l ≡ false) × (drop_cr l ≡ l)

abbrev pub AreLines : List Bytes → Type 0
AreLines [] = Unit
AreLines (l ∷ ls) = IsLine l × AreLines ls

split_lines-line :
    (l t : Bytes) → has_lf l ≡ false → split_lines (l ++ (10 ∷ t)) ≡ l ∷ split_lines t
unfolding has_lf split_lines push_char
split_lines-line [] t h = refl
split_lines-line (c ∷ l) t h =
    let ih : split_lines (l ++ (10 ∷ t)) ≡ l ∷ split_lines t =
      split_lines-line l t (ground arith) in
    rw ih (ground arith)

pub split_lines-join_lines : (ls : List Bytes) → AreLines ls → split_lines (join_lines ls) ≡ ls
unfolding join_lines split_lines
split_lines-join_lines [] h = refl
split_lines-join_lines (l ∷ ls) h =
    split_lines-line l (join_lines ls) h.0.0 ∙ ap (λ r. l ∷ r) (split_lines-join_lines ls h.1)

pub drop_crs-lines : (ls : List Bytes) → AreLines ls → drop_crs ls ≡ ls
unfolding drop_crs
drop_crs-lines [] h = refl
drop_crs-lines (l ∷ ls) h = rw (h.0.1, drop_crs-lines ls h.1) refl

is_one_line-has_lf : (l : Bytes) → is_one_line l ≡ true → has_lf l ≡ false
unfolding is_one_line has_lf
is_one_line-has_lf [] h = refl
is_one_line-has_lf (c ∷ l) h = ground (arith, is_one_line-has_lf l)

is_one_line-drop_cr : (l : Bytes) → is_one_line l ≡ true → drop_cr l ≡ l
unfolding is_one_line drop_cr
is_one_line-drop_cr [] h = refl
is_one_line-drop_cr (c ∷ []) h = ground arith
is_one_line-drop_cr (c ∷ d ∷ l) h = ap (λ r. c ∷ r) (is_one_line-drop_cr (d ∷ l) (ground arith))

pub is_one_line-IsLine : (l : Bytes) → is_one_line l ≡ true → IsLine l
is_one_line-IsLine l h = (is_one_line-has_lf l h, is_one_line-drop_cr l h)
