-- ===== src/Display/Glyph.antt =====
-- display/GlyphBDF.c and the bitmap part of display/PotableGrayMap.c: a glyph's lines in the font
-- file, and the grey map that they stand for.
pub mod Lines
pub mod Bits
use raincloud.Prelude.{
  ℕ, zero, suc, ◌+◌, ◌*◌, ◌-◌, Option, none, some, List, [], ◌∷◌, ◌==◌, if◌then◌else◌, ltb, set,
  map, ◌%◌, ◌||◌, length, length-set, ◌≡◌, refl, ◌∙◌,
}

-- What is left of `font_buf` at the place that is read. `none`: a read behind its end.
abbrev pub Stream : Type 0
Stream = List ℕ

infixl 5 ◌>>=◌
abbrev pub ◌>>=◌ {ℓ κ} : {A : Type ℓ} {B : Type κ} → Option A → (A → Option B) → Option B
none >>= f = none
some a >>= f = f a

abbrev newline : ℕ
newline = 10

-- One round of `file_seek`: up to the next newline, and behind it.
pub skip_line : Stream → Option Stream
skip_line [] = none
skip_line (c ∷ cs) = if c == newline then some cs else skip_line cs

pub file_seek : ℕ → Stream → Option Stream
unfolding skip_line
file_seek zero s = some s
file_seek (suc offset) s = skip_line s >>= file_seek offset

-- `stream += n`.
pub step : ℕ → Stream → Option Stream
step zero s = some s
step (suc n) [] = none
step (suc n) (c ∷ cs) = step n cs

pub next : Stream → Option (ℕ × Stream)
next [] = none
next (c ∷ cs) = some (c, cs)

-- Rows of two characters each, and the character behind them.
pub read_rows : ℕ → Stream → Option (List (ℕ × ℕ) × Stream)
unfolding next step
read_rows zero s = some ([], s)
read_rows (suc n) s = next s >>= λ (a, s).
    next s >>= λ (b, s). step 1 s >>= λ s. read_rows n s >>= λ (rows, s). some ((a, b) ∷ rows, s)

-- `GlyphBDF`: the encoding and the bitmap; the file offsets are constants.
pub record GlyphBdf : Type 0 where
  pub encodin : ℕ
  pub bitmap : List (ℕ × ℕ)

abbrev pub file_offset_first : ℕ
file_offset_first = 19

abbrev pub file_offset_glyph : ℕ
file_offset_glyph = 23

abbrev pub file_offset_encoding : ℕ
file_offset_encoding = 1

abbrev pub file_offset_bitmap : ℕ
file_offset_bitmap = 6

-- A digit's value, and the `unsigned char` that the encoding is kept in.
abbrev digit : ℕ → ℕ
digit c = (c + 256 - b'0') % 256

read_encoding : ℕ → Stream → Option ℕ
unfolding next
read_encoding glyph s = next s >>= λ (a, s). next s >>= λ (b, s).
    if ltb glyph b'd'
    then some ((digit a * 10 + digit b) % 256)
    else (next s >>= λ (c, s). some ((digit a * 100 + digit b * 10 + digit c) % 256))

pub get_bitmap : Stream → ℕ → Option GlyphBdf
unfolding file_seek step read_encoding read_rows
get_bitmap font_buf glyph =
    file_seek (file_offset_first + file_offset_glyph * glyph) font_buf
    >>= file_seek file_offset_encoding
    >>= step 9
    >>= λ s. read_encoding glyph s >>= λ encodin.
        file_seek (file_offset_bitmap - file_offset_encoding) s >>= λ s.
        read_rows 16 s >>= λ (rows, _). some (record { encodin = encodin; bitmap = rows })

-- The columns that a hexadecimal character sets, in the order of the assignments; the character
-- is the left one of its row if `j == 0`.
pub hex_columns : ℕ → ℕ → List ℕ
hex_columns c j =
    if c == b'1'
    then (if j == 0 then 3 ∷ [] else 7 ∷ [])
    else if c == b'2'
    then (if j == 0 then 2 ∷ [] else 6 ∷ [])
    else if c == b'3'
    then (if j == 0 then 3 ∷ 2 ∷ [] else 7 ∷ 6 ∷ [])
    else if c == b'4'
    then (if j == 0 then 1 ∷ [] else 5 ∷ [])
    else if c == b'5'
    then (if j == 0 then 3 ∷ 1 ∷ [] else 7 ∷ 5 ∷ [])
    else if c == b'6'
    then (if j == 0 then 2 ∷ 1 ∷ [] else 6 ∷ 5 ∷ [])
    else if c == b'7'
    then (if j == 0 then 3 ∷ 2 ∷ 1 ∷ [] else 7 ∷ 6 ∷ 5 ∷ [])
    else if c == b'8'
    then (if j == 0 then 0 ∷ [] else 4 ∷ [])
    else if c == b'9'
    then (if j == 0 then 3 ∷ 0 ∷ [] else 7 ∷ 4 ∷ [])
    else if c == b'A'
    then (if j == 0 then 2 ∷ 0 ∷ [] else 6 ∷ 4 ∷ [])
    else if c == b'B'
    then (if j == 0 then 3 ∷ 2 ∷ 0 ∷ [] else 7 ∷ 6 ∷ 4 ∷ [])
    else if c == b'C'
    then (if j == 0 then 1 ∷ 0 ∷ [] else 5 ∷ 4 ∷ [])
    else if c == b'D'
    then (if j == 0 then 3 ∷ 1 ∷ 0 ∷ [] else 7 ∷ 5 ∷ 4 ∷ [])
    else if c == b'E'
    then (if j == 0 then 2 ∷ 1 ∷ 0 ∷ [] else 6 ∷ 5 ∷ 4 ∷ [])
    else if c == b'F'
    then (if j == 0 then 3 ∷ 2 ∷ 1 ∷ 0 ∷ [] else 7 ∷ 6 ∷ 5 ∷ 4 ∷ [])
    else []

pub set_columns : List ℕ → List ℕ → List ℕ
set_columns [] row = row
set_columns (k ∷ ks) row = set_columns ks (set row k 255)

abbrev pub blank_row : List ℕ
blank_row = 0 ∷ 0 ∷ 0 ∷ 0 ∷ 0 ∷ 0 ∷ 0 ∷ 0 ∷ []

-- One row of `ASIIC_versions`, from the two characters of the bitmap's row.
pub pgm_row : ℕ × ℕ → List ℕ
unfolding hex_columns set_columns
pgm_row (a, b) = set_columns (hex_columns b 1) (set_columns (hex_columns a 0) blank_row)

pub pgm_asiic_versions_init : Stream → ℕ → Option (List (List ℕ))
unfolding get_bitmap pgm_row
pgm_asiic_versions_init font_buf glyph =
    get_bitmap font_buf glyph >>= λ g. some (map pgm_row g.bitmap)

set_columns-length : (ks row : List ℕ) → length (set_columns ks row) ≡ length row
unfolding set_columns
set_columns-length [] row = refl
set_columns-length (k ∷ ks) row = set_columns-length ks (set row k 255) ∙ length-set row k 255

pub pgm_row-eight : (r : ℕ × ℕ) → length (pgm_row r) ≡ 8
unfolding pgm_row
pgm_row-eight (a, b) =
    set_columns-length (hex_columns b 1) (set_columns (hex_columns a 0) blank_row)
    ∙ set_columns-length (hex_columns a 0) blank_row

pub pgm_asiic_versions_init-some :
    (font_buf : Stream) (glyph : ℕ) {g : GlyphBdf}
    → get_bitmap font_buf glyph ≡ some g
    → pgm_asiic_versions_init font_buf glyph ≡ some (map pgm_row g.bitmap)
unfolding pgm_asiic_versions_init
pgm_asiic_versions_init-some font_buf glyph e = rw e
