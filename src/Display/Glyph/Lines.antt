-- ===== src/Display/Glyph/Lines.antt =====
-- display/GlyphBDF.c: where the lines of a font file lead the seeks.
use raincloud.Prelude.{
  Bool-cases, inl, inr, ltb, ◌%◌, ℕ, ◌+◌, ◌*◌, ◌<◌, ◌≤◌, ◌≡◌, ◌≢◌, refl, some, List, [], ◌∷◌, ◌++◌,
  map, length, length-append, arith,
}
use mathlib.Core.List.{append_assoc}
use raincloud.Display.Glyph.{
  Stream, ◌>>=◌, newline, skip_line, file_seek, step, read_rows, read_encoding, get_bitmap,
  GlyphBdf, digit,
}

abbrev pub Line : Type 0
Line = List ℕ

abbrev pub IsLine : Line → Type 0
IsLine [] = Unit {0}
IsLine (c ∷ cs) = (c ≢ newline) × IsLine cs

abbrev pub AllLines : List Line → Type 0
AllLines [] = Unit {0}
AllLines (l ∷ ls) = IsLine l × AllLines ls

-- A file of lines, each ended by a newline.
abbrev pub text : List Line → Stream
text [] = []
text (l ∷ ls) = l ++ newline ∷ text ls

skip_line-text : (l : Line) (s : Stream) → IsLine l → skip_line (l ++ newline ∷ s) ≡ some s
unfolding skip_line
skip_line-text [] s ok = refl
skip_line-text (c ∷ cs) s ok = ground (arith, skip_line-text cs s ok.1)

pub file_seek-text :
    (front back : List Line)
    → AllLines front
    → file_seek (length front) (text (front ++ back)) ≡ some (text back)
unfolding file_seek
file_seek-text [] back ok = refl
file_seek-text (l ∷ ls) back ok =
    rw (skip_line-text l (text (ls ++ back)) ok.0) (file_seek-text ls back ok.1)

step-append : (front s : Stream) → step (length front) (front ++ s) ≡ some s
unfolding step
step-append [] s = refl
step-append (c ∷ cs) s = step-append cs s

read_encoding-some :
    (glyph : ℕ) (s : Stream) → 2 < length s → (e : ℕ) × (read_encoding glyph s ≡ some e)
unfolding read_encoding
read_encoding-some glyph [] h = absurd (omega arith)
read_encoding-some glyph (a ∷ []) h = absurd (omega arith)
read_encoding-some glyph (a ∷ b ∷ []) h = absurd (omega arith)
read_encoding-some glyph (a ∷ b ∷ c ∷ s) h = elim (Bool-cases (ltb glyph b'd')) [
  | inl short ↦ ((digit a * 10 + digit b) % 256, rw short)
  | inr long ↦ ((digit a * 100 + digit b * 10 + digit c) % 256, rw long)
]

abbrev two : ℕ × ℕ → Line
two (a, b) = a ∷ b ∷ []

read_rows-text :
    (rows : List (ℕ × ℕ)) (back : List Line)
    → read_rows (length rows) (text (map two rows ++ back)) ≡ some (rows, text back)
unfolding read_rows
read_rows-text [] back = refl
read_rows-text ((a, b) ∷ rows) back = rw (read_rows-text rows back)

-- The glyph's lines in the file: its first line, the line of the encoding, whose number stands
-- behind nine characters, four lines, and the rows.
pub record IsRecord (lines : List Line) (rows : List (ℕ × ℕ)) : Type 0 where
  pub start : Line
  pub encoding : Line
  pub number : Line
  pub between : List Line
  pub back : List Line
  pub whole : lines ≡ start ∷ (encoding ++ number) ∷ (between ++ (map two rows ++ back))
  pub start_line : IsLine start
  pub number_line : IsLine number
  pub between_lines : AllLines between
  pub nine : length encoding ≡ 9
  pub four : length between ≡ 4
  pub sixteen : length rows ≡ 16

length-text : (ls : List Line) → length ls ≤ length (text ls)
length-text [] = omega arith
length-text (l ∷ ls) = omega (arith, length-append l (newline ∷ text ls), length-text ls)

-- The part of `get_bitmap` from the line of the encoding on.
module _ (glyph : ℕ) (lines : List Line) (rows : List (ℕ × ℕ)) (r : IsRecord lines rows) where
  abbrev behind : List Line
  behind = r.between ++ (map two rows ++ r.back)

  to_number : (file_seek 1 (text lines) >>= step 9) ≡ some (text (r.number ∷ behind))
  to_number = rw r.whole (
      rw (file_seek-text (r.start ∷ []) ((r.encoding ++ r.number) ∷ behind) (r.start_line, tt))
        (rw (append_assoc, ← r.nine) (step-append r.encoding (text (r.number ∷ behind)))))

  to_rows : file_seek 5 (text (r.number ∷ behind)) ≡ some (text (map two rows ++ r.back))
  to_rows =
      let five : length (r.number ∷ r.between) ≡ 5 = omega (arith, r.four) in
      rw (← five) (
        file_seek-text (r.number ∷ r.between) (map two rows ++ r.back)
          (r.number_line, r.between_lines))

  the_rows : read_rows 16 (text (map two rows ++ r.back)) ≡ some (rows, text r.back)
  the_rows = rw (← r.sixteen) (read_rows-text rows r.back)

  long_enough : 2 < length (text (r.number ∷ behind))
  long_enough = omega (
    arith,
    length-text (r.number ∷ behind),
    length-append r.between (map two rows ++ r.back),
    r.four,
  )

-- A font file whose line 19 + 23 g begins the record of glyph g gives that record's rows.
pub get_bitmap-rows :
    (glyph : ℕ) (front lines : List Line) (rows : List (ℕ × ℕ))
    → AllLines front
    → length front ≡ 19 + 23 * glyph
    → IsRecord lines rows
    → (g : GlyphBdf) × (get_bitmap (text (front ++ lines)) glyph ≡ some g) × (g.bitmap ≡ rows)
unfolding get_bitmap
get_bitmap-rows glyph front lines rows ok at r =
    let (e, found) = read_encoding-some glyph _ (long_enough glyph lines rows r) in
    let first : file_seek (19 + 23 * glyph) (text (front ++ lines)) ≡ some (text lines) =
      rw (← at) (file_seek-text front lines ok) in
    (
      record { encodin = e; bitmap = rows },
      rw (
        first,
        to_number glyph lines rows r,
        found,
        to_rows glyph lines rows r,
        the_rows glyph lines rows r,
      ),
      refl,
    )
