-- ===== src/Display/Tests.antt =====
-- display/: a font in which every character is the same small box, and the theorems at it.
use raincloud.Prelude.{
  ℕ, zero, suc, ◌+◌, ◌-◌, ◌*◌, ◌/◌, ◌%◌, ◌≡◌, refl, ap, sym, ◌∙◌, some, List, [], ◌∷◌, ◌++◌, ◌==◌,
  ◌&&◌, if◌then◌else◌, get_or, length, length-append, map, replicate, arith,
}
use mathlib.Core.List.{append_assoc}
use raincloud.Display.Glyph.{pgm_row, pgm_asiic_versions_init, pgm_asiic_versions_init-some}
use raincloud.Display.Glyph.Lines.{Line, AllLines, text, IsRecord, get_bitmap-rows}
use raincloud.Display.Glyph.Bits.{grey}
use raincloud.Display.Screen.{FrameBuffer, grey_pixel, write_char}
use raincloud.Display.Picture.{hex_row, write_char-picture}
use raincloud.Display.Console.{Console, IsCursor, write_line, write_line-IsCursor, HasGlyphs}

abbrev box : List ℕ
box =
    255 ∷ 129 ∷ 129 ∷ 129 ∷ 129 ∷ 129 ∷ 129 ∷ 129 ∷ 129 ∷ 129 ∷ 129 ∷ 129 ∷ 129 ∷ 129 ∷ 129 ∷ 255
    ∷ []

abbrev encoding : Line
encoding = b'E' ∷ b'N' ∷ b'C' ∷ b'O' ∷ b'D' ∷ b'I' ∷ b'N' ∷ b'G' ∷ b' ' ∷ []

abbrev number : Line
number = b'6' ∷ b'5' ∷ []

abbrev pair : ℕ × ℕ → Line
pair (a, b) = a ∷ b ∷ []

-- The 23 lines of a character, before the lines behind it.
abbrev character : List Line → List Line
character back =
    (b'S' ∷ []) ∷ (encoding ++ number) ∷ ([] ∷ [] ∷ [] ∷ [] ∷ [])
    ++ (map pair (map hex_row box) ++ ((b'E' ∷ []) ∷ back))

abbrev characters : ℕ → List Line
characters zero = []
characters (suc n) = character (characters n)

abbrev head : List Line
head = replicate 19 []

characters-add : (n m p : ℕ) → p ≡ n + m → characters p ≡ characters n ++ characters m
characters-add zero m p e = ap characters (omega arith)
characters-add (suc n) m zero e = absurd (omega arith)
characters-add (suc n) m (suc p) e = ap character (characters-add n m p (omega arith))

length-characters : (n : ℕ) → length (characters n) ≡ 23 * n
length-characters zero = refl
length-characters (suc n) = omega (arith, length-characters n)

AllLines-append : (xs ys : List Line) → AllLines xs → AllLines ys → AllLines (xs ++ ys)
AllLines-append [] ys a b = b
AllLines-append (x ∷ xs) ys a b = (a.0, AllLines-append xs ys a.1 b)

character-AllLines : AllLines (character [])
character-AllLines = omega arith

head-AllLines : AllLines head
head-AllLines = omega arith

characters-AllLines : (n : ℕ) → AllLines (characters n)
characters-AllLines zero = tt
characters-AllLines (suc n) =
    AllLines-append (character []) (characters n) character-AllLines (characters-AllLines n)

front-AllLines : (c : ℕ) → AllLines (head ++ characters c)
front-AllLines c = AllLines-append head (characters c) head-AllLines (characters-AllLines c)

length-front : (c : ℕ) → length (head ++ characters c) ≡ 19 + 23 * c
length-front c = omega (arith, length-append head (characters c), length-characters c)

characters-IsRecord : (n : ℕ) → IsRecord (characters (suc n)) (map hex_row box)
characters-IsRecord n = record {
  start = b'S' ∷ [];
  encoding = encoding;
  number = number;
  between = [] ∷ [] ∷ [] ∷ [] ∷ [];
  back = (b'E' ∷ []) ∷ characters n;
  whole = refl;
  start_line = omega arith;
  number_line = omega arith;
  between_lines = omega arith;
  nine = refl;
  four = refl;
  sixteen = refl;
}

abbrev black : FrameBuffer
black p = 0

write_char-picture_example :
    (fb' : FrameBuffer) × (write_char (text ((head ++ characters 3) ++ characters 2)) 1 2 3 black
      ≡ some fb')
    × (fb' (31 * 1024 + 20) ≡ (
        if 31 / 16 == 1 && 20 / 8 == 2
        then grey_pixel (grey (get_or box (31 % 16) 0) (20 % 8))
        else black (31 * 1024 + 20)))
write_char-picture_example =
    write_char-picture (head ++ characters 3) (characters 2) box 3 1 2 31 20 black
      (front-AllLines 3) (length-front 3) (characters-IsRecord 1) (omega arith) (omega arith)
      (omega arith)

-- The cursor just behind the end of the last row.
abbrev corner : Console
corner = record { row = 47; column = 128; frame_buffer = black }

corner-IsCursor : IsCursor corner
corner-IsCursor = omega arith

font-HasGlyphs : HasGlyphs (text (head ++ characters 256))
font-HasGlyphs c byte =
    let split : characters 256 ≡ characters c ++ characters (suc (255 - c)) =
      characters-add c (suc (255 - c)) 256 (omega arith) in
    let (g, e, _) =
      get_bitmap-rows c (head ++ characters c) (characters (suc (255 - c))) (map hex_row box)
        (front-AllLines c) (length-front c) (characters-IsRecord (255 - c)) in
    let found =
      pgm_asiic_versions_init-some (text ((head ++ characters c) ++ characters (suc (255 - c)))) c
        e in
    (
      map pgm_row g.bitmap,
      ap (λ ls. pgm_asiic_versions_init (text (head ++ ls)) c) split
          ∙ ap (λ ls. pgm_asiic_versions_init (text ls) c)
              (sym (append_assoc head (characters c) (characters (suc (255 - c)))))
          ∙ found,
    )

write_line-IsCursor_example :
    (s' : Console) × (write_line (text (head ++ characters 256)) (b'H' ∷ 9 ∷ 10 ∷ []) corner
      ≡ some s')
    × IsCursor s'
write_line-IsCursor_example =
    write_line-IsCursor (text (head ++ characters 256)) (b'H' ∷ 9 ∷ 10 ∷ []) corner font-HasGlyphs
      (omega arith) corner-IsCursor
