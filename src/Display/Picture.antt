-- ===== src/Display/Picture.antt =====
-- display/PotableGrayMap.c, `WriteCharToScreen`: from the font file to the pixels.
use raincloud.Prelude.{
  ℕ, zero, suc, ◌+◌, ◌*◌, ◌/◌, ◌%◌, ◌<◌, ◌≡◌, refl, ap, some, List, [], ◌∷◌, ◌++◌, ◌==◌, ◌&&◌,
  if◌then◌else◌, get_or, length, map, arith,
}
use raincloud.Display.Glyph.{
  pgm_row, pgm_asiic_versions_init, pgm_asiic_versions_init-some, pgm_row-eight,
}
use raincloud.Display.Glyph.Lines.{Line, AllLines, text, IsRecord, get_bitmap-rows}
use raincloud.Display.Glyph.Bits.{hex_char, grey, pgm_row-grey}
use raincloud.Display.Screen.{FrameBuffer, max_column, grey_pixel, write_char, write_pgm_data}
use raincloud.Display.Screen.Pixels.{AllEight, write_pgm_data_lem, write_char-some}
use raincloud.Display.Console.{AllBytes}

-- A byte as the two characters of a row.
abbrev pub hex_row : ℕ → ℕ × ℕ
hex_row byte = (hex_char (byte / 16), hex_char (byte % 16))

length-map : {A B : Type 0} (f : A → B) (xs : List A) → length (map f xs) ≡ length xs
length-map f [] = refl
length-map f (x ∷ xs) = ap suc (length-map f xs)

map-AllEight : (rows : List (ℕ × ℕ)) → AllEight (map pgm_row rows)
map-AllEight [] = tt
map-AllEight (r ∷ rows) = (pgm_row-eight r, map-AllEight rows)

picture-grey :
    (bytes : List ℕ) (i k : ℕ)
    → AllBytes bytes
    → i < length bytes
    → k < 8
    → get_or (get_or (map pgm_row (map hex_row bytes)) i []) k 0 ≡ grey (get_or bytes i 0) k
picture-grey [] i k ok lt hk = absurd (omega arith)
picture-grey (b ∷ bs) zero k ok lt hk =
    let whole : 16 * (b / 16) + b % 16 ≡ b = omega arith in
    rw whole at (pgm_row-grey (b / 16) (b % 16) k (omega (arith, ok.0)) (omega arith) hk)
picture-grey (b ∷ bs) (suc i) k ok lt hk = picture-grey bs i k ok.1 (omega arith) hk

-- In a font file whose line 19 + 23 c begins the record of a character c, of 16 bytes written as
-- two hexadecimal characters each, `WriteCharToScreen` finds the character; the pixels of its cell
-- then show the bits of these bytes, white for a 1, and every other pixel is as before.
pub write_char-picture :
    (front lines : List Line) (bytes : List ℕ) (c row column y x : ℕ) (fb : FrameBuffer)
    → AllLines front
    → length front ≡ 19 + 23 * c
    → IsRecord lines (map hex_row bytes)
    → AllBytes bytes
    → column < max_column
    → x < 1024
    → (fb' : FrameBuffer) × (write_char (text (front ++ lines)) row column c fb ≡ some fb')
      × (fb' (y * 1024 + x) ≡ (
          if y / 16 == row && x / 8 == column
          then grey_pixel (grey (get_or bytes (y % 16) 0) (x % 8))
          else fb (y * 1024 + x)))
write_char-picture front lines bytes c row column y x fb ok at r bs hc hx =
    let (g, e, same) = get_bitmap-rows c front lines (map hex_row bytes) ok at r in
    let pgm = map pgm_row (map hex_row bytes) in
    let found : pgm_asiic_versions_init (text (front ++ lines)) c ≡ some pgm =
      rw (← same) (pgm_asiic_versions_init-some (text (front ++ lines)) c e) in
    let size : length bytes ≡ 16 = omega (arith, r.sixteen, length-map hex_row bytes) in
    let cells =
      write_pgm_data_lem pgm row column fb y x
        (omega (arith, size, length-map hex_row bytes, length-map pgm_row (map hex_row bytes)))
        (map-AllEight (map hex_row bytes)) hc hx in
    (
      write_pgm_data pgm row column fb,
      write_char-some (text (front ++ lines)) row column c fb pgm found,
      rw (← picture-grey bytes (y % 16) (x % 8) bs (omega (arith, size)) (omega arith)) cells,
    )
