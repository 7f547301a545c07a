-- ===== src/Display/Console.antt =====
-- display/PotableGrayMap.c, `WriteLine`: the cursor, which is static, and the frame buffer.
-- Interrupts are disabled while it runs, so a call is one step.
use raincloud.Prelude.{
  ℕ, ◌+◌, ◌-◌, ◌*◌, ◌/◌, ◌%◌, ◌≤◌, ◌<◌, ◌≡◌, refl, Bool, true, false, Bool-cases, Option, some,
  List, [], ◌∷◌, arith, leb, ◌==◌, ◌||◌, if◌then◌else◌, inl, inr,
}
use raincloud.Display.Glyph.{Stream, pgm_asiic_versions_init, ◌>>=◌}
use raincloud.Display.Screen.{
  FrameBuffer, max_row, max_column, write_char, scroll_screen, write_pgm_data,
}
use raincloud.Display.Screen.Pixels.{write_char-some}

pub record Console : Type 0 where
  pub row : ℕ
  pub column : ℕ
  pub frame_buffer : FrameBuffer

abbrev scroll_up_row_num : ℕ
scroll_up_row_num = 1

-- The `switch` on the character; both counters are `uint8_t`.
abbrev control : ℕ → Console → Console
control c s =
    if c == b'\n' || c == b'\r'
    then record s { row = (s.row + 1) % 256; column = 0 }
    else if c == b'\t'
    then record s { column = (s.column + 8) / 8 * 8 % 256 }
    else s

abbrev visible : ℕ → Bool
visible c = if c == b'\n' || c == b'\r' then false else if c == b'\t' then false else true

abbrev wrap_column : Console → Console
wrap_column s =
    if leb max_column s.column
    then record s { row = (s.row + 1) % 256; column = (s.column + 256 - max_column) % 256 }
    else s

abbrev scroll_up : Console → Console
scroll_up s =
    if leb max_row s.row
    then record s {
      frame_buffer = scroll_screen scroll_up_row_num s.frame_buffer;
      row = (s.row + 256 - scroll_up_row_num) % 256;
    }
    else s

-- The cursor at which a character is written.
pub place : ℕ → Console → Console
place c s = scroll_up (wrap_column (control c s))

-- One round of the loop; `none` where the font's buffer ends before the glyph.
pub put_char : Stream → ℕ → Console → Option Console
put_char font_buf c s =
    let at = place c s in
    if visible c
    then (write_char font_buf at.row at.column c at.frame_buffer >>= λ fb.
        some (record at { column = (at.column + 1) % 256; frame_buffer = fb }))
    else some at

-- The characters before the NUL.
pub write_line : Stream → List ℕ → Console → Option Console
unfolding put_char
write_line font_buf [] s = some s
write_line font_buf (c ∷ cs) s = put_char font_buf c s >>= write_line font_buf cs

-- The cursor is on the screen, or just behind the end of its row.
pub record IsCursor (s : Console) : Type 0 where
  pub row_in : s.row < max_row
  pub column_in : s.column ≤ max_column

-- Wherever the cursor stands, a character is written inside the screen.
pub place_inside :
    (c : ℕ) (s : Console)
    → IsCursor s
    → ((place c s).row < max_row) × ((place c s).column < max_column)
unfolding place
place_inside c s v = ground arith

-- The font has a glyph for each byte.
abbrev pub HasGlyphs : Stream → Type 0
HasGlyphs font_buf =
    (c : ℕ) → c < 256 → (pgm : List (List ℕ)) × (pgm_asiic_versions_init font_buf c ≡ some pgm)

put_char-IsCursor :
    (font_buf : Stream) (c : ℕ) (s : Console)
    → HasGlyphs font_buf
    → c < 256
    → IsCursor s
    → (s' : Console) × (put_char font_buf c s ≡ some s') × IsCursor s'
unfolding put_char
put_char-IsCursor font_buf c s font byte v =
    let inside = place_inside c s v in
    elim (Bool-cases (visible c)) [
      | inl shown ↦
          let (pgm, e) = font c byte in
          let at = place c s in
          let fb = write_pgm_data pgm at.row at.column at.frame_buffer in
          (
            record at { column = (at.column + 1) % 256; frame_buffer = fb },
            rw (shown, write_char-some font_buf at.row at.column c at.frame_buffer pgm e),
            omega (arith, inside),
          )
      | inr hidden ↦ (place c s, rw hidden, omega (arith, inside))
    ]

abbrev pub AllBytes : List ℕ → Type 0
AllBytes [] = Unit {0}
AllBytes (c ∷ cs) = (c < 256) × AllBytes cs

-- With a font that has a glyph for each byte, `WriteLine` writes every string and leaves the
-- cursor on the screen or just behind the end of a row.
pub write_line-IsCursor :
    (font_buf : Stream) (cs : List ℕ) (s : Console)
    → HasGlyphs font_buf
    → AllBytes cs
    → IsCursor s
    → (s' : Console) × (write_line font_buf cs s ≡ some s') × IsCursor s'
unfolding write_line
write_line-IsCursor font_buf [] s font bytes v = (s, refl, v)
write_line-IsCursor font_buf (c ∷ cs) s font bytes v =
    let (s', e, v') = put_char-IsCursor font_buf c s font bytes.0 v in
    let (out, e', v'') = write_line-IsCursor font_buf cs s' font bytes.1 v' in
    (out, rw (e, e'), v'')
