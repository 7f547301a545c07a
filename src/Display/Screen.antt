-- ===== src/Display/Screen.antt =====
-- display/PotableGrayMap.c: the frame buffer, as a function from the index of a pixel to its value.
-- A screen has 48 rows of 128 characters, each of 16 by 8 pixels.
pub mod Pixels
use raincloud.Prelude.{
  ℕ, zero, suc, ◌+◌, ◌-◌, ◌*◌, ◌^◌, Option, none, some, List, [], ◌∷◌, ◌==◌, if◌then◌else◌,
}
use raincloud.Display.Glyph.{Stream, pgm_asiic_versions_init, ◌>>=◌}

abbrev pub FrameBuffer : Type 0
FrameBuffer = ℕ → ℕ

abbrev pub max_row : ℕ
max_row = 48

abbrev pub max_column : ℕ
max_column = 128

abbrev pub update : FrameBuffer → ℕ → ℕ → FrameBuffer
update fb p v q = if q == p then v else fb q

-- `v | v << 8 | v << 16` of a byte: the three bytes do not overlap.
abbrev pub grey_pixel : ℕ → ℕ
grey_pixel v = v + v * 2 ^ 8 + v * 2 ^ 16

-- The inner loop of `WritePGMData`, from pixel `p` on.
pub put_cells : ℕ → List ℕ → FrameBuffer → FrameBuffer
put_cells p [] fb = fb
put_cells p (v ∷ vs) fb = put_cells (p + 1) vs (update fb p (grey_pixel v))

-- The outer loop, from pixel row `y` on; `y` is `row * 16 + i`.
pub put_rows : ℕ → ℕ → List (List ℕ) → FrameBuffer → FrameBuffer
unfolding put_cells
put_rows y column [] fb = fb
put_rows y column (r ∷ rs) fb =
    put_rows (y + 1) column rs (put_cells (y * 8 * max_column + column * 8) r fb)

-- `WritePGMData`; the map has 16 rows of 8 values.
pub write_pgm_data : List (List ℕ) → ℕ → ℕ → FrameBuffer → FrameBuffer
unfolding put_rows
write_pgm_data pgm row column fb = put_rows (row * 16) column pgm fb

-- `none` where the font's buffer ends before the glyph.
pub write_char : Stream → ℕ → ℕ → ℕ → FrameBuffer → Option FrameBuffer
unfolding write_pgm_data
write_char font_buf row column ch fb =
    pgm_asiic_versions_init font_buf ch >>= λ pgm. some (write_pgm_data pgm row column fb)

-- The inner loop of `Scroll_Screen`: `n` columns from `j` on.
pub copy_columns : ℕ → (j i row : ℕ) → FrameBuffer → FrameBuffer
copy_columns zero j i row fb = fb
copy_columns (suc n) j i row fb =
    copy_columns n (j + 1) i row
      (update fb (j + i * max_column * 8) (fb (j + (i + row * 16) * max_column * 8)))

-- The outer loop: `n` pixel rows from `i` on.
pub copy_rows : ℕ → (i row : ℕ) → FrameBuffer → FrameBuffer
copy_rows zero i row fb = fb
copy_rows (suc n) i row fb = copy_rows n (i + 1) row (copy_columns (max_column * 8) 0 i row fb)

-- `memset` with 0, of whole pixels.
pub clear_pixels : ℕ → ℕ → FrameBuffer → FrameBuffer
clear_pixels zero p fb = fb
clear_pixels (suc n) p fb = clear_pixels n (p + 1) (update fb p 0)

pub scroll_screen : ℕ → FrameBuffer → FrameBuffer
scroll_screen row fb =
    clear_pixels (row * 16 * max_column * 8) ((max_row - row) * 16 * max_column * 8)
      (copy_rows ((max_row - row) * 16) 0 row fb)
