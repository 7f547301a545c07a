-- ===== src/Display/Screen/Pixels.antt =====
-- display/PotableGrayMap.c: the frame buffer after a character is written and after a scroll.
use raincloud.Prelude.{
  some, get_or-cons, get_or-head, ℕ, zero, suc, ◌+◌, ◌-◌, ◌*◌, ◌/◌, ◌%◌, ◌≤◌, ◌<◌, ◌≡◌, ◌∙◌, List,
  [], ◌∷◌, arith, leb, ltb, ◌==◌, ◌&&◌, if◌then◌else◌, length, get_or,
}
use raincloud.Display.Glyph.{Stream, pgm_asiic_versions_init}
use raincloud.Display.Screen.{
  write_char, FrameBuffer, max_row, max_column, update, grey_pixel, put_cells, put_rows,
  write_pgm_data, copy_columns, copy_rows, clear_pixels, scroll_screen,
}

put_cells_lem :
    (vs : List ℕ) (p : ℕ) (fb : FrameBuffer) (q : ℕ)
    → put_cells p vs fb q
      ≡ (if leb p q && ltb q (p + length vs) then grey_pixel (get_or vs (q - p) 0) else fb q)
unfolding put_cells
put_cells_lem [] p fb q = ground arith
put_cells_lem (v ∷ vs) p fb q =
    put_cells_lem vs (p + 1) (update fb p (grey_pixel v)) q
    ∙ ground (arith, get_or-cons v vs (q - p) (q - (p + 1)) 0, get_or-head v vs (q - p) 0)

-- Rows of eight values.
abbrev pub AllEight : List (List ℕ) → Type 0
AllEight [] = Unit {0}
AllEight (r ∷ rs) = (length r ≡ 8) × AllEight rs

source : (i j row : ℕ) → j + (i + row * 16) * max_column * 8 ≡ (j + i * 1024) + row * 16384
source i j row = omega arith

copy_columns_lem :
    (n j i row : ℕ) (fb : FrameBuffer) (q : ℕ)
    → copy_columns n j i row fb q
      ≡ (if leb (j + i * 1024) q && ltb q (j + n + i * 1024) then fb (q + row * 16384) else fb q)
unfolding copy_columns
copy_columns_lem zero j i row fb q = ground arith
copy_columns_lem (suc n) j i row fb q =
    copy_columns_lem n (j + 1) i row
      (update fb (j + i * max_column * 8) (fb (j + (i + row * 16) * max_column * 8))) q
    ∙ rw (source i j row) (ground arith)

clear_pixels_lem :
    (n p : ℕ) (fb : FrameBuffer) (q : ℕ)
    → clear_pixels n p fb q ≡ (if leb p q && ltb q (p + n) then 0 else fb q)
unfolding clear_pixels
clear_pixels_lem zero p fb q = ground arith
clear_pixels_lem (suc n) p fb q = ground (arith, clear_pixels_lem n (p + 1) (update fb p 0) q)

put_cells_row :
    (r : List ℕ) (y column : ℕ) (fb : FrameBuffer) (Y x : ℕ)
    → length r ≡ 8
    → column < max_column
    → x < 1024
    → put_cells (y * 8 * max_column + column * 8) r fb (Y * 1024 + x)
      ≡ (if Y == y && x / 8 == column then grey_pixel (get_or r (x % 8) 0) else fb (Y * 1024 + x))
put_cells_row r y column fb Y x eight inside small =
    put_cells_lem r (y * 8 * max_column + column * 8) fb (Y * 1024 + x) ∙ ground (arith, offset)
  where
    offset : Y ≡ y → x / 8 ≡ column → Y * 1024 + x - (y * 8 * max_column + column * 8) ≡ x % 8
    offset a b = omega arith

put_rows_lem :
    (rs : List (List ℕ)) (y column : ℕ) (fb : FrameBuffer) (Y x : ℕ)
    → AllEight rs
    → column < max_column
    → x < 1024
    → put_rows y column rs fb (Y * 1024 + x) ≡ (
        if leb y Y && ltb Y (y + length rs) && x / 8 == column
        then grey_pixel (get_or (get_or rs (Y - y) []) (x % 8) 0)
        else fb (Y * 1024 + x))
unfolding put_rows
put_rows_lem [] y column fb Y x eight inside small = ground arith
put_rows_lem (r ∷ rs) y column fb Y x eight inside small =
    put_rows_lem rs (y + 1) column (put_cells (y * 8 * max_column + column * 8) r fb) Y x eight.1
      inside small
    ∙ rw (put_cells_row r y column fb Y x eight.0 inside small)
        (ground (arith, get_or-cons r rs (Y - y) (Y - (y + 1)) [], get_or-head r rs (Y - y) []))

-- After `WritePGMData` of a map of 16 rows of 8 values at a cell of the screen, the pixels of that
-- cell show the map, and every other pixel is as before.
pub write_pgm_data_lem :
    (pgm : List (List ℕ)) (row column : ℕ) (fb : FrameBuffer) (y x : ℕ)
    → length pgm ≡ 16
    → AllEight pgm
    → column < max_column
    → x < 1024
    → write_pgm_data pgm row column fb (y * 1024 + x) ≡ (
        if y / 16 == row && x / 8 == column
        then grey_pixel (get_or (get_or pgm (y % 16) []) (x % 8) 0)
        else fb (y * 1024 + x))
unfolding write_pgm_data
write_pgm_data_lem pgm row column fb y x sixteen eight inside small =
    put_rows_lem pgm (row * 16) column fb y x eight inside small ∙ ground (arith, offset)
  where
    offset : y / 16 ≡ row → y - row * 16 ≡ y % 16
    offset a = omega arith

copy_rows_lem :
    (n i row : ℕ) (fb : FrameBuffer) (q : ℕ)
    → copy_rows n i row fb q
      ≡ (if leb (i * 1024) q && ltb q ((i + n) * 1024) then fb (q + row * 16384) else fb q)
unfolding copy_rows
copy_rows_lem zero i row fb q = ground arith
copy_rows_lem (suc n) i row fb q =
    let fb' = copy_columns (max_column * 8) 0 i row fb in
    ground (
      arith,
      copy_rows_lem n (i + 1) row fb' q,
      copy_columns_lem 1024 0 i row fb q,
      copy_columns_lem 1024 0 i row fb (q + row * 16384),
    )

-- `Scroll_Screen` by up to 48 rows moves every pixel up by 16 lines for each row, and leaves the
-- lines at the bottom black.
pub scroll_screen_lem :
    (row : ℕ) (fb : FrameBuffer) (y x : ℕ)
    → row ≤ max_row
    → x < 1024
    → y < 768
    → scroll_screen row fb (y * 1024 + x)
      ≡ (if ltb y ((max_row - row) * 16) then fb ((y + row * 16) * 1024 + x) else 0)
unfolding scroll_screen
scroll_screen_lem row fb y x fits small inside =
    let moved : (y + row * 16) * 1024 + x ≡ y * 1024 + x + row * 16384 = omega arith in
    let kept = copy_rows ((max_row - row) * 16) 0 row fb in
    rw moved (
      ground (
        arith,
        clear_pixels_lem (row * 16 * max_column * 8) ((max_row - row) * 16 * max_column * 8) kept
            (y * 1024 + x),
        copy_rows_lem ((max_row - row) * 16) 0 row fb (y * 1024 + x),
      ))

pub write_char-some :
    (font_buf : Stream) (row column ch : ℕ) (fb : FrameBuffer) (pgm : List (List ℕ))
    → pgm_asiic_versions_init font_buf ch ≡ some pgm
    → write_char font_buf row column ch fb ≡ some (write_pgm_data pgm row column fb)
unfolding write_char
write_char-some font_buf row column ch fb pgm e = rw e
