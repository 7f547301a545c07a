-- ===== src/Display/Glyph/Bits.antt =====
-- display/PotableGrayMap.c: the row of the grey map is the binary picture of its two characters.
use raincloud.Prelude.{
  ℕ, ◌+◌, ◌-◌, ◌*◌, ◌/◌, ◌%◌, ◌^◌, ◌<◌, ◌≡◌, refl, true, ltb, ◌==◌, if◌then◌else◌, get_or,
  holds_below, holds_below-at, ==_iff, Bool,
}
use raincloud.Display.Glyph.{pgm_row}

-- The upper-case hexadecimal character of a value below 16.
abbrev pub hex_char : ℕ → ℕ
hex_char v = if ltb v 10 then b'0' + v else b'A' + v - 10

-- Bit 7 - k of a byte, as a grey value.
abbrev pub grey : ℕ → ℕ → ℕ
grey byte k = 255 * (byte / 2 ^ (7 - k) % 2)

abbrev row_holds : ℕ → ℕ → ℕ → Bool
row_holds a b k = get_or (pgm_row (hex_char a, hex_char b)) k 0 == grey (16 * a + b) k

row_table : holds_below (λ a. holds_below (λ b. holds_below (row_holds a b) 8) 16) 16 ≡ true
unfolding holds_below pgm_row
row_table = refl

-- A row given by two hexadecimal characters is 255 where the byte that they write has a 1, the
-- highest bit at the left, and 0 elsewhere.
pub pgm_row-grey :
    (a b k : ℕ)
    → a < 16
    → b < 16
    → k < 8
    → get_or (pgm_row (hex_char a, hex_char b)) k 0 ≡ grey (16 * a + b) k
pgm_row-grey a b k ha hb hk =
    let at_a =
      holds_below-at (λ a. holds_below (λ b. holds_below (row_holds a b) 8) 16) 16 ha row_table in
    let at_b = holds_below-at (λ b. holds_below (row_holds a b) 8) 16 hb at_a in
    (==_iff _ _).0 (holds_below-at (row_holds a b) 8 hk at_b)
