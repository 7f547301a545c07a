-- ===== src/Klibc/Utf8.antt =====
-- lib/coding.c: code points and 16-bit strings into UTF-8. `& (2 ^ k - 1)` is `% 2 ^ k`, `>> k` is
-- `/ 2 ^ k`, and `|` with a mark above those bits is `+`.
pub mod Decode
use raincloud.Prelude.{
  zero, suc, ℕ, ◌+◌, ◌-◌, ◌*◌, ◌/◌, ◌%◌, ◌^◌, ◌≤◌, ◌<◌, ◌≡◌, refl, ap, ◌∙◌, Bool, true, false,
  Option, none, some, List, [], ◌∷◌, ◌++◌, arith, leb, ltb, ◌&&◌, if◌then◌else◌, length,
  length-append, ◌≢◌,
}
use mathlib.Core.List.{append_assoc}

-- The last six bits from bit `k` on, as a continuation byte.
abbrev tail_byte : ℕ → ℕ → ℕ
tail_byte u k = u / 2 ^ k % 64 + 0x80

-- The bytes written, whose number is returned; `none` where no branch is taken, so that nothing
-- is written and the number is not initialised.
unfoldable pub unicode_into_utf8 : ℕ → Option (List ℕ)
unicode_into_utf8 u =
    if leb u 0x7f
    then some ((u % 128) ∷ [])
    else if leb 0x80 u && leb u 0x7ff
    then some ((u / 2 ^ 6 % 32 + 0xc0) ∷ tail_byte u 0 ∷ [])
    else if leb 0x800 u && leb u 0xffff
    then some ((u / 2 ^ 12 % 16 + 0xe0) ∷ tail_byte u 6 ∷ tail_byte u 0 ∷ [])
    else if leb 0x10000 u && leb u 0x10ffff
    then some ((u / 2 ^ 18 % 8 + 0xf0) ∷ tail_byte u 12 ∷ tail_byte u 6 ∷ tail_byte u 0 ∷ [])
    else if leb 0x200000 u && leb u 0x3ffffff
    then some (
        (u / 2 ^ 24 % 4 + 0xf8)
        ∷ tail_byte u 18
        ∷ tail_byte u 12
        ∷ tail_byte u 6
        ∷ tail_byte u 0
        ∷ [])
    else if leb 0x4000000 u && leb u 0x7fffffff
    then some (
        (u / 2 ^ 30 % 2 + 0xfc)
        ∷ tail_byte u 24
        ∷ tail_byte u 18
        ∷ tail_byte u 12
        ∷ tail_byte u 6
        ∷ tail_byte u 0
        ∷ [])
    else none

abbrev append_bytes : Option (List ℕ) → Option (List ℕ) → Option (List ℕ)
append_bytes none more = none
append_bytes (some bs) none = none
append_bytes (some bs) (some more) = some (bs ++ more)

-- The bytes of the 16-bit units before the NUL; the NUL that is written behind them is no part of
-- the number returned.
unfoldable pub str_unicode_to_utf8 : List ℕ → Option (List ℕ)
unfolding unicode_into_utf8
str_unicode_to_utf8 [] = some []
str_unicode_to_utf8 (u ∷ us) = append_bytes (unicode_into_utf8 u) (str_unicode_to_utf8 us)

-- UTF-8 read back, by the definition of the encoding: a lead byte tells how many continuation
-- bytes follow, and each gives six bits.
pub continuation : ℕ → ℕ → List ℕ → Option (ℕ × List ℕ)
continuation zero acc bs = some (acc, bs)
continuation (suc n) acc [] = none
continuation (suc n) acc (b ∷ bs) =
    let rest = continuation n (acc * 64 + (b - 0x80)) bs in
    if leb 0x80 b && ltb b 0xc0 then rest else none

pub decode : List ℕ → Option (ℕ × List ℕ)
unfolding continuation
decode [] = none
decode (b ∷ bs) =
    if ltb b 0x80
    then some (b, bs)
    else if ltb b 0xc0
    then none
    else if ltb b 0xe0
    then continuation 1 (b - 0xc0) bs
    else if ltb b 0xf0
    then continuation 2 (b - 0xe0) bs
    else if ltb b 0xf8
    then continuation 3 (b - 0xf0) bs
    else if ltb b 0xfc
    then continuation 4 (b - 0xf8) bs
    else if ltb b 0xfe
    then continuation 5 (b - 0xfc) bs
    else none
