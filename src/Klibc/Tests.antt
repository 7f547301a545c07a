-- ===== src/Klibc/Tests.antt =====
-- lib/coding.c: runs on short strings, and the theorems at them.
use raincloud.Prelude.{length, ◌-◌, ◌^◌, ℕ, ◌≡◌, ◌≤◌, refl, some, List, [], ◌∷◌, arith}
use raincloud.Klibc.Utf8.{unicode_into_utf8, str_unicode_to_utf8}
use raincloud.Klibc.Printf.{push_digits, print_deci}
use raincloud.Klibc.Printf.Read.{read_signed, IsNumeral, read_signed-print_deci}
use raincloud.Klibc.Utf8.Decode.{decode_all, decode-str_unicode_to_utf8}

euro : unicode_into_utf8 0x20ac ≡ some (0xe2 ∷ 0x82 ∷ 0xac ∷ [])
unfolding unicode_into_utf8
euro = refl

decode-str_unicode_to_utf8_example :
    (bs : List ℕ) × (str_unicode_to_utf8 (0x41 ∷ 0x20ac ∷ []) ≡ some bs)
    × (decode_all 2 bs ≡ some (0x41 ∷ 0x20ac ∷ []))
decode-str_unicode_to_utf8_example =
    decode-str_unicode_to_utf8 (0x41 ∷ 0x20ac ∷ []) (omega arith, (omega arith, tt))

-- -42.
abbrev negative : ℕ
negative = 2 ^ 64 - 42

read_signed-print_deci_example :
    (out : List ℕ) × (print_deci negative ≡ some out)
    × IsNumeral out
    × (read_signed out ≡ negative)
    × (length out ≤ 21)
read_signed-print_deci_example = read_signed-print_deci negative (omega arith) (omega arith)

minus_42 : print_deci negative ≡ some (b'-' ∷ b'4' ∷ b'2' ∷ [])
unfolding print_deci push_digits
minus_42 = refl
