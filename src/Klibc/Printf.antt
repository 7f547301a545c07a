-- ===== src/Klibc/Printf.antt =====
-- lib/printf.c: numbers as text, and the format string. A signed number is its 64-bit pattern, and
-- `none` is undefined behaviour.
pub mod Read
pub mod Format
use raincloud.Prelude.{
  ℕ, zero, suc, ◌+◌, ◌-◌, ◌*◌, ◌/◌, ◌%◌, ◌^◌, Option, none, some, List, [], ◌∷◌, ◌++◌, leb, ltb,
  ◌==◌, ◌||◌, if◌then◌else◌, sub64,
}

-- `hex_table`.
abbrev pub hex_table : ℕ → ℕ
hex_table v = if ltb v 10 then b'0' + v else b'A' + (v - 10)

-- The characters written, `num` of them.
pub print_hex : ℕ → ℕ → List ℕ
print_hex hex zero = []
print_hex hex (suc num) = hex_table (hex / 2 ^ (num * 4) % 16) ∷ print_hex hex num

-- The first loop: the digits written into `temp_buf`, the last one first. `none`: the fuel is
-- not enough.
unfoldable pub push_digits : ℕ → ℕ → List ℕ → Option (List ℕ)
push_digits zero deci temp_buf = none
push_digits (suc fuel) deci temp_buf =
    let temp_buf' = (deci % 10 + b'0') ∷ temp_buf in
    let more = push_digits fuel (deci / 10) temp_buf' in
    if deci / 10 == 0 then some temp_buf' else more

abbrev with_sign : Option (List ℕ) → Option (List ℕ)
with_sign none = none
with_sign (some temp_buf) = some (b'-' ∷ temp_buf)

-- The second loop writes `temp_buf` from its last character on. The negation overflows at
-- - 2 ^ 63; a 64-bit number has at most 20 digits.
unfoldable pub print_deci : ℕ → Option (List ℕ)
unfolding push_digits
print_deci deci =
    if ltb deci (2 ^ 63)
    then push_digits 20 deci []
    else if deci == 2 ^ 63
    then none
    else with_sign (push_digits 20 (2 ^ 64 - deci) [])

-- An argument: a 64-bit word, or a string without its NUL.
pub data Arg : Type 0 where
  word : ℕ → Arg
  string : List ℕ → Arg

-- Where the loop stands: in plain text, behind `%`, or behind `%l`.
pub data Mode : Type 0 where
  plain : Mode
  percent : Mode
  percent_l : Mode

-- A 32-bit `int` as a 64-bit number.
abbrev sign_extend : ℕ → ℕ
sign_extend d = if ltb (d % 2 ^ 32) (2 ^ 31) then d % 2 ^ 32 else d % 2 ^ 32 + (2 ^ 64 - 2 ^ 32)

-- `va_arg` of a word, and what is printed for it.
abbrev print_word : (ℕ → Option (List ℕ)) → List Arg → Option (List ℕ × List Arg)
print_word f [] = none
print_word f (string s ∷ args) = none
print_word f (word w ∷ args) = elim (f w) [ none ↦ none | some out ↦ some (out, args) ]

abbrev print_string : List Arg → Option (List ℕ × List Arg)
print_string (string s ∷ args) = some (s, args)
print_string (word w ∷ args) = none
print_string [] = none

-- One character of the format: the text written, the arguments left, and where the loop stands.
abbrev in_mode : Mode → Option (List ℕ × List Arg) → Option (List ℕ × List Arg × Mode)
in_mode m none = none
in_mode m (some (out, args)) = some (out, args, m)

pub format_step : Mode → ℕ → List Arg → Option (List ℕ × List Arg × Mode)
unfolding print_deci print_hex
format_step plain c args =
    if c == b'%' then some ([], args, percent) else some (c ∷ [], args, plain)
format_step percent c args =
    if c == b's' || c == b'S'
    then in_mode plain (print_string args)
    else if c == b'c' || c == b'C'
    then in_mode plain (print_word (λ w. some ((w % 256) ∷ [])) args)
    else if c == b'd' || c == b'D'
    then in_mode plain (print_word (λ w. print_deci (sign_extend w)) args)
    else if c == b'x' || c == b'X'
    then in_mode plain (print_word (λ w. some (print_hex (w % 2 ^ 32) 8)) args)
    else if c == b'l' || c == b'L'
    then some ([], args, percent_l)
    else some ([], args, plain)
format_step percent_l c args =
    if c == b'd' || c == b'D'
    then in_mode plain (print_word print_deci args)
    else if c == b'x' || c == b'X'
    then in_mode plain (print_word (λ w. some (print_hex w 16)) args)
    else some ([], args, plain)

abbrev pub prepend : List ℕ → Option (List ℕ) → Option (List ℕ)
prepend out none = none
prepend out (some more) = some (out ++ more)

-- What is written into `buf`, with the NUL; behind `%` or `%l` the end of the format is passed.
pub print_format : Mode → List ℕ → List Arg → Option (List ℕ)
unfolding format_step
print_format plain [] args = some (0 ∷ [])
print_format percent [] args = none
print_format percent_l [] args = none
print_format mode (c ∷ fmt) args = elim (format_step mode c args) [
  | none ↦ none
  | some (out, args', mode') ↦ prepend out (print_format mode' fmt args')
]
