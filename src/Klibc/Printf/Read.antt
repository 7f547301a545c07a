-- ===== src/Klibc/Printf/Read.antt =====
-- lib/printf.c: the text of a number is read back as the number.
use native.Mathlib.Nat.{div-eq_of_lt, div-div-eq-div-mul, pow-suc}
use raincloud.Prelude.{
  ℕ, zero, suc, ◌+◌, ◌-◌, ◌*◌, ◌/◌, ◌%◌, ◌^◌, ◌≤◌, ◌<◌, ◌≡◌, ◌≢◌, refl, ap, sym, ◌∙◌, false,
  Bool-cases, some, List, [], ◌∷◌, ◌==◌, ltb, if◌then◌else◌, length, sub64, arith, inl, inr, ◌⊎◌,
}
use raincloud.Klibc.Printf.{hex_table, print_hex, push_digits, print_deci}

-- The number that hexadecimal characters write behind one that is read already.
abbrev hex_digit : ℕ → ℕ
hex_digit c = if ltb c b'A' then c - b'0' else c - b'A' + 10

abbrev pub read_hex : ℕ → List ℕ → ℕ
read_hex n [] = n
read_hex n (c ∷ cs) = read_hex (n * 16 + hex_digit c) cs

hex_digit-hex_table : (v : ℕ) → v < 16 → hex_digit (hex_table v) ≡ v
hex_digit-hex_table v h = ground arith

sixteen : (num : ℕ) → 2 ^ (suc num * 4) ≡ 2 ^ (num * 4) * 16
sixteen num =
    let k = num * 4 in
    let more : suc num * 4 ≡ suc (suc (suc (suc k))) = omega arith in
    ap (λ e. 2 ^ e) more
    ∙ omega (
      arith,
      pow-suc 2 k,
      pow-suc 2 (suc k),
      pow-suc 2 (suc (suc k)),
      pow-suc 2 (suc (suc (suc k))),
    )

shift : (hex num : ℕ) → hex / 2 ^ (suc num * 4) ≡ hex / 2 ^ (num * 4) / 16
shift hex num = ap (λ d. hex / d) (sixteen num) ∙ sym (div-div-eq-div-mul hex (2 ^ (num * 4)) 16)

read_hex-from : (hex num : ℕ) → read_hex (hex / 2 ^ (num * 4)) (print_hex hex num) ≡ hex
unfolding print_hex
read_hex-from hex zero = omega arith
read_hex-from hex (suc num) =
    let v = hex / 2 ^ (num * 4) in
    let next : hex / 2 ^ (suc num * 4) * 16 + hex_digit (hex_table (v % 16)) ≡ v =
      omega (arith, shift hex num, hex_digit-hex_table (v % 16) (omega arith)) in
    ap (λ n. read_hex n (print_hex hex num)) next ∙ read_hex-from hex num

length-print_hex : (hex num : ℕ) → length (print_hex hex num) ≡ num
unfolding print_hex
length-print_hex hex zero = refl
length-print_hex hex (suc num) = ap suc (length-print_hex hex num)

-- `__print_hex` of a number that fits its digits writes as many characters as were asked, which
-- are read back as the number; so both a 32-bit and a 64-bit number are printed whole.
pub read_hex-print_hex :
    (hex num : ℕ)
    → hex < 2 ^ (num * 4)
    → (read_hex 0 (print_hex hex num) ≡ hex) × (length (print_hex hex num) ≡ num)
read_hex-print_hex hex num fits =
    let none_above : hex / 2 ^ (num * 4) ≡ 0 = div-eq_of_lt fits in
    (rw none_above at (read_hex-from hex num), length-print_hex hex num)

abbrev pub read_deci : ℕ → List ℕ → ℕ
read_deci n [] = n
read_deci n (c ∷ cs) = read_deci (n * 10 + (c - b'0')) cs

-- A signed number.
abbrev pub read_signed : List ℕ → ℕ
read_signed [] = 0
read_signed (c ∷ cs) = if c == b'-' then sub64 0 (read_deci 0 cs) else read_deci 0 (c ∷ cs)

abbrev pub AllDigits : List ℕ → Type 0
AllDigits [] = Unit {0}
AllDigits (c ∷ cs) = (b'0' ≤ c) × (c ≤ b'9') × AllDigits cs

record Pushed (fuel deci : ℕ) (temp_buf out : List ℕ) : Type 0 where
  value : read_deci 0 out ≡ read_deci deci temp_buf
  digits : AllDigits out
  some_digits : 0 < length out
  few : length out ≤ fuel + length temp_buf

positive : (fuel : ℕ) {n : ℕ} → n < 10 ^ fuel → n ≢ 0 → 0 < fuel
positive zero small ne = omega arith
positive (suc fuel) small ne = omega arith

push_digits-some :
    (fuel deci : ℕ) (temp_buf : List ℕ)
    → deci < 10 ^ fuel
    → AllDigits temp_buf
    → (0 < fuel)
    → (out : List ℕ) × (push_digits fuel deci temp_buf ≡ some out) × Pushed fuel deci temp_buf out
unfolding push_digits
push_digits-some zero deci temp_buf small ok pos = absurd (omega arith)
push_digits-some (suc fuel) deci temp_buf small ok pos =
    let digit = deci % 10 + b'0' in
    let here : AllDigits (digit ∷ temp_buf) = (omega arith, omega arith, ok) in
    elim (Bool-cases (deci / 10 == 0)) [
      | inl last ↦ (
        digit ∷ temp_buf,
        rw last,
        record {
          value = ap (λ n. read_deci n temp_buf) (ground arith);
          digits = here;
          some_digits = omega arith;
          few = omega arith;
        },
      )
      | inr more ↦
          let less : deci / 10 < 10 ^ fuel = omega (arith, pow-suc 10 fuel) in
          let (out, e, p) =
            push_digits-some fuel (deci / 10) (digit ∷ temp_buf) less here
              (positive fuel less (ground arith)) in
          (
            out,
            rw more e,
            record {
              value = p.value ∙ ap (λ n. read_deci n temp_buf) (omega arith);
              digits = p.digits;
              some_digits = p.some_digits;
              few = omega (arith, p.few);
            },
          )
    ]

-- A positive number's text does not begin with the sign.
read_signed-digits :
    (out : List ℕ) → AllDigits out → 0 < length out → read_signed out ≡ read_deci 0 out
read_signed-digits [] ok pos = absurd (omega arith)
read_signed-digits (c ∷ cs) ok pos = ground arith

-- Decimal digits, behind a sign or not.
abbrev pub IsNumeral : List ℕ → Type 0
IsNumeral out = AllDigits out ⊎ ((ds : List ℕ) × (out ≡ b'-' ∷ ds) × AllDigits ds)

-- `__print_deci` of every signed 64-bit number but the least writes at most 21 characters, as
-- many as `temp_buf` has: decimal digits, behind a sign or not, that are read back as the number.
pub read_signed-print_deci :
    (deci : ℕ)
    → deci < 2 ^ 64
    → deci ≢ 2 ^ 63
    → (out : List ℕ) × (print_deci deci ≡ some out)
      × IsNumeral out
      × (read_signed out ≡ deci)
      × (length out ≤ 21)
unfolding print_deci
read_signed-print_deci deci word least = elim (Bool-cases (ltb deci (2 ^ 63))) [
  | inl positive ↦
      let (out, e, p) = push_digits-some 20 deci [] (ground arith) tt (omega arith) in
      (
        out,
        rw positive e,
        inl p.digits,
        read_signed-digits out p.digits p.some_digits ∙ p.value,
        omega (arith, p.few),
      )
  | inr negative ↦
      let other : (deci == 2 ^ 63) ≡ false = ground arith in
      let (out, e, p) = push_digits-some 20 (2 ^ 64 - deci) [] (ground arith) tt (omega arith) in
      (
        b'-' ∷ out,
        rw (negative, other, e),
        inr (out, refl, p.digits),
        ap (λ n. sub64 0 n) p.value ∙ ground arith,
        omega (arith, p.few),
      )
]
