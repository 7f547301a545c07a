-- ===== src/Paging/Words.antt =====
-- arch/x86/paging.c, `__mk_entry`: the bitwise or of an address and flags below it is their sum.
use Prim.Native.Nat.{max, bit_or, bit_or-bitwise, digits}
use raincloud.Prelude.{
  ℕ, zero, suc, ◌+◌, ◌*◌, ◌/◌, ◌%◌, ◌^◌, ◌≤◌, ◌<◌, ◌≡◌, refl, arith, ◌∙◌, ap, ◌==◌,
}
use raincloud.Paging.{addr_bits, get_flag, mk_entry, is_present}

-- Any count of digits that the first number does not exceed gives the same.
abbrev or_digits : ℕ → ℕ → ℕ → ℕ
or_digits count a b = digits (λ x. x) max count a b

or_digits-count : (c d a b : ℕ) → a ≤ c → a ≤ d → or_digits c a b ≡ or_digits d a b
or_digits-count zero zero a b p q = refl
or_digits-count zero (suc d) zero b p q = refl
or_digits-count (suc c) zero zero b p q = refl
or_digits-count (suc c) (suc d) zero b p q = refl
or_digits-count zero d (suc a) b p q = absurd (omega arith)
or_digits-count (suc c) zero (suc a) b p q = absurd (omega arith)
or_digits-count (suc c) (suc d) (suc a) b p q =
    ap (λ h. h * 2 + max (suc a % 2) (b % 2))
      (or_digits-count c d (suc a / 2) (b / 2) (omega arith) (omega arith))

-- The lowest digit, where the first number is even.
bit_or-even : (a b : ℕ) → bit_or (a * 2) b ≡ bit_or a (b / 2) * 2 + b % 2
bit_or-even zero b = omega (arith, bit_or-bitwise 0 b, bit_or-bitwise 0 (b / 2))
bit_or-even (suc a) b =
    let two : suc a * 2 ≡ suc (a * 2 + 1) = omega arith in
    let half : suc (a * 2 + 1) / 2 ≡ suc a = omega arith in
    let even : suc (a * 2 + 1) % 2 ≡ 0 = omega arith in
    ap (λ n. bit_or n b) two
    ∙ omega (
      arith,
      bit_or-bitwise (suc (a * 2 + 1)) b,
      ap (λ h. or_digits (a * 2 + 1) h (b / 2)) half,
      or_digits-count (a * 2 + 1) (suc a) (suc a) (b / 2) (omega arith) (omega arith),
      bit_or-bitwise (suc a) (b / 2),
    )

or_digits-zero : (c a : ℕ) → a ≤ c → or_digits c a 0 ≡ a
or_digits-zero zero zero p = refl
or_digits-zero zero (suc a) p = absurd (omega arith)
or_digits-zero (suc c) zero p = refl
or_digits-zero (suc c) (suc a) p = omega (arith, or_digits-zero c (suc a / 2) (omega arith))

bit_or-zero : (a : ℕ) → bit_or a 0 ≡ a
bit_or-zero a = bit_or-bitwise a 0 ∙ or_digits-zero a a (omega arith)

abbrev doubled : ℕ → ℕ → ℕ
doubled zero a = a
doubled (suc k) a = doubled k a * 2

bit_or-doubled : (k a f : ℕ) → f < doubled k 1 → bit_or (doubled k a) f ≡ doubled k a + f
bit_or-doubled zero a f small =
    let none_left : f ≡ 0 = omega arith in rw none_left (bit_or-zero a ∙ omega arith)
bit_or-doubled (suc k) a f small =
    omega (arith, bit_or-even (doubled k a) f, bit_or-doubled k a (f / 2) (omega arith))

bit_or-page : (a f : ℕ) → f < 2 ^ 12 → bit_or (a * 2 ^ 12) f ≡ a * 2 ^ 12 + f
bit_or-page a f small =
    let twelve : doubled 12 a ≡ a * 2 ^ 12 = omega arith in
    rw twelve at (bit_or-doubled 12 a f (omega arith))

-- An entry has a physical address below 2 ^ 48 and flags in bits 0 to 8.
pub mk_entry_lem :
    (addr flag : ℕ)
    → flag < 2 ^ 9
    → let e = mk_entry addr flag in
      (addr_bits e ≡ addr_bits addr) × (get_flag e ≡ flag) × (is_present e ≡ is_present flag)
mk_entry_lem addr flag small =
    let e = mk_entry addr flag in
    let sum : e ≡ addr_bits addr + flag = bit_or-page (addr / 2 ^ 12 % 2 ^ 36) flag (omega arith) in
    (omega (arith, sum), omega (arith, sum), ap (λ n. n == 1) (omega (arith, sum)))
