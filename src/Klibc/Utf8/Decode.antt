-- ===== src/Klibc/Utf8/Decode.antt =====
-- lib/coding.c: what was encoded is read back.
use raincloud.Prelude.{
  eq_of_some, lt→ltb, le→ltb, leb→le, eq_of_some, lt→ltb, le→ltb, ◌↔◌, ◌⊎◌, Option-cases, ℕ, zero,
  suc, ◌+◌, ◌-◌, ◌*◌, ◌/◌, ◌%◌, ◌^◌, ◌≤◌, ◌<◌, ◌≡◌, refl, ◌∙◌, true, Option, none, some, List, [],
  ◌∷◌, ◌++◌, arith, leb, ltb, ◌&&◌, length, Bool-cases, inl, inr,
}
use raincloud.Klibc.Utf8.{unicode_into_utf8, str_unicode_to_utf8, tail_byte, continuation, decode}

tail_byte-continuation :
    (n acc u k : ℕ) (bs : List ℕ)
    → continuation (suc n) acc (tail_byte u k ∷ bs) ≡ continuation n (acc * 64 + u / 2 ^ k % 64) bs
unfolding continuation
tail_byte-continuation n acc u k bs =
    let small : u / 2 ^ k % 64 < 64 = omega arith in
    let bits : tail_byte u k - 0x80 ≡ u / 2 ^ k % 64 = omega arith in
    let fits : (leb 0x80 (tail_byte u k) && ltb (tail_byte u k) 0xc0) ≡ true = ground arith in
    rw (fits, bits)

one_byte : (u : ℕ) (rest : List ℕ) → u ≤ 0x7f → decode ((u % 128) ∷ rest) ≡ some (u, rest)
unfolding decode
one_byte u rest h =
    let e : u % 128 ≡ u = omega arith in let low : ltb u 0x80 ≡ true = ground arith in rw (e, low)

continuation-end :
    (u acc : ℕ) (rest : List ℕ) → acc ≡ u → continuation zero acc rest ≡ some (u, rest)
unfolding continuation
continuation-end u acc rest e = rw e

-- What the lead byte of an encoding says.
lead_2 : (p : ℕ) (bs : List ℕ) → p < 32 → decode ((p + 0xc0) ∷ bs) ≡ continuation 1 p bs
unfolding decode
lead_2 p bs h =
    let e : p + 0xc0 - 0xc0 ≡ p = omega arith in
    rw (
      le→ltb (p + 0xc0) 0x80 (omega arith),
      le→ltb (p + 0xc0) 0xc0 (omega arith),
      lt→ltb (p + 0xc0) 0xe0 (omega arith),
      e,
    )

lead_3 : (p : ℕ) (bs : List ℕ) → p < 16 → decode ((p + 0xe0) ∷ bs) ≡ continuation 2 p bs
unfolding decode
lead_3 p bs h =
    let e : p + 0xe0 - 0xe0 ≡ p = omega arith in
    rw (
      le→ltb (p + 0xe0) 0x80 (omega arith),
      le→ltb (p + 0xe0) 0xc0 (omega arith),
      le→ltb (p + 0xe0) 0xe0 (omega arith),
      lt→ltb (p + 0xe0) 0xf0 (omega arith),
      e,
    )

lead_4 : (p : ℕ) (bs : List ℕ) → p < 8 → decode ((p + 0xf0) ∷ bs) ≡ continuation 3 p bs
unfolding decode
lead_4 p bs h =
    let e : p + 0xf0 - 0xf0 ≡ p = omega arith in
    rw (
      le→ltb (p + 0xf0) 0x80 (omega arith),
      le→ltb (p + 0xf0) 0xc0 (omega arith),
      le→ltb (p + 0xf0) 0xe0 (omega arith),
      le→ltb (p + 0xf0) 0xf0 (omega arith),
      lt→ltb (p + 0xf0) 0xf8 (omega arith),
      e,
    )

lead_5 : (p : ℕ) (bs : List ℕ) → p < 4 → decode ((p + 0xf8) ∷ bs) ≡ continuation 4 p bs
unfolding decode
lead_5 p bs h =
    let e : p + 0xf8 - 0xf8 ≡ p = omega arith in
    rw (
      le→ltb (p + 0xf8) 0x80 (omega arith),
      le→ltb (p + 0xf8) 0xc0 (omega arith),
      le→ltb (p + 0xf8) 0xe0 (omega arith),
      le→ltb (p + 0xf8) 0xf0 (omega arith),
      le→ltb (p + 0xf8) 0xf8 (omega arith),
      lt→ltb (p + 0xf8) 0xfc (omega arith),
      e,
    )

lead_6 : (p : ℕ) (bs : List ℕ) → p < 2 → decode ((p + 0xfc) ∷ bs) ≡ continuation 5 p bs
unfolding decode
lead_6 p bs h =
    let e : p + 0xfc - 0xfc ≡ p = omega arith in
    rw (
      le→ltb (p + 0xfc) 0x80 (omega arith),
      le→ltb (p + 0xfc) 0xc0 (omega arith),
      le→ltb (p + 0xfc) 0xe0 (omega arith),
      le→ltb (p + 0xfc) 0xf0 (omega arith),
      le→ltb (p + 0xfc) 0xf8 (omega arith),
      le→ltb (p + 0xfc) 0xfc (omega arith),
      lt→ltb (p + 0xfc) 0xfe (omega arith),
      e,
    )

module _ (u : ℕ) (rest : List ℕ) where
  two_bytes : u ≤ 0x7ff → decode ((u / 2 ^ 6 % 32 + 0xc0) ∷ tail_byte u 0 ∷ rest) ≡ some (u, rest)
  two_bytes h =
      lead_2 (u / 2 ^ 6 % 32) _ (omega arith)
      ∙ tail_byte-continuation 0 _ u 0 rest
      ∙ continuation-end u _ rest (omega arith)

  three_bytes :
      u ≤ 0xffff
      → decode ((u / 2 ^ 12 % 16 + 0xe0) ∷ tail_byte u 6 ∷ tail_byte u 0 ∷ rest) ≡ some (u, rest)
  three_bytes h =
      lead_3 (u / 2 ^ 12 % 16) _ (omega arith)
      ∙ tail_byte-continuation 1 _ u 6 _
      ∙ tail_byte-continuation 0 _ u 0 rest
      ∙ continuation-end u _ rest (omega arith)

  four_bytes :
      u ≤ 0x1fffff
      → decode ((u / 2 ^ 18 % 8 + 0xf0) ∷ tail_byte u 12 ∷ tail_byte u 6 ∷ tail_byte u 0 ∷ rest)
        ≡ some (u, rest)
  four_bytes h =
      lead_4 (u / 2 ^ 18 % 8) _ (omega arith)
      ∙ tail_byte-continuation 2 _ u 12 _
      ∙ tail_byte-continuation 1 _ u 6 _
      ∙ tail_byte-continuation 0 _ u 0 rest
      ∙ continuation-end u _ rest (omega arith)

  five_bytes :
      u ≤ 0x3ffffff
      → decode (
          (u / 2 ^ 24 % 4 + 0xf8)
          ∷ tail_byte u 18
          ∷ tail_byte u 12
          ∷ tail_byte u 6
          ∷ tail_byte u 0
          ∷ rest)
        ≡ some (u, rest)
  five_bytes h =
      lead_5 (u / 2 ^ 24 % 4) _ (omega arith)
      ∙ tail_byte-continuation 3 _ u 18 _
      ∙ tail_byte-continuation 2 _ u 12 _
      ∙ tail_byte-continuation 1 _ u 6 _
      ∙ tail_byte-continuation 0 _ u 0 rest
      ∙ continuation-end u _ rest (omega arith)

  six_bytes :
      u ≤ 0x7fffffff
      → decode (
          (u / 2 ^ 30 % 2 + 0xfc)
          ∷ tail_byte u 24
          ∷ tail_byte u 18
          ∷ tail_byte u 12
          ∷ tail_byte u 6
          ∷ tail_byte u 0
          ∷ rest)
        ≡ some (u, rest)
  six_bytes h =
      lead_6 (u / 2 ^ 30 % 2) _ (omega arith)
      ∙ tail_byte-continuation 4 _ u 24 _
      ∙ tail_byte-continuation 3 _ u 18 _
      ∙ tail_byte-continuation 2 _ u 12 _
      ∙ tail_byte-continuation 1 _ u 6 _
      ∙ tail_byte-continuation 0 _ u 0 rest
      ∙ continuation-end u _ rest (omega arith)

in_range : (lo hi u : ℕ) → (leb lo u && leb u hi) ≡ true → u ≤ hi
in_range lo hi u h = ground arith

none_ne_some : {bs : List ℕ} → none ≡ some bs → ⊥
none_ne_some e = cc

-- The bytes of a code point, followed by any others, are read back as that code point, for every
-- code point that the function encodes.
pub decode-unicode_into_utf8 :
    (u : ℕ) (rest : List ℕ) {bs : List ℕ}
    → unicode_into_utf8 u ≡ some bs
    → decode (bs ++ rest) ≡ some (u, rest)
unfolding unicode_into_utf8
decode-unicode_into_utf8 u rest {bs} e = elim (Bool-cases (leb u 0x7f)) [
  | inl y0 ↦ rw (← eq_of_some (rw (y0) at e)) (one_byte u rest (leb→le u 0x7f y0))
  | inr n0 ↦ elim (Bool-cases (leb 0x80 u && leb u 0x7ff)) [
    | inl y1 ↦
        rw (← eq_of_some (rw (n0, y1) at e))
          (two_bytes u rest (omega (arith, in_range 0x80 0x7ff u y1)))
    | inr n1 ↦ elim (Bool-cases (leb 0x800 u && leb u 0xffff)) [
      | inl y2 ↦
          rw (← eq_of_some (rw (n0, n1, y2) at e))
            (three_bytes u rest (omega (arith, in_range 0x800 0xffff u y2)))
      | inr n2 ↦ elim (Bool-cases (leb 0x10000 u && leb u 0x10ffff)) [
        | inl y3 ↦
            rw (← eq_of_some (rw (n0, n1, n2, y3) at e))
              (four_bytes u rest (omega (arith, in_range 0x10000 0x10ffff u y3)))
        | inr n3 ↦ elim (Bool-cases (leb 0x200000 u && leb u 0x3ffffff)) [
          | inl y4 ↦
              rw (← eq_of_some (rw (n0, n1, n2, n3, y4) at e))
                (five_bytes u rest (omega (arith, in_range 0x200000 0x3ffffff u y4)))
          | inr n4 ↦ elim (Bool-cases (leb 0x4000000 u && leb u 0x7fffffff)) [
            | inl y5 ↦
                rw (← eq_of_some (rw (n0, n1, n2, n3, n4, y5) at e))
                  (six_bytes u rest (omega (arith, in_range 0x4000000 0x7fffffff u y5)))
            | inr n5 ↦ absurd (none_ne_some (rw (n0, n1, n2, n3, n4, n5) at e))
          ]
        ]
      ]
    ]
  ]
]

-- Exactly the code points from 0x110000 to 0x1fffff and those above 0x7fffffff are not encoded: the
-- number that is returned for them is not initialised.
pub unicode_into_utf8-eq-none :
    (u : ℕ) → (unicode_into_utf8 u ≡ none) ↔ (((0x110000 ≤ u) × (u ≤ 0x1fffff)) ⊎ (0x80000000 ≤ u))
unfolding unicode_into_utf8
unicode_into_utf8-eq-none u = ground arith

-- Reading a whole text, with the number of its code points.
pub decode_all : ℕ → List ℕ → Option (List ℕ)
decode_all zero bs = some []
decode_all (suc n) bs = elim (decode bs) [
  | none ↦ none
  | some (u, rest) ↦ elim (decode_all n rest) [ none ↦ none | some us ↦ some (u ∷ us) ]
]

abbrev pub AllUnits : List ℕ → Type 0
AllUnits [] = Unit {0}
AllUnits (u ∷ us) = (u < 2 ^ 16) × AllUnits us

-- Every string of 16-bit units is encoded, and its bytes are read back as the same units.
pub decode-str_unicode_to_utf8 :
    (us : List ℕ)
    → AllUnits us
    → (bs : List ℕ) × (str_unicode_to_utf8 us ≡ some bs) × (decode_all (length us) bs ≡ some us)
unfolding str_unicode_to_utf8 decode_all
decode-str_unicode_to_utf8 [] ok = ([], refl, refl)
decode-str_unicode_to_utf8 (u ∷ us) ok =
    let (more, e, back) = decode-str_unicode_to_utf8 us ok.1 in
    elim (Option-cases (unicode_into_utf8 u)) [
      | inl missing ↦ absurd (ground (arith, (unicode_into_utf8-eq-none u).0 missing))
      | inr (bs, first) ↦
          (bs ++ more, rw (first, e), rw (decode-unicode_into_utf8 u more first, back, decode_all))
    ]
