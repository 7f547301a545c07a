-- ===== src/Fs/Fat/Names/Both.antt =====
-- fs/fat.c: read_name gives back each name that a directory can hold, of either kind.
use raincloud.Prelude.{
  Bool, eq_of_some, ℕ, zero, suc, ◌+◌, ◌*◌, ◌<◌, ◌≤◌, ◌≡◌, refl, sym, ap, ◌∙◌, true, false, Option,
  some, List, [], ◌∷◌, ◌++◌, ◌==◌, if◌then◌else◌, length, length-append, drop, arith, ltb,
}
use mathlib.Core.List.{append_assoc}
use raincloud.Klibc.Utf8.{str_unicode_to_utf8}
use raincloud.Klibc.Utf8.Decode.{AllUnits, decode_all, decode-str_unicode_to_utf8}
use raincloud.Fs.Fat.Names.{
  NameRead, name_read, failed, attr_of, attr_long_name, short_name, read_name, until_nul,
  is_last_part, long_name,
}
use raincloud.Fs.Fat.Names.Long.{
  HoldsLong, Units, gather-HoldsLong, long_end-HoldsLong, until_nul-Units, HoldsLong-attr,
}
use raincloud.Fs.Fat.Names.Short.{HoldsShort, with_extension, short_name-HoldsShort}

-- A name as a directory has it: 16-bit units before an entry, or eight and three bytes in it.
pub data StoredName : Type 0 where
  long : (units : List ℕ) → StoredName
  short : (base extension : List ℕ) → StoredName

-- The name stands at `e`, with `n` entries before the one it is of, which has another attribute.
abbrev pub HoldsName : (ℕ → ℕ) → (e n : ℕ) → StoredName → Type 0
HoldsName mem e n (long us) =
    HoldsLong mem e n us
    × Units us
    × (length us < 256)
    × ((attr_of mem e n == attr_long_name) ≡ false)
HoldsName mem e n (short base extension) =
    (n ≡ 0) × HoldsShort mem e base extension × ((attr_of mem e 0 == attr_long_name) ≡ false)

-- The text of a name: what is in its entry, or the UTF-8 of its units.
abbrev pub Spells : StoredName → List ℕ → Type 0
Spells (long us) name = decode_all (length us) name ≡ some us
Spells (short base extension) name = name ≡ with_extension base extension

Units-AllUnits : (us : List ℕ) → Units us → AllUnits us
Units-AllUnits [] clean = tt
Units-AllUnits (u ∷ us) clean = (omega arith, Units-AllUnits us clean.2)

HoldsLong-begins :
    (mem : ℕ → ℕ) (e n : ℕ) (us : List ℕ) → HoldsLong mem e n us → (0 < n) × ((mem e == 0) ≡ false)
HoldsLong-begins mem e zero us holds = absurd holds
HoldsLong-begins mem e (suc zero) us holds =
    let first : e + 32 * 0 ≡ e = omega arith in
    let flag : is_last_part mem e ≡ true = rw first at holds.0 in (omega arith, ground arith)
HoldsLong-begins mem e (suc (suc n)) us holds =
    (omega arith, (HoldsLong-begins mem e (suc n) (drop 13 us) holds.4).1)

HoldsShort-begins :
    (mem : ℕ → ℕ) (e : ℕ) (base extension : List ℕ)
    → HoldsShort mem e base extension
    → (mem e == 0) ≡ false
HoldsShort-begins mem e [] extension holds = absurd (omega (arith, holds.4))
HoldsShort-begins mem e (x ∷ xs) extension (name, ext, solid, other, pos, fits, small, plain) =
    let same : mem e ≡ x = cc in ground (arith, solid.0)

-- A buffer that begins with the units and a NUL.
buffered : (us r : List ℕ) → Units us → until_nul ((us ++ 0 ∷ []) ++ r) ≡ some us
buffered us r clean = ap until_nul (append_assoc us (0 ∷ []) r) ∙ until_nul-Units us r clean

-- The branch of a short name.
short_branch :
    (empty wide : Bool) (a b c : NameRead)
    → empty ≡ false
    → wide ≡ false
    → (if empty then a else if wide then b else c) ≡ c
short_branch empty wide a b c e l = rw (e, l) refl

-- A free entry ends the directory.
pub read_name_free :
    (mem : ℕ → ℕ) (raw : List ℕ) (e max : ℕ) → mem e ≡ 0 → read_name mem raw e max ≡ failed
unfolding read_name
read_name_free mem raw e max free = let empty : (mem e == 0) ≡ true = ground arith in rw empty refl

-- The text of a name: the UTF-8 of its units, or what is in its entry.
abbrev pub text_of : StoredName → Option (List ℕ)
text_of (long us) = str_unicode_to_utf8 us
text_of (short base extension) = some (with_extension base extension)

pub read_name-text :
    (mem : ℕ → ℕ) (raw : List ℕ) (e max n : ℕ) (stored : StoredName) (name : List ℕ)
    → HoldsName mem e n stored
    → n ≤ max
    → text_of stored ≡ some name
    → read_name mem raw e max ≡ name_read n name
unfolding read_name
read_name-text mem raw e max n (long us) name (holds, clean, small, ends) fits encoded =
    let (pos, first) = HoldsLong-begins mem e n us holds in
    let kind = HoldsLong-attr mem e n 0 us holds pos in
    let end =
      long_end-HoldsLong mem e (max + 1) 0 n us holds (λ same. ground (arith, ends)) (omega arith)
        (omega arith) in
    let room : ltb 256 (length (us ++ 0 ∷ [])) ≡ false =
      ground (arith, length-append us (0 ∷ [])) in
    let units = gather-HoldsLong mem e n us [] holds clean in
    let text = buffered us (drop (length (us ++ 0 ∷ [])) raw) clean in
    let read : long_name mem raw e (some n) ≡ name_read n name =
      rw (units, room, text, encoded) refl in
    rw (first, kind) (ap (long_name mem raw e) end ∙ read)
read_name-text mem raw e max n (short base extension) name (alone, holds, other) fits encoded =
    short_branch (mem e == 0) _ _ _ (name_read 0 (short_name mem e))
      (HoldsShort-begins mem e base extension holds) other
    ∙ ap (name_read 0) (short_name-HoldsShort mem e base extension holds ∙ eq_of_some encoded)
    ∙ ap (λ k. name_read k name) (sym alone)

-- A name that stands at `dir_entry` with its entries within the limit is read: the number of
-- entries before its own is returned, and the text spells the name.
pub read_name_lem :
    (mem : ℕ → ℕ) (raw : List ℕ) (e max n : ℕ) (stored : StoredName)
    → HoldsName mem e n stored
    → n ≤ max
    → (name : List ℕ) × (read_name mem raw e max ≡ name_read n name) × Spells stored name
read_name_lem mem raw e max n (long us) holds fits =
    let (name, encoded, back) = decode-str_unicode_to_utf8 us (Units-AllUnits us holds.1) in
    (name, read_name-text mem raw e max n (long us) name holds fits encoded, back)
read_name_lem mem raw e max n (short base extension) holds fits = (
  with_extension base extension,
  read_name-text mem raw e max n (short base extension) _ holds fits refl,
  refl,
)
