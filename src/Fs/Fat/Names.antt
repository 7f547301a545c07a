-- ===== src/Fs/Fat/Names.antt =====
-- fs/fat.c: `read_name`, the name that begins at a directory entry. Entries have 32 bytes and
-- stand in memory one behind the other; `e` is the address of `dir_entry`.
pub mod Short
pub mod Long
pub mod Both
use raincloud.Prelude.{
  ℕ, zero, suc, ◌+◌, ◌-◌, ◌*◌, ◌/◌, ◌%◌, ◌^◌, Bool, true, false, ◌&&◌, ◌||◌, not, Option, none,
  some, List, [], ◌∷◌, ◌++◌, ltb, ◌==◌, if◌then◌else◌, length, drop,
}
use raincloud.Klibc.Utf8.{str_unicode_to_utf8}
use raincloud.Fs.Tree.{same_text}
use raincloud.Fs.Fat.Volume.{le16}

abbrev pub attr_long_name : ℕ
attr_long_name = 0x0f

-- The name and the number of long-name entries before the one it is of; -1; or the units were
-- written or read past the 512 bytes that hold them.
pub data NameRead : Type 0 where
  name_read : (offset : ℕ) → (name : List ℕ) → NameRead
  failed : NameRead
  overrun : NameRead

-- `memcpy`: `n` bytes from `at` on.
abbrev pub bytes_at : (ℕ → ℕ) → (n at : ℕ) → List ℕ
bytes_at mem zero at = []
bytes_at mem (suc n) at = mem at ∷ bytes_at mem n (at + 1)

-- The string up to `strcspn(s, " ")`: what is before the first space or NUL.
unfoldable pub cut : List ℕ → List ℕ
cut [] = []
cut (x ∷ xs) = let rest = cut xs in if (x == 0) || (x == 32) then [] else x ∷ rest

-- "." and "..".
abbrev pub is_dots : List ℕ → Bool
is_dots s = same_text s (46 ∷ []) || same_text s (46 ∷ 46 ∷ [])

abbrev pub is_space : List ℕ → Bool
is_space [] = false
is_space (x ∷ xs) = x == 32

-- From the eight bytes and the three bytes of `DIR_Name`.
unfoldable pub join_name : (name extension : List ℕ) → List ℕ
unfolding cut same_text
join_name name extension =
    let base = cut name in
    let whole = cut (base ++ 46 ∷ extension) in
    if is_dots base || is_space extension then base else whole

unfoldable pub short_name : (ℕ → ℕ) → ℕ → List ℕ
unfolding join_name
short_name mem e = join_name (bytes_at mem 8 e) (bytes_at mem 3 (e + 8))

-- `entry->LDIR_Attr` of the k-th entry from `dir_entry` on.
abbrev pub attr_of : (ℕ → ℕ) → (e k : ℕ) → ℕ
attr_of mem e k = mem (e + 32 * k + 11)

-- The first loop, with `left` entries up to the limit of `max`: which entry has another attribute.
unfoldable pub long_end : (ℕ → ℕ) → (e left k : ℕ) → Option ℕ
long_end mem e zero k = none
long_end mem e (suc left) k =
    let rest = long_end mem e left (k + 1) in
    if attr_of mem e k == attr_long_name then rest else some k

-- The units that `wstrncpy` copies: as many as the source has here, up to a NUL.
unfoldable pub wstrncpy : List ℕ → List ℕ
wstrncpy [] = []
wstrncpy (u ∷ us) = let rest = wstrncpy us in if u == 0 then 0 ∷ [] else u ∷ rest

abbrev pub units_at : (ℕ → ℕ) → (n at : ℕ) → List ℕ
units_at mem zero at = []
units_at mem (suc n) at = le16 mem at ∷ units_at mem n (at + 2)

abbrev pub is_pad : List ℕ → Bool
is_pad [] = false
is_pad (u ∷ us) = u == 0xffff

-- One round of the second loop over LDIR_Name1, LDIR_Name2 and LDIR_Name3: whether it breaks, and
-- the units copied.
unfoldable pub copy_parts : (name1 name2 name3 : List ℕ) → Bool × List ℕ
unfolding wstrncpy
copy_parts name1 name2 name3 =
    if is_pad name1
    then (true, [])
    else if is_pad name2
    then (true, wstrncpy name1)
    else if is_pad name3
    then (true, wstrncpy name1 ++ wstrncpy name2)
    else (false, wstrncpy name1 ++ wstrncpy name2 ++ wstrncpy name3)

abbrev pub copy_entry : (ℕ → ℕ) → ℕ → Bool × List ℕ
copy_entry mem at =
    copy_parts (units_at mem 5 (at + 1)) (units_at mem 6 (at + 14)) (units_at mem 2 (at + 28))

-- `LDIR_Ord & 0x40`.
abbrev pub is_last_part : (ℕ → ℕ) → ℕ → Bool
is_last_part mem at = mem at / 2 ^ 6 % 2 == 1

-- The second loop, from the last of `n` entries down to `dir_entry`; the round behind that one
-- reads the entry before it and then returns -1, unless it breaks. `none` is -1.
unfoldable pub gather : (ℕ → ℕ) → (e n : ℕ) → (written : List ℕ) → Option (List ℕ)
unfolding copy_parts
gather mem e zero written =
    let (stops, us) = copy_entry mem (e - 32) in if stops then some (written ++ us) else none
gather mem e (suc n) written =
    let at = e + 32 * n in
    let (stops, us) = copy_entry mem at in
    let rest = gather mem e n (written ++ us) in
    if stops || is_last_part mem at then some (written ++ us) else rest

-- The string in the buffer that is converted, up to its NUL; `none` if there is none.
unfoldable pub until_nul : List ℕ → Option (List ℕ)
until_nul [] = none
until_nul (u ∷ us) = elim (until_nul us) [
  | some rest ↦ if u == 0 then some [] else some (u ∷ rest)
  | none ↦ if u == 0 then some [] else none
]

abbrev pub named : (offset : ℕ) → Option (List ℕ) → NameRead
named offset none = overrun
named offset (some name) = name_read offset name

abbrev pub utf8_of : Option (List ℕ) → Option (List ℕ)
utf8_of none = none
utf8_of (some us) = str_unicode_to_utf8 us

-- `raw` has the units of the buffer as `malloc` gives it.
abbrev pub convert : (raw : List ℕ) → (offset : ℕ) → Option (List ℕ) → NameRead
convert raw offset none = failed
convert raw offset (some written) =
    if ltb 256 (length written)
    then overrun
    else named offset (utf8_of (until_nul (written ++ drop (length written) raw)))

abbrev pub long_name : (ℕ → ℕ) → (raw : List ℕ) → ℕ → Option ℕ → NameRead
long_name mem raw e none = failed
long_name mem raw e (some n) = convert raw n (gather mem e n [])

unfoldable pub read_name : (mem : ℕ → ℕ) → (raw : List ℕ) → (dir_entry max : ℕ) → NameRead
unfolding short_name long_end gather until_nul str_unicode_to_utf8
read_name mem raw e max =
    let long = long_name mem raw e (long_end mem e (max + 1) 0) in
    if mem e == 0
    then failed
    else if attr_of mem e 0 == attr_long_name
    then long
    else name_read 0 (short_name mem e)
