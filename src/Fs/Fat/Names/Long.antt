-- ===== src/Fs/Fat/Names/Long.antt =====
-- fs/fat.c: a long name is read back from the entries that hold it.
use raincloud.Prelude.{
  ℕ, zero, suc, ◌+◌, ◌*◌, ◌<◌, ◌≤◌, ◌≡◌, ◌≢◌, refl, sym, ap, ◌∙◌, Bool, true, false, ◌||◌, Option,
  some, List, [], ◌∷◌, ◌++◌, ◌==◌, if◌then◌else◌, length, drop, take, replicate, arith,
}
use raincloud.Prelude.{Bool-cases, inl, inr, ==_iff, length-take, Option-cases}
use mathlib.Core.List.{append_assoc}
use raincloud.Fs.Fat.Names.{
  attr_of, attr_long_name, long_end, wstrncpy, units_at, is_pad, copy_parts, copy_entry,
  is_last_part, gather, until_nul,
}

-- The thirteen units of an entry.
abbrev pub entry_units : (ℕ → ℕ) → ℕ → List ℕ
entry_units mem at = units_at mem 5 (at + 1) ++ units_at mem 6 (at + 14) ++ units_at mem 2 (at + 28)

-- A unit of a name: neither the NUL nor the mark of what is not used.
abbrev pub Units : List ℕ → Type 0
Units [] = Unit {0}
Units (u ∷ us) = (0 < u) × (u < 0xffff) × Units us

-- What an entry holds of the end of a name: the name, a NUL, and marks.
abbrev pub padded : List ℕ → List ℕ
padded us = take 13 (us ++ 0 ∷ replicate 12 0xffff)

-- The entries from `e` on hold the name: the last part first, marked as the last one, and
-- thirteen units in every other part.
abbrev pub HoldsLong : (ℕ → ℕ) → (e n : ℕ) → List ℕ → Type 0
HoldsLong mem e zero us = ⊥
HoldsLong mem e (suc zero) us =
    (is_last_part mem (e + 32 * 0) ≡ true)
    × (attr_of mem e 0 ≡ attr_long_name)
    × (entry_units mem (e + 32 * 0) ≡ padded us)
    × (0 < length us)
    × (length us < 13)
HoldsLong mem e (suc (suc n)) us =
    (is_last_part mem (e + 32 * suc n) ≡ false)
    × (attr_of mem e (suc n) ≡ attr_long_name)
    × (entry_units mem (e + 32 * suc n) ≡ take 13 us)
    × (13 < length us)
    × HoldsLong mem e (suc n) (drop 13 us)

-- The parts of thirteen units.
abbrev copy_units : List ℕ → Bool × List ℕ
copy_units us = copy_parts (take 5 us) (take 6 (drop 5 us)) (drop 11 us)

copy_entry-units : (mem : ℕ → ℕ) (at : ℕ) → copy_entry mem at ≡ copy_units (entry_units mem at)
copy_entry-units mem at = refl

wstrncpy-Units : (us : List ℕ) → Units us → wstrncpy us ≡ us
unfolding wstrncpy
wstrncpy-Units [] clean = refl
wstrncpy-Units (u ∷ us) clean = ground (arith, wstrncpy-Units us clean.2)

Units-not-pad : (us : List ℕ) → Units us → is_pad us ≡ false
Units-not-pad [] clean = refl
Units-not-pad (u ∷ us) clean = ground arith

copy_whole :
    (name1 name2 name3 : List ℕ)
    → Units name1
    → Units name2
    → is_pad name3 ≡ false
    → copy_parts name1 name2 name3 ≡ (false, name1 ++ name2 ++ wstrncpy name3)
unfolding copy_parts
copy_whole name1 name2 name3 c1 c2 c3 =
    rw (Units-not-pad name1 c1, Units-not-pad name2 c2, c3)
      (rw (wstrncpy-Units name1 c1, wstrncpy-Units name2 c2) refl)

-- A full part is copied whole.
copy_full : (us : List ℕ) → Units us → length us ≡ 13 → copy_units us ≡ (false, us)
copy_full (a ∷ b ∷ c ∷ d ∷ e ∷ f ∷ g ∷ h ∷ i ∷ j ∷ k ∷ l ∷ m ∷ []) clean n =
    copy_whole (a ∷ b ∷ c ∷ d ∷ e ∷ []) (f ∷ g ∷ h ∷ i ∷ j ∷ k ∷ []) (l ∷ m ∷ []) (omega arith)
      (omega arith) (Units-not-pad (l ∷ m ∷ []) (omega arith))
    ∙ ap (λ us. (false, (a ∷ b ∷ c ∷ d ∷ e ∷ f ∷ g ∷ h ∷ i ∷ j ∷ k ∷ us)))
        (wstrncpy-Units (l ∷ m ∷ []) (omega arith))
copy_full us clean n = absurd (omega arith)

-- Of the last part, the name is copied and a NUL.
copy_padded :
    (us : List ℕ)
    → Units us
    → 0 < length us
    → length us < 13
    → (copy_units (padded us)).1 ≡ us ++ 0 ∷ []
unfolding copy_parts wstrncpy
copy_padded (a ∷ b ∷ c ∷ d ∷ e ∷ f ∷ g ∷ h ∷ i ∷ j ∷ k ∷ l ∷ []) clean pos n =
    let last : wstrncpy (l ∷ 0 ∷ []) ≡ l ∷ 0 ∷ [] = ground arith in
    rw
      (
        copy_whole (a ∷ b ∷ c ∷ d ∷ e ∷ []) (f ∷ g ∷ h ∷ i ∷ j ∷ k ∷ []) (l ∷ 0 ∷ []) (omega arith)
            (omega arith) (ground arith),
        last,
      )
      refl
copy_padded us clean pos n = ground arith

take-drop {ℓ} : {A : Type ℓ} (k : ℕ) (us : List A) → take k us ++ drop k us ≡ us
take-drop zero us = refl
take-drop (suc k) [] = refl
take-drop (suc k) (u ∷ us) = ap (λ vs. u ∷ vs) (take-drop k us)

Units-take : (k : ℕ) (us : List ℕ) → Units us → Units (take k us)
Units-take zero us clean = tt
Units-take (suc k) [] clean = tt
Units-take (suc k) (u ∷ us) clean = (clean.0, clean.1, Units-take k us clean.2)

Units-drop : (k : ℕ) (us : List ℕ) → Units us → Units (drop k us)
Units-drop zero us clean = clean
Units-drop (suc k) [] clean = tt
Units-drop (suc k) (u ∷ us) clean = Units-drop k us clean.2

-- The two ways on of a round.
round_last :
    (part : Bool × List ℕ) (last : Bool) (w us : List ℕ) (rest : Option (List ℕ))
    → part.1 ≡ us
    → last ≡ true
    → (if part.0 || last then some (w ++ part.1) else rest) ≡ some (w ++ us)
round_last (true, vs) last w us rest e l = ap (λ vs. some (w ++ vs)) e
round_last (false, vs) last w us rest e l = rw l (ap (λ vs. some (w ++ vs)) e)

module _ (mem : ℕ → ℕ) (e : ℕ) where
  pub gather-HoldsLong :
      (n : ℕ) (us w : List ℕ)
      → HoldsLong mem e n us
      → Units us
      → gather mem e n w ≡ some (w ++ (us ++ 0 ∷ []))
  unfolding gather
  gather-HoldsLong zero us w holds clean = absurd holds
  gather-HoldsLong (suc zero) us w (last, long, units, pos, small) clean =
      round_last (copy_entry mem (e + 32 * 0)) (is_last_part mem (e + 32 * 0)) w (us ++ 0 ∷ []) _
        (ap (λ vs. (copy_units vs).1) units ∙ copy_padded us clean pos small) last
  gather-HoldsLong (suc (suc n)) us w (more, long, units, big, holds) clean =
      let full : copy_entry mem (e + 32 * suc n) ≡ (false, take 13 us) =
        ap copy_units units
        ∙ copy_full (take 13 us) (Units-take 13 us clean) (omega (arith, length-take 13 us)) in
      let whole : (w ++ take 13 us) ++ (drop 13 us ++ 0 ∷ []) ≡ w ++ (us ++ 0 ∷ []) =
        append_assoc w (take 13 us) (drop 13 us ++ 0 ∷ [])
        ∙ ap (λ vs. w ++ vs)
            (sym (append_assoc (take 13 us) (drop 13 us) (0 ∷ []))
              ∙ ap (λ vs. vs ++ 0 ∷ []) (take-drop 13 us)) in
      rw (full, more)
        (gather-HoldsLong (suc n) (drop 13 us) (w ++ take 13 us) holds (Units-drop 13 us clean)
          ∙ ap some whole)

  pub HoldsLong-attr :
      (n k : ℕ) (us : List ℕ) → HoldsLong mem e n us → k < n → attr_of mem e k ≡ attr_long_name
  HoldsLong-attr zero k us holds small = absurd holds
  HoldsLong-attr (suc zero) zero us holds small = holds.1
  HoldsLong-attr (suc zero) (suc k) us holds small = absurd (omega arith)
  HoldsLong-attr (suc (suc n)) k us holds small = elim (Bool-cases (k == suc n)) [
    | inl last ↦ rw ((==_iff k (suc n)).0 last) holds.1
    | inr other ↦ HoldsLong-attr (suc n) k (drop 13 us) holds.4 (ground arith)
  ]

  pub long_end-HoldsLong :
      (left k n : ℕ) (us : List ℕ)
      → HoldsLong mem e n us
      → attr_of mem e n ≢ attr_long_name
      → k ≤ n
      → n < k + left
      → long_end mem e left k ≡ some n
  unfolding long_end
  long_end-HoldsLong zero k n us holds ends low high = absurd (omega arith)
  long_end-HoldsLong (suc left) k n us holds ends low high = elim (Bool-cases (k == n)) [
    | inl here ↦ rw ((==_iff k n).0 here) (ground (arith, ends))
    | inr later ↦
        rw (HoldsLong-attr n k us holds (ground arith))
          (long_end-HoldsLong left (k + 1) n us holds ends (ground arith) (omega arith))
  ]

-- The string in the buffer is what was copied before its NUL.
pub until_nul-Units : (us r : List ℕ) → Units us → until_nul (us ++ 0 ∷ r) ≡ some us
unfolding until_nul
until_nul-Units [] r clean = elim (Option-cases (until_nul r)) [
  | inl e ↦ rw e refl
  | inr (rest, e) ↦ rw e refl
]
until_nul-Units (u ∷ us) r clean = rw (until_nul-Units us r clean.2) (ground arith)
