-- ===== src/Fs/Fat/Names/Short.antt =====
-- fs/fat.c: a name of eight and three bytes is read back from its entry.
use raincloud.Prelude.{
  ℕ, zero, suc, ◌+◌, ◌-◌, ◌<◌, ◌≤◌, ◌≡◌, ◌≢◌, ◌⊎◌, refl, ap, ◌∙◌, Bool, true, false, ◌||◌, List, [],
  ◌∷◌, ◌++◌, ◌==◌, if◌then◌else◌, length, replicate, arith, inl, inr,
}
use raincloud.Fs.Fat.Names.{bytes_at, cut, is_dots, is_space, join_name, short_name}

-- A byte of a name: neither a NUL nor a space.
abbrev pub Solid : List ℕ → Type 0
Solid [] = Unit {0}
Solid (x ∷ xs) = (x ≢ 0) × (x ≢ 32) × Solid xs

abbrev pub filled : (n : ℕ) → List ℕ → List ℕ
filled n xs = xs ++ replicate (n - length xs) 32

-- The entry at `e` has the name, filled with spaces.
abbrev pub HoldsShort : (ℕ → ℕ) → (e : ℕ) → (base extension : List ℕ) → Type 0
HoldsShort mem e base extension =
    (bytes_at mem 8 e ≡ filled 8 base)
    × (bytes_at mem 3 (e + 8) ≡ filled 3 extension)
    × Solid base
    × Solid extension
    × (0 < length base)
    × (length base ≤ 8)
    × (length extension ≤ 3)
    × ((is_dots base ≡ false) ⊎ (extension ≡ []))

-- How the name is written: the extension, if there is one, behind a dot.
abbrev pub with_extension : (base extension : List ℕ) → List ℕ
with_extension base [] = base
with_extension base (x ∷ xs) = base ++ 46 ∷ x ∷ xs

cut-Solid : (xs : List ℕ) (n : ℕ) → Solid xs → cut (xs ++ replicate n 32) ≡ xs
unfolding cut
cut-Solid [] zero solid = refl
cut-Solid [] (suc n) solid = refl
cut-Solid (x ∷ xs) n solid = ground (arith, cut-Solid xs n solid.2)

cut-append : (xs ys : List ℕ) → Solid xs → cut (xs ++ ys) ≡ xs ++ cut ys
unfolding cut
cut-append [] ys solid = refl
cut-append (x ∷ xs) ys solid = ground (arith, cut-append xs ys solid.2)

cut_dotted :
    (base xs : List ℕ) (n : ℕ)
    → Solid base
    → Solid xs
    → cut (base ++ 46 ∷ (xs ++ replicate n 32)) ≡ base ++ 46 ∷ xs
unfolding cut
cut_dotted base xs n b solid =
    cut-append base (46 ∷ (xs ++ replicate n 32)) b
    ∙ ap (λ ys. base ++ 46 ∷ ys) (cut-Solid xs n solid)

-- The two ways to join.
join_short :
    (base whole : List ℕ) (dots space : Bool)
    → space ≡ true
    → (if dots || space then base else whole) ≡ base
join_short base whole true space e = refl
join_short base whole false space e = rw e refl

-- A name of at most eight and three bytes is read back from the bytes that it is filled up to.
join_name-filled :
    (base extension : List ℕ) (k n : ℕ)
    → Solid base
    → Solid extension
    → (is_dots base ≡ false) ⊎ (extension ≡ [])
    → length extension ≤ n
    → 0 < n
    → join_name (base ++ replicate k 32) (filled n extension) ≡ with_extension base extension
unfolding join_name
join_name-filled base [] k (suc n) b solid plain fits pos =
    let whole : suc n - 0 ≡ suc n = omega arith in
    let blank : is_space (filled (suc n) []) ≡ true = rw whole refl in
    rw (cut-Solid base k b) (join_short base _ (is_dots base) (is_space (filled (suc n) [])) blank)
join_name-filled base (x ∷ xs) k n b solid (inl plain) fits pos =
    let other : (x == 32) ≡ false = ground (arith, solid.1) in
    rw (cut-Solid base k b, plain, other) (cut_dotted base (x ∷ xs) (n - length (x ∷ xs)) b solid)
join_name-filled base (x ∷ xs) k n b solid (inr empty) fits pos = absurd (cc)
join_name-filled base [] k zero b solid plain fits pos = absurd (omega arith)

pub short_name-HoldsShort :
    (mem : ℕ → ℕ) (e : ℕ) (base extension : List ℕ)
    → HoldsShort mem e base extension
    → short_name mem e ≡ with_extension base extension
unfolding short_name
short_name-HoldsShort mem e base extension (name, ext, b, x, pos, fits, short, plain) =
    ap (λ ns. join_name ns (bytes_at mem 3 (e + 8))) name
    ∙ ap (λ xs. join_name (filled 8 base) xs) ext
    ∙ join_name-filled base extension (8 - length base) 3 b x plain short (omega arith)
