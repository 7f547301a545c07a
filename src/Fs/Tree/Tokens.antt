-- ===== src/Fs/Tree/Tokens.antt =====
-- The tokens of a path: what repeated calls of strtok_r give are the names between the slashes.
use raincloud.Prelude.{
  ℕ, zero, suc, ◌<◌, ◌≤◌, ◌≡◌, ◌≢◌, false, Option, none, some, List, [], ◌∷◌, ◌++◌, arith, refl,
  sym, ap, ◌∙◌, ◌==◌, if◌then◌else◌, Bool-cases, inl, inr, length,
}
use mathlib.Core.List.{append_assoc, append-nil}
use raincloud.Fs.Tree.{Text, slash, skip_slashes, take_token, token_of, strtok_r, tokens}

-- A name goes before the others, unless it is empty.
abbrev pub emit : Text → List Text → List Text
emit [] names = names
emit (x ∷ xs) names = (x ∷ xs) ∷ names

-- The names between the slashes, of which `cur` is the one begun.
unfoldable pub split : (cur s : Text) → List Text
split cur [] = emit cur []
split cur (x ∷ s) =
    let ended = emit cur (split [] s) in
    let longer = split (cur ++ x ∷ []) s in if x == slash then ended else longer

abbrev pub names : Text → List Text
names s = split [] s

split-take_token :
    (cur s : Text) → split cur s ≡ emit (cur ++ (take_token s).0) (split [] (take_token s).1)
unfolding split take_token
split-take_token cur [] = rw (append-nil cur) refl
split-take_token cur (x ∷ s) = elim (Bool-cases (x == slash)) [
  | inl ends ↦ rw (ends, append-nil cur) refl
  | inr goes ↦
      let rest = split-take_token (cur ++ x ∷ []) s in
      rw goes (
        rest
        ∙ ap (λ t. emit t (split [] (take_token s).1)) (append_assoc cur (x ∷ []) (take_token s).0))
]

split-skip_slashes : (s : Text) → split [] (skip_slashes s) ≡ split [] s
unfolding split skip_slashes
split-skip_slashes [] = refl
split-skip_slashes (x ∷ s) = elim (Bool-cases (x == slash)) [
  | inl ends ↦ rw ends (split-skip_slashes s)
  | inr goes ↦ let kept : skip_slashes (x ∷ s) ≡ x ∷ s = rw goes refl in ap (split []) kept
]

length-take_token : (s : Text) → length (take_token s).1 ≤ length s
unfolding take_token
length-take_token [] = omega arith
length-take_token (x ∷ s) = elim (Bool-cases (x == slash)) [
  | inl ends ↦ rw ends (omega arith)
  | inr goes ↦ rw goes (omega (arith, length-take_token s))
]

-- What is left behind the slashes is shorter or begins with another byte.
skip_slashes-first :
    (s : Text) {x : ℕ} {rest : Text}
    → skip_slashes s ≡ x ∷ rest
    → ((x == slash) ≡ false) × (length rest < length s)
unfolding skip_slashes
skip_slashes-first [] e = absurd (cc)
skip_slashes-first (y ∷ s) {x} {rest} e = elim (Bool-cases (y == slash)) [
  | inl ends ↦ let later = skip_slashes-first s (rw ends at e) in (later.0, omega (arith, later.1))
  | inr goes ↦
      let kept : y ∷ s ≡ x ∷ rest = rw goes at e in
      let yx : y ≡ x = cc in let sr : s ≡ rest = cc in (rw yx at goes, rw sr (omega arith))
]

strtok_r-none : (s : Text) → skip_slashes s ≡ [] → strtok_r s ≡ none
unfolding strtok_r
strtok_r-none s e = ap token_of e

strtok_r-some :
    (s : Text) {x : ℕ} {rest : Text}
    → skip_slashes s ≡ x ∷ rest
    → strtok_r s ≡ some (take_token (x ∷ rest))
unfolding strtok_r
strtok_r-some s e = ap token_of e

-- What `tokens` goes on with.
abbrev token_list : ℕ → Option (Text × Text) → List Text
token_list fuel none = []
token_list fuel (some (t, rest)) = t ∷ tokens fuel rest

-- The loop over the tokens of a path ends: with more fuel than the path has bytes it gives the
-- names between the slashes that are not empty.
pub tokens-names : (fuel : ℕ) (s : Text) → length s < fuel → tokens fuel s ≡ names s
unfolding tokens split take_token
tokens-names zero s enough = absurd (omega arith)
tokens-names (suc fuel) s enough = go (skip_slashes s) refl (λ r short. tokens-names fuel r short)
  where
    go :
        (front : Text)
        → skip_slashes s ≡ front
        → ((r : Text) → length r < fuel → tokens fuel r ≡ names r)
        → tokens (suc fuel) s ≡ names s
    go [] e later =
        ap (token_list fuel) (strtok_r-none s e) ∙ ap (split []) (sym e) ∙ split-skip_slashes s
    go (x ∷ rest) e later =
        let (goes, shorter) = skip_slashes-first s e in
        let next = later (take_token rest).1 (omega (arith, length-take_token rest)) in
        let token : take_token (x ∷ rest) ≡ (x ∷ (take_token rest).0, (take_token rest).1) =
          rw goes refl in
        ap (token_list fuel) (strtok_r-some s e ∙ ap some token)
        ∙ ap (λ ns. (x ∷ (take_token rest).0) ∷ ns) next
        ∙ ap (λ r. emit r.0 (split [] r.1)) (sym token)
        ∙ sym (split-take_token [] (x ∷ rest))
        ∙ ap (split []) (sym e)
        ∙ split-skip_slashes s

emit_append : (cur : Text) (xs ys : List Text) → emit cur xs ++ ys ≡ emit cur (xs ++ ys)
emit_append [] xs ys = refl
emit_append (x ∷ cur) xs ys = refl

-- The names of a path are those before any slash and those behind it.
pub split-slash : (cur s t : Text) → split cur (s ++ slash ∷ t) ≡ split cur s ++ names t
unfolding split
split-slash cur [] t = sym (emit_append cur [] (names t))
split-slash cur (x ∷ s) t = elim (Bool-cases (x == slash)) [
  | inl ends ↦
      rw ends (ap (emit cur) (split-slash [] s t) ∙ sym (emit_append cur (split [] s) (names t)))
  | inr goes ↦ rw goes (split-slash (cur ++ x ∷ []) s t)
]

-- A name holds no slash.
abbrev pub NoSlash : Text → Type 0
NoSlash [] = Unit {0}
NoSlash (x ∷ s) = ((x == slash) ≡ false) × NoSlash s

pub split-NoSlash : (cur s : Text) → NoSlash s → split cur s ≡ emit (cur ++ s) []
unfolding split
split-NoSlash cur [] clean = rw (append-nil cur) refl
split-NoSlash cur (x ∷ s) clean =
    rw clean.0
      (split-NoSlash (cur ++ x ∷ []) s clean.1 ∙ ap (λ t. emit t []) (append_assoc cur (x ∷ []) s))

pub names-child :
    (path name : Text)
    → name ≢ []
    → NoSlash name
    → names (path ++ slash ∷ name) ≡ names path ++ name ∷ []
names-child path [] given clean = absurd (given refl)
names-child path (x ∷ name) given clean =
    split-slash [] path (x ∷ name) ∙ ap (λ r. names path ++ r) (split-NoSlash [] (x ∷ name) clean)

-- A slash at the end adds no name.
pub names-slash : (path : Text) → names (path ++ slash ∷ []) ≡ names path
unfolding split
names-slash path = split-slash [] path [] ∙ append-nil (names path)
