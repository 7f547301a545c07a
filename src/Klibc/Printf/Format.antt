-- ===== src/Klibc/Printf/Format.antt =====
-- lib/printf.c: text and conversions in a format string.
use raincloud.Prelude.{
  ℕ, ◌≡◌, ◌≢◌, refl, ap, sym, ◌∙◌, false, Option, none, some, List, [], ◌∷◌, ◌++◌, ◌==◌, arith,
}
use mathlib.Core.List.{append_assoc}
use raincloud.Klibc.Printf.{
  Arg, word, plain, print_format, print_deci, print_hex, format_step, prepend,
}

-- No character is a percent sign.
abbrev pub IsPlain : List ℕ → Type 0
IsPlain [] = Unit {0}
IsPlain (c ∷ cs) = (c ≢ b'%') × IsPlain cs

prepend-nil : (o : Option (List ℕ)) → prepend [] o ≡ o
prepend-nil none = refl
prepend-nil (some out) = refl

prepend-append :
    (xs ys : List ℕ) (o : Option (List ℕ)) → prepend (xs ++ ys) o ≡ prepend xs (prepend ys o)
prepend-append xs ys none = refl
prepend-append xs ys (some out) = ap some (append_assoc xs ys out)

print_format-text :
    (pre fmt : List ℕ) (args : List Arg)
    → IsPlain pre
    → print_format plain (pre ++ fmt) args ≡ prepend pre (print_format plain fmt args)
unfolding print_format format_step
print_format-text [] fmt args ok = sym (prepend-nil (print_format plain fmt args))
print_format-text (c ∷ pre) fmt args ok =
    let other : (c == b'%') ≡ false = ground (arith, ok.0) in
    rw (print_format, format_step, other)
      (ap (prepend (c ∷ [])) (print_format-text pre fmt args ok.1)
        ∙ sym (prepend-append (c ∷ []) pre (print_format plain fmt args)))

-- In a format string, text without a percent sign is copied; `%ld` then takes the next argument
-- and writes what `__print_deci` writes for it, `%lx` its sixteen hexadecimal characters, and the
-- rest of the string goes on with the arguments that are left.
pub print_format-long :
    (pre post out : List ℕ) (w : ℕ) (args : List Arg)
    → IsPlain pre
    → print_deci w ≡ some out
    → let rest = print_format plain post args in
      (print_format plain (pre ++ (b'%' ∷ b'l' ∷ b'd' ∷ post)) (word w ∷ args)
        ≡ prepend (pre ++ out) rest)
      × (print_format plain (pre ++ (b'%' ∷ b'l' ∷ b'x' ∷ post)) (word w ∷ args)
          ≡ prepend (pre ++ print_hex w 16) rest)
unfolding print_format format_step
print_format-long pre post out w args ok e =
    let rest = print_format plain post args in
    (
      print_format-text pre (b'%' ∷ b'l' ∷ b'd' ∷ post) (word w ∷ args) ok
          ∙ rw e (ap (prepend pre) (prepend-nil _ ∙ prepend-nil _))
          ∙ sym (prepend-append pre out rest),
      print_format-text pre (b'%' ∷ b'l' ∷ b'x' ∷ post) (word w ∷ args) ok
          ∙ ap (prepend pre) (prepend-nil _ ∙ prepend-nil _)
          ∙ sym (prepend-append pre (print_hex w 16) rest),
    )
