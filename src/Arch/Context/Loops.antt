-- ===== src/Arch/Context/Loops.antt =====
-- arch/x86/context.c: the loops, as two runs of words with one word of the stack between them.
use raincloud.Prelude.{
  ℕ, zero, suc, ◌+◌, ◌*◌, ◌≤◌, ◌<◌, ◌≡◌, false, arith, refl, ◌⊎◌, inl, inr, ◌==◌, if◌then◌else◌,
  ◌∙◌, ap,
}
use raincloud.Paging.{Memory, write}
use raincloud.Paging.Copy.{copy_words}
use raincloud.Arch.Context.{save_loop, load_loop}

-- Rounds that do not meet the word that is passed over.
abbrev Clear : (i n : ℕ) → Type 0
Clear i n = (i + n ≤ 17) ⊎ (17 < i)

Clear-next : (i n : ℕ) → Clear i (suc n) → Clear (i + 1) n
Clear-next i n clear = elim clear [
  | inl before ↦ inl (omega arith)
  | inr behind ↦ inr (omega arith)
]

save_loop-step :
    (n i l s : ℕ) (mem : Memory)
    → (i == 17) ≡ false
    → save_loop (suc n) i l s mem ≡ save_loop n (i + 1) (l + 8) (s + 8) (write l (mem s) mem)
unfolding save_loop
save_loop-step n i l s mem e =
    ap
      (λ b.
        if b
        then save_loop n (i + 1) l (s + 8) mem
        else save_loop n (i + 1) (l + 8) (s + 8) (write l (mem s) mem))
      e

save_loop-copy :
    (n m i l s : ℕ) (mem : Memory)
    → Clear i n
    → save_loop (n + m) i l s mem
      ≡ save_loop m (i + n) (l + n * 8) (s + n * 8) (copy_words n l s mem)
unfolding save_loop copy_words
save_loop-copy zero m i l s mem clear =
    let z : 0 + m ≡ m = omega arith in
    let a : i + 0 ≡ i = omega arith in
    let b : l + 0 * 8 ≡ l = omega arith in
    let c : s + 0 * 8 ≡ s = omega arith in rw (z, a, b, c) refl
save_loop-copy (suc n) m i l s mem clear =
    let z : suc n + m ≡ suc (n + m) = omega arith in
    let not_skipped : (i == 17) ≡ false = ground (arith, clear) in
    let a : i + 1 + n ≡ i + suc n = omega arith in
    let b : l + 8 + n * 8 ≡ l + suc n * 8 = omega arith in
    let c : s + 8 + n * 8 ≡ s + suc n * 8 = omega arith in
    let rest =
      save_loop-copy n m (i + 1) (l + 8) (s + 8) (write l (mem s) mem) (Clear-next i n clear) in
    ap (λ r. save_loop r i l s mem) z
    ∙ save_loop-step (n + m) i l s mem not_skipped
    ∙ (rw (a, b, c) at rest)

load_loop-step :
    (n i l s : ℕ) (mem : Memory)
    → (i == 17) ≡ false
    → load_loop (suc n) i l s mem ≡ load_loop n (i + 1) (l + 8) (s + 8) (write s (mem l) mem)
unfolding load_loop
load_loop-step n i l s mem e =
    ap
      (λ b.
        if b
        then load_loop n (i + 1) l (s + 8) mem
        else load_loop n (i + 1) (l + 8) (s + 8) (write s (mem l) mem))
      e

load_loop-copy :
    (n m i l s : ℕ) (mem : Memory)
    → Clear i n
    → load_loop (n + m) i l s mem
      ≡ load_loop m (i + n) (l + n * 8) (s + n * 8) (copy_words n s l mem)
unfolding load_loop copy_words
load_loop-copy zero m i l s mem clear =
    let z : 0 + m ≡ m = omega arith in
    let a : i + 0 ≡ i = omega arith in
    let b : l + 0 * 8 ≡ l = omega arith in
    let c : s + 0 * 8 ≡ s = omega arith in rw (z, a, b, c) refl
load_loop-copy (suc n) m i l s mem clear =
    let z : suc n + m ≡ suc (n + m) = omega arith in
    let not_skipped : (i == 17) ≡ false = ground (arith, clear) in
    let a : i + 1 + n ≡ i + suc n = omega arith in
    let b : l + 8 + n * 8 ≡ l + suc n * 8 = omega arith in
    let c : s + 8 + n * 8 ≡ s + suc n * 8 = omega arith in
    let rest =
      load_loop-copy n m (i + 1) (l + 8) (s + 8) (write s (mem l) mem) (Clear-next i n clear) in
    ap (λ r. load_loop r i l s mem) z
    ∙ load_loop-step (n + m) i l s mem not_skipped
    ∙ (rw (a, b, c) at rest)

-- Before the word that is passed over and after it.
save_loop-skip :
    (n l s : ℕ) (mem : Memory) → save_loop (suc n) 17 l s mem ≡ save_loop n 18 l (s + 8) mem
unfolding save_loop
save_loop-skip n l s mem = refl

save_loop-end : (i l s : ℕ) (mem : Memory) → save_loop 0 i l s mem ≡ mem
unfolding save_loop
save_loop-end i l s mem = refl

save_loop-rest : (l s : ℕ) (mem : Memory) → save_loop 6 17 l s mem ≡ copy_words 5 l (s + 8) mem
save_loop-rest l s mem =
    save_loop-skip 5 l s mem
    ∙ save_loop-copy 5 0 18 l (s + 8) mem (inr (omega arith))
    ∙ save_loop-end 23 (l + 5 * 8) (s + 8 + 5 * 8) _

pub save_loop-copies :
    (l s : ℕ) (mem : Memory)
    → save_loop 23 0 l s mem ≡ copy_words 5 (l + 136) (s + 144) (copy_words 17 l s mem)
save_loop-copies l s mem =
    let over : s + 136 + 8 ≡ s + 144 = omega arith in
    save_loop-copy 17 6 0 l s mem (inl (omega arith))
    ∙ (rw over at (save_loop-rest (l + 136) (s + 136) (copy_words 17 l s mem)))

load_loop-skip :
    (n l s : ℕ) (mem : Memory) → load_loop (suc n) 17 l s mem ≡ load_loop n 18 l (s + 8) mem
unfolding load_loop
load_loop-skip n l s mem = refl

load_loop-end : (i l s : ℕ) (mem : Memory) → load_loop 0 i l s mem ≡ mem
unfolding load_loop
load_loop-end i l s mem = refl

load_loop-rest : (l s : ℕ) (mem : Memory) → load_loop 6 17 l s mem ≡ copy_words 5 (s + 8) l mem
load_loop-rest l s mem =
    load_loop-skip 5 l s mem
    ∙ load_loop-copy 5 0 18 l (s + 8) mem (inr (omega arith))
    ∙ load_loop-end 23 (l + 5 * 8) (s + 8 + 5 * 8) _

pub load_loop-copies :
    (l s : ℕ) (mem : Memory)
    → load_loop 23 0 l s mem ≡ copy_words 5 (s + 144) (l + 136) (copy_words 17 s l mem)
load_loop-copies l s mem =
    let over : s + 136 + 8 ≡ s + 144 = omega arith in
    load_loop-copy 17 6 0 l s mem (inl (omega arith))
    ∙ (rw over at (load_loop-rest (l + 136) (s + 136) (copy_words 17 s l mem)))
