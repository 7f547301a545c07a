-- ===== src/Arch/Context/Switch.antt =====
-- arch/x86/context.c: what is saved and loaded.
use raincloud.Prelude.{
  ℕ, ◌+◌, ◌-◌, ◌*◌, ◌≤◌, ◌<◌, ◌≡◌, ◌≢◌, false, ◌||◌, arith, ◌⊎◌, inl, inr, ◌==◌, if◌then◌else◌, ◌∙◌,
  ltb, ltb→lt, Bool-cases,
}
use raincloud.Paging.{Memory}
use raincloud.Paging.Copy.{copy_words, Disjoint, copy_words-outside, copy_words-at}
use raincloud.Arch.Context.{context_save, context_load}
use raincloud.Arch.Context.Loops.{save_loop-copies, load_loop-copies}

-- The place on the stack of a register of the context.
abbrev pub slot : ℕ → ℕ
slot k = if ltb k 17 then k else k + 1

-- The context and the stack do not meet.
abbrev pub Separate : (context stack : ℕ) → Type 0
Separate context stack = (context + 22 * 8 ≤ stack) ⊎ (stack + 23 * 8 ≤ context)

module _ (context stack : ℕ) (mem : Memory) (there : context ≢ 0) (full : stack ≢ 0)
    (apart : Separate context stack) where
  saved-copies :
      context_save context stack mem
      ≡ copy_words 5 (context + 136) (stack + 144) (copy_words 17 context stack mem)
  unfolding context_save
  saved-copies =
      let given : ((context == 0) || (stack == 0)) ≡ false = ground (arith, there, full) in
      rw given (save_loop-copies context stack mem)

  loaded-copies :
      context_load context stack mem
      ≡ copy_words 5 (stack + 144) (context + 136) (copy_words 17 stack context mem)
  unfolding context_load
  loaded-copies =
      let given : ((context == 0) || (stack == 0)) ≡ false = ground (arith, there, full) in
      rw given (load_loop-copies context stack mem)

-- Two runs of words, the second behind the first where they are written.
module _ (d s d2 s2 : ℕ) (mem : Memory) (behind : d + 17 * 8 ≤ d2) where
  abbrev both : Memory
  both = copy_words 5 d2 s2 (copy_words 17 d s mem)

  both-first : (k : ℕ) → Disjoint 17 d s → k < 17 → both (d + k * 8) ≡ mem (s + k * 8)
  both-first k apart lt =
      copy_words-outside 5 d2 s2 _ (d + k * 8) (inl (omega arith))
      ∙ copy_words-at 17 d s mem k apart lt

  both-second :
      (j : ℕ)
      → Disjoint 5 d2 s2
      → (s2 + 5 * 8 ≤ d) ⊎ (d + 17 * 8 ≤ s2)
      → j < 5
      → both (d2 + j * 8) ≡ mem (s2 + j * 8)
  both-second j apart clear lt =
      let out : (s2 + j * 8 < d) ⊎ (d + 17 * 8 ≤ s2 + j * 8) = elim clear [
        | inl under ↦ inl (omega arith)
        | inr above ↦ inr (omega arith)
      ] in
      copy_words-at 5 d2 s2 _ j apart lt ∙ copy_words-outside 17 d s mem (s2 + j * 8) out

  both-outside : (b : ℕ) → b < d ⊎ (d + 17 * 8 ≤ b) → b < d2 ⊎ (d2 + 5 * 8 ≤ b) → both b ≡ mem b
  both-outside b o1 o2 = copy_words-outside 5 d2 s2 _ b o2 ∙ copy_words-outside 17 d s mem b o1

Separate-first : (c s : ℕ) → Separate c s → Disjoint 17 c s
Separate-first c s apart = elim apart [ inl u ↦ inl (omega arith) | inr o ↦ inr (omega arith) ]

Separate-second : (c s : ℕ) → Separate c s → Disjoint 5 (c + 136) (s + 144)
Separate-second c s apart = elim apart [ inl u ↦ inl (omega arith) | inr o ↦ inr (omega arith) ]

Separate-clear : (c s : ℕ) → Separate c s → (s + 144 + 5 * 8 ≤ c) ⊎ (c + 17 * 8 ≤ s + 144)
Separate-clear c s apart = elim apart [ inl u ↦ inr (omega arith) | inr o ↦ inl (omega arith) ]

-- `__context_save` puts each register that was pushed on the stack in its place in the context,
-- passing over word 17 of the stack, and changes nothing else.
pub context_save_lem :
    (context stack : ℕ) (mem : Memory)
    → context ≢ 0
    → stack ≢ 0
    → Separate context stack
    → ((k : ℕ)
        → k < 22
        → context_save context stack mem (context + k * 8) ≡ mem (stack + slot k * 8))
      × ((b : ℕ) → b < context ⊎ (context + 22 * 8 ≤ b) → context_save context stack mem b ≡ mem b)
context_save_lem context stack mem there full apart =
    let copies = saved-copies context stack mem there full apart in
    rw copies (
      λ k lt. elim (Bool-cases (ltb k 17)) [
        | inl low ↦
            let small = ltb→lt k 17 low in
            rw low (
              both-first context stack (context + 136) (stack + 144) mem (omega arith) k
                (Separate-first context stack apart) small)
        | inr high ↦
            let j = k - 17 in
            let a : context + k * 8 ≡ context + 136 + j * 8 = ground arith in
            let b : stack + (k + 1) * 8 ≡ stack + 144 + j * 8 = ground arith in
            rw (high, a, b)
              (both-second context stack (context + 136) (stack + 144) mem (omega arith) j
                (Separate-second context stack apart) (Separate-clear context stack apart)
                (ground arith))
      ],
      λ b out.
          both-outside context stack (context + 136) (stack + 144) mem (omega arith) b
            (elim out [ inl u ↦ inl u | inr o ↦ inr (omega arith) ])
            (elim out [ inl u ↦ inl (omega arith) | inr o ↦ inr (omega arith) ]),
    )

context_load_lem :
    (context stack : ℕ) (mem : Memory)
    → context ≢ 0
    → stack ≢ 0
    → Separate context stack
    → ((k : ℕ)
        → k < 22
        → context_load context stack mem (stack + slot k * 8) ≡ mem (context + k * 8))
      × (context_load context stack mem (stack + 17 * 8) ≡ mem (stack + 17 * 8))
context_load_lem context stack mem there full apart =
    let copies = loaded-copies context stack mem there full apart in
    rw copies (
      λ k lt. elim (Bool-cases (ltb k 17)) [
        | inl low ↦
            let small = ltb→lt k 17 low in
            rw low (
              both-first stack context (stack + 144) (context + 136) mem (omega arith) k
                (load-first context stack apart) small)
        | inr high ↦
            let j = k - 17 in
            let a : context + k * 8 ≡ context + 136 + j * 8 = ground arith in
            let b : stack + (k + 1) * 8 ≡ stack + 144 + j * 8 = ground arith in
            rw (high, a, b)
              (both-second stack context (stack + 144) (context + 136) mem (omega arith) j
                (load-second context stack apart) (load-clear context stack apart) (ground arith))
      ],
      both-outside stack context (stack + 144) (context + 136) mem (omega arith) (stack + 17 * 8)
          (inr (omega arith)) (inl (omega arith)),
    )
  where
    load-first : (c s : ℕ) → Separate c s → Disjoint 17 s c
    load-first c s apart = elim apart [ inl u ↦ inr (omega arith) | inr o ↦ inl (omega arith) ]

    load-second : (c s : ℕ) → Separate c s → Disjoint 5 (s + 144) (c + 136)
    load-second c s apart = elim apart [ inl u ↦ inr (omega arith) | inr o ↦ inl (omega arith) ]

    load-clear : (c s : ℕ) → Separate c s → (c + 136 + 5 * 8 ≤ s) ⊎ (s + 17 * 8 ≤ c + 136)
    load-clear c s apart = elim apart [ inl u ↦ inl (omega arith) | inr o ↦ inr (omega arith) ]

-- What `__context_save` has saved from one stack, `__context_load` puts on another one, each
-- register in its place, with word 17 of that stack as it was; the context lies apart from both.
pub context_load-context_save :
    (context stack other : ℕ) (mem : Memory)
    → context ≢ 0
    → stack ≢ 0
    → other ≢ 0
    → Separate context stack
    → Separate context other
    → ((k : ℕ)
        → k < 22
        → context_load context other (context_save context stack mem) (other + slot k * 8)
          ≡ mem (stack + slot k * 8))
      × (context_load context other (context_save context stack mem) (other + 17 * 8)
          ≡ mem (other + 17 * 8))
context_load-context_save context stack other mem there full full' apart apart' =
    let saved = context_save_lem context stack mem there full apart in
    let loaded =
      context_load_lem context other (context_save context stack mem) there full' apart' in
    let beside : (other + 17 * 8 < context) ⊎ (context + 22 * 8 ≤ other + 17 * 8) = elim apart' [
      | inl u ↦ inr (omega arith)
      | inr o ↦ inl (omega arith)
    ] in
    (λ k lt. loaded.0 k lt ∙ saved.0 k lt, loaded.1 ∙ saved.1 (other + 17 * 8) beside)
