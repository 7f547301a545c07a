-- ===== src/Paging/Copy.antt =====
-- Words of memory copied one after the other.
use raincloud.Prelude.{
  ℕ, zero, suc, ◌+◌, ◌*◌, ◌≤◌, ◌<◌, ◌≡◌, false, arith, refl, ◌⊎◌, inl, inr, ◌==◌, ◌∙◌, ==_iff,
}
use raincloud.Paging.{Memory, write}

unfoldable pub copy_words : (n dst src : ℕ) → Memory → Memory
copy_words zero dst src mem = mem
copy_words (suc n) dst src mem = copy_words n (dst + 8) (src + 8) (write dst (mem src) mem)

-- The words that are written are none of those that are read.
abbrev pub Disjoint : (n dst src : ℕ) → Type 0
Disjoint n dst src = (dst + n * 8 ≤ src) ⊎ (src + n * 8 ≤ dst)

pub copy_words-outside :
    (n dst src : ℕ) (mem : Memory) (b : ℕ)
    → b < dst ⊎ (dst + n * 8 ≤ b)
    → copy_words n dst src mem b ≡ mem b
unfolding copy_words
copy_words-outside zero dst src mem b out = refl
copy_words-outside (suc n) dst src mem b out =
    ground (arith, copy_words-outside n (dst + 8) (src + 8) (write dst (mem src) mem) b)

pub copy_words-at :
    (n dst src : ℕ) (mem : Memory) (k : ℕ)
    → Disjoint n dst src
    → k < n
    → copy_words n dst src mem (dst + k * 8) ≡ mem (src + k * 8)
unfolding copy_words
copy_words-at zero dst src mem k apart lt = absurd (omega arith)
copy_words-at (suc n) dst src mem zero apart lt =
    let self : dst + 0 * 8 ≡ dst = omega arith in
    let from : src + 0 * 8 ≡ src = omega arith in
    rw (self, from)
      (copy_words-outside n (dst + 8) (src + 8) (write dst (mem src) mem) dst (inl (omega arith))
        ∙ rw ((==_iff dst dst).1 refl) refl)
copy_words-at (suc n) dst src mem (suc k) apart lt =
    let next : dst + suc k * 8 ≡ dst + 8 + k * 8 = omega arith in
    let from : src + suc k * 8 ≡ src + 8 + k * 8 = omega arith in
    let apart' : Disjoint n (dst + 8) (src + 8) = elim apart [
      | inl under ↦ inl (omega arith)
      | inr above ↦ inr (omega arith)
    ] in
    let other : ((src + 8 + k * 8) == dst) ≡ false = ground (arith, apart) in
    rw (next, from)
      (copy_words-at n (dst + 8) (src + 8) (write dst (mem src) mem) k apart' (omega arith)
        ∙ rw other refl)
