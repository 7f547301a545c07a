-- ===== src/Mm/Pages/Cover.antt =====
-- arch/x86/paging.c: which addresses the free blocks cover, and how often.
use raincloud.Prelude.{
  ℕ, ◌+◌, ◌*◌, ◌%◌, ◌^◌, ◌≤◌, ◌<◌, ◌≡◌, inl, inr, refl, Bool-cases, none, some, Option,
  Option-cases, List, [], ◌∷◌, arith, ltb, leb, ◌==◌, ◌&&◌, if◌then◌else◌, eq_of_some, add64, sub64,
}
use mathlib.Core.Path.{subst}
use raincloud.Mm.Pages.{
  PageBlock, MmPool, phy_map_base, bytes, keep_block, search_pages, absorb, page_merge_from,
  page_merge_list,
}

-- 1 for an address of the `n` pages from `a` on, and 0 for any other.
abbrev pub covers : ℕ → ℕ → ℕ → ℕ
covers x a n = if leb a x && ltb x (a + n * 4096) then 1 else 0

-- How many blocks of the list hold the address.
abbrev pub cover : ℕ → List PageBlock → ℕ
cover x [] = 0
cover x (b ∷ bs) = covers x b.addr b.length + cover x bs

abbrev pub pages : List PageBlock → ℕ
pages [] = 0
pages (b ∷ bs) = b.length + pages bs

-- Each block lies in the direct mapping.
abbrev pub Sound : List PageBlock → Type 0
Sound [] = Unit {0}
Sound (b ∷ bs) = (phy_map_base < b.addr) × (b.addr + b.length * 4096 < 2 ^ 64) × Sound bs

abbrev pub Each : (PageBlock → Type 0) → List PageBlock → Type 0
Each P [] = Unit {0}
Each P (b ∷ bs) = P b × Each P bs

-- Each block begins at a page.
abbrev pub Aligned : List PageBlock → Type 0
Aligned bs = Each (λ b. b.addr % 4096 ≡ 0) bs

-- The invariant of `mm_pool`.
pub record IsPool (pool : MmPool) : Type 0 where
  pub sound : Sound pool.mm_list
  pub counted : pool.available ≡ pages pool.mm_list
  pub within : pool.available ≤ pool.total
  pub word : pool.total < 2 ^ 64

-- What a search leaves of the blocks: the pages from `a` on are taken out.
pub record Found (size : ℕ) (bs : List PageBlock) (a : ℕ) (out : List PageBlock) : Type 0 where
  pub sound : Sound out
  pub counted : pages bs ≡ pages out + size
  pub above : phy_map_base < a
  pub below : a + size * 4096 < 2 ^ 64
  pub taken : (x : ℕ) → cover x bs ≡ cover x out + covers x a size
  pub aligned : Aligned bs → (a % 4096 ≡ 0) × Aligned out

keep_block-Found :
    (size : ℕ) (b : PageBlock) (bs : List PageBlock) (a : ℕ) (out : List PageBlock)
    → Sound (b ∷ bs)
    → Found size bs a out
    → Found size (b ∷ bs) a (b ∷ out)
keep_block-Found size b bs a out s f = record {
  sound = (s.0, s.1, f.sound);
  counted = omega (arith, f.counted);
  above = f.above;
  below = f.below;
  taken = λ x. omega (arith, f.taken x);
  aligned = λ al. ((f.aligned al.1).0, (al.0, (f.aligned al.1).1));
}

exact-Found :
    (size : ℕ) (b : PageBlock) (bs : List PageBlock)
    → Sound (b ∷ bs)
    → b.length ≡ size
    → Found size (b ∷ bs) b.addr bs
exact-Found size b bs s e = record {
  sound = s.2;
  counted = omega arith;
  above = s.0;
  below = omega arith;
  taken = λ x. rw (← e) (omega arith);
  aligned = λ al. al;
}

abbrev shorter : ℕ → PageBlock → PageBlock
shorter size b = record b { length = sub64 b.length size }

tail-Found :
    (size : ℕ) (b : PageBlock) (bs : List PageBlock)
    → Sound (b ∷ bs)
    → size < b.length
    → Found size (b ∷ bs) (add64 b.addr (bytes (shorter size b).length)) (shorter size b ∷ bs)
tail-Found size b bs s lt = record {
  sound = (s.0, omega arith, s.2);
  counted = omega arith;
  above = omega arith;
  below = omega arith;
  taken = λ x. ground arith;
  aligned = λ al. (omega (arith, al.0), al);
}

pub search_pages-Found :
    (size : ℕ) (bs : List PageBlock) {a : ℕ} {out : List PageBlock}
    → Sound bs
    → search_pages size bs ≡ some (a, out)
    → Found size bs a out
unfolding search_pages
search_pages-Found size [] s e = absurd (cc)
search_pages-Found size (b ∷ bs) {a} {out} s e = elim (Bool-cases (b.length == size)) [
  | inl same ↦
      let eq = eq_of_some (rw same at e) in
      subst (λ (r : ℕ × List PageBlock). Found size (b ∷ bs) r.0 r.1) eq
        (exact-Found size b bs s (ground arith))
  | inr other ↦ elim (Bool-cases (ltb size b.length)) [
    | inl more ↦
        let eq = eq_of_some (rw (other, more) at e) in
        subst (λ (r : ℕ × List PageBlock). Found size (b ∷ bs) r.0 r.1) eq
          (tail-Found size b bs s (ground arith))
    | inr less ↦
        kept (search_pages size bs) (λ c o h. search_pages-Found size bs s.2 h)
          (rw (other, less) at e)
  ]
]
  where
    kept :
        (rest : Option (ℕ × List PageBlock))
        → ((c : ℕ) (o : List PageBlock) → rest ≡ some (c, o) → Found size bs c o)
        → keep_block b rest ≡ some (a, out)
        → Found size (b ∷ bs) a out
    kept none later e = absurd (cc)
    kept (some (c, o)) later e =
        subst (λ (r : ℕ × List PageBlock). Found size (b ∷ bs) r.0 r.1) (eq_of_some e)
          (keep_block-Found size b bs c o s (later c o refl))

pub search_pages-none :
    (size : ℕ) (bs : List PageBlock) → search_pages size bs ≡ none → Each (λ b. b.length < size) bs
unfolding search_pages
search_pages-none size [] e = tt
search_pages-none size (b ∷ bs) e = elim (Option-cases (search_pages size bs)) [
  | inl later ↦ (ground arith, search_pages-none size bs later)
  | inr (r, later) ↦ absurd (ground arith)
]

-- What a merge keeps.
pub record Same (bs out : List PageBlock) : Type 0 where
  pub sound : Sound out
  pub counted : pages out ≡ pages bs
  pub covered : (x : ℕ) → cover x out ≡ cover x bs
  pub aligned : Aligned bs → Aligned out

page_merge_from-Same :
    (e : PageBlock) (ns : List PageBlock) → Sound (e ∷ ns) → Same (e ∷ ns) (page_merge_from e ns)
unfolding page_merge_from
page_merge_from-Same e [] s = record {
  sound = s;
  counted = refl;
  covered = λ x. refl;
  aligned = λ al. al;
}
page_merge_from-Same e (n ∷ ns) s = elim (Bool-cases (add64 e.addr (bytes e.length) == n.addr)) [
  | inl meets ↦
      let next : e.addr + e.length * 4096 ≡ n.addr = ground arith in
      let len : (absorb e n).length ≡ e.length + n.length = omega arith in
      let m = page_merge_from-Same (absorb e n) ns (s.0, omega arith, s.2.2) in
      rw meets (record {
        sound = m.sound;
        counted = omega (arith, m.counted);
        covered = λ x. ground (arith, m.covered x);
        aligned = λ al. m.aligned (al.0, al.1.1);
      })
  | inr gap ↦
      let m = page_merge_from-Same n ns s.2 in
      rw gap (record {
        sound = (s.0, s.1, m.sound);
        counted = omega (arith, m.counted);
        covered = λ x. omega (arith, m.covered x);
        aligned = λ al. (al.0, m.aligned al.1);
      })
]

pub page_merge_list-Same : (bs : List PageBlock) → Sound bs → Same bs (page_merge_list bs)
unfolding page_merge_list
page_merge_list-Same [] s = record {
  sound = s;
  counted = refl;
  covered = λ x. refl;
  aligned = λ al. al;
}
page_merge_list-Same (b ∷ bs) s = page_merge_from-Same b bs s
