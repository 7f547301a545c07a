-- ===== src/Paging/Kernel.antt =====
-- arch/x86/paging.c: the kernel's own page tables, whose pages `page_alloc` grants, and which it
-- reaches through the direct mapping.
use raincloud.Prelude.{
  ℕ, zero, suc, ◌+◌, ◌-◌, ◌*◌, ◌/◌, ◌%◌, ◌^◌, ◌≤◌, ◌<◌, ◌≡◌, true, inl, inr, refl, ◌⊎◌, List, [],
  ◌∷◌, arith, ltb, add64, ap,
}
use raincloud.Mm.Pages.{
  MmPool, Outcome, done, ◌>>=◌, phy_map_base, convert_virt_to_phy, convert_phy_to_virt, page_alloc,
}
use raincloud.Mm.Pages.Cover.{covers, cover, Sound, Each, Aligned, pages, IsPool}
use raincloud.Mm.Pages.Alloc.{PagesGranted, page_alloc_lem}
use raincloud.Paging.{Pager}
use raincloud.Paging.Shape.{IsPager}

abbrev pub kernel_new_page_table : MmPool → Outcome (ℕ × MmPool)
kernel_new_page_table pool =
    page_alloc 1 pool >>= λ (phy, pool). convert_phy_to_virt phy >>= λ table. done (table, pool)

abbrev pub kernel_pager : Pager MmPool
kernel_pager = record {
  alloc_new_page_table = kernel_new_page_table;
  to_phy = convert_virt_to_phy;
  to_virt = convert_phy_to_virt;
}

-- `get_current_plm4e`.
abbrev pub get_current_plm4e : (cr3 : ℕ) → ℕ
get_current_plm4e cr3 = add64 (cr3 / 2 ^ 12 * 2 ^ 12) phy_map_base

-- The pool is valid, its blocks begin at pages, and no address is free twice.
abbrev pub IsPagePool : MmPool → Type 0
IsPagePool pool = IsPool pool × Aligned pool.mm_list × ((x : ℕ) → cover x pool.mm_list ≤ 1)

abbrev IsFree : MmPool → ℕ → Type 0
IsFree pool x = 0 < cover x pool.mm_list

pub no_pages : (pool : MmPool) → Each (λ b. b.length < 1) pool.mm_list → pages pool.mm_list ≡ 0
no_pages pool short = go pool.mm_list short
  where
    go : (bs : List _) → Each (λ b. b.length < 1) bs → pages bs ≡ 0
    go [] s = refl
    go (b ∷ bs) s = omega (arith, go bs s.1)

base_not_covered : (bs : List _) → Sound bs → cover phy_map_base bs ≡ 0
base_not_covered [] s = refl
base_not_covered (b ∷ bs) s = ground (arith, base_not_covered bs s.2)

covers_self : (x : ℕ) → covers x x 1 ≡ 1
covers_self x = ground arith

-- The page that `page_alloc` grants, as the tables need it.
module _ (pool : MmPool) (v : IsPagePool pool) (r : ℕ × MmPool) (g : PagesGranted 1 pool r) where
  abbrev pub table : ℕ
  table = r.0 + phy_map_base

  pub granted-covers : cover table pool.mm_list ≡ cover table r.1.mm_list + 1
  granted-covers = rw (covers_self table) at (g.taken table)

  pub granted-below : r.0 < 2 ^ 47
  granted-below = omega (arith, g.mapped)

  pub granted-positive : 0 < r.0
  granted-positive =
      let free = granted-covers in
      let base = base_not_covered pool.mm_list v.0.sound in
      elim (zero_or_positive r.0) [
        | inl z ↦ let at_base = rw z at free in absurd (omega (arith, at_base, base))
        | inr p ↦ p
      ]
    where
      zero_or_positive : (n : ℕ) → (n ≡ 0) ⊎ (0 < n)
      zero_or_positive zero = inl refl
      zero_or_positive (suc n) = inr (omega arith)

  pub granted-virt : convert_phy_to_virt r.0 ≡ done table
  granted-virt =
      let below = granted-below in
      let low : ltb r.0 phy_map_base ≡ true = ground arith in
      let sum : add64 r.0 phy_map_base ≡ table = omega arith in rw (low, sum) refl

  pub granted-phy : convert_virt_to_phy table ≡ done r.0
  granted-phy =
      let below = granted-below in
      let positive = granted-positive in
      let high : ltb phy_map_base table ≡ true = ground arith in
      let back : (table + 2 ^ 64 - phy_map_base) % 2 ^ 64 ≡ r.0 = omega arith in
      rw (high, back) refl

  pub granted-pool : IsPool r.1 → IsPagePool r.1
  granted-pool v' = (v', (g.aligned v.1).1, λ x. omega (arith, g.taken x, v.2 x))

  pub granted-used : 0 < cover table r.1.mm_list → ⊥
  granted-used free = omega (arith, granted-covers, v.2 table, free)

-- The kernel's page tables have what the mapping of pages needs.
abbrev pub kernel-IsPager : IsPager kernel_pager
kernel-IsPager = record {
  Valid = IsPagePool;
  Spare = λ pool x. 0 < cover x pool.mm_list;
  left = λ pool. pool.available;
  grants = λ pool v more.
      let (r, ran, v', result) = page_alloc_lem 1 (omega arith) v.0 in
      elim result [
        | inl g ↦ (
          table pool v r g,
          r.1,
          r.0,
          rw (ran, granted-virt pool v r g) refl,
          granted-pool pool v r g v',
          g.available,
          omega (arith, (g.aligned v.1).0),
          omega (arith, granted-covers pool v r g),
          granted-used pool v r g,
          λ x free. omega (arith, g.taken x, free),
          granted-phy pool v r g,
          omega (arith, granted-below pool v r g, (g.aligned v.1).0),
          granted-virt pool v r g,
        )
        | inr e ↦ absurd (
            omega (
              arith,
              no_pages r.1 e.short,
              v'.counted,
              ap (λ (p : MmPool). p.available) e.merged,
              more,
            ))
      ];
}
