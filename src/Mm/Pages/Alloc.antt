-- ===== src/Mm/Pages/Alloc.antt =====
-- arch/x86/paging.c, `page_alloc`, by what it does to the cover of the free blocks.
use raincloud.Prelude.{
  ℕ, ◌+◌, ◌-◌, ◌*◌, ◌^◌, ◌%◌, ◌<◌, ◌≡◌, ◌≢◌, ◌⊎◌, inl, inr, refl, true, false, none, some,
  Option-cases, List, arith, ◌==◌, ltb, sub64,
}
use raincloud.Mm.Pages.{
  PageBlock, MmPool, done, phy_map_base, invalid_addr, search_pages, page_search, page_merge,
  page_consistency_check, page_alloc,
}
use raincloud.Mm.Pages.Cover.{
  covers, cover, IsPool, Aligned, search_pages-Found, Each, search_pages-none, page_merge_list-Same,
}

-- An allocation that succeeded: its pages lie in the direct mapping, and every address is covered
-- as often as before by what is left together with the pages granted.
pub record PagesGranted (size : ℕ) (pool : MmPool) (r : ℕ × MmPool) : Type 0 where
  pub address : r.0 ≢ invalid_addr
  pub mapped : r.0 + phy_map_base + size * 4096 < 2 ^ 64
  pub available : pool.available ≡ r.1.available + size
  pub taken :
      (x : ℕ) → cover x pool.mm_list ≡ cover x r.1.mm_list + covers x (r.0 + phy_map_base) size
  pub aligned : Aligned pool.mm_list → (r.0 % 4096 ≡ 0) × Aligned r.1.mm_list

-- One that failed: the blocks are the merged ones, and each is shorter than the request.
pub record PagesExhausted (size : ℕ) (pool : MmPool) (r : ℕ × MmPool) : Type 0 where
  pub address : r.0 ≡ invalid_addr
  pub merged : r.1 ≡ page_merge pool
  pub short : Each (λ b. b.length < size) r.1.mm_list

module _ (size : ℕ) (pool : MmPool) (v : IsPool pool) where
  page_search-Found :
      {a : ℕ} {out : List PageBlock}
      → search_pages size pool.mm_list ≡ some (a, out)
      → (r : ℕ × MmPool) × (page_search size pool ≡ done r) × IsPool r.1 × PagesGranted size pool r
  unfolding page_search
  page_search-Found {a} {out} e =
      let f = search_pages-Found size pool.mm_list v.sound e in
      let inside : ltb phy_map_base a ≡ true = ground (arith, f.above) in
      let less : (pool.available + 2 ^ 64 - size) % 2 ^ 64 + size ≡ pool.available =
        omega (arith, f.counted, v.counted, v.within, v.word) in
      let phy : sub64 a phy_map_base + phy_map_base ≡ a = omega (arith, f.above, f.below) in
      (
        (
          sub64 a phy_map_base,
          record pool { mm_list = out; available = sub64 pool.available size },
        ),
        rw (e, inside),
        record {
          sound = f.sound;
          counted = omega (arith, f.counted, v.counted, less);
          within = omega (arith, v.within, less);
          word = v.word;
        },
        record {
          address = omega (arith, f.above, f.below);
          mapped = omega (arith, f.below);
          available = omega (arith, less);
          taken = λ x. rw phy (f.taken x);
          aligned = λ al. (omega (arith, f.above, f.below, (f.aligned al).0), (f.aligned al).1);
        },
      )

  page_search-none :
      search_pages size pool.mm_list ≡ none → page_search size pool ≡ done (invalid_addr, pool)
  unfolding page_search
  page_search-none e = rw e

page_merge-IsPool : {pool : MmPool} → IsPool pool → IsPool (page_merge pool)
page_merge-IsPool {pool} v =
    let m = page_merge_list-Same pool.mm_list v.sound in
    record {
      sound = m.sound;
      counted = omega (arith, m.counted, v.counted);
      within = v.within;
      word = v.word;
    }

Granted-page_merge :
    (size : ℕ) (pool : MmPool) (r : ℕ × MmPool)
    → IsPool pool
    → PagesGranted size (page_merge pool) r
    → PagesGranted size pool r
Granted-page_merge size pool r v g =
    let m = page_merge_list-Same pool.mm_list v.sound in
    record {
      address = g.address;
      mapped = g.mapped;
      available = g.available;
      taken = λ x. omega (arith, m.covered x, g.taken x);
      aligned = λ al. g.aligned (m.aligned al);
    }

pub check-done : {pool : MmPool} → IsPool pool → page_consistency_check pool ≡ done tt
check-done v = ground (arith, v.within)

-- On a valid pool `page_alloc` of one page or more does not halt and keeps the pool valid. It
-- either grants pages that were free and takes exactly these out of the free ones, or it returns
-- the invalid address, with the blocks merged and each of them shorter than the request.
pub page_alloc_lem :
    (size : ℕ) {pool : MmPool}
    → size ≢ 0
    → IsPool pool
    → (r : ℕ × MmPool) × (page_alloc size pool ≡ done r)
      × IsPool r.1
      × (PagesGranted size pool r ⊎ PagesExhausted size pool r)
unfolding page_alloc
page_alloc_lem size {pool} ne v =
    let positive : (size == 0) ≡ false = ground arith in
    elim (Option-cases (search_pages size pool.mm_list)) [
      | inr (_, hit) ↦
          let (r, e, v', g) = page_search-Found size pool v hit in
          let good : (r.0 == invalid_addr) ≡ false = ground (arith, g.address) in
          (r, rw (positive, e, good, check-done v'), v', inl g)
      | inl miss ↦
          let first = page_search-none size pool v miss in
          let merged = page_merge-IsPool v in
          elim (Option-cases (search_pages size (page_merge pool).mm_list)) [
            | inr (_, hit) ↦
                let (r, e, v', g) = page_search-Found size (page_merge pool) merged hit in
                (
                  r,
                  rw (positive, first, e, check-done v'),
                  v',
                  inl (Granted-page_merge size pool r v g),
                )
            | inl again ↦
                let second = page_search-none size (page_merge pool) merged again in
                (
                  (invalid_addr, page_merge pool),
                  rw (positive, first, second, check-done merged),
                  merged,
                  inr (record {
                    address = refl;
                    merged = refl;
                    short = search_pages-none size _ again;
                  }),
                )
          ]
    ]
