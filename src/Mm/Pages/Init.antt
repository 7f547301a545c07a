-- ===== src/Mm/Pages/Init.antt =====
-- arch/x86/paging.c, `page_alloc_init`: the pool that the memory descriptors give.
use raincloud.Prelude.{
  add64, ℕ, ◌+◌, ◌-◌, ◌*◌, ◌/◌, ◌^◌, ◌≤◌, ◌<◌, ◌≡◌, true, List, [], ◌∷◌, ◌++◌, arith, Bool-cases,
  inl, inr, ltb, refl,
}
use raincloud.Mm.Pages.{
  PageBlock, MmPool, done, phy_map_base, EfiMemoryDescriptor, is_usable, block_pages,
  add_descriptor, add_descriptors, page_alloc_init,
}
use raincloud.Mm.Pages.Cover.{pages, Sound, IsPool}

-- The block of a descriptor: all its pages if it begins above the lower bound; the pages from the
-- lower bound on if it reaches over it; and if it ends below the lower bound, the difference wraps
-- round 2 ^ 64, so that the block is given some 2 ^ 52 pages.
pub block_pages_lem :
    (low : ℕ) (d : EfiMemoryDescriptor)
    → low < 2 ^ 64
    → d.physical_start + d.number_of_pages * 4096 < 2 ^ 64
    → let end = d.physical_start + d.number_of_pages * 4096 in
      (low ≤ d.physical_start → block_pages low d ≡ (d.physical_start, d.number_of_pages))
      × (d.physical_start ≤ low → low ≤ end → block_pages low d ≡ (low, (end - low) / 4096))
      × (end < low → block_pages low d ≡ (low, (2 ^ 64 - (low - end)) / 4096))
unfolding block_pages
block_pages_lem low d small fits = (λ h. ground arith, λ h k. ground arith, λ h. ground arith)

-- Each usable descriptor reaches over the lower bound and lies in the direct mapping.
abbrev pub AllReach : ℕ → List EfiMemoryDescriptor → Type 0
AllReach low [] = Unit {0}
AllReach low (d ∷ ds) =
    (is_usable d.type ≡ true
      → (low ≤ d.physical_start + d.number_of_pages * 4096)
        × (d.physical_start + d.number_of_pages * 4096 + phy_map_base < 2 ^ 64))
    × AllReach low ds

abbrev pub total_pages : List EfiMemoryDescriptor → ℕ
total_pages [] = 0
total_pages (d ∷ ds) = d.number_of_pages + total_pages ds

Sound-append :
    (bs : List PageBlock) (b : PageBlock) → Sound bs → Sound (b ∷ []) → Sound (bs ++ b ∷ [])
Sound-append [] b s t = t
Sound-append (c ∷ cs) b s t = (s.0, s.1, Sound-append cs b s.2 t)

pages-append : (bs : List PageBlock) (b : PageBlock) → pages (bs ++ b ∷ []) ≡ pages bs + b.length
pages-append [] b = omega arith
pages-append (c ∷ cs) b = omega (arith, pages-append cs b)

-- The pool while it is filled: its total is not set yet.
record Filling (pool : MmPool) (limit : ℕ) : Type 0 where
  sound : Sound pool.mm_list
  counted : pool.available ≡ pages pool.mm_list
  room : pool.available ≤ limit

widen : {pool : MmPool} {a b : ℕ} → Filling pool a → a ≤ b → Filling pool b
widen f h = record { sound = f.sound; counted = f.counted; room = omega (arith, f.room) }

module _ (low : ℕ) (positive : 0 < low) (small : low < phy_map_base) where
  block_pages-within :
      (d : EfiMemoryDescriptor)
      → low ≤ d.physical_start + d.number_of_pages * 4096
      → d.physical_start + d.number_of_pages * 4096 + phy_map_base < 2 ^ 64
      → let (start, n) = block_pages low d in
        (0 < start)
        × (start < phy_map_base)
        × (start + n * 4096 + phy_map_base < 2 ^ 64)
        × (n ≤ d.number_of_pages)
  unfolding block_pages
  block_pages-within d over below = ground arith

  add_descriptor-Filling :
      (d : EfiMemoryDescriptor) (pool : MmPool) (limit : ℕ)
      → Filling pool limit
      → limit + d.number_of_pages < 2 ^ 64
      → low ≤ d.physical_start + d.number_of_pages * 4096
      → d.physical_start + d.number_of_pages * 4096 + phy_map_base < 2 ^ 64
      → (pool' : MmPool) × (add_descriptor low d pool ≡ done pool')
        × Filling pool' (limit + d.number_of_pages)
  add_descriptor-Filling d pool limit f word over below =
      let w = block_pages-within d over below in
      let start = (block_pages low d).0 in
      let n = (block_pages low d).1 in
      let inside : ltb start phy_map_base ≡ true = ground (arith, w.1) in
      let block : PageBlock = record { addr = add64 start phy_map_base; length = n } in
      let s : Sound (block ∷ []) = (omega (arith, w.0, w.1), omega (arith, w.1, w.2), tt) in
      (
        record pool { mm_list = pool.mm_list ++ block ∷ []; available = add64 pool.available n },
        rw inside,
        record {
          sound = Sound-append pool.mm_list block f.sound s;
          counted = omega (arith, f.counted, f.room, w.3, pages-append pool.mm_list block);
          room = omega (arith, f.room, w.3);
        },
      )

  add_descriptors-Filling :
      (ds : List EfiMemoryDescriptor) (pool : MmPool) (limit : ℕ)
      → AllReach low ds
      → Filling pool limit
      → limit + total_pages ds < 2 ^ 64
      → (pool' : MmPool) × (add_descriptors low ds pool ≡ done pool')
        × Filling pool' (limit + total_pages ds)
  unfolding add_descriptors
  add_descriptors-Filling [] pool limit reach f word = (pool, refl, widen f (omega arith))
  add_descriptors-Filling (d ∷ ds) pool limit reach f word = elim (Bool-cases (is_usable d.type)) [
    | inl usable ↦
        let (over, below) = reach.0 usable in
        let (pool', e, f') = add_descriptor-Filling d pool limit f (omega arith) over below in
        let (out, e', f'') =
          add_descriptors-Filling ds pool' (limit + d.number_of_pages) reach.1 f' (omega arith) in
        (out, rw (usable, e, e'), widen f'' (omega arith))
    | inr skip ↦
        let (out, e', f'') = add_descriptors-Filling ds pool limit reach.1 f (omega arith) in
        (out, rw (skip, e'), widen f'' (omega arith))
  ]

-- Where every usable descriptor reaches over a lower bound above 0, lies in the direct mapping,
-- and the descriptors' pages fit a 64-bit word, `page_alloc_init` does not halt; its pool is
-- valid, and all that it holds is available.
pub page_alloc_init-IsPool :
    (low : ℕ) (ds : List EfiMemoryDescriptor)
    → 0 < low
    → low < phy_map_base
    → AllReach low ds
    → total_pages ds < 2 ^ 64
    → (pool : MmPool) × (page_alloc_init ds low ≡ done pool)
      × IsPool pool
      × (pool.available ≡ pool.total)
unfolding page_alloc_init
page_alloc_init-IsPool low ds positive small reach word =
    let (pool, e, f) =
      add_descriptors-Filling low positive small ds
        (record { mm_list = []; available = 0; total = 0 }) 0 reach
        (record { sound = tt; counted = refl; room = omega arith }) (omega arith) in
    (
      record pool { total = pool.available },
      rw e,
      record {
        sound = f.sound;
        counted = f.counted;
        within = omega arith;
        word = omega (arith, f.room);
      },
      refl,
    )
