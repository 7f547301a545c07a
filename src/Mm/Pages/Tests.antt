-- ===== src/Mm/Pages/Tests.antt =====
-- arch/x86/paging.c: small pools, and the theorems at them.
use raincloud.Prelude.{ℕ, ◌+◌, ◌≡◌, ◌⊎◌, [], ◌∷◌, arith}
use raincloud.Mm.Pages.{MmPool, done, phy_map_base, EfiMemoryDescriptor, page_alloc}
use raincloud.Mm.Pages.Cover.{IsPool}
use raincloud.Mm.Pages.Alloc.{PagesGranted, PagesExhausted, page_alloc_lem}

abbrev pool : MmPool
pool = record {
  mm_list = record { addr = phy_map_base + 0x100000; length = 3 } ∷ [];
  available = 3;
  total = 8;
}

pool-IsPool : IsPool pool
pool-IsPool = omega arith

page_alloc_lem_example :
    (r : ℕ × MmPool) × (page_alloc 2 pool ≡ done r)
    × IsPool r.1
    × (PagesGranted 2 pool r ⊎ PagesExhausted 2 pool r)
page_alloc_lem_example = page_alloc_lem 2 (omega arith) pool-IsPool

-- Conventional memory of 4 pages at 1 MB.
abbrev descriptor : EfiMemoryDescriptor
descriptor = record { type = 7; physical_start = 0x100000; number_of_pages = 4 }
