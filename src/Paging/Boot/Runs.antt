-- ===== src/Paging/Boot/Runs.antt =====
-- arch/x86/init/init_mm_map.c: the four runs of pages that the kernel starts with.
use raincloud.Prelude.{
  ℕ, ◌+◌, ◌*◌, ◌/◌, ◌%◌, ◌^◌, ◌≤◌, ◌<◌, ◌≡◌, ◌≢◌, inl, inr, refl, ◌⊎◌, sym, ◌∙◌, List, [], ◌∷◌,
  arith,
}
use raincloud.Mm.Pages.{phy_map_base}
use raincloud.Paging.{default_pte_flag}
use raincloud.Paging.Map.{page_of}
use raincloud.Paging.Chunk.{nth_page, page_of-nth_page}
use raincloud.Paging.Chain.{VmMapEntry, Every, IsMappable, Apart}
use raincloud.Paging.Boot.{
  BootInfo, kernel_image_base, kernel_image_pages, phy_pages, stack_bottom, stack_page_base,
  page_table_base,
}

abbrev pub entry : (virt phy pages : ℕ) → VmMapEntry
entry virt phy pages = record {
  virt_addr = virt;
  phy_addr = phy;
  page_nums = pages;
  flags = default_pte_flag;
}

-- The kernel's image, all memory twice, and the stack.
abbrev pub boot_runs : BootInfo → List VmMapEntry
boot_runs info =
    entry kernel_image_base info.image_base (kernel_image_pages info)
    ∷ entry phy_map_base 0 (phy_pages info)
    ∷ entry 0 0 (phy_pages info)
    ∷ entry (stack_bottom info) (stack_page_base info) info.stack_pages
    ∷ []

-- A machine that is not too large: an image of 2 GiB, 64 TiB of memory and a stack of 4 GiB at
-- most, and room for the tables below 2^48.
pub record IsBootInfo (info : BootInfo) : Type 0 where
  pub aligned : info.image_base % 4096 ≡ 0
  pub image : info.image_size / 4096 < 2 ^ 19
  pub memory : info.last_desc.physical_start / 4096 + info.last_desc.number_of_pages ≤ 2 ^ 34
  pub stack : info.stack_pages ≤ 2 ^ 20
  pub empty : info.page_table_size ≡ 0
  pub room :
      info.image_base
        + (info.image_size / 4096 + 1 + (info.mm_desc_total / 4096 + 1) + info.stack_pages) * 4096
        + (1
            + 3
              * (info.image_size / 4096
                  + 1
                  + 2 * (info.last_desc.physical_start / 4096 + info.last_desc.number_of_pages)
                  + info.stack_pages))
          * 4096
      ≤ 2 ^ 48

-- Runs that do not meet, by the numbers of their first pages.
abbrev Below : (a n b k : ℕ) → Type 0
Below a n b k = (page_of a + n ≤ page_of b) × (page_of b + k ≤ 2 ^ 36)

meet_not :
    (a n b k i j : ℕ)
    → Below a n b k ⊎ Below b k a n
    → i < n
    → j < k
    → page_of (nth_page a i) ≢ page_of (nth_page b j)
meet_not a n b k i j apart hi hj same =
    let pa = page_of-nth_page a i in
    let pb = page_of-nth_page b j in
    let sums : (page_of a + i) % 2 ^ 36 ≡ (page_of b + j) % 2 ^ 36 = sym pa ∙ same ∙ pb in
    elim apart [
      | inl below ↦ absurd (omega (arith, sums, below.0, below.1))
      | inr above ↦ absurd (omega (arith, sums, above.0, above.1))
    ]

module _ (info : BootInfo) (ok : IsBootInfo info) where
  pub image-bound : kernel_image_pages info ≤ 2 ^ 19
  image-bound = omega (arith, ok.image)

  pub memory-bound : phy_pages info ≤ 2 ^ 34
  memory-bound = omega (arith, ok.memory)

  stack_bottom-page : page_of (stack_bottom info) + info.stack_pages ≡ 0xf10000000
  stack_bottom-page = omega (arith, ok.stack)

  pub stack_page_base-place :
      stack_page_base info
      ≡ info.image_base + (info.image_size / 4096 + 1 + (info.mm_desc_total / 4096 + 1)) * 4096
  stack_page_base-place = omega (arith, ok.room, ok.image)

  pub page_table_base-place : page_table_base info ≡ stack_page_base info + info.stack_pages * 4096
  page_table_base-place = omega (arith, ok.room, stack_page_base-place)

  pub boot_runs-IsMappable : Every IsMappable (boot_runs info)
  boot_runs-IsMappable = (
    image_run,
    (memory_run phy_map_base (omega arith), (memory_run 0 (omega arith), (stack_run, tt))),
  )
    where
      image_run : IsMappable (entry kernel_image_base info.image_base (kernel_image_pages info))
      image_run = record {
        word = omega arith;
        few = omega (arith, image-bound);
        aligned = ok.aligned;
        below = omega (arith, ok.image, ok.room);
        plain = omega arith;
        present = refl;
      }

      stack_run : IsMappable (entry (stack_bottom info) (stack_page_base info) info.stack_pages)
      stack_run = record {
        word = omega (arith, ok.stack);
        few = omega (arith, ok.stack);
        aligned = omega (arith, ok.aligned, stack_page_base-place);
        below = omega (arith, ok.room, stack_page_base-place);
        plain = omega arith;
        present = refl;
      }

      memory_run : (v : ℕ) → v < 2 ^ 64 → IsMappable (entry v 0 (phy_pages info))
      memory_run v small = record {
        word = small;
        few = omega (arith, memory-bound);
        aligned = refl;
        below = omega (arith, memory-bound);
        plain = omega arith;
        present = refl;
      }

  pub boot_runs-Apart : Apart (boot_runs info)
  boot_runs-Apart =
      let k = kernel_image_pages info in
      let n = phy_pages info in
      let kb = image-bound in
      let nb = memory-bound in
      let low = stack_bottom-page in
      let s = ok.stack in
      (
        λ i hi. (
          λ j hj.
              meet_not kernel_image_base k phy_map_base n i j (inr (omega arith, omega arith)) hi
                hj,
          (
            λ j hj. meet_not kernel_image_base k 0 n i j (inr (omega arith, omega arith)) hi hj,
            (
              λ j hj.
                  meet_not kernel_image_base k (stack_bottom info) info.stack_pages i j
                    (inr (omega arith, omega arith)) hi hj,
              tt,
            ),
          ),
        ),
        (
          λ i hi. (
            λ j hj. meet_not phy_map_base n 0 n i j (inr (omega arith, omega arith)) hi hj,
            (
              λ j hj.
                  meet_not phy_map_base n (stack_bottom info) info.stack_pages i j
                    (inl (omega arith, omega arith)) hi hj,
              tt,
            ),
          ),
          (
            λ i hi. (
              λ j hj.
                  meet_not 0 n (stack_bottom info) info.stack_pages i j
                    (inl (omega arith, omega arith)) hi hj,
              tt,
            ),
            (λ i hi. tt, tt),
          ),
        ),
      )
