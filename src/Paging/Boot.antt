-- ===== src/Paging/Boot.antt =====
-- arch/x86/init/init_mm_map.c: the page tables that the kernel starts with. Their pages follow one
-- another from `page_table_base` on, and an entry holds a table's address as it is.
pub mod Runs
pub mod Start
use raincloud.Prelude.{
  ℕ, zero, suc, ◌+◌, ◌-◌, ◌*◌, ◌/◌, ◌%◌, ◌^◌, ◌≤◌, ◌<◌, ◌≡◌, ◌≢◌, Bool, true, false, inl, inr, refl,
  ◌⊎◌, sym, Option, none, some, List, [], ◌∷◌, arith, add64, sub64, Bool-cases, ◌==◌, if◌then◌else◌,
  ==_iff,
}
use raincloud.Mm.Pages.{Outcome, done, ◌>>=◌, phy_map_base, bytes, EfiMemoryDescriptor}
use raincloud.Paging.{
  Pager, Memory, Machine, is_present, init_table, default_pte_flag, modify_chunk_mapping,
}
use raincloud.Paging.Shape.{IsPager, Owner, IsTree, init_table-at}

pub record BootPages : Type 0 where
  pub page_table_base : ℕ
  pub page_table_size : ℕ

abbrev pub continous_alloc : BootPages → ℕ × BootPages
continous_alloc b =
    let size = add64 b.page_table_size 0x1000 in
    (sub64 (add64 b.page_table_base size) 0x1000, record b { page_table_size = size })

abbrev pub boot_pager : Pager BootPages
boot_pager = record {
  alloc_new_page_table = λ b. done (continous_alloc b);
  to_phy = λ table. done table;
  to_virt = λ table. done table;
}

abbrev pub kernel_image_base : ℕ
kernel_image_base = 0xffffffff80000000

abbrev pub kernel_stack_top : ℕ
kernel_stack_top = 0xfffff10000000000

-- What init.S sets before `init_mm_map` runs, as far as it is read here, and the last of the
-- descriptors of memory.
pub record BootInfo : Type 0 where
  pub image_base : ℕ
  pub image_size : ℕ
  pub mm_desc_total : ℕ
  pub stack_pages : ℕ
  pub page_table_size : ℕ
  pub last_desc : EfiMemoryDescriptor

-- Where things are put, one after the other.
abbrev pub phy_pages : BootInfo → ℕ
phy_pages info = add64 (info.last_desc.physical_start / 2 ^ 12) info.last_desc.number_of_pages

abbrev pub kernel_image_pages : BootInfo → ℕ
kernel_image_pages info = add64 (info.image_size / 2 ^ 12) 1

abbrev pub mm_desc_addr : BootInfo → ℕ
mm_desc_addr info = add64 info.image_base (kernel_image_pages info * 0x1000)

abbrev pub stack_page_base : BootInfo → ℕ
stack_page_base info = add64 (mm_desc_addr info) (add64 (info.mm_desc_total / 2 ^ 12) 1 * 0x1000)

abbrev pub page_table_base : BootInfo → ℕ
page_table_base info = add64 (stack_page_base info) (info.stack_pages * 0x1000)

abbrev pub stack_bottom : BootInfo → ℕ
stack_bottom info = sub64 kernel_stack_top (info.stack_pages * 0x1000 % 2 ^ 64)

-- The root, and the machine with its table. `mem` is the memory once the descriptors have moved.
abbrev pub boot_root : BootInfo → Memory → ℕ × Machine BootPages
boot_root info mem =
    let (plm4e, pages) =
      continous_alloc (record {
        page_table_base = page_table_base info;
        page_table_size = info.page_table_size;
      }) in
    (plm4e, record { mem = init_table 512 plm4e 0x18 mem; pages = pages })

pub init_mm_map : BootInfo → Memory → Outcome (Machine BootPages)
init_mm_map info mem =
    let (plm4e, m) = boot_root info mem in
    modify_chunk_mapping boot_pager plm4e kernel_image_base info.image_base
      (kernel_image_pages info) default_pte_flag m
    >>= modify_chunk_mapping boot_pager plm4e phy_map_base 0 (phy_pages info) default_pte_flag
    >>= modify_chunk_mapping boot_pager plm4e 0 0 (phy_pages info) default_pte_flag
    >>= modify_chunk_mapping boot_pager plm4e (stack_bottom info) (stack_page_base info)
        info.stack_pages default_pte_flag

-- The page tables end below 2^48.
abbrev pub boot_end : BootPages → ℕ
boot_end b = b.page_table_base + b.page_table_size

abbrev pub boot-IsPager : IsPager boot_pager
boot-IsPager = record {
  Valid = λ b. (b.page_table_base % 4096 ≡ 0) × (b.page_table_size % 4096 ≡ 0);
  Spare = λ b x. boot_end b ≤ x;
  left = λ b. (2 ^ 48 - boot_end b) / 4096;
  grants = λ b v more.
      let alloc = continous_alloc b in
      let there : alloc.0 ≡ boot_end b = omega arith in
      (
        alloc.0,
        alloc.1,
        alloc.0,
        refl,
        (v.0, omega arith),
        omega arith,
        omega arith,
        omega arith,
        (λ s. omega arith),
        (λ x s. omega arith),
        refl,
        omega arith,
        refl,
      );
}
