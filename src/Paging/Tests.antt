-- ===== src/Paging/Tests.antt =====
-- Page tables: runs of the definitions and uses of the theorems at concrete inputs.
use raincloud.Prelude.{
  inr, true, ℕ, ◌+◌, ◌≡◌, refl, none, some, [], ◌∷◌, ◌++◌, arith, ◌==◌, if◌then◌else◌,
}
use raincloud.Mm.Pages.{MmPool, done, halted, phy_map_base}
use raincloud.Paging.{Machine, query_mapping, modify_chunk_mapping}
use raincloud.Paging.Enter.{true_ne_false}
use raincloud.Paging.Shape.{Owner, IsTree}
use raincloud.Paging.Chunk.{Run, modify_chunk_mapping_lem}
use raincloud.Paging.Kernel.{kernel_pager, kernel-IsPager, get_current_plm4e, IsPagePool}
use raincloud.Paging.Chain.{VmMapEntry, Every, IsMappable, Outside, IsMapped}
use raincloud.Paging.Boot.{
  BootInfo, BootPages, boot_pager, boot-IsPager, init_mm_map, page_table_base,
}
use raincloud.Paging.Boot.Runs.{IsBootInfo, boot_runs}
use raincloud.Paging.Boot.Start.{init_mm_map_lem}
use raincloud.Paging.VmMap.{vm_map_do_mapping, vm_map_do_mapping_lem, vm_map_do_mapping-halted}
use raincloud.Paging.VmMap.Dup.{Grants}

-- A pool of eight pages, and an empty root table at the physical address 0x1000.
abbrev pool : MmPool
pool = record {
  mm_list = record { addr = phy_map_base + 0x100000; length = 8 } ∷ [];
  available = 8;
  total = 8;
}

abbrev machine : Machine MmPool
machine = record { mem = λ a. 0; pages = pool }

abbrev cr3 : ℕ
cr3 = 0x1018

abbrev root : ℕ
root = phy_map_base + 0x1000

root-current : get_current_plm4e cr3 ≡ root
root-current = refl

pool-IsPagePool : IsPagePool pool
pool-IsPagePool = (omega arith, (refl, tt), λ x. ground arith)

abbrev root_owner : Owner
root_owner x = if x == root then some (3, 0) else none

root_owner-root : (x : ℕ) (o : ℕ × ℕ) → root_owner x ≡ some o → x ≡ root
root_owner-root x o e = ground arith

machine-IsTree : IsTree kernel-IsPager root root_owner machine
machine-IsTree = record {
  top = refl;
  child = λ t n q i own lt here. absurd (true_ne_false here refl);
  aligned = λ t o own. rw (root_owner-root t o own) refl;
  used =
      λ t o own free. let at = rw (root_owner-root t o own) at free in absurd (omega (arith, at));
  valid = pool-IsPagePool;
}

modify_chunk_mapping_lem_example :
    (run : Run kernel-IsPager root 2 root_owner machine 0x400000 0x200000 0x1f)
    × (modify_chunk_mapping kernel_pager root 0x400000 0x200000 2 0x1f machine ≡ done run.after)
modify_chunk_mapping_lem_example =
    modify_chunk_mapping_lem kernel-IsPager root 0x1f (omega arith) refl 2 root_owner machine
      0x400000 0x200000 machine-IsTree (omega arith) (omega arith) (omega arith) refl (omega arith)

-- One entry of two pages.
abbrev entry : VmMapEntry
entry = record { virt_addr = 0x400000; phy_addr = 0x200000; page_nums = 2; flags = 0x1f }

abbrev high_entry : VmMapEntry
high_entry = record entry { virt_addr = 0x800000000000 }

entry-IsMappable : IsMappable entry
entry-IsMappable = record {
  word = omega arith;
  few = omega arith;
  aligned = refl;
  below = omega arith;
  plain = omega arith;
  present = refl;
}

vm_map_do_mapping_lem_example :
    (after : Machine MmPool) × (owner' : Owner) × (vm_map_do_mapping cr3 (entry ∷ []) machine
      ≡ done after)
    × IsTree kernel-IsPager (get_current_plm4e cr3) owner' after
    × Every (IsMapped kernel-IsPager (get_current_plm4e cr3) after) (entry ∷ [])
    × ((w : ℕ)
        → Every (Outside w) (entry ∷ [])
        → query_mapping kernel_pager (get_current_plm4e cr3) w after.mem
          ≡ query_mapping kernel_pager (get_current_plm4e cr3) w machine.mem)
vm_map_do_mapping_lem_example =
    vm_map_do_mapping_lem cr3 (entry ∷ []) root_owner machine machine-IsTree (omega arith)
      (entry-IsMappable, tt) (omega arith, tt) (λ i lt. tt, tt)

vm_map_do_mapping-halted_example :
    vm_map_do_mapping cr3 (entry ∷ [] ++ high_entry ∷ []) machine ≡ halted
vm_map_do_mapping-halted_example =
    vm_map_do_mapping-halted cr3 (entry ∷ []) [] high_entry machine (inr (omega arith, omega arith))

-- A small machine to start.
abbrev info : BootInfo
info = record {
  image_base = 0x100000;
  image_size = 0x5000;
  mm_desc_total = 0x600;
  stack_pages = 16;
  page_table_size = 0;
  last_desc = record { type = 7; physical_start = 0x100000; number_of_pages = 0x1f00 };
}

info-IsBootInfo : IsBootInfo info
info-IsBootInfo = record {
  aligned = refl;
  image = omega arith;
  memory = omega arith;
  stack = omega arith;
  empty = refl;
  room = omega arith;
}

init_mm_map_lem_example :
    (m : Machine BootPages) × (owner : Owner) × (init_mm_map info (λ a. 0) ≡ done m)
    × IsTree boot-IsPager (page_table_base info) owner m
    × Every (IsMapped boot-IsPager (page_table_base info) m) (boot_runs info)
    × ((w : ℕ)
        → Every (Outside w) (boot_runs info)
        → query_mapping boot_pager (page_table_base info) w m.mem ≡ done none)
init_mm_map_lem_example = init_mm_map_lem info info-IsBootInfo (λ a. 0)

-- All is granted.
abbrev granted : Grants
granted i = (true, true)
