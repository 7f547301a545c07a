-- ===== src/Paging.antt =====
-- Page tables: arch/x86/paging.c, and arch/x86/init/init_mm_map.c, which maps in the same way but
-- with an allocator and addresses of its own. What the two files differ in is a `Pager`.
pub mod Words
pub mod Shape
pub mod Enter
pub mod Walk
pub mod Map
pub mod Chunk
pub mod Kernel
pub mod Chain
pub mod Boot
pub mod VmMap
pub mod Copy
mod Tests
use raincloud.Prelude.{
  ℕ, zero, suc, ◌+◌, ◌*◌, ◌/◌, ◌%◌, ◌^◌, Bool, true, false, ◌&&◌, Option, none, some, ◌==◌,
  if◌then◌else◌, add64,
}
use Prim.Native.Nat.{bit_or}
use raincloud.Mm.Pages.{Outcome, done, halted, ◌>>=◌}

-- How a file allocates the page of a table, and how it turns a table's address, through which it
-- reads and writes the table, into the one that entries hold, and back.
pub record Pager (State : Type 0) : Type 0 where
  pub alloc_new_page_table : State → Outcome (ℕ × State)
  pub to_phy : ℕ → Outcome ℕ
  pub to_virt : ℕ → Outcome ℕ

-- The 64-bit words of memory, each at its address.
abbrev pub Memory : Type 0
Memory = ℕ → ℕ

abbrev pub write : ℕ → ℕ → Memory → Memory
write a v mem b = if b == a then v else mem b

-- The memory and the allocator's state.
pub record Machine (State : Type 0) : Type 0 where
  pub mem : Memory
  pub pages : State

-- `& PAGING_MASK_P`, `& PAGING_MASK_ADDR`, and the flags of `__get_flag`: bits 0 to 8 and 63.
abbrev pub is_present : ℕ → Bool
is_present e = e % 2 == 1

abbrev pub addr_bits : ℕ → ℕ
addr_bits e = e / 2 ^ 12 % 2 ^ 36 * 2 ^ 12

abbrev pub get_flag : ℕ → ℕ
get_flag e = e % 2 ^ 9 + e / 2 ^ 63 % 2 * 2 ^ 63

abbrev pub mk_entry : (addr flag : ℕ) → ℕ
mk_entry addr flag = bit_or (addr_bits addr) flag

abbrev pub default_pte_flag : ℕ
default_pte_flag = 0x1b

abbrev pub default_empty_flag : ℕ
default_empty_flag = 0x1c

abbrev pub default_pt_flag : ℕ
default_pt_flag = 0x1f

-- The entry of a table for bits `shift` to `shift + 8` of an address.
abbrev pub entry_of : (table virt_addr shift : ℕ) → ℕ
entry_of table virt_addr shift = table + virt_addr / 2 ^ shift % 2 ^ 9 * 8

-- `__init_table`, from entry `a` on.
pub init_table : (rounds a init_entry : ℕ) → Memory → Memory
init_table zero a init_entry mem = mem
init_table (suc n) a init_entry mem = init_table n (a + 8) init_entry (write a init_entry mem)

-- The physical address and the flags.
abbrev pub read_pte : Memory → ℕ → Option (ℕ × ℕ)
read_pte mem entry =
    if is_present (mem entry) then some (addr_bits (mem entry), get_flag (mem entry)) else none

-- Whether what was found is what was asked for.
abbrev pub is_mapped : Option (ℕ × ℕ) → (phy_addr flag : ℕ) → Bool
is_mapped none phy_addr flag = false
is_mapped (some (phy, found)) phy_addr flag = (phy == phy_addr) && (found == flag)

module _ {State : Type 0} (pager : Pager State) where
  pub new_table : ℕ → Machine State → Outcome (ℕ × Machine State)
  unfolding init_table
  new_table entry m = pager.alloc_new_page_table m.pages >>= λ (table, pages).
      pager.to_phy table >>= λ phy. done (
        table,
        record {
          mem =
              write entry (mk_entry phy default_pt_flag)
                (init_table 512 table default_empty_flag m.mem);
          pages = pages;
        },
      )

  -- The table that an entry leads to, a new one if there is none.
  pub enter : ℕ → Machine State → Outcome (ℕ × Machine State)
  unfolding new_table
  enter entry m =
      if is_present (m.mem entry)
      then (pager.to_virt (addr_bits (m.mem entry)) >>= λ table. done (table, m))
      else new_table entry m

  pub do_mapping : (plm4e virt_addr phy_addr flag : ℕ) → Machine State → Outcome (Machine State)
  unfolding enter
  do_mapping plm4e virt_addr phy_addr flag m =
      enter (entry_of plm4e virt_addr 39) m >>= λ (pdpte, m).
      enter (entry_of pdpte virt_addr 30) m >>= λ (pde, m).
      enter (entry_of pde virt_addr 21) m >>= λ (pte, m).
      done (record m { mem = write (entry_of pte virt_addr 12) (mk_entry phy_addr flag) m.mem })

  pub map_by_pages :
      (number_of_pages plm4e virt_addr phy_addr flag : ℕ) → Machine State → Outcome (Machine State)
  unfolding do_mapping
  map_by_pages zero plm4e virt_addr phy_addr flag m = done m
  map_by_pages (suc n) plm4e virt_addr phy_addr flag m =
      do_mapping plm4e virt_addr phy_addr flag m
      >>= map_by_pages n plm4e (add64 virt_addr 0x1000) (add64 phy_addr 0x1000) flag

  -- One level of `__query_mapping`; `none` is -1.
  abbrev pub follow : Memory → ℕ → (ℕ → Outcome (Option (ℕ × ℕ))) → Outcome (Option (ℕ × ℕ))
  follow mem entry next =
      if is_present (mem entry) then (pager.to_virt (addr_bits (mem entry)) >>= next) else done none

  pub query_mapping : (plm4e virt_addr : ℕ) → Memory → Outcome (Option (ℕ × ℕ))
  query_mapping plm4e virt_addr mem = follow mem (entry_of plm4e virt_addr 39) λ pdpte.
      follow mem (entry_of pdpte virt_addr 30) λ pde.
        follow mem (entry_of pde virt_addr 21)
          λ pte. done (read_pte mem (entry_of pte virt_addr 12))

  -- The machine is halted at the first page that is not mapped as it should be.
  pub validate_mapping :
      (number_of_pages plm4e virt_addr phy_addr flag : ℕ) → Memory → Outcome (Unit {0})
  unfolding query_mapping
  validate_mapping zero plm4e virt_addr phy_addr flag mem = done tt
  validate_mapping (suc n) plm4e virt_addr phy_addr flag mem =
      let rest =
        validate_mapping n plm4e (add64 virt_addr 0x1000) (add64 phy_addr 0x1000) flag mem in
      query_mapping plm4e virt_addr mem >>= λ r. if is_mapped r phy_addr flag then rest else halted

  pub modify_chunk_mapping :
      (plm4e virt_addr phy_addr number_of_pages flag : ℕ) → Machine State → Outcome (Machine State)
  unfolding map_by_pages validate_mapping
  modify_chunk_mapping plm4e virt_addr phy_addr number_of_pages flag m =
      map_by_pages number_of_pages plm4e virt_addr phy_addr flag m >>= λ m.
      validate_mapping number_of_pages plm4e virt_addr phy_addr flag m.mem >>= λ _. done m
