-- ===== src/Paging/VmMap.antt =====
-- mm/vm_map.c: a process's map of its memory, the list of its entries. `malloc` is the kernel
-- heap's, of which only whether it grants the node is of interest.
pub mod Dup
use raincloud.Prelude.{
  ℕ, ◌+◌, ◌*◌, ◌^◌, ◌≤◌, ◌≡◌, inl, inr, Bool, true, false, ◌&&◌, Option, none, some, List, [], ◌∷◌,
  ◌++◌, arith, refl, ap, ◌∙◌, ◌/◌, ◌%◌, ◌<◌, ◌≢◌, ◌⊎◌, add64, leb, ◌==◌, if◌then◌else◌, Bool-cases,
}
use raincloud.Mm.Pages.{MmPool, Outcome, done, halted, ◌>>=◌, bytes, page_free}
use raincloud.Paging.{Machine, addr_bits, modify_chunk_mapping, query_mapping}
use raincloud.Paging.Shape.{Owner, IsTree}
use raincloud.Paging.Map.{bind_done}
use raincloud.Paging.Kernel.{kernel_pager, kernel-IsPager, get_current_plm4e}
use raincloud.Paging.Chain.{
  VmMapEntry, Every, IsMappable, Outside, Apart, all_pages, IsMapped, Chain, Chained_lem,
}

abbrev pub VmMap : Type 0
VmMap = List VmMapEntry

abbrev pub vm_map_init : VmMap
vm_map_init = []

-- `none` is -1, with the map as it was.
abbrev pub vm_map_add : (granted : Bool) → VmMap → VmMapEntry → Option VmMap
vm_map_add granted vm_map entry = if granted then some (vm_map ++ entry ∷ []) else none

pub vm_map_clear : VmMap → MmPool → Outcome (VmMap × MmPool)
vm_map_clear [] pool = done ([], pool)
vm_map_clear (e ∷ es) pool = page_free e.phy_addr e.page_nums pool >>= vm_map_clear es

-- The two assertions on an entry.
abbrev pub has_plain_flags : VmMapEntry → Bool
has_plain_flags e = addr_bits e.flags == 0

abbrev pub is_low : VmMapEntry → Bool
is_low e = leb (add64 e.virt_addr (bytes e.page_nums)) 0x0000800000000000

abbrev pub map_entry : (cr3 : ℕ) → VmMapEntry → Machine MmPool → Outcome (Machine MmPool)
map_entry cr3 e m =
    if has_plain_flags e
    then if is_low e
      then modify_chunk_mapping kernel_pager (get_current_plm4e cr3) e.virt_addr e.phy_addr
          e.page_nums e.flags m
      else halted
    else halted

unfoldable pub vm_map_do_mapping : (cr3 : ℕ) → VmMap → Machine MmPool → Outcome (Machine MmPool)
vm_map_do_mapping cr3 [] m = done m
vm_map_do_mapping cr3 (e ∷ es) m = map_entry cr3 e m >>= vm_map_do_mapping cr3 es

-- The pages of the entry end at the top of the lower half of the addresses.
abbrev pub IsLow : VmMapEntry → Type 0
IsLow e = e.virt_addr + e.page_nums * 0x1000 ≤ 2 ^ 47

map_entry-mapped :
    (cr3 : ℕ) (e : VmMapEntry) (m : Machine MmPool)
    → IsMappable e
    → IsLow e
    → map_entry cr3 e m
      ≡ modify_chunk_mapping kernel_pager
          (get_current_plm4e cr3)
          e.virt_addr
          e.phy_addr
          e.page_nums
          e.flags
          m
map_entry-mapped cr3 e m good low =
    let plain : has_plain_flags e ≡ true = ground (arith, good.plain) in
    let under : is_low e ≡ true = ground (arith, good.few) in rw (plain, under) refl

vm_map_do_mapping-Chain :
    (cr3 : ℕ) (es : VmMap) (m after : Machine MmPool)
    → Every IsMappable es
    → Every IsLow es
    → Chain kernel-IsPager (get_current_plm4e cr3) es m after
    → vm_map_do_mapping cr3 es m ≡ done after
unfolding vm_map_do_mapping
vm_map_do_mapping-Chain cr3 [] m after good low same = ap done same
vm_map_do_mapping-Chain cr3 (e ∷ es) m after good low (next, ran, rest) =
    bind_done _ (map_entry-mapped cr3 e m good.0 low.0 ∙ ran)
    ∙ vm_map_do_mapping-Chain cr3 es next after good.1 low.1 rest

-- `vm_map_do_mapping` of entries that do not meet, whose pages lie in the lower half and can be
-- mapped, with three pages to spare for each of their pages, is not halted. Through the tables of
-- `get_current_plm4e` every page of every entry is translated to the entry's physical page with its
-- flags afterwards, every page of no entry is translated as before, and the tables make a tree.
pub vm_map_do_mapping_lem :
    (cr3 : ℕ) (es : VmMap) (owner : Owner) (m : Machine MmPool)
    → IsTree kernel-IsPager (get_current_plm4e cr3) owner m
    → 3 * all_pages es ≤ m.pages.available
    → Every IsMappable es
    → Every IsLow es
    → Apart es
    → (after : Machine MmPool) × (owner' : Owner) × (vm_map_do_mapping cr3 es m ≡ done after)
      × IsTree kernel-IsPager (get_current_plm4e cr3) owner' after
      × Every (IsMapped kernel-IsPager (get_current_plm4e cr3) after) es
      × ((w : ℕ)
          → Every (Outside w) es
          → query_mapping kernel_pager (get_current_plm4e cr3) w after.mem
            ≡ query_mapping kernel_pager (get_current_plm4e cr3) w m.mem)
vm_map_do_mapping_lem cr3 es owner m tree enough good low apart =
    let c = Chained_lem kernel-IsPager (get_current_plm4e cr3) es owner m tree enough good apart in
    (
      c.after,
      c.owner',
      vm_map_do_mapping-Chain cr3 es m c.after good low c.chain,
      c.tree,
      c.here,
      c.elsewhere,
    )

-- The same, with what it costs: three pages at most for each page mapped.
pub vm_map_do_mapping-cost :
    (cr3 : ℕ) (es : VmMap) (owner : Owner) (m : Machine MmPool)
    → IsTree kernel-IsPager (get_current_plm4e cr3) owner m
    → 3 * all_pages es ≤ m.pages.available
    → Every IsMappable es
    → Every IsLow es
    → Apart es
    → (after : Machine MmPool) × (owner' : Owner) × (vm_map_do_mapping cr3 es m ≡ done after)
      × IsTree kernel-IsPager (get_current_plm4e cr3) owner' after
      × (m.pages.available ≤ after.pages.available + 3 * all_pages es)
vm_map_do_mapping-cost cr3 es owner m tree enough good low apart =
    let c = Chained_lem kernel-IsPager (get_current_plm4e cr3) es owner m tree enough good apart in
    (c.after, c.owner', vm_map_do_mapping-Chain cr3 es m c.after good low c.chain, c.tree, c.cost)

always_halted :
    {A B : Type 0} (r : Outcome A) (f : A → Outcome B)
    → ((a : A) → f a ≡ halted)
    → (r >>= f) ≡ halted
always_halted halted f h = refl
always_halted (done a) f h = h a

-- The entry has one of the bits 12 to 47 in its flags, or its last page ends above 2^47 and not
-- beyond 2^64.
abbrev IsRefused : VmMapEntry → Type 0
IsRefused e =
    (e.flags / 2 ^ 12 % 2 ^ 36 ≢ 0)
    ⊎ ((2 ^ 47 < e.virt_addr + e.page_nums * 0x1000)
        × (e.virt_addr + e.page_nums * 0x1000 < 2 ^ 64))

IsRefused-asserts : (e : VmMapEntry) → IsRefused e → (has_plain_flags e && is_low e) ≡ false
IsRefused-asserts e (inl mixed) =
    let off : has_plain_flags e ≡ false = ground (arith, mixed) in rw off refl
IsRefused-asserts e (inr (high, word)) =
    let off : is_low e ≡ false = ground (arith, high, word) in
    elim (Bool-cases (has_plain_flags e)) [
      | inl plain ↦ rw (plain, off) refl
      | inr mixed ↦ rw mixed refl
    ]

-- Where an entry of the map has an address bit among its flags, or its pages end above 2^47 without
-- wrapping at 2^64, `vm_map_do_mapping` is halted, whatever the other entries, the tables and the
-- pool are.
pub vm_map_do_mapping-halted :
    (cr3 : ℕ) (es fs : VmMap) (e : VmMapEntry) (m : Machine MmPool)
    → IsRefused e
    → vm_map_do_mapping cr3 (es ++ e ∷ fs) m ≡ halted
unfolding vm_map_do_mapping
vm_map_do_mapping-halted cr3 [] fs e m bad =
    let failing = IsRefused-asserts e bad in
    elim (Bool-cases (has_plain_flags e)) [
      | inr mixed ↦ rw mixed refl
      | inl plain ↦ let high : is_low e ≡ false = ground (arith, failing) in rw (plain, high) refl
    ]
vm_map_do_mapping-halted cr3 (f ∷ es) fs e m bad =
    always_halted (map_entry cr3 f m) (vm_map_do_mapping cr3 (es ++ e ∷ fs))
      (λ m'. vm_map_do_mapping-halted cr3 es fs e m' bad)
