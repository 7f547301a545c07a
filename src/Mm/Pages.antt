-- ===== src/Mm/Pages.antt =====
-- arch/x86/paging.c, the allocator of physical pages. `mm_pool.mm_list` is the list of the free
-- blocks in the order of the links. A block's header lies in its own first page, at the page's
-- address in the direct mapping, which is the block's address here; its length is in pages.
pub mod Cover
pub mod Alloc
pub mod Free
pub mod Init
mod Tests
use raincloud.Prelude.{
  ℕ, ◌*◌, ◌/◌, ◌^◌, Bool, true, ◌&&◌, ◌||◌, Option, none, some, List, [], ◌∷◌, ◌++◌, ltb, leb, ◌==◌,
  if◌then◌else◌, add64, sub64, ◌%◌,
}

pub record PageBlock : Type 0 where
  pub addr : ℕ
  pub length : ℕ

pub record MmPool : Type 0 where
  pub mm_list : List PageBlock
  pub available : ℕ
  pub total : ℕ

-- A failed `assert` prints and halts the machine.
pub data Outcome (A : Type 0) : Type 0 where
  done : A → Outcome A
  halted : Outcome A

infixl 5 ◌>>=◌
abbrev pub ◌>>=◌ : {A B : Type 0} → Outcome A → (A → Outcome B) → Outcome B
done a >>= f = f a
halted >>= f = halted

abbrev pub phy_map_base : ℕ
phy_map_base = 0xffff800000000000

abbrev pub invalid_addr : ℕ
invalid_addr = 0xffffffffffffffff

-- `n << 12` of a 64-bit word.
abbrev pub bytes : ℕ → ℕ
bytes n = n * 2 ^ 12 % 2 ^ 64

abbrev pub convert_virt_to_phy : ℕ → Outcome ℕ
convert_virt_to_phy addr = if ltb phy_map_base addr then done (sub64 addr phy_map_base) else halted

abbrev pub convert_phy_to_virt : ℕ → Outcome ℕ
convert_phy_to_virt addr = if ltb addr phy_map_base then done (add64 addr phy_map_base) else halted

-- What the search of `__page_alloc` finds: the address in the direct mapping, and the list.
abbrev pub keep_block : PageBlock → Option (ℕ × List PageBlock) → Option (ℕ × List PageBlock)
keep_block b none = none
keep_block b (some (a, bs)) = some (a, b ∷ bs)

pub search_pages : ℕ → List PageBlock → Option (ℕ × List PageBlock)
search_pages size [] = none
search_pages size (b ∷ bs) =
    let rest = keep_block b (search_pages size bs) in
    if b.length == size
    then some (b.addr, bs)
    else if ltb size b.length
    then some
        (add64 b.addr (bytes (sub64 b.length size)), record b { length = sub64 b.length size } ∷ bs)
    else rest

abbrev pub take_pages : ℕ → MmPool → Option (ℕ × List PageBlock) → Outcome (ℕ × MmPool)
take_pages size pool none = done (invalid_addr, pool)
take_pages size pool (some (a, bs)) = convert_virt_to_phy a >>= λ phy.
    done (phy, record pool { mm_list = bs; available = sub64 pool.available size })

pub page_search : ℕ → MmPool → Outcome (ℕ × MmPool)
unfolding search_pages
page_search size pool = take_pages size pool (search_pages size pool.mm_list)

-- `__page_merge`: a block absorbs the ones that begin where it ends.
abbrev pub absorb : PageBlock → PageBlock → PageBlock
absorb e n = record e { length = add64 e.length n.length }

pub page_merge_from : PageBlock → List PageBlock → List PageBlock
page_merge_from e [] = e ∷ []
page_merge_from e (n ∷ ns) =
    let joined = page_merge_from (absorb e n) ns in
    let kept = e ∷ page_merge_from n ns in
    if add64 e.addr (bytes e.length) == n.addr then joined else kept

pub page_merge_list : List PageBlock → List PageBlock
unfolding page_merge_from
page_merge_list [] = []
page_merge_list (b ∷ bs) = page_merge_from b bs

abbrev pub page_merge : MmPool → MmPool
page_merge pool = record pool { mm_list = page_merge_list pool.mm_list }

-- `__page_consistency_check` halts if more is available than there is; its reports of a corrupted
-- list and of a wrong sum are only printed.
abbrev pub page_consistency_check : MmPool → Outcome (Unit {0})
page_consistency_check pool = if leb pool.available pool.total then done tt else halted

pub sum_pages : ℕ → List PageBlock → ℕ
sum_pages sum [] = sum
sum_pages sum (b ∷ bs) = sum_pages (add64 sum b.length) bs

pub ordered_pages : List PageBlock → Bool
ordered_pages [] = true
ordered_pages (b ∷ []) = true
ordered_pages (b ∷ n ∷ bs) =
    leb (add64 b.addr (bytes b.length)) (add64 n.addr (bytes n.length)) && ordered_pages (n ∷ bs)

-- Whether the check prints no report.
pub page_check_silent : MmPool → Bool
unfolding sum_pages ordered_pages
page_check_silent pool = ordered_pages pool.mm_list && (sum_pages 0 pool.mm_list == pool.available)

pub page_alloc : ℕ → MmPool → Outcome (ℕ × MmPool)
page_alloc size pool =
    if size == 0
    then done (invalid_addr, pool)
    else page_search size pool
      >>= (λ r. if r.0 == invalid_addr then page_search size (page_merge r.1) else done r)
      >>= λ r. page_consistency_check r.1 >>= λ _. done r

-- `__page_free`. The source computes the address of the block from `size`, not from `addr`.
pub insert_block : PageBlock → List PageBlock → List PageBlock
insert_block b [] = b ∷ []
insert_block b (c ∷ cs) = if ltb b.addr c.addr then b ∷ c ∷ cs else c ∷ insert_block b cs

pub page_free : (addr size : ℕ) → MmPool → Outcome MmPool
page_free addr size pool = convert_phy_to_virt size >>= λ addr.
    let pool' = record pool {
      mm_list = insert_block (record { addr = addr; length = size }) pool.mm_list;
      available = add64 pool.available size;
    } in
    page_consistency_check pool' >>= λ _. done pool'

-- `efi_memory_descriptor_t`, as far as `page_alloc_init` reads it. The types with memory to use
-- are the loader's and the boot services' code and data, 1 to 4, and conventional memory, 7.
pub record EfiMemoryDescriptor : Type 0 where
  pub type : ℕ
  pub physical_start : ℕ
  pub number_of_pages : ℕ

abbrev pub is_usable : ℕ → Bool
is_usable t = t == 7 || t == 3 || t == 4 || t == 1 || t == 2

pub block_pages : ℕ → EfiMemoryDescriptor → ℕ × ℕ
block_pages lowerbound d =
    let start = if ltb lowerbound d.physical_start then d.physical_start else lowerbound in
    let end = add64 d.physical_start (bytes d.number_of_pages) in (start, sub64 end start / 2 ^ 12)

abbrev pub add_descriptor : ℕ → EfiMemoryDescriptor → MmPool → Outcome MmPool
add_descriptor lowerbound d pool =
    let (start, n) = block_pages lowerbound d in
    convert_phy_to_virt start >>= λ addr. done (record pool {
      mm_list = pool.mm_list ++ record { addr = addr; length = n } ∷ [];
      available = add64 pool.available n;
    })

pub add_descriptors : ℕ → List EfiMemoryDescriptor → MmPool → Outcome MmPool
unfolding block_pages
add_descriptors lowerbound [] pool = done pool
add_descriptors lowerbound (d ∷ ds) pool =
    (if is_usable d.type then add_descriptor lowerbound d pool else done pool)
    >>= add_descriptors lowerbound ds

pub page_alloc_init : List EfiMemoryDescriptor → ℕ → Outcome MmPool
unfolding add_descriptors
page_alloc_init descs lowerbound =
    add_descriptors lowerbound descs (record { mm_list = []; available = 0; total = 0 }) >>= λ pool.
    done (record pool { total = pool.available })
