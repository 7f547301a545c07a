-- ===== src/Mm/Heap.antt =====
-- mm/malloc.c: the kernel heap. `vm_heap.mm_list` is the list of the blocks in the order of the
-- links; a block's address is the address of its header, and its bytes begin behind the header.
-- Counters and lengths are 64-bit words.
pub mod Invariant
pub mod Merge
pub mod Free
pub mod Live
pub mod Malloc
mod Tests
use raincloud.Prelude.{
  ℕ, ◌+◌, ◌*◌, ◌/◌, ◌%◌, ◌^◌, Bool, true, not, ◌&&◌, ◌||◌, Option, none, some, List, [], ◌∷◌, ltb,
  ◌==◌, if◌then◌else◌, add64, sub64,
}

pub record Block : Type 0 where
  pub addr : ℕ
  pub length : ℕ
  pub used : ℕ

pub record VmHeap : Type 0 where
  pub mm_list : List Block
  pub available : ℕ
  pub total : ℕ
  pub block_count : ℕ

-- sizeof(struct mm_block): two links and two 64-bit fields.
abbrev pub block_struct_size : ℕ
block_struct_size = 32

abbrev pub kernel_heap_base : ℕ
kernel_heap_base = 0xfffff80000000000

abbrev pub initial_heap_size : ℕ
initial_heap_size = 0x10000

abbrev pub is_used : Block → Bool
is_used b = not (b.used == 0)

-- `size & 0xf` is `size % 16`, and `size & ~0xf` is `size / 16 * 16`.
pub roundsize : ℕ → ℕ
roundsize size = if size % 16 == 0 then size else add64 (size / 16 * 16) 16

-- What the loop of `__malloc` leaves: the pointer, the list, what is taken from `available`, and
-- how many blocks are new.
pub record Taken : Type 0 where
  pub ptr : ℕ
  pub blocks : List Block
  pub cost : ℕ
  pub fresh : ℕ

-- The block that a split puts behind `entry`, whose length is the reduced one.
abbrev pub new_entry : Block → ℕ → Block
new_entry entry size = record {
  addr = add64 (add64 entry.addr block_struct_size) entry.length;
  length = size;
  used = 1;
}

abbrev pub take_whole : Block → List Block → Taken
take_whole b bs = record {
  ptr = add64 b.addr block_struct_size;
  blocks = record b { used = 1 } ∷ bs;
  cost = b.length;
  fresh = 0;
}

abbrev pub split : ℕ → Block → List Block → Taken
split size b bs =
    let entry = record b { length = sub64 b.length (add64 size block_struct_size) } in
    record {
      ptr = add64 (new_entry entry size).addr block_struct_size;
      blocks = entry ∷ new_entry entry size ∷ bs;
      cost = add64 size block_struct_size;
      fresh = 1;
    }

abbrev pub put_back : Block → Option Taken → Option Taken
put_back b none = none
put_back b (some t) = some (record t { blocks = b ∷ t.blocks })

-- The body of the loop at one entry; `rest` is what the loop does from the next one on.
abbrev pub at_entry : ℕ → Block → List Block → Option Taken → Option Taken
at_entry size b bs rest =
    if is_used b || ltb b.length size
    then put_back b rest
    else if ltb b.length (add64 (add64 size block_struct_size) 16)
    then some (take_whole b bs)
    else some (split size b bs)

pub scan : ℕ → List Block → Option Taken
scan size [] = none
scan size (b ∷ bs) = at_entry size b bs (scan size bs)

abbrev pub charge : VmHeap → Option Taken → ℕ × VmHeap
charge h none = (0, h)
charge h (some t) = (
  t.ptr,
  record h {
    mm_list = t.blocks;
    available = sub64 h.available t.cost;
    block_count = add64 h.block_count t.fresh;
  },
)

-- `__malloc`: the pointer, 0 for NULL, and the heap.
pub first_fit : ℕ → VmHeap → ℕ × VmHeap
first_fit size h = charge h (scan size h.mm_list)

-- `__free` finds the header in front of the pointer.
pub data Freed : Type 0 where
  freed : VmHeap → Freed
  -- `bug` prints, and nothing changes
  double_free : VmHeap → Freed
  -- no header of the list stands there
  no_header : Freed

-- The block at an address with its mark taken away.
pub release : ℕ → List Block → List Block
release a [] = []
release a (b ∷ bs) = if b.addr == a then record b { used = 0 } ∷ bs else b ∷ release a bs

pub find_header : ℕ → List Block → Option Block
find_header a [] = none
find_header a (b ∷ bs) = if b.addr == a then some b else find_header a bs

abbrev pub free_entry : VmHeap → Option Block → Freed
free_entry h none = no_header
free_entry h (some b) =
    if b.used == 1
    then freed
        (record h { mm_list = release b.addr h.mm_list; available = add64 h.available b.length })
    else double_free h

pub free : ℕ → VmHeap → Freed
free ptr h = free_entry h (find_header (sub64 ptr block_struct_size) h.mm_list)

-- `__merge_block` from an entry on: the list, and the number of blocks that were joined.
abbrev pub join : Block → Block → Block
join e n = record e { length = add64 e.length (add64 n.length block_struct_size) }

pub merge_from : Block → List Block → List Block × ℕ
merge_from e [] = (e ∷ [], 0)
merge_from e (n ∷ ns) =
    let joined = merge_from (join e n) ns in
    let kept = merge_from n ns in
    if not (is_used e) && not (is_used n) then (joined.0, joined.1 + 1) else (e ∷ kept.0, kept.1)

pub merge_list : List Block → List Block × ℕ
unfolding merge_from
merge_list [] = ([], 0)
merge_list (b ∷ bs) = merge_from b bs

pub merge_block : VmHeap → VmHeap
unfolding merge_list
merge_block h =
    let (bs, k) = merge_list h.mm_list in
    record h {
      mm_list = bs;
      block_count = sub64 h.block_count k;
      available = add64 h.available (k * block_struct_size);
    }

-- What `malloc` returns and what its `memset` clears: an address and a size.
pub record Malloced : Type 0 where
  pub ret : ℕ
  pub cleared : Option (ℕ × ℕ)
  pub heap : VmHeap

abbrev pub retry : ℕ → ℕ × VmHeap → ℕ × VmHeap
retry size (p, h') = if p == 0 then first_fit size (merge_block h') else (p, h')

abbrev pub cleared_result : ℕ → ℕ × VmHeap → Malloced
cleared_result size (p, h) = record { ret = p; cleared = some (p, size); heap = h }

pub malloc : ℕ → VmHeap → Malloced
malloc size h =
    if size == 0
    then record { ret = 0; cleared = none; heap = h }
    else cleared_result (roundsize size) (retry (roundsize size) (first_fit (roundsize size) h))

-- `__mm_list_consistency_check`: whether neither of its two reports is printed.
pub linked : List Block → Bool
linked [] = true
linked (b ∷ []) = true
linked (b ∷ n ∷ bs) = (add64 (add64 b.addr b.length) block_struct_size == n.addr) && linked (n ∷ bs)

pub sum_lengths : ℕ → List Block → ℕ
sum_lengths sum [] = sum
sum_lengths sum (b ∷ bs) = sum_lengths (add64 sum b.length) bs

pub consistency_check : VmHeap → Bool
unfolding linked sum_lengths
consistency_check h =
    linked h.mm_list
    && (add64 (sum_lengths 0 h.mm_list) (h.block_count * block_struct_size % 2 ^ 64) == h.total)

-- What `malloc_init` sets up: one free block, which is the whole heap.
pub malloc_setup : VmHeap
malloc_setup =
    let total = initial_heap_size * 2 ^ 12 in
    let available = sub64 total block_struct_size in
    record {
      mm_list = record { addr = kernel_heap_base; length = available; used = 0 } ∷ [];
      available = available;
      total = total;
      block_count = 1;
    }

-- The trial that follows: a `malloc` for each size, then a `free` of each pointer, in order.
malloc_all : List ℕ → VmHeap → List ℕ × VmHeap
unfolding malloc
malloc_all [] h = ([], h)
malloc_all (s ∷ ss) h =
    let m = malloc s h in let (ptrs, h') = malloc_all ss m.heap in (m.ret ∷ ptrs, h')

abbrev freed_heap : VmHeap → Freed → VmHeap
freed_heap h (freed h') = h'
freed_heap h (double_free h') = h'
freed_heap h no_header = h

free_all : List ℕ → VmHeap → VmHeap
unfolding free
free_all [] h = h
free_all (p ∷ ps) h = free_all ps (freed_heap h (free p h))

abbrev trial_sizes : List ℕ
trial_sizes = 2 ∷ 4 ∷ 8 ∷ 16 ∷ 32 ∷ 64 ∷ 128 ∷ 256 ∷ 512 ∷ 1024 ∷ []

pub malloc_init : VmHeap
unfolding malloc_setup malloc_all free_all merge_block
malloc_init =
    let (ptrs, h) = malloc_all trial_sizes malloc_setup in
    merge_block (free_all ptrs (merge_block h))
