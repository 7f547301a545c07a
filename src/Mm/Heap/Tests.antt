-- ===== src/Mm/Heap/Tests.antt =====
-- mm/malloc.c: runs on small heaps, and the theorems at them.
use raincloud.Prelude.{ℕ, ◌+◌, ◌<◌, ◌≡◌, ◌≢◌, refl, some, [], ◌∷◌, arith, inl, inr}
use raincloud.Mm.Heap.{
  Block, VmHeap, kernel_heap_base, scan, first_fit, free, freed, release, find_header, malloc,
  merge_block, malloc_init, malloc_setup, roundsize,
}
use raincloud.Mm.Heap.Invariant.{IsValid}
use raincloud.Mm.Heap.Merge.{Separated}
use raincloud.Mm.Heap.Live.{Has, Granted}
use raincloud.Mm.Heap.Malloc.{malloc-IsValid, malloc_grants, malloc_exhausted}
use raincloud.Mm.Heap.Free.{FreedBlock, free-live, free-malloc}

abbrev block : ℕ → ℕ → ℕ → Block
block at length used = record { addr = kernel_heap_base + at; length = length; used = used }

abbrev second : Block
second = block 96 32 1

abbrev third : Block
third = block 160 16 0

-- A free block of 64 bytes, one of 32 in use, and a free one of 16.
abbrev heap : VmHeap
heap = record {
  mm_list = block 0 64 0 ∷ second ∷ third ∷ [];
  available = 80;
  total = 208;
  block_count = 3;
}

-- Two free neighbours.
abbrev apart : VmHeap
apart = record {
  mm_list = block 0 64 0 ∷ block 96 32 0 ∷ [];
  available = 96;
  total = 160;
  block_count = 2;
}

heap-IsValid : IsValid heap
heap-IsValid = omega arith

apart-IsValid : IsValid apart
apart-IsValid = omega arith

-- 5 bytes are rounded to 16 and cut off the end of the first block.
malloc_splits : (malloc 5 heap).ret ≡ kernel_heap_base + 80
unfolding malloc roundsize first_fit scan
malloc_splits = refl

-- 100 bytes fit only after the merge.
malloc_merges : (malloc 100 apart).ret ≡ kernel_heap_base + 32
unfolding malloc roundsize first_fit scan merge_block
malloc_merges = refl

malloc-IsValid_example : IsValid (malloc 5 heap).heap
malloc-IsValid_example = malloc-IsValid 5 heap-IsValid

malloc_splits_ne : (malloc 5 heap).ret ≢ 0
malloc_splits_ne = omega (arith, malloc_splits)

malloc_grants_example :
    Granted kernel_heap_base heap.mm_list
      (roundsize 5)
      (malloc 5 heap).ret
      (malloc 5 heap).heap.mm_list
malloc_grants_example = malloc_grants 5 heap-IsValid malloc_splits_ne

malloc_too_long : (malloc 200 heap).ret ≡ 0
unfolding malloc roundsize first_fit scan merge_block
malloc_too_long = refl

malloc_exhausted_example :
    ((malloc 200 heap).heap ≡ merge_block heap)
    × ((malloc 200 heap).cleared ≡ some (0, roundsize 200))
    × Separated (merge_block heap).mm_list
    × ((b : Block) → Has b (merge_block heap).mm_list → b.used ≡ 0 → b.length < roundsize 200)
malloc_exhausted_example = malloc_exhausted 200 heap-IsValid (omega arith) malloc_too_long

free-live_example :
    (h' : VmHeap) × (free (kernel_heap_base + 128) heap ≡ freed h') × FreedBlock heap second h'
free-live_example =
    free-live heap-IsValid second (inr (inl refl)) (kernel_heap_base + 128) (omega arith) refl

free-malloc_example :
    (h' : VmHeap) × (free (malloc 5 heap).ret (malloc 5 heap).heap ≡ freed h')
    × IsValid h'
    × ((b : Block) → Has b heap.mm_list → b.used ≡ 1 → Has b h'.mm_list)
free-malloc_example = free-malloc 5 heap-IsValid malloc_splits_ne

-- The trial of `malloc_init` leaves the heap that it found.
malloc_init_trial : malloc_init ≡ malloc_setup
unfolding malloc_init malloc free first_fit scan roundsize merge_block release find_header
malloc_init_trial = refl
