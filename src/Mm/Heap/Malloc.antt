-- ===== src/Mm/Heap/Malloc.antt =====
-- mm/malloc.c, `malloc` and its consistency check, from the lemmas on its parts.
use raincloud.Prelude.{
  ℕ, ◌+◌, ◌*◌, ◌-◌, ◌%◌, ◌^◌, ◌≤◌, ◌<◌, ◌≡◌, ◌≢◌, inl, inr, refl, true, false, none, some, List, [],
  ◌∷◌, arith, Option-cases, ◌==◌, Bool-cases, add64, length,
}
use raincloud.Mm.Heap.{
  Block, VmHeap, block_struct_size, kernel_heap_base, roundsize, scan, first_fit, merge_block,
  malloc, linked, sum_lengths, consistency_check, retry, malloc_setup,
}
use raincloud.Mm.Heap.Invariant.{
  Tiles, IsValid, Tiles-le, length-le, roundsize-round, first_fit-IsValid,
}
use raincloud.Mm.Heap.Merge.{Separated, merge_block-Separated}
use raincloud.Mm.Heap.Live.{Has, Granted, scan-Granted, Has-merge_block}

retry-IsValid : (size : ℕ) (r : ℕ × VmHeap) → size % 16 ≡ 0 → IsValid r.1 → IsValid (retry size r).1
retry-IsValid size r round v = elim (Bool-cases (r.0 == 0)) [
  | inl null ↦ rw null (first_fit-IsValid size round (merge_block-Separated v).0)
  | inr found ↦ rw found v
]

-- `malloc` keeps the heap valid for every size, whether or not it finds a block.
pub malloc-IsValid : (size : ℕ) {h : VmHeap} → IsValid h → IsValid (malloc size h).heap
unfolding malloc
malloc-IsValid size {h} v = elim (Bool-cases (size == 0)) [
  | inl zero_size ↦ rw zero_size v
  | inr some_size ↦ rw some_size (
      retry-IsValid (roundsize size) _ (roundsize-round size)
        (first_fit-IsValid (roundsize size) (roundsize-round size) v))
]

linked-Tiles : (p : ℕ) (bs : List Block) (e : ℕ) → e < 2 ^ 64 → Tiles p bs e → linked bs ≡ true
unfolding linked
linked-Tiles p [] e top t = refl
linked-Tiles p (b ∷ []) e top t = refl
linked-Tiles p (b ∷ n ∷ bs) e top t = ground (
  arith,
  Tiles-le _ (n ∷ bs) e t.3,
  linked-Tiles (p + block_struct_size + b.length) (n ∷ bs) e top t.3,
)

sum_lengths-Tiles :
    (sum p : ℕ) (bs : List Block) (e : ℕ)
    → e < 2 ^ 64
    → sum ≤ p
    → Tiles p bs e
    → sum_lengths sum bs + length bs * 32 + p ≡ sum + e
unfolding sum_lengths
sum_lengths-Tiles sum p [] e top le t = omega arith
sum_lengths-Tiles sum p (b ∷ bs) e top le t = omega (
  arith,
  Tiles-le _ bs e t.3,
  sum_lengths-Tiles (add64 sum b.length) (p + block_struct_size + b.length) bs e top
      (omega (arith, Tiles-le _ bs e t.3)) t.3,
)

-- On a valid heap the consistency check reports nothing.
pub consistency_check-IsValid : {h : VmHeap} → IsValid h → consistency_check h ≡ true
unfolding consistency_check
consistency_check-IsValid {h} v =
    let end = kernel_heap_base + h.total in
    ground (
      arith,
      linked-Tiles kernel_heap_base h.mm_list end v.top v.tiles,
      sum_lengths-Tiles 0 kernel_heap_base h.mm_list end v.top (omega arith) v.tiles,
      length-le kernel_heap_base h.mm_list end v.tiles,
      v.counted,
      v.top,
    )

first_fit_grants :
    (size : ℕ) {h : VmHeap}
    → IsValid h
    → (first_fit size h).0 ≢ 0
    → let (p, h') = first_fit size h in Granted kernel_heap_base h.mm_list size p h'.mm_list
unfolding first_fit
first_fit_grants size {h} v found = elim (Option-cases (scan size h.mm_list)) [
  | inl e ↦ absurd (found (rw e))
  | inr (t, e) ↦ rw e (scan-Granted size _ v.top kernel_heap_base h.mm_list (omega arith) v.tiles e)
]

Granted-merge :
    (h : VmHeap) {size ptr : ℕ} {out : List Block}
    → Granted kernel_heap_base (merge_block h).mm_list size ptr out
    → Granted kernel_heap_base h.mm_list size ptr out
Granted-merge h g = record {
  block = g.block;
  has = g.has;
  marked = g.marked;
  points = g.points;
  fits = g.fits;
  snug = g.snug;
  low = g.low;
  apart = λ b has m. g.apart b (Has-merge_block h b m has) m;
  keeps = λ b has m. g.keeps b (Has-merge_block h b m has) m;
}

first_fit_miss :
    (size : ℕ) {h : VmHeap}
    → IsValid h
    → (first_fit size h).0 ≡ 0
    → (first_fit size h ≡ (0, h)) × (scan size h.mm_list ≡ none)
unfolding first_fit
first_fit_miss size {h} v missed = elim (Option-cases (scan size h.mm_list)) [
  | inl e ↦ (rw e, e)
  | inr (t, e) ↦
      let g = scan-Granted size _ v.top kernel_heap_base h.mm_list (omega arith) v.tiles e in
      let here : t.ptr ≡ 0 = rw e at missed in absurd (omega (arith, g.points, g.low))
]

-- What `malloc` returns, if it is not NULL, points behind the header of a block of its own list
-- that is marked, holds the rounded size and at most 47 bytes more, and overlaps no block that was
-- in use; and every block that was in use stands unchanged.
pub malloc_grants :
    (size : ℕ) {h : VmHeap}
    → IsValid h
    → (malloc size h).ret ≢ 0
    → Granted kernel_heap_base h.mm_list
        (roundsize size)
        (malloc size h).ret
        (malloc size h).heap.mm_list
unfolding malloc
malloc_grants size {h} v found = elim (Bool-cases (size == 0)) [
  | inl zero_size ↦ absurd (found (rw zero_size))
  | inr some_size ↦ rw some_size (retried (rw some_size at found))
]
  where
    round : ℕ
    round = roundsize size

    retried :
        (retry round (first_fit round h)).0 ≢ 0
        → Granted kernel_heap_base h.mm_list round
            (retry round (first_fit round h)).0
            (retry round (first_fit round h)).1.mm_list
    retried found = elim (Bool-cases ((first_fit round h).0 == 0)) [
      | inl null ↦
          let miss = first_fit_miss round v (ground arith) in
          rw null (
            rw miss.0 (
              Granted-merge h
                (first_fit_grants round (merge_block-Separated v).0 (rw (null, miss.0) at found))))
      | inr hit ↦ rw hit (first_fit_grants round v (ground arith))
    ]

scan-none :
    (size : ℕ) (bs : List Block)
    → scan size bs ≡ none
    → (b : Block) → Has b bs
    → b.used ≡ 0
    → b.length < size
unfolding scan
scan-none size [] e b has free = absurd has
scan-none size (c ∷ cs) e b (inl same) free = ground arith
scan-none size (c ∷ cs) e b (inr has) free = elim (Option-cases (scan size cs)) [
  | inl none_later ↦ scan-none size cs none_later b has free
  | inr (t, later) ↦ absurd (ground arith)
]

-- `malloc` returns NULL for a size that is not 0 only when, with all free neighbours merged, every
-- free block is shorter than the rounded size. The heap is then the merged one, and the `memset`
-- that follows is still made, at address 0.
pub malloc_exhausted :
    (size : ℕ) {h : VmHeap}
    → IsValid h
    → size ≢ 0
    → (malloc size h).ret ≡ 0
    → ((malloc size h).heap ≡ merge_block h)
      × ((malloc size h).cleared ≡ some (0, roundsize size))
      × Separated (merge_block h).mm_list
      × ((b : Block) → Has b (merge_block h).mm_list → b.used ≡ 0 → b.length < roundsize size)
unfolding malloc
malloc_exhausted size {h} v positive null =
    let some_size : (size == 0) ≡ false = ground arith in
    let merged = merge_block-Separated v in
    elim (Bool-cases ((first_fit (roundsize size) h).0 == 0)) [
      | inl first ↦
          let miss = first_fit_miss (roundsize size) v (ground arith) in
          let null' : (first_fit (roundsize size) (merge_block h)).0 ≡ 0 =
            rw (some_size, first, miss.0) at null in
          let miss' = first_fit_miss (roundsize size) merged.0 null' in
          rw (some_size, first, miss.0, miss'.0)
            (refl, refl, merged.1, scan-none (roundsize size) _ miss'.1)
      | inr hit ↦ absurd (ground arith)
    ]

-- The rounded size is the next multiple of 16, unless the size lies within 15 of 2 ^ 64: then it
-- is 0, and a search for it accepts every free block.
pub roundsize_lem :
    (size : ℕ)
    → size < 2 ^ 64
    → (size ≤ 2 ^ 64 - 16
        → (size ≤ roundsize size) × (roundsize size < size + 16) × (roundsize size % 16 ≡ 0))
      × (2 ^ 64 - 16 < size → roundsize size ≡ 0)
unfolding roundsize
roundsize_lem size small = (λ h. ground arith, λ h. ground arith)

-- The heap that `malloc_init` sets up is valid.
pub malloc_setup-IsValid : IsValid malloc_setup
unfolding malloc_setup
malloc_setup-IsValid = omega arith
