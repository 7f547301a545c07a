-- ===== src/Mm/Heap/Invariant.antt =====
-- mm/malloc.c: the blocks tile the heap, and the counters count them.
use raincloud.Prelude.{
  Option, Option-cases, ℕ, ◌+◌, ◌*◌, ◌%◌, ◌^◌, ◌≤◌, ◌<◌, ◌≡◌, refl, none, some, List, [], ◌∷◌,
  arith, length, if◌then◌else◌, inl, inr,
}
use raincloud.Mm.Heap.{
  Block, VmHeap, block_struct_size, kernel_heap_base, is_used, roundsize, Taken, split, take_whole,
  at_entry, scan, first_fit,
}

-- From `p` on, each header stands behind the bytes of the block before it, and the last block ends
-- at `e`; lengths are multiples of 16 and the marks are 0 or 1.
abbrev pub Tiles : ℕ → List Block → ℕ → Type 0
Tiles p [] e = p ≡ e
Tiles p (b ∷ bs) e =
    (b.addr ≡ p)
    × (b.used ≤ 1)
    × (b.length % 16 ≡ 0)
    × Tiles (p + block_struct_size + b.length) bs e

-- The bytes of the blocks that are not in use.
abbrev pub free_bytes : List Block → ℕ
free_bytes [] = 0
free_bytes (b ∷ bs) = (if is_used b then 0 else b.length) + free_bytes bs

pub record IsValid (h : VmHeap) : Type 0 where
  pub tiles : Tiles kernel_heap_base h.mm_list (kernel_heap_base + h.total)
  pub top : kernel_heap_base + h.total < 2 ^ 64
  pub counted : h.block_count ≡ length h.mm_list
  pub free : h.available ≡ free_bytes h.mm_list

pub Tiles-le : (p : ℕ) (bs : List Block) (e : ℕ) → Tiles p bs e → p ≤ e
Tiles-le p [] e t = omega arith
Tiles-le p (b ∷ bs) e t = omega (arith, Tiles-le (p + block_struct_size + b.length) bs e t.3)

pub free_bytes-le : (p : ℕ) (bs : List Block) (e : ℕ) → Tiles p bs e → p + free_bytes bs ≤ e
free_bytes-le p [] e t = omega arith
free_bytes-le p (b ∷ bs) e t =
    ground (arith, free_bytes-le (p + block_struct_size + b.length) bs e t.3)

pub length-le : (p : ℕ) (bs : List Block) (e : ℕ) → Tiles p bs e → p + length bs * 32 ≤ e
length-le p [] e t = omega arith
length-le p (b ∷ bs) e t = omega (arith, length-le (p + block_struct_size + b.length) bs e t.3)

-- What a successful search keeps.
record Kept (p e : ℕ) (bs : List Block) (t : Taken) : Type 0 where
  tiles : Tiles p t.blocks e
  counted : length t.blocks ≡ length bs + t.fresh
  paid : free_bytes t.blocks + t.cost ≡ free_bytes bs

module _ (size e : ℕ) (small : e < 2 ^ 64) (round : size % 16 ≡ 0) where
  take_whole-Kept :
      (p : ℕ) (b : Block) (bs : List Block)
      → Tiles p (b ∷ bs) e
      → b.used ≡ 0
      → Kept p e (b ∷ bs) (take_whole b bs)
  take_whole-Kept p b bs t u = ground arith

  split-Kept :
      (p : ℕ) (b : Block) (bs : List Block)
      → kernel_heap_base ≤ p
      → Tiles p (b ∷ bs) e
      → b.used ≡ 0
      → size + 48 ≤ b.length
      → Kept p e (b ∷ bs) (split size b bs)
  split-Kept p b bs low t u fits =
      ground (arith, Tiles-le (p + block_struct_size + b.length) bs e t.3)

  at_entry-Kept :
      (p : ℕ) (b : Block) (bs : List Block) (rest : Option Taken) {t : Taken}
      → kernel_heap_base ≤ p
      → Tiles p (b ∷ bs) e
      → ((r : Taken) → rest ≡ some r → Kept (p + block_struct_size + b.length) e bs r)
      → at_entry size b bs rest ≡ some t
      → Kept p e (b ∷ bs) t
  at_entry-Kept p b bs none low t later eq = ground (
    arith,
    Tiles-le (p + block_struct_size + b.length) bs e t.3,
    take_whole-Kept p b bs t,
    split-Kept p b bs low t,
  )
  at_entry-Kept p b bs (some r) low t later eq =
      let after = later r refl in
      ground (
        arith,
        Tiles-le (p + block_struct_size + b.length) bs e t.3,
        take_whole-Kept p b bs t,
        split-Kept p b bs low t,
        after,
      )

  scan-Kept :
      (p : ℕ) (bs : List Block) {t : Taken}
      → kernel_heap_base ≤ p
      → Tiles p bs e
      → scan size bs ≡ some t
      → Kept p e bs t
  unfolding scan
  scan-Kept p [] low t eq = cc
  scan-Kept p (b ∷ bs) low t eq =
      at_entry-Kept p b bs (scan size bs) low t
        (λ r h. scan-Kept (p + block_struct_size + b.length) bs (omega arith) t.3 h) eq

pub roundsize-round : (size : ℕ) → roundsize size % 16 ≡ 0
unfolding roundsize
roundsize-round size = ground arith

-- `__malloc` keeps the heap valid, whether or not it finds a block.
pub first_fit-IsValid :
    (size : ℕ) {h : VmHeap} → size % 16 ≡ 0 → IsValid h → IsValid (first_fit size h).1
unfolding first_fit
first_fit-IsValid size {h} round v = elim (Option-cases (scan size h.mm_list)) [
  | inl e ↦ rw e v
  | inr (t, e) ↦ rw e (
      let kept = scan-Kept size _ v.top round kernel_heap_base h.mm_list (omega arith) v.tiles e in
      let below = length-le kernel_heap_base t.blocks _ kept.tiles in
      let fewer = free_bytes-le kernel_heap_base h.mm_list _ v.tiles in
      record { tiles = kept.tiles; top = v.top; counted = omega arith; free = omega arith })
]
