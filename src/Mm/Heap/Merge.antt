-- ===== src/Mm/Heap/Merge.antt =====
-- mm/malloc.c, `__merge_block`: free neighbours become one block.
use raincloud.Prelude.{
  ℕ, ◌+◌, ◌*◌, ◌^◌, ◌≤◌, ◌<◌, ◌≡◌, refl, true, false, List, [], ◌∷◌, arith, length, ◌||◌, ◌&&◌, not,
  Bool, Bool-cases, inl, inr,
}
use raincloud.Mm.Heap.{
  Block, VmHeap, block_struct_size, kernel_heap_base, is_used, join, merge_from, merge_list,
  merge_block,
}
use raincloud.Mm.Heap.Invariant.{Tiles, free_bytes, IsValid, Tiles-le, free_bytes-le, length-le}

-- Of two neighbours one is in use.
abbrev pub Separated : List Block → Type 0
Separated [] = Unit
Separated (b ∷ []) = Unit
Separated (b ∷ n ∷ bs) = ((is_used b || is_used n) ≡ true) × Separated (n ∷ bs)

head_is_used : List Block → Bool
head_is_used [] = true
head_is_used (b ∷ bs) = is_used b

Separated-cons :
    (e : Block) (bs : List Block)
    → (is_used e || head_is_used bs) ≡ true
    → Separated bs
    → Separated (e ∷ bs)
unfolding head_is_used
Separated-cons e [] h s = tt
Separated-cons e (b ∷ bs) h s = (h, s)

-- What a pass leaves of the blocks `bs` that tile `p` to `end`, with `k` blocks joined.
record Merged (p end : ℕ) (bs : List Block) (used : Bool) (out : List Block × ℕ) : Type 0 where
  tiles : Tiles p out.0 end
  counted : length out.0 + out.1 ≡ length bs
  freed : free_bytes out.0 ≡ free_bytes bs + out.1 * 32
  separated : Separated out.0
  head : head_is_used out.0 ≡ used

module _ (end : ℕ) (small : end < 2 ^ 64) where
  length-join :
      (p : ℕ) (e n : Block) (ns : List Block)
      → kernel_heap_base ≤ p
      → Tiles p (e ∷ n ∷ ns) end
      → (join e n).length ≡ e.length + n.length + 32
  length-join p e n ns low t = omega (arith, Tiles-le _ ns end t.3.3)

  join-Tiles :
      (p : ℕ) (e n : Block) (ns : List Block)
      → kernel_heap_base ≤ p
      → Tiles p (e ∷ n ∷ ns) end
      → Tiles p (join e n ∷ ns) end
  join-Tiles p e n ns low t =
      let len = length-join p e n ns low t in
      let behind : p + 32 + (join e n).length ≡ p + 32 + e.length + 32 + n.length = omega arith in
      (t.0, t.1, omega arith, rw behind t.3.3)

  join-Merged :
      (p : ℕ) (e n : Block) (ns : List Block) {out : List Block × ℕ}
      → kernel_heap_base ≤ p
      → Tiles p (e ∷ n ∷ ns) end
      → (not (is_used e) && not (is_used n)) ≡ true
      → Merged p end (join e n ∷ ns) (is_used e) out
      → Merged p end (e ∷ n ∷ ns) (is_used e) (out.0, out.1 + 1)
  join-Merged p e n ns low t both m = record {
    tiles = m.tiles;
    counted = omega (arith, m.counted);
    freed = ground (arith, length-join p e n ns low t, m.freed);
    separated = m.separated;
    head = m.head;
  }

  keep-Merged :
      (p : ℕ) (e n : Block) (ns : List Block) {out : List Block × ℕ}
      → Tiles p (e ∷ n ∷ ns) end
      → (not (is_used e) && not (is_used n)) ≡ false
      → Merged (p + block_struct_size + e.length) end (n ∷ ns) (is_used n) out
      → Merged p end (e ∷ n ∷ ns) (is_used e) (e ∷ out.0, out.1)
  unfolding head_is_used
  keep-Merged p e n ns {out} t one m = record {
    tiles = (t.0, t.1, t.2, m.tiles);
    counted = omega (arith, m.counted);
    freed = ground (arith, m.freed);
    separated = Separated-cons e out.0 (rw m.head (ground arith)) m.separated;
    head = refl;
  }

  merge_from-Merged :
      (p : ℕ) (e : Block) (ns : List Block)
      → kernel_heap_base ≤ p
      → Tiles p (e ∷ ns) end
      → Merged p end (e ∷ ns) (is_used e) (merge_from e ns)
  unfolding merge_from head_is_used
  merge_from-Merged p e [] low t = record {
    tiles = t;
    counted = omega arith;
    freed = omega arith;
    separated = tt;
    head = refl;
  }
  merge_from-Merged p e (n ∷ ns) low t = elim (Bool-cases (not (is_used e) && not (is_used n))) [
    | inl both ↦ rw both (
        join-Merged p e n ns low t both
          (merge_from-Merged p (join e n) ns low (join-Tiles p e n ns low t)))
    | inr one ↦ rw one (
        keep-Merged p e n ns t one
          (merge_from-Merged (p + block_struct_size + e.length) n ns (omega arith) t.3))
  ]

  merge_list-Merged :
      (p : ℕ) (bs : List Block)
      → kernel_heap_base ≤ p
      → Tiles p bs end
      → Merged p end bs (head_is_used bs) (merge_list bs)
  unfolding merge_list head_is_used
  merge_list-Merged p [] low t = record {
    tiles = t;
    counted = omega arith;
    freed = omega arith;
    separated = tt;
    head = refl;
  }
  merge_list-Merged p (b ∷ bs) low t = merge_from-Merged p b bs low t

-- `__merge_block` keeps the heap valid, and afterwards no two neighbours are both free.
pub merge_block-Separated :
    {h : VmHeap} → IsValid h → IsValid (merge_block h) × Separated (merge_block h).mm_list
unfolding merge_block
merge_block-Separated {h} v =
    let m = merge_list-Merged _ v.top kernel_heap_base h.mm_list (omega arith) v.tiles in
    let fits = free_bytes-le kernel_heap_base (merge_list h.mm_list).0 _ m.tiles in
    let few = length-le kernel_heap_base h.mm_list _ v.tiles in
    (
      record {
        tiles = m.tiles;
        top = v.top;
        counted = omega (arith, m.counted);
        free = omega (arith, m.freed);
      },
      m.separated,
    )
