-- ===== src/Mm/Heap/Free.antt =====
-- mm/malloc.c, `free`: what it does to a block in use, to a free one, and to the rest.
use raincloud.Prelude.{
  ℕ, ◌-◌, ◌+◌, ◌%◌, ◌^◌, ◌<◌, ◌≡◌, ◌≢◌, inl, inr, refl, true, false, some, List, [], ◌∷◌, arith,
  ◌==◌, length, add64,
}
use raincloud.Mm.Heap.{
  Block, VmHeap, block_struct_size, kernel_heap_base, freed, double_free, release, find_header,
  free, free_entry, malloc,
}
use raincloud.Mm.Heap.Invariant.{Tiles, IsValid, free_bytes, free_bytes-le}
use raincloud.Mm.Heap.Live.{Has, Has-within}
use raincloud.Mm.Heap.Malloc.{malloc_grants, malloc-IsValid}

find_header-Has :
    (p : ℕ) (bs : List Block) (e : ℕ) (b : Block)
    → Tiles p bs e
    → Has b bs
    → find_header b.addr bs ≡ some b
unfolding find_header
find_header-Has p [] e b t h = absurd h
find_header-Has p (c ∷ cs) e b t (inl same) = ground arith
find_header-Has p (c ∷ cs) e b t (inr h) = ground (
  arith,
  Has-within _ cs e b t.3 h,
  find_header-Has (p + block_struct_size + c.length) cs e b t.3 h,
)

-- What `release` keeps, for a block `b` of the list that is in use.
record Released (p e : ℕ) (bs : List Block) (b : Block) : Type 0 where
  tiles : Tiles p (release b.addr bs) e
  counted : length (release b.addr bs) ≡ length bs
  gained : free_bytes (release b.addr bs) ≡ free_bytes bs + b.length
  gone : Has (record b { used = 0 }) (release b.addr bs)
  others : (c : Block) → c.addr ≢ b.addr → Has c bs → Has c (release b.addr bs)

module _ (e : ℕ) (b : Block) (live : b.used ≡ 1) where
  release_above : (p : ℕ) (bs : List Block) → b.addr < p → Tiles p bs e → release b.addr bs ≡ bs
  unfolding release
  release_above p [] lt t = refl
  release_above p (c ∷ cs) lt t =
      ground (arith, release_above (p + block_struct_size + c.length) cs (omega arith) t.3)

  release-Released : (p : ℕ) (bs : List Block) → Tiles p bs e → Has b bs → Released p e bs b
  unfolding release
  release-Released p [] t h = absurd h
  release-Released p (c ∷ cs) t (inl same) =
      let here : (c.addr == b.addr) ≡ true = ground arith in
      record {
        tiles = rw here (ground arith);
        counted = rw here;
        gained = rw here (ground arith);
        gone = rw here (inl (ground arith));
        others = λ d ne has.
            rw here (elim has [ inl eq ↦ absurd (ground arith) | inr later ↦ inr later ]);
      }
  release-Released p (c ∷ cs) t (inr h) =
      let after = release-Released (p + block_struct_size + c.length) cs t.3 h in
      let skip : (c.addr == b.addr) ≡ false = ground (arith, Has-within _ cs e b t.3 h) in
      record {
        tiles = rw skip (t.0, t.1, t.2, after.tiles);
        counted = rw skip (omega (arith, after.counted));
        gained = rw skip (omega (arith, after.gained));
        gone = rw skip (inr after.gone);
        others = λ d ne has.
            rw skip (elim has [ inl eq ↦ inl eq | inr later ↦ inr (after.others d ne later) ]);
      }

-- The outcome of `free` on a pointer behind the header of `b`, a block in use.
pub record FreedBlock (h : VmHeap) (b : Block) (h' : VmHeap) : Type 0 where
  pub valid : IsValid h'
  pub available : h'.available ≡ h.available + b.length
  pub gone : Has (record b { used = 0 }) h'.mm_list
  pub others : (c : Block) → c.addr ≢ b.addr → Has c h.mm_list → Has c h'.mm_list

abbrev released : VmHeap → Block → VmHeap
released h b = record h {
  mm_list = release b.addr h.mm_list;
  available = add64 h.available b.length;
}

module _ {h : VmHeap} (v : IsValid h) (b : Block) (has : Has b h.mm_list) where
  header_of : (ptr : ℕ) → ptr ≡ b.addr + block_struct_size → free ptr h ≡ free_entry h (some b)
  unfolding free
  header_of ptr e =
      let inside = Has-within kernel_heap_base h.mm_list _ b v.tiles has in
      let at : (ptr + 2 ^ 64 - block_struct_size) % 2 ^ 64 ≡ b.addr = omega (arith, v.top) in
      rw (at, find_header-Has kernel_heap_base h.mm_list _ b v.tiles has)

  released-FreedBlock : b.used ≡ 1 → FreedBlock h b (released h b)
  released-FreedBlock live =
      let r = release-Released _ b live kernel_heap_base h.mm_list v.tiles has in
      let fits = free_bytes-le kernel_heap_base (release b.addr h.mm_list) _ r.tiles in
      record {
        valid = record {
          tiles = r.tiles;
          top = v.top;
          counted = omega (arith, r.counted, v.counted);
          free = omega (arith, r.gained, v.free, v.top);
        };
        available = omega (arith, r.gained, v.free, v.top);
        gone = r.gone;
        others = r.others;
      }

  -- `free` of a pointer that stands behind the header of a block in use keeps the heap valid,
  -- gives the block's bytes back to `available`, and changes no other block.
  pub free-live :
      (ptr : ℕ)
      → ptr ≡ b.addr + block_struct_size
      → b.used ≡ 1
      → (h' : VmHeap) × (free ptr h ≡ freed h') × FreedBlock h b h'
  free-live ptr e live = (released h b, rw (header_of ptr e, live), released-FreedBlock live)

  -- `free` of a block that is not in use is reported, and changes nothing.
  pub free-twice :
      (ptr : ℕ) → ptr ≡ b.addr + block_struct_size → b.used ≡ 0 → free ptr h ≡ double_free h
  free-twice ptr e idle = rw (header_of ptr e, idle)

-- What `malloc` returned can be freed, whatever the size: the heap stays valid, and every block
-- that was in use before the `malloc` is in use after the `free`.
pub free-malloc :
    (size : ℕ) {h : VmHeap}
    → IsValid h
    → (malloc size h).ret ≢ 0
    → (h' : VmHeap) × (free (malloc size h).ret (malloc size h).heap ≡ freed h')
      × IsValid h'
      × ((b : Block) → Has b h.mm_list → b.used ≡ 1 → Has b h'.mm_list)
free-malloc size {h} v found =
    let g = malloc_grants size v found in
    let (h', eq, f) =
      free-live (malloc-IsValid size v) g.block g.has (malloc size h).ret g.points g.marked in
    (
      h',
      eq,
      f.valid,
      λ b has live.
          f.others b (λ same. absurd (omega (arith, g.apart b has live))) (g.keeps b has live),
    )
