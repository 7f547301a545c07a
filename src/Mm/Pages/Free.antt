-- ===== src/Mm/Pages/Free.antt =====
-- arch/x86/paging.c, `page_free`: the pages that it puts among the free ones.
use raincloud.Prelude.{
  ℕ, ◌+◌, ◌*◌, ◌^◌, ◌≤◌, ◌<◌, ◌≡◌, true, List, [], ◌∷◌, arith, Bool-cases, inl, inr, ltb, refl,
  add64, ◌%◌,
}
use raincloud.Mm.Pages.{PageBlock, MmPool, done, phy_map_base, insert_block, page_free}
use raincloud.Mm.Pages.Cover.{covers, cover, Sound, IsPool, Same}
use raincloud.Mm.Pages.Alloc.{check-done}

insert_block-Same :
    (b : PageBlock) (bs : List PageBlock) → Sound (b ∷ bs) → Same (b ∷ bs) (insert_block b bs)
unfolding insert_block
insert_block-Same b [] s = record {
  sound = s;
  counted = refl;
  covered = λ x. refl;
  aligned = λ al. al;
}
insert_block-Same b (c ∷ cs) s = elim (Bool-cases (ltb b.addr c.addr)) [
  | inl before ↦
      rw before (record { sound = s; counted = refl; covered = λ x. refl; aligned = λ al. al })
  | inr behind ↦
      let later = insert_block-Same b cs (s.0, s.1, s.2.2) in
      rw behind (record {
        sound = (s.2.0, s.2.1, later.sound);
        counted = omega (arith, later.counted);
        covered = λ x. omega (arith, later.covered x);
        aligned = λ al. (al.1.0, later.aligned (al.0, al.1.1));
      })
]

-- `page_free` of `size` pages, if the counters allow it, keeps the pool valid and gives `size`
-- pages back; but whatever the address that it is given, they are the pages at the physical
-- address `size`, and no other address is covered more often than before.
pub page_free_at_size :
    (addr size : ℕ) {pool : MmPool}
    → IsPool pool
    → 0 < size
    → size * 4097 + phy_map_base < 2 ^ 64
    → pool.available + size ≤ pool.total
    → (pool' : MmPool) × (page_free addr size pool ≡ done pool')
      × IsPool pool'
      × ((x : ℕ)
          → cover x pool'.mm_list ≡ cover x pool.mm_list + covers x (size + phy_map_base) size)
unfolding page_free
page_free_at_size addr size {pool} v positive fits room =
    let block : PageBlock = record { addr = add64 size phy_map_base; length = size } in
    let here : (size + phy_map_base) % 2 ^ 64 ≡ size + phy_map_base = omega arith in
    let low : ltb size phy_map_base ≡ true = ground arith in
    let s : Sound (block ∷ pool.mm_list) = (omega arith, omega arith, v.sound) in
    let i = insert_block-Same block pool.mm_list s in
    let pool' : MmPool = record pool {
      mm_list = insert_block block pool.mm_list;
      available = add64 pool.available size;
    } in
    let v' : IsPool pool' = record {
      sound = i.sound;
      counted = omega (arith, i.counted, v.counted, v.word);
      within = omega (arith, v.word);
      word = v.word;
    } in
    (pool', rw (low, check-done v'), v', λ x. rw (i.covered x) (rw here (omega arith)))
