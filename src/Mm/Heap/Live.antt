-- ===== src/Mm/Heap/Live.antt =====
-- mm/malloc.c: what `__malloc` grants, and what it leaves to the blocks that are in use.
use raincloud.Prelude.{
  ℕ, ◌+◌, ◌^◌, ◌≤◌, ◌<◌, ◌≡◌, ◌⊎◌, inl, inr, refl, false, Option, none, some, List, [], ◌∷◌, arith,
  if◌then◌else◌, eq_of_some, sub64, add64, ltb, ◌||◌, not, ◌&&◌, Bool-cases,
}
use mathlib.Core.Path.{subst}
use raincloud.Mm.Heap.{
  Block, VmHeap, block_struct_size, kernel_heap_base, is_used, Taken, put_back, split, new_entry,
  take_whole, at_entry, scan, merge_from, merge_list, merge_block, join,
}
use raincloud.Mm.Heap.Invariant.{Tiles, Tiles-le}

abbrev pub Has : Block → List Block → Type 0
Has b [] = ⊥
Has b (c ∷ cs) = (b ≡ c) ⊎ Has b cs

-- Header and bytes of the one block end before those of the other begin.
abbrev pub Apart : Block → Block → Type 0
Apart a b =
    (a.addr + block_struct_size + a.length ≤ b.addr)
    ⊎ (b.addr + block_struct_size + b.length ≤ a.addr)

pub Has-within :
    (p : ℕ) (bs : List Block) (e : ℕ) (b : Block)
    → Tiles p bs e
    → Has b bs
    → (p ≤ b.addr) × (b.addr + block_struct_size + b.length ≤ e)
Has-within p [] e b t h = absurd h
Has-within p (c ∷ cs) e b t (inl same) =
    ground (arith, Tiles-le (p + block_struct_size + c.length) cs e t.3)
Has-within p (c ∷ cs) e b t (inr h) =
    omega (arith, Has-within (p + block_struct_size + c.length) cs e b t.3 h)

-- The block that a search of the blocks `bs`, which tile `p` to `e`, grants.
pub record Granted (p : ℕ) (bs : List Block) (size : ℕ) (ptr : ℕ) (out : List Block) : Type 0 where
  pub block : Block
  pub has : Has block out
  pub marked : block.used ≡ 1
  pub points : ptr ≡ block.addr + block_struct_size
  pub fits : size ≤ block.length
  pub snug : block.length < size + 48
  pub low : p ≤ block.addr
  pub apart : (b : Block) → Has b bs → b.used ≡ 1 → Apart b block
  pub keeps : (b : Block) → Has b bs → b.used ≡ 1 → Has b out

module _ (size e : ℕ) (small : e < 2 ^ 64) where
  take_whole-Granted :
      (p : ℕ) (b : Block) (bs : List Block)
      → Tiles p (b ∷ bs) e
      → b.used ≡ 0
      → size ≤ b.length
      → b.length < size + 48
      → Granted p (b ∷ bs) size (take_whole b bs).ptr (take_whole b bs).blocks
  take_whole-Granted p b bs t u fits snug =
      let below = Tiles-le (p + block_struct_size + b.length) bs e t.3 in
      record {
        block = record b { used = 1 };
        has = inl refl;
        marked = refl;
        points = omega arith;
        fits = fits;
        snug = snug;
        low = omega arith;
        apart = λ c h m. elim h [
          | inl same ↦ absurd (ground arith)
          | inr h' ↦ inr (omega (arith, Has-within _ bs e c t.3 h'))
        ];
        keeps = λ c h m. elim h [ inl same ↦ absurd (ground arith) | inr h' ↦ inr h' ];
      }

  split-Granted :
      (p : ℕ) (b : Block) (bs : List Block)
      → kernel_heap_base ≤ p
      → Tiles p (b ∷ bs) e
      → b.used ≡ 0
      → size + 48 ≤ b.length
      → Granted p (b ∷ bs) size (split size b bs).ptr (split size b bs).blocks
  split-Granted p b bs base t u fits =
      let below = Tiles-le (p + block_struct_size + b.length) bs e t.3 in
      record {
        block =
            new_entry (record b { length = sub64 b.length (add64 size block_struct_size) }) size;
        has = inr (inl refl);
        marked = refl;
        points = omega arith;
        fits = omega arith;
        snug = omega arith;
        low = omega arith;
        apart = λ c h m. elim h [
          | inl same ↦ absurd (ground arith)
          | inr h' ↦ inr (omega (arith, Has-within _ bs e c t.3 h'))
        ];
        keeps = λ c h m. elim h [ inl same ↦ absurd (ground arith) | inr h' ↦ inr (inr h') ];
      }

  put_back-Granted :
      (p : ℕ) (b : Block) (bs : List Block) {ptr : ℕ} {out : List Block}
      → Tiles p (b ∷ bs) e
      → Granted (p + block_struct_size + b.length) bs size ptr out
      → Granted p (b ∷ bs) size ptr (b ∷ out)
  put_back-Granted p b bs t g = record {
    block = g.block;
    has = inr g.has;
    marked = g.marked;
    points = g.points;
    fits = g.fits;
    snug = g.snug;
    low = omega (arith, g.low);
    apart = λ c h m. elim h [ inl same ↦ ground (arith, g.low) | inr h' ↦ g.apart c h' m ];
    keeps = λ c h m. elim h [ inl same ↦ inl same | inr h' ↦ inr (g.keeps c h' m) ];
  }

  at_entry-Granted :
      (p : ℕ) (b : Block) (bs : List Block) (rest : Option Taken) {t : Taken}
      → kernel_heap_base ≤ p
      → Tiles p (b ∷ bs) e
      → ((r : Taken)
          → rest ≡ some r
          → Granted (p + block_struct_size + b.length) bs size r.ptr r.blocks)
      → at_entry size b bs rest ≡ some t
      → Granted p (b ∷ bs) size t.ptr t.blocks
  at_entry-Granted p b bs rest {t} base tiles later eq =
      elim (Bool-cases (is_used b || ltb b.length size)) [
        | inl skip ↦ skipped rest later (rw skip at eq)
        | inr here ↦ granted here (rw here at eq)
      ]
    where
      skipped :
          (rest : Option Taken)
          → ((r : Taken)
              → rest ≡ some r
              → Granted (p + block_struct_size + b.length) bs size r.ptr r.blocks)
          → put_back b rest ≡ some t
          → Granted p (b ∷ bs) size t.ptr t.blocks
      skipped none later eq = cc
      skipped (some r) later eq =
          subst (λ (t : Taken). Granted p (b ∷ bs) size t.ptr t.blocks) (eq_of_some eq)
            (put_back-Granted p b bs tiles (later r refl))

      granted :
          (is_used b || ltb b.length size) ≡ false
          → (if ltb b.length (add64 (add64 size block_struct_size) 16)
              then some (take_whole b bs)
              else some (split size b bs))
            ≡ some t
          → Granted p (b ∷ bs) size t.ptr t.blocks
      granted here eq = elim (Bool-cases (ltb b.length (add64 (add64 size block_struct_size) 16))) [
        | inl tight ↦
            subst (λ (t : Taken). Granted p (b ∷ bs) size t.ptr t.blocks)
              (eq_of_some (rw tight at eq))
              (take_whole-Granted p b bs tiles (ground arith) (ground arith) (ground arith))
        | inr loose ↦
            subst (λ (t : Taken). Granted p (b ∷ bs) size t.ptr t.blocks)
              (eq_of_some (rw loose at eq))
              (split-Granted p b bs base tiles (ground arith)
                (ground (arith, Tiles-le (p + block_struct_size + b.length) bs e tiles.3)))
      ]

  pub scan-Granted :
      (p : ℕ) (bs : List Block) {t : Taken}
      → kernel_heap_base ≤ p
      → Tiles p bs e
      → scan size bs ≡ some t
      → Granted p bs size t.ptr t.blocks
  unfolding scan
  scan-Granted p [] base tiles eq = absurd (cc)
  scan-Granted p (b ∷ bs) base tiles eq =
      at_entry-Granted p b bs (scan size bs) base tiles
        (λ r h. scan-Granted (p + block_struct_size + b.length) bs (omega arith) tiles.3 h) eq

-- A block in use outlives a merge.
Has-merge_from :
    (e : Block) (ns : List Block) (b : Block)
    → b.used ≡ 1
    → Has b (e ∷ ns)
    → Has b (merge_from e ns).0
unfolding merge_from
Has-merge_from e [] b m h = h
Has-merge_from e (n ∷ ns) b m h = elim (Bool-cases (not (is_used e) && not (is_used n))) [
  | inl both ↦ rw both (
      Has-merge_from (join e n) ns b m (elim h [
        | inl same ↦ absurd (ground arith)
        | inr (inl same) ↦ absurd (ground arith)
        | inr (inr h') ↦ inr h'
      ]))
  | inr one ↦ rw one (elim h [ inl same ↦ inl same | inr h' ↦ inr (Has-merge_from n ns b m h') ])
]

pub Has-merge_block :
    (h : VmHeap) (b : Block) → b.used ≡ 1 → Has b h.mm_list → Has b (merge_block h).mm_list
unfolding merge_block merge_list
Has-merge_block h b m has = go h.mm_list has
  where
    go : (bs : List Block) → Has b bs → Has b (merge_list bs).0
    go [] has = has
    go (c ∷ cs) has = Has-merge_from c cs b m has
