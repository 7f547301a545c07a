-- ===== src/Paging/VmMap/Dup.antt =====
-- mm/vm_map.c, `vm_map_dup`: a copy of a map with pages of its own. What `malloc` grants is a
-- parameter; `memcpy` copies eight bytes at a time, since its regions are whole pages.
pub mod Whole
use raincloud.Prelude.{
  ℕ, zero, suc, ◌+◌, ◌-◌, ◌*◌, ◌/◌, ◌%◌, ◌^◌, ◌≤◌, ◌<◌, ◌≡◌, ◌≢◌, ◌⊎◌, inl, inr, Bool, true, false,
  ◌&&◌, Option, none, some, List, [], ◌∷◌, ◌++◌, arith, refl, ap, sym, ◌∙◌, add64, leb, ltb, ltb→lt,
  if◌then◌else◌, Bool-cases,
}
use mathlib.Core.List.{append_assoc, append-nil}
use raincloud.Mm.Pages.{
  MmPool, Outcome, done, halted, ◌>>=◌, bytes, phy_map_base, invalid_addr, convert_phy_to_virt,
  page_alloc,
}
use raincloud.Mm.Pages.Cover.{covers, cover, Aligned, IsPool}
use raincloud.Mm.Pages.Alloc.{PagesGranted, PagesExhausted, page_alloc_lem}
use raincloud.Paging.{Machine}
use raincloud.Paging.Copy.{copy_words, Disjoint, copy_words-outside, copy_words-at}
use raincloud.Paging.Map.{bind_done}
use raincloud.Paging.Kernel.{IsPagePool}
use raincloud.Paging.Chain.{VmMapEntry}
use raincloud.Paging.VmMap.{VmMap, vm_map_init, vm_map_add}

pub vm_map_entry_dup : VmMapEntry → Machine MmPool → Outcome (VmMapEntry × Machine MmPool)
vm_map_entry_dup e m = page_alloc e.page_nums m.pages >>= λ (phy, pages).
    convert_phy_to_virt phy >>= λ dst. convert_phy_to_virt e.phy_addr >>= λ src. done (
      record e { phy_addr = phy },
      record { mem = copy_words (bytes e.page_nums / 8) dst src m.mem; pages = pages },
    )

-- How `vm_map_dup` ends: with the new map, halted by an assertion, or with an entry written through
-- the NULL that `malloc` gave.
pub data Dupped : Type 0 where
  dup_done : VmMap → Machine MmPool → Dupped
  dup_halted : Dupped
  null_written : Dupped

-- What the calls of `malloc` in each round grant: the entry, and the node of the list.
abbrev pub Grants : Type 0
Grants = ℕ → Bool × Bool

abbrev pub next_round : Grants → Grants
next_round grants i = grants (suc i)

-- The map behind `vm_map_add`, whose result is not looked at.
abbrev pub after_add : VmMap → Option VmMap → VmMap
after_add new none = new
after_add new (some added) = added

abbrev pub after_entry :
    Outcome (VmMapEntry × Machine MmPool) → (VmMapEntry → Machine MmPool → Dupped) → Dupped
after_entry halted code = dup_halted
after_entry (done (e, m)) code = code e m

-- The loop, with the entries that the new map has.
pub dup_entries : Grants → VmMap → VmMap → Machine MmPool → Dupped
unfolding vm_map_entry_dup
dup_entries grants new [] m = dup_done new m
dup_entries grants new (e ∷ es) m =
    let code : VmMapEntry → Machine MmPool → Dupped = λ e' m'.
      dup_entries (next_round grants) (after_add new (vm_map_add (grants 0).1 new e')) es m' in
    if (grants 0).0 then after_entry (vm_map_entry_dup e m) code else null_written

pub dup_entries-nil :
    (grants : Grants) (new : VmMap) (m : Machine MmPool)
    → dup_entries grants new [] m ≡ dup_done new m
unfolding dup_entries
dup_entries-nil grants new m = refl

unfoldable pub vm_map_dup : Grants → VmMap → Machine MmPool → Dupped
unfolding dup_entries
vm_map_dup grants old m = dup_entries grants vm_map_init old m

-- The entries whose copies are linked into the new map.
abbrev pub linked_entries : Grants → VmMap → VmMap
linked_entries grants [] = []
linked_entries grants (e ∷ es) =
    let rest = linked_entries (next_round grants) es in if (grants 0).1 then e ∷ rest else rest

-- Where the entry's pages are in the direct mapping.
abbrev pub place : VmMapEntry → ℕ
place e = e.phy_addr + phy_map_base

-- The entry has pages, they lie in the direct mapping, and none of them is free.
pub record IsHeld (pool : MmPool) (e : VmMapEntry) : Type 0 where
  pub some_pages : e.page_nums ≢ 0
  pub below : place e + e.page_nums * 4096 < 2 ^ 64
  pub taken : (x : ℕ) → place e ≤ x → x < place e + e.page_nums * 4096 → cover x pool.mm_list ≡ 0

abbrev pub AllHeld : MmPool → VmMap → Type 0
AllHeld pool [] = Unit {0}
AllHeld pool (e ∷ es) = IsHeld pool e × AllHeld pool es

-- `e'` is a copy of `e`: its pages hold what the pages of `e` held, and were free.
pub record IsCopy (m m' : Machine MmPool) (e e' : VmMapEntry) : Type 0 where
  pub same : e' ≡ record e { phy_addr = e'.phy_addr }
  pub words : (k : ℕ) → k < e.page_nums * 512 → m'.mem (place e' + k * 8) ≡ m.mem (place e + k * 8)
  pub own :
      (x : ℕ)
      → place e' ≤ x
      → x < place e' + e.page_nums * 4096
      → (cover x m.pages.mm_list ≡ 1) × (cover x m'.pages.mm_list ≡ 0)

-- What stays: memory that was not free, and what was not free is not free now.
pub record Kept (m m' : Machine MmPool) : Type 0 where
  pub valid : IsPagePool m'.pages
  pub fewer : (x : ℕ) → cover x m'.pages.mm_list ≤ cover x m.pages.mm_list
  pub memory : (b : ℕ) → cover b m.pages.mm_list ≡ 0 → m'.mem b ≡ m.mem b

abbrev pub OneOf : VmMapEntry → VmMap → Type 0
OneOf e [] = ⊥
OneOf e (x ∷ es) = (e ≡ x) ⊎ OneOf e es

-- Some entry asked for more pages than any free block had, merged, once other pages were taken.
abbrev pub OutOfPages : Machine MmPool → VmMap → Type 0
OutOfPages m es =
    (e : VmMapEntry) × (m' : Machine MmPool) × (r : ℕ × MmPool) × OneOf e es
    × Kept m m'
    × (page_alloc e.page_nums m'.pages ≡ done r)
    × PagesExhausted e.page_nums m'.pages r

covers-within : (x a n : ℕ) → a ≤ x → x < a + n * 4096 → covers x a n ≡ 1
covers-within x a n low high = ground arith

covers-beyond : (x a n : ℕ) → covers x a n ≡ 0 → (x < a) ⊎ (a + n * 4096 ≤ x)
covers-beyond x a n e = elim (Bool-cases (ltb x a)) [
  | inl low ↦ inl (ltb→lt x a low)
  | inr high ↦ inr (ground arith)
]

module _ (m : Machine MmPool) (e : VmMapEntry) (v : IsPagePool m.pages) (held : IsHeld m.pages e)
    (r : ℕ × MmPool) (v' : IsPool r.1) (g : PagesGranted e.page_nums m.pages r) where
  abbrev pub dst : ℕ
  dst = r.0 + phy_map_base

  abbrev pub copied : Machine MmPool
  copied = record { mem = copy_words (e.page_nums * 512) dst (place e) m.mem; pages = r.1 }

  dst-own :
      (x : ℕ)
      → dst ≤ x
      → x < dst + e.page_nums * 4096
      → (cover x m.pages.mm_list ≡ 1) × (cover x r.1.mm_list ≡ 0)
  dst-own x low high =
      let one = covers-within x dst e.page_nums low high in
      (omega (arith, g.taken x, one, v.2 x), omega (arith, g.taken x, one, v.2 x))

  dst-Disjoint : Disjoint (e.page_nums * 512) dst (place e)
  dst-Disjoint = elim (Bool-cases (leb dst (place e))) [
    | inl low ↦ elim (Bool-cases (ltb (place e) (dst + e.page_nums * 4096))) [
      | inl meets ↦
          let own = dst-own (place e) (ground arith) (ltb→lt _ _ meets) in
          let held_here = held.taken (place e) (omega arith) (omega (arith, held.some_pages)) in
          absurd (omega (arith, own.0, held_here))
      | inr clear ↦ inl (ground arith)
    ]
    | inr high ↦ elim (Bool-cases (ltb dst (place e + e.page_nums * 4096))) [
      | inl meets ↦
          let own = dst-own dst (omega arith) (omega (arith, held.some_pages)) in
          let held_here = held.taken dst (ground arith) (ltb→lt _ _ meets) in
          absurd (omega (arith, own.0, held_here))
      | inr clear ↦ inr (ground arith)
    ]
  ]

  pub copied-IsCopy : IsCopy m copied e (record e { phy_addr = r.0 })
  copied-IsCopy = record {
    same = refl;
    words = λ k lt. copy_words-at (e.page_nums * 512) dst (place e) m.mem k dst-Disjoint lt;
    own = dst-own;
  }

  pub copied-Kept : Kept m copied
  copied-Kept = record {
    valid = (v', (g.aligned v.1).1, λ x. omega (arith, g.taken x, v.2 x));
    fewer = λ x. omega (arith, g.taken x);
    memory = λ b free.
        let zero_covers : covers b dst e.page_nums ≡ 0 = omega (arith, g.taken b, free) in
        let out = covers-beyond b dst e.page_nums zero_covers in
        copy_words-outside (e.page_nums * 512) dst (place e) m.mem b
          (elim out [ inl u ↦ inl u | inr o ↦ inr (omega arith) ]);
  }

  pub dup-copied :
      page_alloc e.page_nums m.pages ≡ done r
      → vm_map_entry_dup e m ≡ done (record e { phy_addr = r.0 }, copied)
  unfolding vm_map_entry_dup
  dup-copied ran =
      let low : ltb r.0 phy_map_base ≡ true = ground (arith, g.mapped) in
      let here : add64 r.0 phy_map_base ≡ dst = omega (arith, g.mapped) in
      let low' : ltb e.phy_addr phy_map_base ≡ true = ground (arith, held.below) in
      let here' : add64 e.phy_addr phy_map_base ≡ place e = omega (arith, held.below) in
      let words : bytes e.page_nums / 8 ≡ e.page_nums * 512 = omega (arith, held.below) in
      bind_done _ ran ∙ rw (low, here, low', here', words) refl

pub dup-exhausted :
    (m : Machine MmPool) (e : VmMapEntry) (r : ℕ × MmPool)
    → page_alloc e.page_nums m.pages ≡ done r
    → PagesExhausted e.page_nums m.pages r
    → vm_map_entry_dup e m ≡ halted
unfolding vm_map_entry_dup
dup-exhausted m e r ran x =
    let high : ltb r.0 phy_map_base ≡ false = ground (arith, x.address) in
    bind_done _ ran ∙ rw high refl
