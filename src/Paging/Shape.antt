-- ===== src/Paging/Shape.antt =====
-- Page tables as a tree: what each table in memory is for, and what the allocator has to promise.
use raincloud.Prelude.{
  ℕ, zero, suc, ◌+◌, ◌*◌, ◌%◌, ◌≤◌, ◌<◌, ◌≡◌, true, Option, some, arith, refl, ◌⊎◌,
}
use raincloud.Mm.Pages.{done}
use raincloud.Paging.{Pager, Memory, Machine, is_present, addr_bits, init_table, write}

-- What a pager promises: `Spare` are the pages that it may grant, and `left` how many.
pub record IsPager {State : Type 0} (pager : Pager State) : Type 1 where
  pub Valid : State → Type 0
  pub Spare : State → ℕ → Type 0
  pub left : State → ℕ
  pub grants :
      (s : State)
      → Valid s
      → 0 < left s
      → (table : ℕ) × (s' : State) × (phy : ℕ) × (pager.alloc_new_page_table s ≡ done (table, s'))
        × Valid s'
        × (left s ≡ left s' + 1)
        × (table % 4096 ≡ 0)
        × Spare s table
        × (Spare s' table → ⊥)
        × ((x : ℕ) → Spare s' x → Spare s x)
        × (pager.to_phy table ≡ done phy)
        × (addr_bits phy ≡ phy)
        × (pager.to_virt phy ≡ done table)

-- The height of a table, 3 for the root, and the bits of the addresses that it is for, above those
-- that index it and the tables below it.
abbrev pub Owner : Type 0
Owner = ℕ → Option (ℕ × ℕ)

-- An entry that is there, and the table that it leads to.
abbrev pub Linked : {State : Type 0} → Pager State → Memory → ℕ → ℕ → Type 0
Linked pager mem entry u =
    (is_present (mem entry) ≡ true) × (pager.to_virt (addr_bits (mem entry)) ≡ done u)

module _ {State : Type 0} {pager : Pager State} (law : IsPager pager) where
  -- The tables make a tree: each entry of a table above the lowest leads to the one table for its
  -- index; no table is among the allocator's spare pages.
  pub record IsTree (root : ℕ) (owner : Owner) (m : Machine State) : Type 0 where
    pub top : owner root ≡ some (3, 0)
    pub child :
        (t n q i : ℕ)
        → owner t ≡ some (suc n, q)
        → i < 512
        → is_present (m.mem (t + i * 8)) ≡ true
        → (u : ℕ) × Linked pager m.mem (t + i * 8) u × (owner u ≡ some (n, q * 512 + i))
    pub aligned : (t : ℕ) (o : ℕ × ℕ) → owner t ≡ some o → t % 4096 ≡ 0
    pub used : (t : ℕ) (o : ℕ × ℕ) → owner t ≡ some o → law.Spare m.pages t → ⊥
    pub valid : law.Valid m.pages

-- `__init_table` writes its entries, and nothing else.
pub init_table-outside :
    (n a v : ℕ) (mem : Memory) (b : ℕ) → b < a ⊎ (a + n * 8 ≤ b) → init_table n a v mem b ≡ mem b
unfolding init_table
init_table-outside zero a v mem b out = refl
init_table-outside (suc n) a v mem b out =
    ground (arith, init_table-outside n (a + 8) v (write a v mem) b)

pub init_table-at :
    (n a v : ℕ) (mem : Memory) (i : ℕ) → i < n → init_table n a v mem (a + i * 8) ≡ v
unfolding init_table
init_table-at zero a v mem i lt = absurd (omega arith)
init_table-at (suc n) a v mem zero lt =
    ground (arith, init_table-outside n (a + 8) v (write a v mem) (a + 0 * 8))
init_table-at (suc n) a v mem (suc i) lt =
    let next : a + suc i * 8 ≡ a + 8 + i * 8 = omega arith in
    rw next (init_table-at n (a + 8) v (write a v mem) i (omega arith))
