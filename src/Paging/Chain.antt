-- ===== src/Paging/Chain.antt =====
-- Runs of pages that are mapped one after the other with `modify_chunk_mapping`.
use raincloud.Prelude.{
  ℕ, ◌+◌, ◌*◌, ◌%◌, ◌^◌, ◌≤◌, ◌<◌, ◌≡◌, ◌≢◌, true, some, List, [], ◌∷◌, arith, refl, ◌∙◌,
}
use raincloud.Mm.Pages.{done}
use raincloud.Paging.{Pager, Machine, is_present, query_mapping, modify_chunk_mapping}
use raincloud.Paging.Shape.{IsPager, Owner, IsTree}
use raincloud.Paging.Map.{page_of}
use raincloud.Paging.Chunk.{nth_page, modify_chunk_mapping_lem}

-- `vm_map_entry_t`, less its count of references.
pub record VmMapEntry : Type 0 where
  pub virt_addr : ℕ
  pub phy_addr : ℕ
  pub page_nums : ℕ
  pub flags : ℕ

abbrev pub Every : (VmMapEntry → Type 0) → List VmMapEntry → Type 0
Every P [] = Unit {0}
Every P (e ∷ es) = P e × Every P es

-- Pages that can be mapped: the physical ones are aligned and below 2^48, and of the flags only
-- bits 0 to 8 are set, with the present bit among them.
pub record IsMappable (e : VmMapEntry) : Type 0 where
  pub word : e.virt_addr < 2 ^ 64
  pub few : e.page_nums ≤ 2 ^ 36
  pub aligned : e.phy_addr % 0x1000 ≡ 0
  pub below : e.phy_addr + e.page_nums * 0x1000 ≤ 2 ^ 48
  pub plain : e.flags < 2 ^ 9
  pub present : is_present e.flags ≡ true

-- The page is not one of the entry's.
abbrev pub Outside : ℕ → VmMapEntry → Type 0
Outside w e = (i : ℕ) → i < e.page_nums → page_of w ≢ page_of (nth_page e.virt_addr i)

-- No page is one of two entries'.
abbrev pub Apart : List VmMapEntry → Type 0
Apart [] = Unit {0}
Apart (e ∷ es) =
    ((i : ℕ) → i < e.page_nums → Every (Outside (nth_page e.virt_addr i)) es) × Apart es

abbrev pub all_pages : List VmMapEntry → ℕ
all_pages [] = 0
all_pages (e ∷ es) = e.page_nums + all_pages es

module _ {State : Type 0} {pager : Pager State} (law : IsPager pager) (root : ℕ) where
  -- The pages of the entry are translated to its physical pages with its flags.
  abbrev pub IsMapped : Machine State → VmMapEntry → Type 0
  IsMapped m e =
      (i : ℕ)
      → i < e.page_nums
      → query_mapping pager root (nth_page e.virt_addr i) m.mem
        ≡ done (some (e.phy_addr + i * 0x1000, e.flags))

  -- From `m` to `m'` by mapping each entry.
  abbrev pub Chain : List VmMapEntry → Machine State → Machine State → Type 0
  Chain [] m m' = m ≡ m'
  Chain (e ∷ es) m m' =
      (next : Machine State) × (modify_chunk_mapping pager root e.virt_addr e.phy_addr e.page_nums
          e.flags m
        ≡ done next)
      × Chain es next m'

  pub record Chained (es : List VmMapEntry) (m : Machine State) : Type 0 where
    pub after : Machine State
    pub owner' : Owner
    pub chain : Chain es m after
    pub tree : IsTree law root owner' after
    pub cost : law.left m.pages ≤ law.left after.pages + 3 * all_pages es
    pub here : Every (IsMapped after) es
    pub elsewhere :
        (w : ℕ)
        → Every (Outside w) es
        → query_mapping pager root w after.mem ≡ query_mapping pager root w m.mem

  pub Chained_lem :
      (es : List VmMapEntry) (owner : Owner) (m : Machine State)
      → IsTree law root owner m
      → 3 * all_pages es ≤ law.left m.pages
      → Every IsMappable es
      → Apart es
      → Chained es m
  Chained_lem [] owner m tree enough good apart = record {
    after = m;
    owner' = owner;
    chain = refl;
    tree = tree;
    cost = omega arith;
    here = tt;
    elsewhere = λ w out. refl;
  }
  Chained_lem (e ∷ es) owner m tree enough good apart =
      let (run, ran) =
        modify_chunk_mapping_lem law root e.flags good.0.plain good.0.present e.page_nums owner m
          e.virt_addr e.phy_addr tree (omega arith) good.0.word good.0.few good.0.aligned
          good.0.below in
      let rest =
        Chained_lem es run.owner' run.after run.tree (omega (arith, run.cost)) good.1 apart.1 in
      record {
        after = rest.after;
        owner' = rest.owner';
        chain = (run.after, ran, rest.chain);
        tree = rest.tree;
        cost = omega (arith, run.cost, rest.cost);
        here = (
          λ i lt. rest.elsewhere (nth_page e.virt_addr i) (apart.0 i lt) ∙ run.here i lt,
          rest.here,
        );
        elsewhere = λ w out. rest.elsewhere w out.1 ∙ run.elsewhere w out.0;
      }
