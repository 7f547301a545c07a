-- ===== src/Paging/Chunk.antt =====
-- `modify_chunk_mapping`: a run of pages, mapped and then validated.
use raincloud.Prelude.{
  ℕ, zero, suc, ◌+◌, ◌*◌, ◌%◌, ◌^◌, ◌≤◌, ◌<◌, ◌≡◌, ◌≢◌, true, some, arith, refl, sym, ap, ◌∙◌,
  ==_iff, add64,
}
use raincloud.Mm.Pages.{done}
use raincloud.Paging.{
  Pager, Memory, Machine, is_present, addr_bits, is_mapped, do_mapping, map_by_pages, query_mapping,
  validate_mapping, modify_chunk_mapping,
}
use raincloud.Paging.Shape.{IsPager, Owner, IsTree}
use raincloud.Paging.Map.{page_of, Mapped, do_mapping_lem, bind_done}

-- The address of a page of the run, which may wrap around.
abbrev pub nth_page : (virt_addr i : ℕ) → ℕ
nth_page v i = add64 v (i * 0x1000)

nth_page-next : (v i : ℕ) → nth_page (add64 v 0x1000) i ≡ nth_page v (suc i)
nth_page-next v i = omega arith

pub page_of-nth_page : (v i : ℕ) → page_of (nth_page v i) ≡ (page_of v + i) % 2 ^ 36
page_of-nth_page v i = omega arith

page_of-later : (v i : ℕ) → suc i < 2 ^ 36 → page_of v ≢ page_of (nth_page (add64 v 0x1000) i)
page_of-later v i small same =
    let there = page_of-nth_page v (suc i) in
    let next = ap page_of (nth_page-next v i) in omega arith

module _ {State : Type 0} {pager : Pager State} (law : IsPager pager) (root : ℕ) where
  -- What mapping a run of pages does: each is translated to its physical page and the flags, every
  -- other page as before.
  pub record Run (n : ℕ) (owner : Owner) (m : Machine State) (v phy flag : ℕ) : Type 0 where
    pub after : Machine State
    pub owner' : Owner
    pub ran : map_by_pages pager n root v phy flag m ≡ done after
    pub tree : IsTree law root owner' after
    pub cost : law.left m.pages ≤ law.left after.pages + 3 * n
    pub here :
        (i : ℕ)
        → i < n
        → query_mapping pager root (nth_page v i) after.mem ≡ done (some (phy + i * 0x1000, flag))
    pub elsewhere :
        (w : ℕ)
        → ((i : ℕ) → i < n → page_of w ≢ page_of (nth_page v i))
        → query_mapping pager root w after.mem ≡ query_mapping pager root w m.mem

  map_by_pages-next :
      (n v phy flag : ℕ) (m m1 m2 : Machine State)
      → do_mapping pager root v phy flag m ≡ done m1
      → map_by_pages pager n root (add64 v 0x1000) (add64 phy 0x1000) flag m1 ≡ done m2
      → map_by_pages pager (suc n) root v phy flag m ≡ done m2
  unfolding map_by_pages
  map_by_pages-next n v phy flag m m1 m2 a b = bind_done _ a ∙ b

  module _ (flag : ℕ) (flags : flag < 2 ^ 9) (present : is_present flag ≡ true) where
    Run-here :
        (n : ℕ) (owner : Owner) (m : Machine State) (v phy : ℕ)
        → v < 2 ^ 64
        → suc n ≤ 2 ^ 36
        → phy % 0x1000 ≡ 0
        → phy + suc n * 0x1000 ≤ 2 ^ 48
        → (first : Mapped law root owner m v phy flag)
        → (rest : Run n first.owner' first.after (add64 v 0x1000) (add64 phy 0x1000) flag) → (i : ℕ)
        → i < suc n
        → query_mapping pager root (nth_page v i) rest.after.mem
          ≡ done (some (phy + i * 0x1000, flag))
    Run-here n owner m v phy vs ns al ps first rest zero lt =
        let self : nth_page v zero ≡ v = omega arith in
        let masked : addr_bits phy ≡ phy = omega arith in
        let same : phy + 0 * 0x1000 ≡ phy = omega arith in
        rw (self, same)
          (rest.elsewhere v (λ i lt. page_of-later v i (omega arith))
            ∙ first.here
            ∙ rw (present, masked) refl)
    Run-here n owner m v phy vs ns al ps first rest (suc i) lt =
        let next : add64 phy 0x1000 + i * 0x1000 ≡ phy + suc i * 0x1000 = omega arith in
        rw (nth_page-next v i, next) at (rest.here i (omega arith))

    pub map_by_pages_lem :
        (n : ℕ) (owner : Owner) (m : Machine State) (v phy : ℕ)
        → IsTree law root owner m
        → 3 * n ≤ law.left m.pages
        → v < 2 ^ 64
        → n ≤ 2 ^ 36
        → phy % 0x1000 ≡ 0
        → phy + n * 0x1000 ≤ 2 ^ 48
        → Run n owner m v phy flag
    unfolding map_by_pages
    map_by_pages_lem zero owner m v phy tree enough vs ns al ps = record {
      after = m;
      owner' = owner;
      ran = refl;
      tree = tree;
      cost = omega arith;
      here = λ i lt. absurd (omega arith);
      elsewhere = λ w ne. refl;
    }
    map_by_pages_lem (suc n) owner m v phy tree enough vs ns al ps =
        let first = do_mapping_lem law root owner m v phy flag tree (omega arith) flags in
        let rest =
          map_by_pages_lem n first.owner' first.after (add64 v 0x1000) (add64 phy 0x1000) first.tree
            (omega (arith, first.cost)) (omega arith) (omega arith) (omega arith) (omega arith) in
        record {
          after = rest.after;
          owner' = rest.owner';
          ran = map_by_pages-next n v phy flag m first.after rest.after first.ran rest.ran;
          tree = rest.tree;
          cost = omega (arith, first.cost, rest.cost);
          here = Run-here n owner m v phy vs ns al ps first rest;
          elsewhere = λ w ne.
              let self : nth_page v zero ≡ v = omega arith in
              rest.elsewhere w (λ i lt. rw (sym (nth_page-next v i)) at (ne (suc i) (omega arith)))
              ∙ first.elsewhere w (rw self at (ne zero (omega arith)));
        }

    -- What has been mapped passes the validation.
    validate_mapping-done :
        (n v phy : ℕ) (mem : Memory)
        → v < 2 ^ 64
        → phy + n * 0x1000 ≤ 2 ^ 48
        → ((i : ℕ)
            → i < n
            → query_mapping pager root (nth_page v i) mem ≡ done (some (phy + i * 0x1000, flag)))
        → validate_mapping pager n root v phy flag mem ≡ done tt
    unfolding validate_mapping
    validate_mapping-done zero v phy mem vs ps here = refl
    validate_mapping-done (suc n) v phy mem vs ps here =
        let self : nth_page v zero ≡ v = omega arith in
        let same : phy + 0 * 0x1000 ≡ phy = omega arith in
        let first = rw (self, same) at (here zero (omega arith)) in
        let ok : is_mapped (some (phy, flag)) phy flag ≡ true =
          rw ((==_iff phy phy).1 refl, (==_iff flag flag).1 refl) refl in
        let rest =
          validate_mapping-done n (add64 v 0x1000) (add64 phy 0x1000) mem (omega arith)
            (omega arith)
            (λ i lt.
              let next : add64 phy 0x1000 + i * 0x1000 ≡ phy + suc i * 0x1000 = omega arith in
              rw (sym (nth_page-next v i), sym next) at (here (suc i) (omega arith))) in
        bind_done _ first ∙ rw ok rest

    -- `modify_chunk_mapping` of `n` pages, with three pages for tables to spare for each, is not
    -- halted by its validation. Afterwards the translation of every page of the run, as
    -- `__query_mapping` finds it, is its physical page with the flags; every page that is not of the
    -- run is translated as before; and the tables make a tree again, whose pages are none of the
    -- spare ones. It is meant that the flags are within bits 0 to 8, with the present bit among
    -- them, that the physical pages are aligned and below 2^48, and that the run does not meet
    -- itself.
    pub modify_chunk_mapping_lem :
        (n : ℕ) (owner : Owner) (m : Machine State) (v phy : ℕ)
        → IsTree law root owner m
        → 3 * n ≤ law.left m.pages
        → v < 2 ^ 64
        → n ≤ 2 ^ 36
        → phy % 0x1000 ≡ 0
        → phy + n * 0x1000 ≤ 2 ^ 48
        → (run : Run n owner m v phy flag) × (modify_chunk_mapping pager root v phy n flag m
            ≡ done run.after)
    unfolding modify_chunk_mapping
    modify_chunk_mapping_lem n owner m v phy tree enough vs ns al ps =
        let run = map_by_pages_lem n owner m v phy tree enough vs ns al ps in
        let valid = validate_mapping-done n v phy run.after.mem vs ps run.here in
        (run, bind_done _ run.ran ∙ bind_done _ valid)
