-- ===== src/Paging/Boot/Start.antt =====
-- arch/x86/init/init_mm_map.c: the page tables that the kernel starts with.
use raincloud.Prelude.{
  ℕ, ◌+◌, ◌*◌, ◌≤◌, ◌<◌, ◌≡◌, false, inl, inr, refl, ap, ◌∙◌, Option, none, some, arith, Bool-cases,
  ◌==◌, if◌then◌else◌, ==_iff,
}
use mathlib.Core.Path.{subst}
use raincloud.Mm.Pages.{done}
use raincloud.Paging.{Memory, Machine, is_present, query_mapping}
use raincloud.Paging.Shape.{Owner, IsTree, init_table-at}
use raincloud.Paging.Enter.{true_ne_false}
use raincloud.Paging.Map.{bind_done}
use raincloud.Paging.Walk.{walk-absent, query_mapping-walk, index, index_small}
use raincloud.Paging.Chain.{Every, Outside, IsMapped, Chain, Chained_lem}
use raincloud.Paging.Boot.{
  BootPages, BootInfo, boot_pager, boot-IsPager, boot_root, init_mm_map, kernel_image_pages,
  phy_pages, page_table_base,
}
use raincloud.Paging.Boot.Runs.{
  boot_runs, IsBootInfo, stack_page_base-place, page_table_base-place, boot_runs-IsMappable,
  boot_runs-Apart,
}

none_some : {A B : Type 0} {a : A} → ◌≡◌ {A = Option A} none (some a) → B
none_some e = absurd (cc)

module _ (info : BootInfo) (ok : IsBootInfo info) where
  abbrev root : ℕ
  root = (boot_root info (λ a. 0)).0

  root-place : root ≡ page_table_base info
  root-place =
      omega (arith, ok.room, ok.empty, page_table_base-place info ok, stack_page_base-place info ok)

  module _ (mem : Memory) where
    abbrev m0 : Machine BootPages
    m0 = (boot_root info mem).1

    root-empty : (i : ℕ) → i < 512 → is_present (m0.mem (root + i * 8)) ≡ false
    root-empty i lt = rw (init_table-at 512 root 0x18 mem i lt)

    abbrev boot_owner : Owner
    boot_owner x = if x == root then some (3, 0) else none

    boot_owner-root : (x : ℕ) (o : ℕ × ℕ) → boot_owner x ≡ some o → x ≡ root
    boot_owner-root x o e = elim (Bool-cases (x == root)) [
      | inl same ↦ (==_iff x root).0 same
      | inr other ↦ none_some (rw other at e)
    ]

    boot-IsTree : IsTree boot-IsPager root boot_owner m0
    boot-IsTree = record {
      top = rw ((==_iff root root).1 refl);
      child = λ t n q i own lt here.
          let at = boot_owner-root t _ own in
          absurd (true_ne_false (rw at at here) (root-empty i lt));
      aligned = λ t o own. rw (boot_owner-root t o own) (
          omega (
            arith,
            root-place,
            page_table_base-place info ok,
            stack_page_base-place info ok,
            ok.aligned,
          ));
      used = λ t o own spare.
          let place = boot_owner-root t o own in
          absurd (omega (arith, place, spare, root-place, ok.empty));
      valid = (
        omega (arith, page_table_base-place info ok, stack_page_base-place info ok, ok.aligned),
        omega (arith, ok.empty),
      );
    }

    boot_enough :
        3 * (kernel_image_pages info + (phy_pages info + (phy_pages info + (info.stack_pages + 0))))
        ≤ boot-IsPager.left m0.pages
    boot_enough = omega (
      arith,
      ok.room,
      ok.image,
      ok.memory,
      ok.empty,
      page_table_base-place info ok,
      stack_page_base-place info ok,
    )

    -- Before anything is mapped.
    nothing_mapped : (w : ℕ) → query_mapping boot_pager root w m0.mem ≡ done none
    nothing_mapped w =
        query_mapping-walk boot_pager root w m0.mem
        ∙ walk-absent boot_pager 3 m0.mem root w (root-empty (index 3 w) (index_small 3 w))

    init_mm_map-Chain :
        {after : Machine BootPages}
        → Chain boot-IsPager root (boot_runs info) m0 after
        → init_mm_map info mem ≡ done after
    unfolding init_mm_map
    init_mm_map-Chain (m1, e1, (m2, e2, (m3, e3, (m4, e4, e)))) =
        bind_done _ (bind_done _ (bind_done _ e1 ∙ e2) ∙ e3) ∙ e4 ∙ ap done e

  -- The tables, with the root's address as a variable.
  abbrev BootTables : Memory → ℕ → Type 0
  BootTables mem table =
      (m : Machine BootPages) × (owner : Owner) × (init_mm_map info mem ≡ done m)
      × IsTree boot-IsPager table owner m
      × Every (IsMapped boot-IsPager table m) (boot_runs info)
      × ((w : ℕ)
          → Every (Outside w) (boot_runs info)
          → query_mapping boot_pager table w m.mem ≡ done none)

  -- `init_mm_map` is not halted. Of the page tables that it makes, the kernel's image is translated
  -- to where it was loaded, all memory is translated twice, from `PHY_MAP_BASE` on and as it is, and
  -- the stack to the pages after the descriptors; no other address is translated, and the tables
  -- make a tree.
  pub init_mm_map_lem :
      (mem : Memory)
      → (m : Machine BootPages) × (owner : Owner) × (init_mm_map info mem ≡ done m)
        × IsTree boot-IsPager (page_table_base info) owner m
        × Every (IsMapped boot-IsPager (page_table_base info) m) (boot_runs info)
        × ((w : ℕ)
            → Every (Outside w) (boot_runs info)
            → query_mapping boot_pager (page_table_base info) w m.mem ≡ done none)
  init_mm_map_lem mem =
      let c =
        Chained_lem boot-IsPager root (boot_runs info) (boot_owner mem) (m0 mem) (boot-IsTree mem)
          (boot_enough mem) (boot_runs-IsMappable info ok) (boot_runs-Apart info ok) in
      subst (BootTables mem) root-place (
        c.after,
        c.owner',
        init_mm_map-Chain mem c.chain,
        c.tree,
        c.here,
        λ w out. c.elsewhere w out ∙ nothing_mapped mem w,
      )
