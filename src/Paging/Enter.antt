-- ===== src/Paging/Enter.antt =====
-- One level of `__do_mapping`: the table that an entry leads to is there afterwards, and the
-- tables are still a tree.
use raincloud.Prelude.{
  ℕ, zero, suc, ◌+◌, ◌*◌, ◌%◌, ◌≤◌, ◌<◌, ◌≡◌, ◌≢◌, Bool, true, false, Option, some, ◌==◌, arith,
  if◌then◌else◌, Bool-cases, inl, inr, refl, ◌⊎◌, sym, ◌∙◌, ==_iff, ltb, ltb→lt,
}
use raincloud.Mm.Pages.{done}
use raincloud.Paging.{
  Pager, Memory, Machine, is_present, addr_bits, mk_entry, init_table, write, default_empty_flag,
  default_pt_flag, enter, new_table,
}
use raincloud.Paging.Words.{mk_entry_lem}
use raincloud.Paging.Shape.{IsPager, Owner, Linked, IsTree, init_table-at, init_table-outside}

pub true_ne_false : {b : Bool} → b ≡ true → b ≡ false → ⊥
true_ne_false e f = cc

pub label_eq :
    {n k q r : ℕ} → ◌≡◌ {A = Option (ℕ × ℕ)} (some (suc n, q)) (some (suc k, r)) → (n ≡ k) × (q ≡ r)
label_eq e = (cc, cc)

pub no_leaf : {n q r : ℕ} → ◌≡◌ {A = Option (ℕ × ℕ)} (some (suc n, q)) (some (zero, r)) → ⊥
no_leaf e = cc

-- Two entries of page-aligned tables are at one place only if they are one entry.
pub same_entry :
    (t x i j : ℕ)
    → t % 4096 ≡ 0
    → x % 4096 ≡ 0
    → i < 512
    → j < 512
    → x + j * 8 ≡ t + i * 8
    → (x ≡ t) × (j ≡ i)
same_entry t x i j at ax hi hj e = (omega arith, omega arith)

-- The memory with a new empty table, and an entry that leads to it.
abbrev with_table : (table entry e : ℕ) → Memory → Memory
with_table table entry e mem = write entry e (init_table 512 table default_empty_flag mem)

module _ (table t i e : ℕ) (mem : Memory) (at : table % 4096 ≡ 0) (tt' : t % 4096 ≡ 0)
    (small : i < 512) where
  with_table_self : with_table table (t + i * 8) e mem (t + i * 8) ≡ e
  with_table_self = rw ((==_iff (t + i * 8) (t + i * 8)).1 refl)

  with_table-empty :
      (j : ℕ)
      → t ≢ table
      → j < 512
      → is_present (with_table table (t + i * 8) e mem (table + j * 8)) ≡ false
  with_table-empty j ne hj =
      let other : ((table + j * 8) == (t + i * 8)) ≡ false =
        ground (arith, same_entry t table i j tt' at small hj) in
      rw (other, init_table-at 512 table default_empty_flag mem j hj)

  with_table-others :
      (x j : ℕ)
      → x % 4096 ≡ 0
      → x ≢ table
      → j < 512
      → x + j * 8 ≢ t + i * 8
      → with_table table (t + i * 8) e mem (x + j * 8) ≡ mem (x + j * 8)
  with_table-others x j ax ne hj other =
      let different : ((x + j * 8) == (t + i * 8)) ≡ false = ground arith in
      let outside : (x + j * 8 < table) ⊎ (table + 512 * 8 ≤ x + j * 8) =
        elim (Bool-cases (ltb x table)) [
          | inl low ↦ inl (omega (arith, ltb→lt x table low))
          | inr high ↦ inr (ground arith)
        ] in
      rw (different, init_table-outside 512 table default_empty_flag mem (x + j * 8) outside)

module _ {State : Type 0} {pager : Pager State} (law : IsPager pager) where
  -- A table was made: nothing was there before, and it is empty.
  pub record Fresh (owner : Owner) (mem mem' : Memory) (entry u : ℕ) : Type 0 where
    pub absent : is_present (mem entry) ≡ false
    pub others :
        (x : ℕ) (o : ℕ × ℕ) (j : ℕ)
        → owner x ≡ some o
        → j < 512
        → x + j * 8 ≢ entry
        → mem' (x + j * 8) ≡ mem (x + j * 8)
    pub empty : (j : ℕ) → j < 512 → is_present (mem' (u + j * 8)) ≡ false

  pub record Entered (root : ℕ) (owner : Owner) (m : Machine State) (t i n q : ℕ) : Type 0 where
    pub table : ℕ
    pub after : Machine State
    pub owner' : Owner
    pub ran : enter pager (t + i * 8) m ≡ done (table, after)
    pub tree : IsTree law root owner' after
    pub placed : owner' table ≡ some (n, q * 512 + i)
    pub extends : (x : ℕ) (o : ℕ × ℕ) → owner x ≡ some o → owner' x ≡ some o
    pub linked : Linked pager after.mem (t + i * 8) table
    pub cost : law.left m.pages ≤ law.left after.pages + 1
    pub change : (after.mem ≡ m.mem) ⊎ Fresh owner m.mem after.mem (t + i * 8) table

  module _ (root : ℕ) (owner : Owner) (m : Machine State) (t i n q : ℕ)
      (tree : IsTree law root owner m) (own : owner t ≡ some (suc n, q)) (small : i < 512) where
    enter-present : is_present (m.mem (t + i * 8)) ≡ true → Entered root owner m t i n q
    unfolding enter
    enter-present here =
        let (u, link, placed) = tree.child t n q i own small here in
        record {
          table = u;
          after = m;
          owner' = owner;
          ran = rw (here, link.1);
          tree = tree;
          placed = placed;
          extends = λ x o e. e;
          linked = link;
          cost = omega arith;
          change = inl refl;
        }

    -- What is left when the page has been granted.
    module _ (table phy : ℕ) (pages : State) (at : table % 4096 ≡ 0)
        (spare : law.Spare m.pages table) (taken : law.Spare pages table → ⊥)
        (fewer : (x : ℕ) → law.Spare pages x → law.Spare m.pages x) (valid : law.Valid pages)
        (masked : addr_bits phy ≡ phy) (to_virt : pager.to_virt phy ≡ done table) where
      abbrev made : Machine State
      made = record {
        mem = with_table table (t + i * 8) (mk_entry phy default_pt_flag) m.mem;
        pages = pages;
      }

      abbrev owner_made : Owner
      owner_made x = if x == table then some (n, q * 512 + i) else owner x

      not_owned : (x : ℕ) (o : ℕ × ℕ) → owner x ≡ some o → x ≢ table
      not_owned x o e same = tree.used x o e (rw same spare)

      owner_made-extends : (x : ℕ) (o : ℕ × ℕ) → owner x ≡ some o → owner_made x ≡ some o
      owner_made-extends x o e = ground (arith, not_owned x o e)

      owner_made_self : owner_made table ≡ some (n, q * 512 + i)
      owner_made_self = rw ((==_iff table table).1 refl)

      aligned_t : t % 4096 ≡ 0
      aligned_t = tree.aligned t (suc n, q) own

      made-linked : Linked pager made.mem (t + i * 8) table
      made-linked =
          let entry = mk_entry_lem phy default_pt_flag (omega arith) in
          let self =
            with_table_self table t i (mk_entry phy default_pt_flag) m.mem at aligned_t small in
          (rw self entry.2, rw self (rw (entry.0, masked) to_virt))

      made-Fresh :
          is_present (m.mem (t + i * 8)) ≡ false → Fresh owner m.mem made.mem (t + i * 8) table
      made-Fresh absent = record {
        absent = absent;
        others = λ x o j e hj ne.
            with_table-others table t i (mk_entry phy default_pt_flag) m.mem at aligned_t small x j
              (tree.aligned x o e) (not_owned x o e) hj ne;
        empty = λ j hj.
            with_table-empty table t i (mk_entry phy default_pt_flag) m.mem at aligned_t small j
              (not_owned t (suc n, q) own) hj;
      }

      made-child :
          Fresh owner m.mem made.mem (t + i * 8) table
          → (x k r j : ℕ) → owner_made x ≡ some (suc k, r)
          → j < 512
          → is_present (made.mem (x + j * 8)) ≡ true
          → (u : ℕ) × Linked pager made.mem (x + j * 8) u × (owner_made u ≡ some (k, r * 512 + j))
      made-child fresh x k r j e hj here = elim (Bool-cases (x == table)) [
        | inl same ↦
            let at_new : x ≡ table = (==_iff x table).0 same in
            absurd (true_ne_false (rw at_new at here) (fresh.empty j hj))
        | inr other ↦
            let old : owner x ≡ some (suc k, r) = rw other at e in
            elim (Bool-cases ((x + j * 8) == (t + i * 8))) [
              | inl hit ↦
                  let addr : x + j * 8 ≡ t + i * 8 = (==_iff _ _).0 hit in
                  let (xt, ji) =
                    same_entry t x i j aligned_t (tree.aligned x (suc k, r) old) small hj addr in
                  let (nk, qr) = label_eq (sym own ∙ (rw xt at old)) in
                  (table, rw addr made-linked, owner_made_self ∙ rw (nk, qr, ji) refl)
              | inr miss ↦
                  let kept = fresh.others x (suc k, r) j old hj (ground arith) in
                  let (u, link, placed) = tree.child x k r j old hj (rw kept at here) in
                  (u, rw kept link, owner_made-extends u (k, r * 512 + j) placed)
            ]
      ]

      made-IsTree : Fresh owner m.mem made.mem (t + i * 8) table → IsTree law root owner_made made
      made-IsTree fresh = record {
        top = owner_made-extends root (3, 0) tree.top;
        child = λ x k r j e hj here. made-child fresh x k r j e hj here;
        aligned = λ x o e. elim (Bool-cases (x == table)) [
          | inl same ↦ rw ((==_iff x table).0 same) at
          | inr other ↦ tree.aligned x o (rw other at e)
        ];
        used = λ x o e s. elim (Bool-cases (x == table)) [
          | inl same ↦ taken (rw ((==_iff x table).0 same) at s)
          | inr other ↦ tree.used x o (rw other at e) (fewer x s)
        ];
        valid = valid;
      }

    enter-absent :
        is_present (m.mem (t + i * 8)) ≡ false → 0 < law.left m.pages → Entered root owner m t i n q
    unfolding enter new_table
    enter-absent absent more =
        let (
          table, pages, phy, ran, valid, cost, at, spare, taken, fewer, to_phy, masked, to_virt,
        ) =
          law.grants m.pages tree.valid more in
        let fresh = made-Fresh table phy pages at spare taken fewer valid masked to_virt absent in
        record {
          table = table;
          after = made table phy pages at spare taken fewer valid masked to_virt;
          owner' = owner_made table phy pages at spare taken fewer valid masked to_virt;
          ran = rw (absent, ran, to_phy);
          tree = made-IsTree table phy pages at spare taken fewer valid masked to_virt fresh;
          placed = owner_made_self table phy pages at spare taken fewer valid masked to_virt;
          extends = owner_made-extends table phy pages at spare taken fewer valid masked to_virt;
          linked = made-linked table phy pages at spare taken fewer valid masked to_virt;
          cost = omega arith;
          change = inr fresh;
        }

    pub enter_lem : 0 < law.left m.pages → Entered root owner m t i n q
    enter_lem more = elim (Bool-cases (is_present (m.mem (t + i * 8)))) [
      | inl here ↦ enter-present here
      | inr absent ↦ enter-absent absent more
    ]
