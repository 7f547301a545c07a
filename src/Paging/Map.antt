-- ===== src/Paging/Map.antt =====
-- `__do_mapping` of one page: what is translated afterwards.
use raincloud.Prelude.{
  ℕ, zero, suc, ◌+◌, ◌*◌, ◌/◌, ◌%◌, ◌^◌, ◌≤◌, ◌<◌, ◌≡◌, ◌≢◌, false, Option, none, some, ◌==◌, arith,
  if◌then◌else◌, refl, sym, ◌∙◌, ==_iff,
}
use raincloud.Mm.Pages.{Outcome, done, ◌>>=◌}
use raincloud.Paging.{
  Pager, Memory, Machine, is_present, addr_bits, mk_entry, write, entry_of, enter, do_mapping,
  query_mapping,
}
use raincloud.Paging.Words.{mk_entry_lem}
use raincloud.Paging.Shape.{IsPager, Owner, Linked, IsTree}
use raincloud.Paging.Enter.{same_entry, no_leaf, enter_lem}
use raincloud.Paging.Walk.{
  index, index_small, walk, query_mapping-walk, walk-linked, walk-leaf, walk-same, walk-enter,
  Linked-enter,
}

-- The number of the page that is reached from a table for the bits `r`.
abbrev leaf_key : ℕ → ℕ → ℕ → ℕ
leaf_key zero r v = r * 512 + index 0 v
leaf_key (suc k) r v = leaf_key k (r * 512 + index (suc k) v) v

-- The number of an address's page; bits 48 to 63 play no part.
abbrev pub page_of : ℕ → ℕ
page_of v = v / 2 ^ 12 % 2 ^ 36

leaf_key-root : (v : ℕ) → leaf_key 3 0 v ≡ page_of v
leaf_key-root v = omega arith

leaf_label : {q r : ℕ} → ◌≡◌ {A = Option (ℕ × ℕ)} (some (zero, q)) (some (zero, r)) → q ≡ r
leaf_label e = cc

module _ {State : Type 0} {pager : Pager State} (law : IsPager pager) {root : ℕ} {owner : Owner}
    {m : Machine State} (tree : IsTree law root owner m) {t q : ℕ} (own : owner t ≡ some (0, q))
    (i e : ℕ) (small : i < 512) where
  abbrev written : Memory
  written = write (t + i * 8) e m.mem

  written-above :
      (x k r j : ℕ) → owner x ≡ some (suc k, r) → j < 512 → written (x + j * 8) ≡ m.mem (x + j * 8)
  written-above x k r j o hj =
      let apart : x + j * 8 ≢ t + i * 8 = λ hit. no_leaf (
        sym o
        ∙ (rw (sym (same_entry t x i j (tree.aligned t _ own) (tree.aligned x _ o) small hj hit).0)
            at own)) in
      ground arith

  Linked-written :
      (x k r j u : ℕ)
      → owner x ≡ some (suc k, r)
      → j < 512
      → Linked pager m.mem (x + j * 8) u
      → Linked pager written (x + j * 8) u
  Linked-written x k r j u o hj link = rw (written-above x k r j o hj) link

  written-IsTree : IsTree law root owner (record m { mem = written })
  written-IsTree = record {
    top = tree.top;
    child = λ x k r j o hj here.
        let kept = written-above x k r j o hj in
        let (u, link, placed) = tree.child x k r j o hj (rw kept at here) in
        (u, rw kept link, placed);
    aligned = tree.aligned;
    used = tree.used;
    valid = tree.valid;
  }

  walk-written :
      (k x r v : ℕ)
      → owner x ≡ some (k, r)
      → leaf_key k r v ≢ q * 512 + i
      → walk pager k written x v ≡ walk pager k m.mem x v
  walk-written zero x r v o ne =
      let apart : x + index 0 v * 8 ≢ t + i * 8 = λ hit.
        let (xt, vi) =
          same_entry t x i (index 0 v) (tree.aligned t _ own) (tree.aligned x _ o) small
            (index_small 0 v) hit in
        let rq = leaf_label (sym (rw xt at o) ∙ own) in ne (omega arith) in
      let other : ((x + index 0 v * 8) == (t + i * 8)) ≡ false = ground arith in
      rw (walk-leaf pager written x v, walk-leaf pager m.mem x v, other) refl
  walk-written (suc k) x r v o ne =
      walk-same law written tree k x r v o
        (written-above x k r (index (suc k) v) o (index_small (suc k) v))
        (λ u placed. walk-written k u (r * 512 + index (suc k) v) v placed ne)

-- What `__do_mapping` of a page does: it is translated to the physical page and the flags, every
-- other page is translated as before, and the tables are still a tree.
pub record Mapped {State : Type 0} {pager : Pager State} (law : IsPager pager) (root : ℕ)
    (owner : Owner) (m : Machine State) (v phy flag : ℕ) : Type 0 where
  pub after : Machine State
  pub owner' : Owner
  pub ran : do_mapping pager root v phy flag m ≡ done after
  pub tree : IsTree law root owner' after
  pub cost : law.left m.pages ≤ law.left after.pages + 3
  pub here :
      query_mapping pager root v after.mem
      ≡ done (if is_present flag then some (addr_bits phy, flag) else none)
  pub elsewhere :
      (w : ℕ)
      → page_of w ≢ page_of v
      → query_mapping pager root w after.mem ≡ query_mapping pager root w m.mem

pub bind_done :
    {A B : Type 0} {x : Outcome A} {a : A} (f : A → Outcome B) → x ≡ done a → (x >>= f) ≡ f a
bind_done f e = rw e

do_mapping-tables :
    {State : Type 0} (pager : Pager State) (root v phy flag : ℕ) (m m3 m2 m1 : Machine State)
    (t3 t2 t1 : ℕ)
    → enter pager (entry_of root v 39) m ≡ done (t3, m3)
    → enter pager (entry_of t3 v 30) m3 ≡ done (t2, m2)
    → enter pager (entry_of t2 v 21) m2 ≡ done (t1, m1)
    → do_mapping pager root v phy flag m
      ≡ done (record m1 { mem = write (entry_of t1 v 12) (mk_entry phy flag) m1.mem })
unfolding do_mapping
do_mapping-tables pager root v phy flag m m3 m2 m1 t3 t2 t1 a b c =
    bind_done _ a ∙ bind_done _ b ∙ bind_done _ c

pub do_mapping_lem :
    {State : Type 0} {pager : Pager State} (law : IsPager pager) (root : ℕ) (owner : Owner)
    (m : Machine State) (v phy flag : ℕ)
    → IsTree law root owner m
    → 3 ≤ law.left m.pages
    → flag < 2 ^ 9
    → Mapped law root owner m v phy flag
do_mapping_lem {State} {pager} law root owner m v phy flag tree enough flags =
    let i3 = index 3 v in
    let i2 = index 2 v in
    let i1 = index 1 v in
    let i0 = index 0 v in
    let e3 = enter_lem law root owner m root i3 2 0 tree tree.top (index_small 3 v) (omega arith) in
    let e2 =
      enter_lem law root e3.owner' e3.after e3.table i2 1 (0 * 512 + i3) e3.tree e3.placed
        (index_small 2 v) (omega (arith, e3.cost)) in
    let e1 =
      enter_lem law root e2.owner' e2.after e2.table i1 0 ((0 * 512 + i3) * 512 + i2) e2.tree
        e2.placed (index_small 1 v) (omega (arith, e3.cost, e2.cost)) in
    let q = ((0 * 512 + i3) * 512 + i2) * 512 + i1 in
    let e = mk_entry phy flag in
    let key : q * 512 + i0 ≡ page_of v = leaf_key-root v in
    let final = written law e1.tree e1.placed i0 e (index_small 0 v) in
    let root3 = e3.extends root (3, 0) tree.top in
    let root2 = e2.extends root (3, 0) root3 in
    let root1 = e1.extends root (3, 0) root2 in
    let next2 = e2.extends e3.table (2, 0 * 512 + i3) e3.placed in
    let next1 = e1.extends e3.table (2, 0 * 512 + i3) next2 in
    let last1 = e1.extends e2.table (1, (0 * 512 + i3) * 512 + i2) e2.placed in
    let keep1 = Linked-enter law e2.tree e2.placed (index_small 1 v) e1 in
    let keep0 = Linked-written law e1.tree e1.placed i0 e (index_small 0 v) in
    let link3 = keep0 root 2 0 i3 e3.table root1 (index_small 3 v) (
      keep1 2 root 0 i3 e3.table root2 (index_small 3 v) (
        Linked-enter law e3.tree e3.placed (index_small 2 v) e2 2 root 0 i3 e3.table root3
          (index_small 3 v) e3.linked)) in
    let link2 =
      keep0 e3.table 1 (0 * 512 + i3) i2 e2.table next1 (index_small 2 v)
        (keep1 1 e3.table (0 * 512 + i3) i2 e2.table next2 (index_small 2 v) e2.linked) in
    let link1 =
      keep0 e2.table 0 ((0 * 512 + i3) * 512 + i2) i1 e1.table last1 (index_small 1 v) e1.linked in
    let bits = mk_entry_lem phy flag flags in
    let self : final (e1.table + i0 * 8) ≡ e =
      rw ((==_iff (e1.table + i0 * 8) (e1.table + i0 * 8)).1 refl) in
    record {
      after = record e1.after { mem = final };
      owner' = e1.owner';
      ran =
          do_mapping-tables pager root v phy flag m e3.after e2.after e1.after e3.table e2.table
            e1.table e3.ran e2.ran e1.ran;
      tree = written-IsTree law e1.tree e1.placed i0 e (index_small 0 v);
      cost = omega (arith, e3.cost, e2.cost, e1.cost);
      here =
          query_mapping-walk pager root v final
          ∙ walk-linked pager 2 final root v link3
          ∙ walk-linked pager 1 final e3.table v link2
          ∙ walk-linked pager 0 final e2.table v link1
          ∙ walk-leaf pager final e1.table v
          ∙ rw (self, bits.2, bits.0, bits.1) refl;
      elsewhere = λ w ne.
          let ne' : leaf_key 3 0 w ≢ q * 512 + i0 =
            λ same. ne (sym (leaf_key-root w) ∙ same ∙ key) in
          query_mapping-walk pager root w final
          ∙ walk-written law e1.tree e1.placed i0 e (index_small 0 v) 3 root 0 w root1 ne'
          ∙ walk-enter law e2.tree e2.placed (index_small 1 v) e1 3 root 0 w root2
          ∙ walk-enter law e3.tree e3.placed (index_small 2 v) e2 3 root 0 w root3
          ∙ walk-enter law tree tree.top (index_small 3 v) e3 3 root 0 w tree.top
          ∙ sym (query_mapping-walk pager root w m.mem);
    }
