-- ===== src/Paging/Walk.antt =====
-- Translation through the tables, and what the steps of `__do_mapping` change of it.
use raincloud.Prelude.{
  ℕ, zero, suc, ◌+◌, ◌*◌, ◌/◌, ◌%◌, ◌^◌, ◌<◌, ◌≡◌, ◌≢◌, false, Option, none, some, ◌==◌, arith,
  Bool-cases, inl, inr, refl, sym, ◌∙◌, ==_iff,
}
use raincloud.Mm.Pages.{Outcome, done}
use raincloud.Paging.{Pager, Memory, Machine, is_present, follow, read_pte, query_mapping}
use raincloud.Paging.Shape.{IsPager, Owner, Linked, IsTree}
use raincloud.Paging.Enter.{same_entry, Fresh, Entered, true_ne_false, no_leaf}

-- Where the bits that index a table of this height begin, and the index.
abbrev pub shift : ℕ → ℕ
shift n = 12 + n * 9

abbrev pub index : ℕ → ℕ → ℕ
index n v = v / 2 ^ shift n % 2 ^ 9

module _ {State : Type 0} (pager : Pager State) where
  -- `__query_mapping` from a table of any height on.
  pub walk : ℕ → Memory → (table virt_addr : ℕ) → Outcome (Option (ℕ × ℕ))
  walk zero mem t v = done (read_pte mem (t + index 0 v * 8))
  walk (suc n) mem t v = follow pager mem (t + index (suc n) v * 8) (λ u. walk n mem u v)

  pub query_mapping-walk :
      (root v : ℕ) (mem : Memory) → query_mapping pager root v mem ≡ walk 3 mem root v
  unfolding query_mapping walk
  query_mapping-walk root v mem = refl

  pub walk-leaf :
      (mem : Memory) (t v : ℕ) → walk 0 mem t v ≡ done (read_pte mem (t + index 0 v * 8))
  unfolding walk
  walk-leaf mem t v = refl

  pub walk-absent :
      (n : ℕ) (mem : Memory) (t v : ℕ)
      → is_present (mem (t + index n v * 8)) ≡ false
      → walk n mem t v ≡ done none
  unfolding walk
  walk-absent zero mem t v e = rw (walk, e)
  walk-absent (suc n) mem t v e = rw (walk, e)

  pub walk-linked :
      (n : ℕ) (mem : Memory) (t v : ℕ) {u : ℕ}
      → Linked pager mem (t + index (suc n) v * 8) u
      → walk (suc n) mem t v ≡ walk n mem u v
  unfolding walk
  walk-linked n mem t v link = rw (walk, link.0, link.1)

pub index_small : (n v : ℕ) → index n v < 512
index_small n v = omega arith

module _ {State : Type 0} {pager : Pager State} (law : IsPager pager) where
  -- An entry that is the same, and leads to a table from which the walk is the same.
  pub walk-same :
      {root : ℕ} {owner : Owner} {m : Machine State} (mem : Memory)
      → IsTree law root owner m
      → (k x r v : ℕ) → owner x ≡ some (suc k, r)
      → mem (x + index (suc k) v * 8) ≡ m.mem (x + index (suc k) v * 8)
      → ((u : ℕ)
          → owner u ≡ some (k, r * 512 + index (suc k) v)
          → walk pager k mem u v ≡ walk pager k m.mem u v)
      → walk pager (suc k) mem x v ≡ walk pager (suc k) m.mem x v
  walk-same {m} mem tree k x r v own same below =
      elim (Bool-cases (is_present (m.mem (x + index (suc k) v * 8)))) [
        | inr absent ↦
            walk-absent pager (suc k) mem x v (rw same absent)
            ∙ sym (walk-absent pager (suc k) m.mem x v absent)
        | inl here ↦
            let (u, link, placed) =
              tree.child x k r (index (suc k) v) own (index_small (suc k) v) here in
            walk-linked pager k mem x v (rw same link)
            ∙ below u placed
            ∙ sym (walk-linked pager k m.mem x v link)
      ]

  module _ {root : ℕ} {owner : Owner} {m : Machine State} {t i n q : ℕ}
      (tree : IsTree law root owner m) (own : owner t ≡ some (suc n, q)) (small : i < 512)
      (e : Entered law root owner m t i n q) where
    walk-Fresh :
        Fresh law owner m.mem e.after.mem (t + i * 8) e.table
        → (k x r v : ℕ) → owner x ≡ some (k, r)
        → walk pager k e.after.mem x v ≡ walk pager k m.mem x v
    unfolding walk
    walk-Fresh fresh zero x r v o =
        let apart : x + index 0 v * 8 ≢ t + i * 8 = λ hit. no_leaf (
          sym own
          ∙ (rw
              (same_entry t x i (index 0 v) (tree.aligned t _ own) (tree.aligned x _ o) small
                (index_small 0 v) hit).0
              at o)) in
        rw (fresh.others x (0, r) (index 0 v) o (index_small 0 v) apart)
    walk-Fresh fresh (suc k) x r v o =
        elim (Bool-cases ((x + index (suc k) v * 8) == (t + i * 8))) [
          | inl hit ↦
              let addr : x + index (suc k) v * 8 ≡ t + i * 8 = (==_iff _ _).0 hit in
              walk-linked pager k e.after.mem x v (rw addr e.linked)
              ∙ walk-absent pager k e.after.mem e.table v
                  (fresh.empty (index k v) (index_small k v))
              ∙ sym (walk-absent pager (suc k) m.mem x v (rw addr fresh.absent))
          | inr miss ↦
              walk-same e.after.mem tree k x r v o
                (fresh.others x (suc k, r) (index (suc k) v) o (index_small (suc k) v)
                  (ground arith))
                (λ u placed. walk-Fresh fresh k u (r * 512 + index (suc k) v) v placed)
        ]

    -- Making a table leaves every translation as it was.
    pub walk-enter :
        (k x r v : ℕ)
        → owner x ≡ some (k, r)
        → walk pager k e.after.mem x v ≡ walk pager k m.mem x v
    walk-enter k x r v o = elim e.change [
      | inl same ↦ rw same
      | inr fresh ↦ walk-Fresh fresh k x r v o
    ]

    -- An entry that was there leads where it led.
    pub Linked-enter :
        (k x r j u : ℕ)
        → owner x ≡ some (suc k, r)
        → j < 512
        → Linked pager m.mem (x + j * 8) u
        → Linked pager e.after.mem (x + j * 8) u
    Linked-enter k x r j u o hj link = elim e.change [
      | inl same ↦ rw same link
      | inr fresh ↦
          let apart : x + j * 8 ≢ t + i * 8 =
            λ hit. true_ne_false (rw hit at link.0) fresh.absent in
          rw (fresh.others x (suc k, r) j o hj apart) link
    ]
