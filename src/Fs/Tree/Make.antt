-- ===== src/Fs/Tree/Make.antt =====
-- fs/fs.c, `fs_mknode` and `fs_rmnode`.
use raincloud.Prelude.{
  ℕ, ◌≡◌, ◌≢◌, false, none, some, List, [], ◌∷◌, ◌++◌, arith, refl, sym, ap, ◌∙◌, ◌==◌, ==_iff,
  Bool-cases, inl, inr, eq_of_some,
}
use mathlib.Core.List.{append-nil}
use raincloud.Fs.Tree.{Text, same_text, FileNode, FileTree, find_child, add_node}
use raincloud.Fs.Tree.Lookup.{
  same_text_refl, Reaches, find_child-hit, find_child-miss, find_child-nil,
}

abbrev pub Avoids : ℕ → List ℕ → Type 0
Avoids new [] = Unit {0}
Avoids new (c ∷ cs) = (c ≢ new) × Avoids new cs

-- The place is no node of the tree.
abbrev pub IsFresh : ℕ → FileTree → Type 0
IsFresh new tree = (tree.root ≢ new) × ((q : ℕ) → Avoids new (tree.nodes q).children)

pub none_some : {A : Type 0} {a : A} {B : Type 0} → none ≡ some a → B
none_some e = absurd (cc)

pub other_place : {p q : ℕ} → q ≢ p → (q == p) ≡ false
other_place ne = ground arith

found-Avoids :
    (new : ℕ) (nodes : ℕ → FileNode) (wanted : Text) (cs : List ℕ) {c : ℕ}
    → Avoids new cs
    → find_child nodes wanted cs ≡ some c
    → c ≢ new
found-Avoids new nodes wanted [] avoid e = none_some (sym (find_child-nil nodes wanted) ∙ e)
found-Avoids new nodes wanted (x ∷ cs) avoid e =
    elim (Bool-cases (same_text (nodes x).name wanted)) [
      | inl hit ↦
          λ same. avoid.0 (eq_of_some (sym (find_child-hit nodes wanted x cs hit) ∙ e) ∙ same)
      | inr miss ↦
          found-Avoids new nodes wanted cs avoid.1
            (sym (find_child-miss nodes wanted x cs miss) ∙ e)
    ]

pub Reaches-apart :
    (new : ℕ) (nodes : ℕ → FileNode)
    → ((q : ℕ) → Avoids new (nodes q).children)
    → (ns : List Text) (q dest : ℕ) → q ≢ new
    → Reaches nodes ns q dest
    → dest ≢ new
Reaches-apart new nodes fresh [] q dest ne same = λ e. ne (same ∙ e)
Reaches-apart new nodes fresh (n ∷ ns) q dest ne (c, e, rest) =
    Reaches-apart new nodes fresh ns c dest
      (found-Avoids new nodes n (nodes q).children (fresh q) e) rest

module _ (new parent : ℕ) (name : Text) (type : ℕ) (nodes : ℕ → FileNode) (apart : parent ≢ new)
    (fresh : (q : ℕ) → Avoids new (nodes q).children) where
  abbrev pub added : ℕ → FileNode
  added = add_node new parent name type nodes

  pub added-parent :
      added parent ≡ record (nodes parent) { children = (nodes parent).children ++ new ∷ [] }
  added-parent = rw ((==_iff parent parent).1 refl, other_place apart) refl

  pub added-new :
      added new
      ≡ record { name = name; type = type; children = []; parent = some parent; hook = λ i. 0 }
  added-new = rw (other_place (λ e. apart (sym e)), (==_iff new new).1 refl) refl

  pub added-other : (q : ℕ) → q ≢ new → q ≢ parent → added q ≡ nodes q
  added-other q nn np = rw (other_place np, other_place nn) refl

  added-name : (q : ℕ) → q ≢ new → (added q).name ≡ (nodes q).name
  added-name q ne = elim (Bool-cases (q == parent)) [
    | inl same ↦
        let at : q ≡ parent = (==_iff q parent).0 same in
        rw at (ap (λ (n : FileNode). n.name) added-parent)
    | inr other ↦ ap (λ (n : FileNode). n.name) (added-other q ne (ground arith))
  ]

  find_child-kept :
      (wanted : Text) (cs more : List ℕ) {c : ℕ}
      → Avoids new cs
      → find_child nodes wanted cs ≡ some c
      → find_child added wanted (cs ++ more) ≡ some c
  find_child-kept wanted [] more avoid e = none_some (sym (find_child-nil nodes wanted) ∙ e)
  find_child-kept wanted (x ∷ cs) more avoid e =
      let renamed = ap (λ n. same_text n wanted) (added-name x avoid.0) in
      elim (Bool-cases (same_text (nodes x).name wanted)) [
        | inl hit ↦
            find_child-hit added wanted x (cs ++ more) (renamed ∙ hit)
            ∙ sym (find_child-hit nodes wanted x cs hit)
            ∙ e
        | inr miss ↦
            find_child-miss added wanted x (cs ++ more) (renamed ∙ miss)
            ∙ find_child-kept wanted cs more avoid.1
                (sym (find_child-miss nodes wanted x cs miss) ∙ e)
      ]

  find_child-new :
      (cs : List ℕ)
      → Avoids new cs
      → find_child nodes name cs ≡ none
      → find_child added name (cs ++ new ∷ []) ≡ some new
  find_child-new [] avoid e =
      find_child-hit added name new []
        (ap (λ (n : FileNode). same_text n.name name) added-new ∙ same_text_refl name)
  find_child-new (x ∷ cs) avoid e =
      let renamed = ap (λ n. same_text n name) (added-name x avoid.0) in
      elim (Bool-cases (same_text (nodes x).name name)) [
        | inl hit ↦ none_some (sym e ∙ find_child-hit nodes name x cs hit)
        | inr miss ↦
            find_child-miss added name x (cs ++ new ∷ []) (renamed ∙ miss)
            ∙ find_child-new cs avoid.1 (sym (find_child-miss nodes name x cs miss) ∙ e)
      ]

  -- The children of a node, to which those of `parent` one is added.
  find_child-added :
      (wanted : Text) (q : ℕ) {c : ℕ}
      → q ≢ new
      → find_child nodes wanted (nodes q).children ≡ some c
      → find_child added wanted (added q).children ≡ some c
  find_child-added wanted q ne e = elim (Bool-cases (q == parent)) [
    | inl same ↦
        let at : q ≡ parent = (==_iff q parent).0 same in
        let here = rw at at e in
        rw at (
          ap (λ (n : FileNode). find_child added wanted n.children) added-parent
          ∙ find_child-kept wanted (nodes parent).children (new ∷ []) (fresh parent) here)
    | inr other ↦
        ap (λ (n : FileNode). find_child added wanted n.children) (added-other q ne (ground arith))
        ∙ ap (find_child added wanted) (sym (append-nil (nodes q).children))
        ∙ find_child-kept wanted (nodes q).children [] (fresh q) e
  ]

  -- What was reached is reached, and the new node from its parent.
  pub Reaches-added :
      (ns : List Text) (q dest : ℕ) → q ≢ new → Reaches nodes ns q dest → Reaches added ns q dest
  Reaches-added [] q dest ne same = same
  Reaches-added (n ∷ ns) q dest ne (c, e, rest) =
      let apart' = found-Avoids new nodes n (nodes q).children (fresh q) e in
      (c, find_child-added n q ne e, Reaches-added ns c dest apart' rest)

  pub Reaches-new :
      (ns : List Text) (q : ℕ)
      → q ≢ new
      → Reaches nodes ns q parent
      → find_child nodes name (nodes parent).children ≡ none
      → Reaches added (ns ++ name ∷ []) q new
  Reaches-new [] q ne same free =
      let here =
        ap (λ (n : FileNode). find_child added name n.children) added-parent
        ∙ find_child-new (nodes parent).children (fresh parent) free in
      (new, ap (λ p. find_child added name (added p).children) same ∙ here, refl)
  Reaches-new (n ∷ ns) q ne (c, e, rest) free =
      let apart' = found-Avoids new nodes n (nodes q).children (fresh q) e in
      (c, find_child-added n q ne e, Reaches-new ns c apart' rest free)
