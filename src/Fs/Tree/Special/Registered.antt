-- ===== src/Fs/Tree/Special/Registered.antt =====
-- fs/fs.c, a node made by `fs_mknode` and then given its hooks by `fs_reghook`.
use raincloud.Prelude.{
  ℕ, ◌<◌, ◌≡◌, ◌≢◌, false, none, some, List, [], ◌∷◌, ◌++◌, arith, refl, sym, ap, ◌∙◌, ◌==◌, ==_iff,
  if◌then◌else◌, Bool-cases, inl, inr,
}
use mathlib.Core.Path.{subst}
use raincloud.Fs.Tree.{Text, slash, same_text, FileNode, FileTree, hook_max, find_child, add_node}
use raincloud.Fs.Tree.Tokens.{names, names-child, NoSlash}
use raincloud.Fs.Tree.Lookup.{
  Reaches, find_node-found, find_child-hit, find_child-miss, find_child-nil,
}
use raincloud.Fs.Tree.Make.{
  Avoids, IsFresh, none_some, other_place, added-parent, added-new, added-other, Reaches-added,
  Reaches-new,
}
use raincloud.Fs.Tree.Nodes.{not_root, fs_mknode-changed, parent-apart}
use raincloud.Fs.Tree.Hooks.{hooked, hooked-field, Reaches-same, fs_reghook-changed}
use raincloud.Fs.Tree.Special.{made, go_on, register, make_node}

-- The hooks of a node after the calls.
abbrev set_hooks : List (ℕ × ℕ) → (ℕ → ℕ) → ℕ → ℕ
set_hooks [] hook = hook
set_hooks ((index, pointer) ∷ hs) hook = set_hooks hs (λ i. if i == index then pointer else hook i)

abbrev hook_all : ℕ → List (ℕ × ℕ) → (ℕ → FileNode) → ℕ → FileNode
hook_all d [] nodes = nodes
hook_all d ((index, pointer) ∷ hs) nodes = hook_all d hs (hooked d index pointer nodes)

abbrev pub Small : List (ℕ × ℕ) → Type 0
Small [] = Unit {0}
Small (h ∷ hs) = (h.0 < hook_max) × Small hs

hooked-here :
    (d index pointer : ℕ) (nodes : ℕ → FileNode)
    → hooked d index pointer nodes d
      ≡ record (nodes d) { hook = λ i. if i == index then pointer else (nodes d).hook i }
hooked-here d index pointer nodes = rw ((==_iff d d).1 refl) refl

hook_all-here :
    (d : ℕ) (hs : List (ℕ × ℕ)) (nodes : ℕ → FileNode)
    → hook_all d hs nodes d ≡ record (nodes d) { hook = set_hooks hs (nodes d).hook }
hook_all-here d [] nodes = refl
hook_all-here d ((index, pointer) ∷ hs) nodes =
    hook_all-here d hs (hooked d index pointer nodes)
    ∙ ap (λ (n : FileNode). record n { hook = set_hooks hs n.hook })
        (hooked-here d index pointer nodes)

hook_all-other :
    (d : ℕ) (hs : List (ℕ × ℕ)) (nodes : ℕ → FileNode) (q : ℕ)
    → q ≢ d
    → hook_all d hs nodes q ≡ nodes q
hook_all-other d [] nodes q ne = refl
hook_all-other d ((index, pointer) ∷ hs) nodes q ne =
    hook_all-other d hs (hooked d index pointer nodes) q ne ∙ rw (other_place ne) refl

Reaches-hooked :
    (d index pointer : ℕ) (nodes : ℕ → FileNode) (ns : List Text) (q dest : ℕ)
    → Reaches nodes ns q dest
    → Reaches (hooked d index pointer nodes) ns q dest
Reaches-hooked d index pointer nodes ns q dest =
    Reaches-same nodes (hooked d index pointer nodes)
      (hooked-field (λ n. n.name) d index pointer nodes refl)
      (hooked-field (λ n. n.children) d index pointer nodes refl) ns q dest

Reaches-hook_all :
    (d : ℕ) (hs : List (ℕ × ℕ)) (nodes : ℕ → FileNode) (ns : List Text) (q dest : ℕ)
    → Reaches nodes ns q dest
    → Reaches (hook_all d hs nodes) ns q dest
Reaches-hook_all d [] nodes ns q dest reach = reach
Reaches-hook_all d ((index, pointer) ∷ hs) nodes ns q dest reach =
    Reaches-hook_all d hs (hooked d index pointer nodes) ns q dest
      (Reaches-hooked d index pointer nodes ns q dest reach)

register_lem :
    (path : Text) (d : ℕ) (hs : List (ℕ × ℕ)) (tree : FileTree)
    → same_text path (slash ∷ []) ≡ false
    → Small hs
    → Reaches tree.nodes (names path) tree.root d
    → register path hs tree ≡ made (record tree { nodes = hook_all d hs tree.nodes })
unfolding register
register_lem path d [] tree below small reach = refl
register_lem path d ((index, pointer) ∷ hs) tree below small reach =
    ap (λ c. go_on c tree (λ next. register path hs next))
      (fs_reghook-changed path d index pointer tree (find_node-found tree path d reach) below
        small.0)
    ∙ register_lem path d hs (record tree { nodes = hooked d index pointer tree.nodes }) below
        small.1 (Reaches-hooked d index pointer tree.nodes (names path) tree.root d reach)

-- The tree has one node more, with its hooks, at the end of its parent's children.
pub record IsGrown (new parent : ℕ) (node : FileNode) (path : Text) (tree grown : FileTree)
    : Type 0 where
  pub same_root : grown.root ≡ tree.root
  pub at_new : grown.nodes new ≡ node
  pub at_parent :
      grown.nodes parent
      ≡ record (tree.nodes parent) { children = (tree.nodes parent).children ++ new ∷ [] }
  pub elsewhere : (q : ℕ) → q ≢ new → q ≢ parent → grown.nodes q ≡ tree.nodes q
  pub reach : Reaches grown.nodes (names path) grown.root new
  pub kept :
      (other : Text) (q : ℕ)
      → Reaches tree.nodes (names other) tree.root q
      → Reaches grown.nodes (names other) grown.root q

-- The node that is made.
abbrev pub node_with : (parent : ℕ) → (name : Text) → (type : ℕ) → List (ℕ × ℕ) → FileNode
node_with parent name type hooks = record {
  name = name;
  type = type;
  children = [];
  parent = some parent;
  hook = set_hooks hooks (λ i. 0);
}

module _ (new parent : ℕ) (dir name : Text) (type : ℕ) (hooks : List (ℕ × ℕ)) (tree : FileTree)
    (fresh : IsFresh new tree) (reach : Reaches tree.nodes (names dir) tree.root parent)
    (given : name ≢ []) (clean : NoSlash name) (small : Small hooks)
    (free : find_child tree.nodes name (tree.nodes parent).children ≡ none) where
  abbrev apart : parent ≢ new
  apart = parent-apart new parent dir name type tree fresh reach given clean free

  abbrev path : Text
  path = dir ++ slash ∷ name

  abbrev nodes' : ℕ → FileNode
  nodes' = add_node new parent name type tree.nodes

  abbrev grown : FileTree
  grown = record tree { nodes = hook_all new hooks nodes' }

  Reaches-path : Reaches nodes' (names path) tree.root new
  Reaches-path = rw (sym (names-child dir name given clean)) at (
      Reaches-new new parent name type tree.nodes apart fresh.1 (names dir) tree.root fresh.0 reach
        free)

  -- A node of a new name with its hooks: the path leads to it, and what was there is there.
  pub make_node_lem :
      (grown : FileTree) × (make_node (some new) path type hooks tree ≡ made grown)
      × IsGrown new parent (node_with parent name type hooks) path tree grown
  unfolding make_node
  make_node_lem = (
    grown,
    ap (λ c. go_on c tree (λ next. register path hooks next))
          (fs_mknode-changed new parent dir name type tree fresh reach given clean free apart)
        ∙ register_lem path new hooks (record tree { nodes = nodes' }) (not_root dir name given)
            small Reaches-path,
    record {
      same_root = refl;
      at_new =
          hook_all-here new hooks nodes'
          ∙ ap (λ (n : FileNode). record n { hook = set_hooks hooks n.hook })
              (added-new new parent name type tree.nodes apart fresh.1);
      at_parent =
          hook_all-other new hooks nodes' parent apart
          ∙ added-parent new parent name type tree.nodes apart fresh.1;
      elsewhere = λ q nn np.
          hook_all-other new hooks nodes' q nn
          ∙ added-other new parent name type tree.nodes apart fresh.1 q nn np;
      reach = Reaches-hook_all new hooks nodes' (names path) tree.root new Reaches-path;
      kept = λ other q there. Reaches-hook_all new hooks nodes' (names other) tree.root q (
          Reaches-added new parent name type tree.nodes apart fresh.1 (names other) tree.root q
            fresh.0 there);
    },
  )

Avoids-append : (x new : ℕ) (cs : List ℕ) → x ≢ new → Avoids x cs → Avoids x (cs ++ new ∷ [])
Avoids-append x new [] ne avoid = ((λ e. ne (sym e)), tt)
Avoids-append x new (c ∷ cs) ne avoid = (avoid.0, Avoids-append x new cs ne avoid.1)

module _ {new parent : ℕ} {node : FileNode} {path : Text} {tree grown : FileTree}
    (g : IsGrown new parent node path tree grown) (leaf : node.children ≡ []) where
  -- A place that was no node's and is not the new node's is no node's.
  pub IsGrown-IsFresh : (x : ℕ) → x ≢ new → IsFresh x tree → IsFresh x grown
  IsGrown-IsFresh x ne fresh = (
    subst (λ r. r ≢ x) (sym g.same_root) fresh.0,
    λ q. elim (Bool-cases (q == new)) [
      | inl same ↦
          let at : q ≡ new = (==_iff q new).0 same in
          subst (Avoids x)
            (sym (
              ap (λ r. (grown.nodes r).children) at
              ∙ ap (λ (n : FileNode). n.children) g.at_new
              ∙ leaf))
            tt
      | inr other ↦ elim (Bool-cases (q == parent)) [
        | inl same ↦
            let at : q ≡ parent = (==_iff q parent).0 same in
            subst (Avoids x)
              (sym (
                ap (λ r. (grown.nodes r).children) at
                ∙ ap (λ (n : FileNode). n.children) g.at_parent))
              (Avoids-append x new (tree.nodes parent).children ne (fresh.1 parent))
        | inr apart ↦
            subst (λ (n : FileNode). Avoids x n.children)
              (sym (g.elsewhere q (ground arith) (ground arith))) (fresh.1 q)
      ]
    ],
  )

  IsGrown-name : (q : ℕ) → q ≢ new → (grown.nodes q).name ≡ (tree.nodes q).name
  IsGrown-name q ne = elim (Bool-cases (q == parent)) [
    | inl same ↦
        let at : q ≡ parent = (==_iff q parent).0 same in
        rw at (ap (λ (n : FileNode). n.name) g.at_parent)
    | inr other ↦ ap (λ (n : FileNode). n.name) (g.elsewhere q ne (ground arith))
  ]

  find_child-grown :
      (wanted : Text) (cs : List ℕ)
      → same_text node.name wanted ≡ false
      → Avoids new cs
      → find_child tree.nodes wanted cs ≡ none
      → find_child grown.nodes wanted (cs ++ new ∷ []) ≡ none
  find_child-grown wanted [] ne avoid e =
      find_child-miss grown.nodes wanted new []
        (ap (λ (n : FileNode). same_text n.name wanted) g.at_new ∙ ne)
      ∙ find_child-nil grown.nodes wanted
  find_child-grown wanted (c ∷ cs) ne avoid e =
      let renamed = ap (λ n. same_text n wanted) (IsGrown-name c avoid.0) in
      elim (Bool-cases (same_text (tree.nodes c).name wanted)) [
        | inl hit ↦ none_some (sym e ∙ find_child-hit tree.nodes wanted c cs hit)
        | inr miss ↦
            find_child-miss grown.nodes wanted c (cs ++ new ∷ []) (renamed ∙ miss)
            ∙ find_child-grown wanted cs ne avoid.1
                (sym (find_child-miss tree.nodes wanted c cs miss) ∙ e)
      ]

  pub IsGrown-free :
      (wanted : Text)
      → same_text node.name wanted ≡ false
      → IsFresh new tree
      → find_child tree.nodes wanted (tree.nodes parent).children ≡ none
      → find_child grown.nodes wanted (grown.nodes parent).children ≡ none
  IsGrown-free wanted ne fresh e =
      ap (λ (n : FileNode). find_child grown.nodes wanted n.children) g.at_parent
      ∙ find_child-grown wanted (tree.nodes parent).children ne (fresh.1 parent) e
