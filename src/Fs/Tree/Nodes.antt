-- ===== src/Fs/Tree/Nodes.antt =====
-- fs/fs.c, `fs_mknode` and `fs_rmnode` of a path.
use raincloud.Prelude.{
  ℕ, ◌≡◌, ◌≢◌, false, none, some, List, [], ◌∷◌, ◌++◌, arith, refl, sym, ap, ◌∙◌, ◌==◌, ==_iff,
  if◌then◌else◌, Bool-cases, inl, inr,
}
use raincloud.Fs.Tree.{
  Text, slash, same_text, FileNode, FileTree, changed, refused, find_child, find_node, set_node,
  split_last, named_last, get_found, fs_getnode, strip_tail_slash, stripped, make_at, make_in,
  make_stripped, add_node, fs_mknode, remove_child, fs_rmnode, remove_found, remove_empty, unlink,
}
use raincloud.Fs.Tree.Tokens.{names, names-child, NoSlash, names-slash}
use raincloud.Fs.Tree.Lookup.{same_text_refl, Reaches, find_node-found}
use raincloud.Fs.Tree.Make.{
  Avoids, IsFresh, Reaches-apart, other_place, added, added-parent, added-new, added-other,
  Reaches-added, Reaches-new,
}

split_last-NoSlash : (name : Text) → NoSlash name → split_last name ≡ none
unfolding split_last
split_last-NoSlash [] clean = refl
split_last-NoSlash (x ∷ name) clean = rw (split_last-NoSlash name clean.1, clean.0) refl

pub split_last-path :
    (dir name : Text)
    → NoSlash name
    → split_last (dir ++ slash ∷ name) ≡ some (dir ++ slash ∷ [], name)
unfolding split_last
split_last-path [] name clean = rw (split_last-NoSlash name clean) refl
split_last-path (x ∷ dir) name clean = rw (split_last-path dir name clean) refl

pub not_root : (dir name : Text) → name ≢ [] → same_text (dir ++ slash ∷ name) (slash ∷ []) ≡ false
unfolding same_text
not_root [] [] given = absurd (given refl)
not_root [] (x ∷ name) given = refl
not_root (y ∷ []) name given = ground arith
not_root (y ∷ z ∷ dir) name given = ground arith

remove_child-last : (new : ℕ) (cs : List ℕ) → Avoids new cs → remove_child new (cs ++ new ∷ []) ≡ cs
unfolding remove_child
remove_child-last new [] avoid = rw ((==_iff new new).1 refl) refl
remove_child-last new (x ∷ cs) avoid =
    rw (other_place avoid.0) (ap (λ r. x ∷ r) (remove_child-last new cs avoid.1))

module _ (new parent : ℕ) (dir name : Text) (type : ℕ) (tree : FileTree) (fresh : IsFresh new tree)
    (reach : Reaches tree.nodes (names dir) tree.root parent) (given : name ≢ [])
    (clean : NoSlash name)
    (free : find_child tree.nodes name (tree.nodes parent).children ≡ none) where
  abbrev path : Text
  path = dir ++ slash ∷ name

  stripped-path : strip_tail_slash path ≡ some path
  unfolding strip_tail_slash
  stripped-path = rw (split_last-path dir name clean) (go name given)
    where
      go : (n : Text) → n ≢ [] → stripped path (some (dir ++ slash ∷ [], n)) ≡ some path
      go [] g = absurd (g refl)
      go (x ∷ n) g = refl

  parent-found : find_node tree (dir ++ slash ∷ []) ≡ some parent
  parent-found =
      find_node-found tree (dir ++ slash ∷ []) parent (rw (sym (names-slash dir)) at reach)

  pub fs_mknode-changed :
      (apart : parent ≢ new)
      → fs_mknode (some new) path type tree
        ≡ changed (record tree { nodes = added new parent name type tree.nodes apart fresh.1 })
  unfolding fs_mknode
  fs_mknode-changed apart =
      ap (λ b. if b then refused else make_stripped (some new) (strip_tail_slash path) type tree)
        (not_root dir name given)
      ∙ ap (λ p. make_stripped (some new) p type tree) stripped-path
      ∙ ap (λ s. make_at (some new) s type tree) (split_last-path dir name clean)
      ∙ ap (λ f. make_in (some new) f name type tree) parent-found

  pub parent-apart : parent ≢ new
  parent-apart = Reaches-apart new tree.nodes fresh.1 (names dir) tree.root parent fresh.0 reach

  abbrev pub with_node : FileTree
  with_node = record tree { nodes = add_node new parent name type tree.nodes }

  with_node-found : find_node with_node path ≡ some new
  with_node-found = find_node-found with_node path new (
      rw (sym (names-child dir name given clean)) at (
        Reaches-new new parent name type tree.nodes parent-apart fresh.1 (names dir) tree.root
          fresh.0 reach free))

  fs_getnode-with_node : fs_getnode with_node path ≡ some (some new)
  unfolding fs_getnode
  fs_getnode-with_node =
      ap (λ f. get_found f path with_node) with_node-found
      ∙ ap (λ l. named_last l new with_node) (split_last-path dir name clean)
      ∙ ap (λ (n : FileNode). some (if same_text name n.name then some new else none))
          (added-new new parent name type tree.nodes parent-apart fresh.1)
      ∙ rw (same_text_refl name) refl

  -- `fs_mknode` of a new name in a directory that the names before it lead to, with the node at a
  -- place that is no node's, makes an empty node that `find_node` and `fs_getnode` of the path
  -- find. Its parent has it as its last child, and every other node is as before; every path whose
  -- names led from the root from child to child to a node finds that node.
  pub fs_mknode_lem :
      (fs_mknode (some new) path type tree ≡ changed with_node)
      × (find_node with_node path ≡ some new)
      × (fs_getnode with_node path ≡ some (some new))
      × (with_node.nodes new
          ≡ record { name = name; type = type; children = []; parent = some parent; hook = λ i. 0 })
      × (with_node.nodes parent
          ≡ record (tree.nodes parent) { children = (tree.nodes parent).children ++ new ∷ [] })
      × ((q : ℕ) → q ≢ new → q ≢ parent → with_node.nodes q ≡ tree.nodes q)
      × ((other : Text) (q : ℕ)
          → Reaches tree.nodes (names other) tree.root q
          → find_node with_node other ≡ some q)
  fs_mknode_lem = (
    fs_mknode-changed parent-apart,
    with_node-found,
    fs_getnode-with_node,
    added-new new parent name type tree.nodes parent-apart fresh.1,
    added-parent new parent name type tree.nodes parent-apart fresh.1,
    added-other new parent name type tree.nodes parent-apart fresh.1,
    λ other q there. find_node-found with_node other q (
        Reaches-added new parent name type tree.nodes parent-apart fresh.1 (names other) tree.root q
          fresh.0 there),
  )

  abbrev without_node : FileTree
  without_node = record tree {
    nodes =
        set_node parent
          (record (with_node.nodes parent) {
            children = remove_child new (with_node.nodes parent).children;
          })
          with_node.nodes;
  }

  fs_rmnode-changed : fs_rmnode path with_node ≡ changed without_node
  unfolding fs_rmnode
  fs_rmnode-changed =
      let node = added-new new parent name type tree.nodes parent-apart fresh.1 in
      ap (λ b. if b then refused else remove_found (find_node with_node path) with_node)
        (not_root dir name given)
      ∙ ap (λ f. remove_found f with_node) with_node-found
      ∙ ap (λ (n : FileNode). remove_empty new n.children with_node) node
      ∙ ap (λ (n : FileNode). unlink new n.parent with_node) node

  -- `fs_rmnode` of the node that `fs_mknode` has just made succeeds, and all nodes but the one that
  -- it frees are as they were before both.
  pub fs_rmnode-fs_mknode :
      (tree' : FileTree) × (tree'' : FileTree) × (fs_mknode (some new) path type tree
        ≡ changed tree')
      × (fs_rmnode path tree' ≡ changed tree'')
      × (tree''.root ≡ tree.root)
      × ((q : ℕ) → q ≢ new → tree''.nodes q ≡ tree.nodes q)
  fs_rmnode-fs_mknode = (
    with_node,
    without_node,
    fs_mknode-changed parent-apart,
    fs_rmnode-changed,
    refl,
    λ q ne. elim (Bool-cases (q == parent)) [
      | inl same ↦
          let at : q ≡ parent = (==_iff q parent).0 same in
          rw at (
            ap (λ b. if b then restored (with_node.nodes parent) else with_node.nodes parent)
              ((==_iff parent parent).1 refl)
            ∙ ap restored (added-parent new parent name type tree.nodes parent-apart fresh.1)
            ∙ ap (λ cs. record (tree.nodes parent) { children = cs })
                (remove_child-last new (tree.nodes parent).children (fresh.1 parent)))
      | inr other ↦
          ap (λ b. if b then restored (with_node.nodes parent) else with_node.nodes q) other
          ∙ added-other new parent name type tree.nodes parent-apart fresh.1 q ne (ground arith)
    ],
  )
    where
      restored : FileNode → FileNode
      restored n = record n { children = remove_child new n.children }
