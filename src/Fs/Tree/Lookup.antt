-- ===== src/Fs/Tree/Lookup.antt =====
-- fs/fs.c, `find_node`.
use raincloud.Prelude.{
  ℕ, ◌+◌, ◌≡◌, ◌≢◌, true, false, not, Option, none, some, List, [], ◌∷◌, ◌++◌, arith, refl, sym, ap,
  ◌∙◌, ◌==◌, ==_iff, if◌then◌else◌, Bool-cases, inl, inr, length, eq_of_some,
}
use mathlib.Core.List.{append-nil}
use raincloud.Fs.Tree.{
  Text, slash, same_text, FileNode, FileTree, file_type_mount_point, find_child, next_node,
  find_loop, find_node,
}
use raincloud.Fs.Tree.Tokens.{names, tokens-names, names-child, NoSlash}

pub same_text_refl : (a : Text) → same_text a a ≡ true
unfolding same_text
same_text_refl [] = refl
same_text_refl (x ∷ a) = rw ((==_iff x x).1 refl, same_text_refl a) refl

find_child-same_text :
    (nodes : ℕ → FileNode) (name : Text) (cs : List ℕ) {c : ℕ}
    → find_child nodes name cs ≡ some c
    → same_text (nodes c).name name ≡ true
unfolding find_child
find_child-same_text nodes name [] e = absurd (cc)
find_child-same_text nodes name (x ∷ cs) {c} e = elim (Bool-cases (same_text (nodes x).name name)) [
  | inl hit ↦ let xc : x ≡ c = eq_of_some (rw hit at e) in rw xc at hit
  | inr miss ↦ find_child-same_text nodes name cs (rw miss at e)
]

-- From `node` each name leads to a child that has it, and the last to `dest`.
abbrev pub Reaches : (ℕ → FileNode) → List Text → (node dest : ℕ) → Type 0
Reaches nodes [] node dest = node ≡ dest
Reaches nodes (name ∷ rest) node dest =
    (c : ℕ) × (find_child nodes name (nodes node).children ≡ some c) × Reaches nodes rest c dest

-- One round of the loop.
abbrev pub round : (ℕ → FileNode) → Text → List Text → Option ℕ → ℕ → Option ℕ
round nodes name rest found node =
    let entry = next_node found node in
    if not (same_text (nodes entry).name name)
    then if (nodes entry).type == file_type_mount_point then some entry else none
    else find_loop nodes rest entry

pub find_loop-round :
    (nodes : ℕ → FileNode) (name : Text) (rest : List Text) (node : ℕ)
    → find_loop nodes (name ∷ rest) node
      ≡ round nodes name rest (find_child nodes name (nodes node).children) node
unfolding find_loop
find_loop-round nodes name rest node = refl

-- The loop passes through what is there.
pub find_loop-Reaches :
    (nodes : ℕ → FileNode) (xs ys : List Text) (node dest : ℕ)
    → Reaches nodes xs node dest
    → find_loop nodes (xs ++ ys) node ≡ find_loop nodes ys dest
find_loop-Reaches nodes [] ys node dest same = ap (find_loop nodes ys) same
find_loop-Reaches nodes (name ∷ xs) ys node dest (c, found, rest) =
    let hit = find_child-same_text nodes name (nodes node).children found in
    find_loop-round nodes name (xs ++ ys) node
    ∙ ap (λ f. round nodes name (xs ++ ys) f node) found
    ∙ rw hit (find_loop-Reaches nodes xs ys c dest rest)

pub find_node-names :
    (tree : FileTree) (path : Text)
    → find_node tree path ≡ find_loop tree.nodes (names path) tree.root
unfolding find_node
find_node-names tree path =
    ap (λ ns. find_loop tree.nodes ns tree.root) (tokens-names (length path + 1) path (omega arith))

-- What `find_node` gives for a name that the directory reached has not among its children.
abbrev pub not_a_child : FileNode → Text → ℕ → Option ℕ
not_a_child dir name d =
    if same_text dir.name name
    then some d
    else if dir.type == file_type_mount_point
    then some d
    else none

pub find_loop-end : (nodes : ℕ → FileNode) (d : ℕ) → find_loop nodes [] d ≡ some d
unfolding find_loop
find_loop-end nodes d = refl

round-lost :
    (nodes : ℕ → FileNode) (name : Text) (d : ℕ)
    → round nodes name [] none d ≡ not_a_child (nodes d) name d
unfolding find_loop
round-lost nodes name d = elim (Bool-cases (same_text (nodes d).name name)) [
  | inl own ↦ rw own refl
  | inr other ↦ rw other refl
]

-- If the names of a path lead from child to child to a node, then `find_node` of the path is that
-- node. Of the path with a slash and one more name that none of the node's children has, it is the
-- node itself if the node has that name too, or is a mount point, and NULL otherwise.
pub find_node-Reaches :
    (tree : FileTree) (path name : Text) (d : ℕ)
    → Reaches tree.nodes (names path) tree.root d
    → name ≢ []
    → NoSlash name
    → (find_node tree path ≡ some d)
      × (find_child tree.nodes name (tree.nodes d).children ≡ none
          → find_node tree (path ++ slash ∷ name) ≡ not_a_child (tree.nodes d) name d)
find_node-Reaches tree path name d reach given clean =
    let nodes = tree.nodes in
    (
      find_node-names tree path
          ∙ ap (λ ns. find_loop nodes ns tree.root) (sym (append-nil (names path)))
          ∙ find_loop-Reaches nodes (names path) [] tree.root d reach
          ∙ find_loop-end nodes d,
      λ lost.
          find_node-names tree (path ++ slash ∷ name)
          ∙ ap (λ ns. find_loop nodes ns tree.root) (names-child path name given clean)
          ∙ find_loop-Reaches nodes (names path) (name ∷ []) tree.root d reach
          ∙ find_loop-round nodes name [] d
          ∙ ap (λ f. round nodes name [] f d) lost
          ∙ round-lost nodes name d,
    )

pub find_node-found :
    (tree : FileTree) (path : Text) (d : ℕ)
    → Reaches tree.nodes (names path) tree.root d
    → find_node tree path ≡ some d
find_node-found tree path d reach =
    let nodes = tree.nodes in
    find_node-names tree path
    ∙ ap (λ ns. find_loop nodes ns tree.root) (sym (append-nil (names path)))
    ∙ find_loop-Reaches nodes (names path) [] tree.root d reach
    ∙ find_loop-end nodes d

-- One child after the other.
pub find_child-hit :
    (nodes : ℕ → FileNode) (name : Text) (c : ℕ) (cs : List ℕ)
    → same_text (nodes c).name name ≡ true
    → find_child nodes name (c ∷ cs) ≡ some c
unfolding find_child
find_child-hit nodes name c cs e = rw e refl

pub find_child-miss :
    (nodes : ℕ → FileNode) (name : Text) (c : ℕ) (cs : List ℕ)
    → same_text (nodes c).name name ≡ false
    → find_child nodes name (c ∷ cs) ≡ find_child nodes name cs
unfolding find_child
find_child-miss nodes name c cs e = rw e refl

pub find_child-nil : (nodes : ℕ → FileNode) (name : Text) → find_child nodes name [] ≡ none
unfolding find_child
find_child-nil nodes name = refl
