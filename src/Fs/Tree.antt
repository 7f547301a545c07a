-- ===== src/Fs/Tree.antt =====
-- fs/fs.c: the tree of files. A string is the list of its bytes before the NUL; a node is behind
-- its place, as behind a pointer. What strtok_r, strrchr and strcmp of lib/string.c give is here as
-- far as this file uses it.
pub mod Tokens
pub mod Lookup
pub mod Make
pub mod Nodes
pub mod Hooks
pub mod Special
mod Tests
use raincloud.Prelude.{
  ℕ, zero, suc, ◌+◌, ◌*◌, ◌<◌, Bool, true, false, ◌&&◌, ◌||◌, not, Option, none, some, List, [],
  ◌∷◌, ◌++◌, ◌==◌, if◌then◌else◌, ltb, length,
}

abbrev pub Text : Type 0
Text = List ℕ

-- '/'.
abbrev pub slash : ℕ
slash = 47

-- `strcmp(s1, s2) == 0`.
unfoldable pub same_text : Text → Text → Bool
same_text [] [] = true
same_text [] (y ∷ ys) = false
same_text (x ∷ xs) [] = false
same_text (x ∷ xs) (y ∷ ys) = (x == y) && same_text xs ys

-- `s + strspn(s, "/")`.
unfoldable pub skip_slashes : Text → Text
skip_slashes [] = []
skip_slashes (x ∷ s) = if x == slash then skip_slashes s else x ∷ s

-- The token at the front, and what is behind the slash that ends it.
unfoldable pub take_token : Text → Text × Text
take_token [] = ([], [])
take_token (x ∷ s) = let rest = take_token s in if x == slash then ([], s) else (x ∷ rest.0, rest.1)

-- `strtok_r(s, "/", &save_ptr)`: the token and the string saved, or NULL.
abbrev pub token_of : Text → Option (Text × Text)
token_of [] = none
token_of (x ∷ s) = some (take_token (x ∷ s))

unfoldable pub strtok_r : Text → Option (Text × Text)
unfolding skip_slashes take_token
strtok_r s = token_of (skip_slashes s)

-- The tokens that repeated calls give.
unfoldable pub tokens : ℕ → Text → List Text
unfolding strtok_r
tokens zero s = []
tokens (suc fuel) s = elim (strtok_r s) [ none ↦ [] | some (t, rest) ↦ t ∷ tokens fuel rest ]

pub record FileNode : Type 0 where
  pub name : Text
  pub type : ℕ
  pub children : List ℕ
  pub parent : Option ℕ
  pub hook : ℕ → ℕ

abbrev pub file_type_mount_point : ℕ
file_type_mount_point = 0x10

abbrev pub hook_max : ℕ
hook_max = 7

pub record FileTree : Type 0 where
  pub nodes : ℕ → FileNode
  pub root : ℕ

-- The child found by `find_node`'s inner loop.
pub find_child : (ℕ → FileNode) → Text → List ℕ → Option ℕ
unfolding same_text
find_child nodes dir_name [] = none
find_child nodes dir_name (c ∷ cs) =
    let rest = find_child nodes dir_name cs in
    if same_text (nodes c).name dir_name then some c else rest

-- `node` after the inner loop: it stays if no child has the name.
abbrev pub next_node : Option ℕ → ℕ → ℕ
next_node none node = node
next_node (some c) node = c

-- The outer loop, over the tokens.
pub find_loop : (ℕ → FileNode) → List Text → ℕ → Option ℕ
unfolding find_child
find_loop nodes [] node = some node
find_loop nodes (dir_name ∷ names) node =
    let entry = next_node (find_child nodes dir_name (nodes node).children) node in
    let rest = find_loop nodes names entry in
    if not (same_text (nodes entry).name dir_name)
    then if (nodes entry).type == file_type_mount_point then some entry else none
    else rest

pub find_node : FileTree → Text → Option ℕ
unfolding find_loop tokens
find_node tree path = find_loop tree.nodes (tokens (length path + 1) path) tree.root

-- The string up to its last slash and the slash, and the name behind it; without a slash the
-- source computes on NULL.
unfoldable pub split_last : Text → Option (Text × Text)
split_last [] = none
split_last (x ∷ s) = elim (split_last s) [
  | some (dir, name) ↦ some (x ∷ dir, name)
  | none ↦ if x == slash then some (x ∷ [], s) else none
]

abbrev pub named_last : Option (Text × Text) → ℕ → FileTree → Option (Option ℕ)
named_last none node tree = none
named_last (some (dir, node_name)) node tree =
    some (if same_text node_name (tree.nodes node).name then some node else none)

abbrev pub get_found : Option ℕ → Text → FileTree → Option (Option ℕ)
get_found none path tree = some none
get_found (some node) path tree = named_last (split_last path) node tree

-- The node or NULL; `none` where a name is compared that is behind no slash.
unfoldable pub fs_getnode : FileTree → (path : Text) → Option (Option ℕ)
unfolding find_node
fs_getnode tree path = get_found (find_node tree path) path tree

abbrev pub without_last : Text → Text
without_last [] = []
without_last (x ∷ []) = []
without_last (x ∷ y ∷ s) = x ∷ without_last (y ∷ s)

-- `strip_tail_slash`; a string without a slash is `none`.
abbrev pub stripped : Text → Option (Text × Text) → Option Text
stripped src none = none
stripped src (some (dir, [])) = some (without_last src)
stripped src (some (dir, x ∷ name)) = some src

pub strip_tail_slash : Text → Option Text
unfolding split_last
strip_tail_slash src = stripped src (split_last src)

abbrev pub set_node : ℕ → FileNode → (ℕ → FileNode) → ℕ → FileNode
set_node p node nodes q = if q == p then node else nodes q

-- How a call ends: it returns 0, it returns -1 with the tree as it was, an assertion fails, or NULL
-- is computed with.
pub data Change : Type 0 where
  changed : FileTree → Change
  refused : Change
  assert_failed : Change
  null_used : Change

-- `alloc_node` and what `fs_mknode` does with the node, at the place that `malloc` gives.
abbrev pub add_node : (new parent : ℕ) → (name : Text) → (type : ℕ) → (ℕ → FileNode) → ℕ → FileNode
add_node new parent name type nodes =
    let node : FileNode = record {
      name = name;
      type = type;
      children = [];
      parent = some parent;
      hook = λ i. 0;
    } in
    let nodes = set_node new node nodes in
    set_node parent (record (nodes parent) { children = (nodes parent).children ++ new ∷ [] }) nodes

abbrev pub make_in : Option ℕ → Option ℕ → (name : Text) → (type : ℕ) → FileTree → Change
make_in new none name type tree = refused
make_in none (some parent) name type tree = assert_failed
make_in (some new) (some parent) name type tree =
    changed (record tree { nodes = add_node new parent name type tree.nodes })

abbrev pub make_at : Option ℕ → Option (Text × Text) → (type : ℕ) → FileTree → Change
make_at new none type tree = null_used
make_at new (some (dir, name)) type tree = make_in new (find_node tree dir) name type tree

abbrev pub make_stripped : Option ℕ → Option Text → (type : ℕ) → FileTree → Change
make_stripped new none type tree = null_used
make_stripped new (some path) type tree = make_at new (split_last path) type tree

pub fs_mknode : (new : Option ℕ) → (path : Text) → (type : ℕ) → FileTree → Change
unfolding strip_tail_slash find_node
fs_mknode new path type tree =
    if same_text path (slash ∷ [])
    then refused
    else make_stripped new (strip_tail_slash path) type tree

-- `list_del` of a node that is among its parent's children.
pub remove_child : ℕ → List ℕ → List ℕ
remove_child c [] = []
remove_child c (x ∷ xs) = let rest = remove_child c xs in if x == c then xs else x ∷ rest

abbrev pub unlink : ℕ → Option ℕ → FileTree → Change
unlink target none tree = null_used
unlink target (some p) tree =
    let node = tree.nodes p in
    changed (record tree {
      nodes = set_node p (record node { children = remove_child target node.children }) tree.nodes;
    })

abbrev pub remove_empty : ℕ → List ℕ → FileTree → Change
remove_empty target [] tree = unlink target (tree.nodes target).parent tree
remove_empty target (c ∷ cs) tree = refused

abbrev pub remove_found : Option ℕ → FileTree → Change
remove_found none tree = refused
remove_found (some target) tree = remove_empty target (tree.nodes target).children tree

-- `null_used` stands for the root, which a path of slashes other than "/" leads to: the root's node
-- is freed while it is in use.
pub fs_rmnode : (path : Text) → FileTree → Change
unfolding find_node remove_child
fs_rmnode path tree =
    if same_text path (slash ∷ []) then refused else remove_found (find_node tree path) tree

abbrev pub hook_found : Option ℕ → (hook_index hook : ℕ) → FileTree → Change
hook_found none hook_index hook tree = refused
hook_found (some target) hook_index hook tree =
    let node = tree.nodes target in
    if ltb hook_index hook_max
    then changed (record tree {
      nodes =
          set_node target
            (record node { hook = λ i. if i == hook_index then hook else node.hook i }) tree.nodes;
    })
    else assert_failed

pub fs_reghook : (path : Text) → (hook_index hook : ℕ) → FileTree → Change
unfolding find_node
fs_reghook path hook_index hook tree =
    if same_text path (slash ∷ [])
    then refused
    else hook_found (find_node tree path) hook_index hook tree
