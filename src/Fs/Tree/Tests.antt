-- ===== src/Fs/Tree/Tests.antt =====
-- The tree of files: runs on a small tree, and the theorems at it.
use raincloud.Prelude.{
  ℕ, ◌≡◌, ◌≢◌, false, none, some, [], ◌∷◌, ◌++◌, arith, refl, ◌==◌, if◌then◌else◌, Bool-cases, inl,
  inr, ◌⊎◌,
}
use raincloud.Fs.Tree.{
  Text, slash, same_text, skip_slashes, take_token, strtok_r, tokens, FileNode, FileTree, changed,
  find_child, find_loop, find_node, fs_getnode, add_node, fs_mknode, fs_rmnode, fs_reghook,
}
use raincloud.Fs.Tree.Tokens.{names, split}
use raincloud.Fs.Tree.Lookup.{Reaches, find_node-found}
use raincloud.Fs.Tree.Make.{IsFresh}
use raincloud.Fs.Tree.Hooks.{Request, answered, fs_call, fs_open, hooked, fs_reghook_lem}
use raincloud.Fs.Tree.Nodes.{fs_mknode_lem, fs_rmnode-fs_mknode}

abbrev no_hook : ℕ → ℕ
no_hook i = 0

-- The root and a directory "d".
abbrev nodes : ℕ → FileNode
nodes q =
    if q == 0
    then record { name = 47 ∷ []; type = 0; children = 1 ∷ []; parent = none; hook = no_hook }
    else record { name = 100 ∷ []; type = 1; children = []; parent = some 0; hook = no_hook }

abbrev tree : FileTree
tree = record { nodes = nodes; root = 0 }

abbrev dir : Text
dir = 47 ∷ 100 ∷ []

dir-Reaches : Reaches nodes (names dir) 0 1
unfolding split find_child same_text
dir-Reaches = (1, refl, refl)

-- "/d/d" leads to "/d", although nothing is in it.
repeats : find_node tree (dir ++ dir) ≡ some 1
unfolding find_node find_loop find_child same_text tokens strtok_r skip_slashes take_token
repeats = refl

place_2-IsFresh : IsFresh 2 tree
place_2-IsFresh = (
  λ e. absurd (omega (arith, e)),
  λ q. elim (Bool-cases (q == 0)) [
    | inl z ↦ rw z (λ e. absurd (omega (arith, e)), tt)
    | inr n ↦ rw n tt
  ],
)

empty_dir : find_child nodes (120 ∷ []) (nodes 1).children ≡ none
unfolding find_child
empty_dir = refl

fs_rmnode-fs_mknode_example :
    (tree' : FileTree) × (tree'' : FileTree) × (fs_mknode (some 2) (dir ++ slash ∷ 120 ∷ []) 32 tree
      ≡ changed tree')
    × (fs_rmnode (dir ++ slash ∷ 120 ∷ []) tree' ≡ changed tree'')
    × (tree''.root ≡ 0)
    × ((q : ℕ) → q ≢ 2 → tree''.nodes q ≡ nodes q)
fs_rmnode-fs_mknode_example =
    fs_rmnode-fs_mknode 2 1 dir (120 ∷ []) 32 tree place_2-IsFresh dir-Reaches (λ e. absurd (cc))
      (refl, tt) empty_dir

abbrev grown : FileTree
grown = record { nodes = add_node 2 1 (120 ∷ []) 32 nodes; root = 0 }

fs_mknode_lem_example :
    (fs_mknode (some 2) (dir ++ slash ∷ 120 ∷ []) 32 tree ≡ changed grown)
    × (find_node grown (dir ++ slash ∷ 120 ∷ []) ≡ some 2)
    × (fs_getnode grown (dir ++ slash ∷ 120 ∷ []) ≡ some (some 2))
    × (grown.nodes 2
        ≡ record { name = 120 ∷ []; type = 32; children = []; parent = some 1; hook = no_hook })
    × (grown.nodes 1 ≡ record (nodes 1) { children = 2 ∷ [] })
    × ((q : ℕ) → q ≢ 2 → q ≢ 1 → grown.nodes q ≡ nodes q)
    × ((other : Text) (q : ℕ) → Reaches nodes (names other) 0 q → find_node grown other ≡ some q)
fs_mknode_lem_example =
    fs_mknode_lem 2 1 dir (120 ∷ []) 32 tree place_2-IsFresh dir-Reaches (λ e. absurd (cc))
      (refl, tt) empty_dir

-- A hook that answers with its pointer and its node.
abbrev echo : (pointer node context : ℕ) → Request → ℕ × ℕ
echo pointer node context request = (pointer, node)

abbrev hooked_tree : FileTree
hooked_tree = record { nodes = hooked 1 2 0x5000 nodes; root = 0 }

dir_below : same_text dir (slash ∷ []) ≡ false
unfolding same_text
dir_below = refl

fs_reghook_lem_example :
    (fs_reghook dir 2 0x5000 tree ≡ changed hooked_tree)
    × ((context : ℕ) (request : Request)
        → fs_call echo 2 hooked_tree (record { node = 1; context = context }) request
          ≡ answered (0x5000, 1))
    × ((other : Text) (oflag : ℕ)
        → ◌≡◌ {A = ℕ} 2 0
        → find_node tree other ≡ some 1
        → fs_open echo hooked_tree other oflag ≡ answered (0x5000, 1))
    × ((j n : ℕ) → (j ≢ 2) ⊎ (n ≢ 1) → (hooked_tree.nodes n).hook j ≡ (nodes n).hook j)
    × ((other : Text) → find_node hooked_tree other ≡ find_node tree other)
fs_reghook_lem_example =
    fs_reghook_lem dir 1 2 0x5000 tree (find_node-found tree dir 1 dir-Reaches) dir_below
      (omega arith) echo (λ e. absurd (omega (arith, e)))
