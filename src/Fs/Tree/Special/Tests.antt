-- ===== src/Fs/Tree/Special/Tests.antt =====
-- fs/fs.c: `fs_init` at four places, and the theorem at it.
use raincloud.Prelude.{ℕ, ◌≡◌, none, some, [], ◌∷◌, ◌++◌, arith, refl}
use raincloud.Fs.Tree.{Text, slash, FileNode, FileTree}
use raincloud.Fs.Tree.Hooks.{Request, answered, fs_open}
use raincloud.Fs.Tree.Special.{Functions, made, stdio_path, disk_path, pipe_path, fs_init}
use raincloud.Fs.Tree.Special.Start.{hook_table, fs_init_lem}

abbrev zeroed : ℕ → FileNode
zeroed q = record { name = []; type = 0; children = []; parent = none; hook = λ i. 0 }

abbrev stdio : Functions
stdio = record { open_hook = 0x10; close_hook = 0x11; read_hook = 0x12; fourth_hook = 0x13 }

abbrev fat : Functions
fat = record { open_hook = 0x20; close_hook = 0x21; read_hook = 0x22; fourth_hook = 0x23 }

abbrev pipe : Functions
pipe = record { open_hook = 0x30; close_hook = 0x31; read_hook = 0x32; fourth_hook = 0x33 }

-- A hook that answers with its pointer and its node.
abbrev echo : (pointer node context : ℕ) → Request → ℕ × ℕ
echo pointer node context request = (pointer, node)

fs_init_lem_example :
    (tree : FileTree) × (fs_init stdio fat pipe (some 5) (some 6) (some 7) (some 8) zeroed
      ≡ made tree)
    × ((oflag : ℕ) → fs_open echo tree stdio_path oflag ≡ answered (0x10, 6))
    × ((rest : Text) (oflag : ℕ)
        → fs_open echo tree (disk_path ++ slash ∷ rest) oflag ≡ answered (0x20, 7))
    × ((oflag : ℕ) → fs_open echo tree pipe_path oflag ≡ answered (0x30, 8))
    × (hook_table (tree.nodes 6) ≡ 0x10 ∷ 0x11 ∷ 0x12 ∷ 0x13 ∷ 0 ∷ 0 ∷ 0 ∷ [])
    × (hook_table (tree.nodes 7) ≡ 0x20 ∷ 0x21 ∷ 0x22 ∷ 0 ∷ 0x23 ∷ 0 ∷ 0 ∷ [])
    × (hook_table (tree.nodes 8) ≡ 0x30 ∷ 0x31 ∷ 0x32 ∷ 0x33 ∷ 0 ∷ 0 ∷ 0 ∷ [])
fs_init_lem_example =
    fs_init_lem stdio fat pipe 5 6 7 8 zeroed (λ q. refl) (omega arith) (omega arith) (omega arith)
      (omega arith) (omega arith) (omega arith) echo (omega arith) (omega arith) (omega arith)
