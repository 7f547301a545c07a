-- ===== src/Fs/Tree/Special.antt =====
-- fs/fs_special.c, fs/fs_generic.c and fs/fs.c: the nodes that are made with hooks, and `fs_init`.
-- The addresses of the functions that are registered are parameters.
pub mod Registered
pub mod Start
mod Tests
use raincloud.Prelude.{ℕ, Option, none, some, List, [], ◌∷◌, ◌==◌, if◌then◌else◌}
use raincloud.Fs.Tree.{
  Text, slash, FileNode, FileTree, file_type_mount_point, set_node, Change, changed, refused,
  assert_failed, null_used, fs_mknode, fs_reghook,
}

abbrev pub file_type_root : ℕ
file_type_root = 0x00

abbrev pub file_type_special : ℕ
file_type_special = 0x20

abbrev pub index_open : ℕ
index_open = 0

abbrev pub index_close : ℕ
index_close = 1

abbrev pub index_read : ℕ
index_read = 2

abbrev pub index_write : ℕ
index_write = 3

abbrev pub index_lseek : ℕ
index_lseek = 4

-- How a call ends: it returns 0, or the -1 of a call that it makes, with the tree that it leaves;
-- or it stops in a failed assertion or at NULL.
pub data Made : Type 0 where
  made : FileTree → Made
  gave_up : FileTree → Made
  stopped : Made

-- `if (ret != 0) return ret;` behind a call on `tree`, and the code behind it.
abbrev pub go_on : Change → FileTree → (FileTree → Made) → Made
go_on (changed next) tree code = code next
go_on refused tree code = gave_up tree
go_on assert_failed tree code = stopped
go_on null_used tree code = stopped

-- The calls of `fs_reghook`, one after the other.
unfoldable pub register : (path : Text) → List (ℕ × ℕ) → FileTree → Made
register path [] tree = made tree
register path ((index, hook) ∷ hooks) tree =
    go_on (fs_reghook path index hook tree) tree (λ next. register path hooks next)

unfoldable pub make_node :
    (new : Option ℕ) → (path : Text) → (type : ℕ) → List (ℕ × ℕ) → FileTree → Made
unfolding register
make_node new path type hooks tree =
    go_on (fs_mknode new path type tree) tree (λ next. register path hooks next)

-- The four functions of a kind of file.
pub record Functions : Type 0 where
  pub open_hook : ℕ
  pub close_hook : ℕ
  pub read_hook : ℕ
  pub fourth_hook : ℕ

-- The fourth function writes.
abbrev pub special_hooks : Functions → List (ℕ × ℕ)
special_hooks f =
    (index_open, f.open_hook)
    ∷ (index_close, f.close_hook)
    ∷ (index_read, f.read_hook)
    ∷ (index_write, f.fourth_hook)
    ∷ []

-- The fourth function moves the offset.
abbrev pub fat_hooks : Functions → List (ℕ × ℕ)
fat_hooks f =
    (index_open, f.open_hook)
    ∷ (index_close, f.close_hook)
    ∷ (index_read, f.read_hook)
    ∷ (index_lseek, f.fourth_hook)
    ∷ []

unfoldable pub stdio_mknode : Functions → (new : Option ℕ) → (path : Text) → FileTree → Made
unfolding make_node
stdio_mknode stdio new path tree = make_node new path file_type_special (special_hooks stdio) tree

unfoldable pub pipe_mknode : Functions → (new : Option ℕ) → (path : Text) → FileTree → Made
unfolding make_node
pipe_mknode pipe new path tree = make_node new path file_type_special (special_hooks pipe) tree

unfoldable pub fat_mknode : Functions → (new : Option ℕ) → (path : Text) → FileTree → Made
unfolding make_node
fat_mknode fat new path tree = make_node new path file_type_mount_point (fat_hooks fat) tree

-- "/stdio".
abbrev pub stdio_path : Text
stdio_path = slash ∷ 115 ∷ 116 ∷ 100 ∷ 105 ∷ 111 ∷ []

-- "/disk".
abbrev pub disk_path : Text
disk_path = slash ∷ 100 ∷ 105 ∷ 115 ∷ 107 ∷ []

-- "/pipe".
abbrev pub pipe_path : Text
pipe_path = slash ∷ 112 ∷ 105 ∷ 112 ∷ 101 ∷ []

-- A call whose result is not looked at, and the code behind it.
abbrev pub whatever : Made → (FileTree → Made) → Made
whatever (made tree) code = code tree
whatever (gave_up tree) code = code tree
whatever stopped code = stopped

-- What `fs_init` has of the root.
abbrev pub root_node : FileNode
root_node = record {
  name = slash ∷ [];
  type = file_type_root;
  children = [];
  parent = none;
  hook = λ i. 0;
}

-- `fs_init` behind the making of the root.
unfoldable pub fill_root :
    (stdio fat pipe : Functions) → (for_stdio for_disk for_pipe : Option ℕ) → FileTree → Made
unfolding stdio_mknode fat_mknode pipe_mknode
fill_root stdio fat pipe for_stdio for_disk for_pipe tree =
    whatever (stdio_mknode stdio for_stdio stdio_path tree) (λ tree.
      whatever (fat_mknode fat for_disk disk_path tree)
        (λ tree. whatever (pipe_mknode pipe for_pipe pipe_path tree) made))

-- The places are what `malloc` gives for the nodes; `nodes` is what is at each place before.
unfoldable pub fs_init :
    (stdio fat pipe : Functions)
    → (for_root for_stdio for_disk for_pipe : Option ℕ) → (ℕ → FileNode)
    → Made
unfolding fill_root
fs_init stdio fat pipe none for_stdio for_disk for_pipe nodes = stopped
fs_init stdio fat pipe (some root) for_stdio for_disk for_pipe nodes =
    fill_root stdio fat pipe for_stdio for_disk for_pipe
      (record { nodes = set_node root root_node nodes; root = root })
