-- ===== src/Fs/Tree/Special/Start.antt =====
-- fs/fs.c, `fs_init`: the files that are there when the system has started.
use raincloud.Prelude.{
  ℕ, ◌≡◌, ◌≢◌, false, none, some, List, [], map, ◌∷◌, ◌++◌, arith, refl, sym, ap, ◌∙◌, ◌==◌,
  Bool-cases, inl, inr,
}
use mathlib.Core.Path.{subst}
use raincloud.Fs.Tree.{
  Text, slash, same_text, FileNode, FileTree, file_type_mount_point, find_child, find_node,
  find_loop, set_node,
}
use raincloud.Fs.Tree.Tokens.{names, split, split-slash}
use raincloud.Fs.Tree.Lookup.{
  Reaches, round, find_loop-round, find_loop-end, find_loop-Reaches, find_node-names,
  find_node-found, find_child-nil,
}
use raincloud.Fs.Tree.Make.{Avoids, IsFresh}
use raincloud.Fs.Tree.Hooks.{Request, open_file, answered, fs_open, fs_open-found}
use raincloud.Fs.Tree.Special.{
  Functions, made, whatever, special_hooks, fat_hooks, stdio_mknode, fat_mknode, pipe_mknode,
  stdio_path, disk_path, pipe_path, root_node, fill_root, fs_init, file_type_special,
}
use raincloud.Fs.Tree.Special.Registered.{
  Small, IsGrown, node_with, make_node_lem, IsGrown-IsFresh, IsGrown-free,
}

-- Below a mount point without children every name stays there.
find_loop-mounted :
    (nodes : ℕ → FileNode) (d : ℕ) (ns : List Text)
    → (nodes d).children ≡ []
    → (nodes d).type ≡ file_type_mount_point
    → find_loop nodes ns d ≡ some d
find_loop-mounted nodes d [] bare mount = find_loop-end nodes d
find_loop-mounted nodes d (n ∷ ns) bare mount =
    find_loop-round nodes n ns d
    ∙ ap (λ f. round nodes n ns f d) (ap (find_child nodes n) bare ∙ find_child-nil nodes n)
    ∙ elim (Bool-cases (same_text (nodes d).name n)) [
      | inl own ↦ rw own (find_loop-mounted nodes d ns bare mount)
      | inr other ↦ rw (other, mount) refl
    ]

find_node-mounted :
    (tree : FileTree) (path rest : Text) (d : ℕ)
    → Reaches tree.nodes (names path) tree.root d
    → (tree.nodes d).children ≡ []
    → (tree.nodes d).type ≡ file_type_mount_point
    → find_node tree (path ++ slash ∷ rest) ≡ some d
find_node-mounted tree path rest d reach bare mount =
    find_node-names tree (path ++ slash ∷ rest)
    ∙ ap (λ ns. find_loop tree.nodes ns tree.root) (split-slash [] path rest)
    ∙ find_loop-Reaches tree.nodes (names path) (names rest) tree.root d reach
    ∙ find_loop-mounted tree.nodes d (names rest) bare mount

special_hooks-Small : (f : Functions) → Small (special_hooks f)
special_hooks-Small f = (omega arith, (omega arith, (omega arith, (omega arith, tt))))

fat_hooks-Small : (f : Functions) → Small (fat_hooks f)
fat_hooks-Small f = (omega arith, (omega arith, (omega arith, (omega arith, tt))))

-- In the root directory.
in_root : (tree : FileTree) (r : ℕ) → tree.root ≡ r → Reaches tree.nodes (names []) tree.root r
unfolding split
in_root tree r same = same

-- The hooks of a node, in the order of `file_hook_t`.
abbrev pub hook_table : FileNode → List ℕ
hook_table n = map n.hook (0 ∷ 1 ∷ 2 ∷ 3 ∷ 4 ∷ 5 ∷ 6 ∷ [])

module _ (stdio fat pipe : Functions) (r s d p : ℕ) (nodes : ℕ → FileNode)
    (bare : (q : ℕ) → (nodes q).children ≡ []) (rs : r ≢ s) (rd : r ≢ d) (rp : r ≢ p) (sd : s ≢ d)
    (sp : s ≢ p) (dp : d ≢ p) where
  abbrev rooted : FileTree
  rooted = record { nodes = set_node r root_node nodes; root = r }

  rooted-bare : (q : ℕ) → (rooted.nodes q).children ≡ []
  rooted-bare q = elim (Bool-cases (q == r)) [
    | inl same ↦ rw same refl
    | inr other ↦ rw other (bare q)
  ]

  rooted-IsFresh : (x : ℕ) → r ≢ x → IsFresh x rooted
  rooted-IsFresh x ne = (ne, λ q. subst (Avoids x) (sym (rooted-bare q)) tt)

  rooted-free : (wanted : Text) → find_child rooted.nodes wanted (rooted.nodes r).children ≡ none
  rooted-free wanted =
      ap (find_child rooted.nodes wanted) (rooted-bare r) ∙ find_child-nil rooted.nodes wanted

  abbrev stdio_node : FileNode
  stdio_node =
      node_with r (115 ∷ 116 ∷ 100 ∷ 105 ∷ 111 ∷ []) file_type_special (special_hooks stdio)

  abbrev disk_node : FileNode
  disk_node = node_with r (100 ∷ 105 ∷ 115 ∷ 107 ∷ []) file_type_mount_point (fat_hooks fat)

  abbrev pipe_node : FileNode
  pipe_node = node_with r (112 ∷ 105 ∷ 112 ∷ 101 ∷ []) file_type_special (special_hooks pipe)

  -- After the first call, the second and the third.
  after_stdio :
      (t : FileTree) × (stdio_mknode stdio (some s) stdio_path rooted ≡ made t)
      × IsGrown s r stdio_node stdio_path rooted t
  unfolding stdio_mknode
  after_stdio =
      make_node_lem s r [] stdio_node.name file_type_special (special_hooks stdio) rooted
        (rooted-IsFresh s rs) (in_root rooted r refl) (λ e. absurd (cc))
        (refl, (refl, (refl, (refl, (refl, tt))))) (special_hooks-Small stdio)
        (rooted-free stdio_node.name)

  module _ (t : FileTree) (g : IsGrown s r stdio_node stdio_path rooted t) where
    disk-IsFresh : IsFresh d t
    disk-IsFresh = IsGrown-IsFresh g refl d (λ e. sd (sym e)) (rooted-IsFresh d rd)

    stdio_free :
        (wanted : Text)
        → same_text stdio_node.name wanted ≡ false
        → find_child t.nodes wanted (t.nodes r).children ≡ none
    stdio_free wanted ne = IsGrown-free g refl wanted ne (rooted-IsFresh s rs) (rooted-free wanted)

    after_disk :
        (t' : FileTree) × (fat_mknode fat (some d) disk_path t ≡ made t')
        × IsGrown d r disk_node disk_path t t'
    unfolding fat_mknode same_text
    after_disk =
        make_node_lem d r [] disk_node.name file_type_mount_point (fat_hooks fat) t disk-IsFresh
          (in_root t r g.same_root) (λ e. absurd (cc)) (refl, (refl, (refl, (refl, tt))))
          (fat_hooks-Small fat) (stdio_free disk_node.name refl)

    module _ (t' : FileTree) (g' : IsGrown d r disk_node disk_path t t') where
      after_pipe :
          (t'' : FileTree) × (pipe_mknode pipe (some p) pipe_path t' ≡ made t'')
          × IsGrown p r pipe_node pipe_path t' t''
      unfolding pipe_mknode same_text
      after_pipe =
          make_node_lem p r [] pipe_node.name file_type_special (special_hooks pipe) t'
            (IsGrown-IsFresh g' refl p (λ e. dp (sym e))
              (IsGrown-IsFresh g refl p (λ e. sp (sym e)) (rooted-IsFresh p rp)))
            (in_root t' r (g'.same_root ∙ g.same_root)) (λ e. absurd (cc))
            (refl, (refl, (refl, (refl, tt)))) (special_hooks-Small pipe)
            (IsGrown-free g' refl pipe_node.name refl disk-IsFresh (stdio_free pipe_node.name refl))

  -- What is in the root directory at the end.
  record IsStarted (tree : FileTree) : Type 0 where
    pub at_stdio : tree.nodes s ≡ stdio_node
    pub at_disk : tree.nodes d ≡ disk_node
    pub at_pipe : tree.nodes p ≡ pipe_node
    pub stdio_reached : Reaches tree.nodes (names stdio_path) tree.root s
    pub disk_reached : Reaches tree.nodes (names disk_path) tree.root d
    pub pipe_reached : Reaches tree.nodes (names pipe_path) tree.root p

  fs_init-made :
      (tree : FileTree) × (fs_init stdio fat pipe (some r) (some s) (some d) (some p) nodes
        ≡ made tree)
      × IsStarted tree
  unfolding fs_init fill_root
  fs_init-made =
      let (t, e, g) = after_stdio in
      let (t', e', g') = after_disk t g in
      let (t'', e'', g'') = after_pipe t g t' g' in
      (
        t'',
        ap
              (λ m. whatever m (λ tree.
                whatever (fat_mknode fat (some d) disk_path tree)
                  (λ tree. whatever (pipe_mknode pipe (some p) pipe_path tree) made)))
              e
            ∙ ap
                (λ m. whatever m (λ tree. whatever (pipe_mknode pipe (some p) pipe_path tree) made))
                e'
            ∙ ap (λ m. whatever m made) e'',
        record {
          at_stdio =
              g''.elsewhere s sp (λ e. rs (sym e)) ∙ g'.elsewhere s sd (λ e. rs (sym e)) ∙ g.at_new;
          at_disk = g''.elsewhere d dp (λ e. rd (sym e)) ∙ g'.at_new;
          at_pipe = g''.at_new;
          stdio_reached = g''.kept stdio_path s (g'.kept stdio_path s g.reach);
          disk_reached = g''.kept disk_path d g'.reach;
          pipe_reached = g''.reach;
        },
      )

  -- With four places that are not the same, and nothing in a directory before, `fs_init` succeeds.
  -- Then a file is opened with the functions registered: "/stdio" and "/pipe", and for every path
  -- that goes on behind "/disk" the mount point, with the whole path. The hooks of the three nodes
  -- are those registered, each at its place, and NULL at the others.
  pub fs_init_lem :
      {R : Type 0} (hook : (pointer node context : ℕ) → Request → R)
      → stdio.open_hook ≢ 0
      → fat.open_hook ≢ 0
      → pipe.open_hook ≢ 0
      → (tree : FileTree) × (fs_init stdio fat pipe (some r) (some s) (some d) (some p) nodes
          ≡ made tree)
        × ((oflag : ℕ)
            → fs_open hook tree stdio_path oflag
              ≡ answered (hook stdio.open_hook s 0 (open_file stdio_path oflag)))
        × ((rest : Text) (oflag : ℕ)
            → fs_open hook tree (disk_path ++ slash ∷ rest) oflag
              ≡ answered (hook fat.open_hook d 0 (open_file (disk_path ++ slash ∷ rest) oflag)))
        × ((oflag : ℕ)
            → fs_open hook tree pipe_path oflag
              ≡ answered (hook pipe.open_hook p 0 (open_file pipe_path oflag)))
        × (hook_table (tree.nodes s)
            ≡ stdio.open_hook ∷ stdio.close_hook ∷ stdio.read_hook ∷ stdio.fourth_hook ∷ 0 ∷ 0 ∷ 0
              ∷ [])
        × (hook_table (tree.nodes d)
            ≡ fat.open_hook ∷ fat.close_hook ∷ fat.read_hook ∷ 0 ∷ fat.fourth_hook ∷ 0 ∷ 0 ∷ [])
        × (hook_table (tree.nodes p)
            ≡ pipe.open_hook ∷ pipe.close_hook ∷ pipe.read_hook ∷ pipe.fourth_hook ∷ 0 ∷ 0 ∷ 0 ∷ [])
  fs_init_lem hook ns nd np =
      let (tree, e, is) = fs_init-made in
      (
        tree,
        e,
        λ oflag.
            fs_open-found hook tree stdio_path oflag s stdio.open_hook
              (find_node-found tree stdio_path s is.stdio_reached)
              (ap (λ (n : FileNode). n.hook 0) is.at_stdio) ns,
        λ rest oflag.
            fs_open-found hook tree (disk_path ++ slash ∷ rest) oflag d fat.open_hook
              (find_node-mounted tree disk_path rest d is.disk_reached
                (ap (λ (n : FileNode). n.children) is.at_disk)
                (ap (λ (n : FileNode). n.type) is.at_disk))
              (ap (λ (n : FileNode). n.hook 0) is.at_disk) nd,
        λ oflag.
            fs_open-found hook tree pipe_path oflag p pipe.open_hook
              (find_node-found tree pipe_path p is.pipe_reached)
              (ap (λ (n : FileNode). n.hook 0) is.at_pipe) np,
        ap hook_table is.at_stdio,
        ap hook_table is.at_disk,
        ap hook_table is.at_pipe,
      )
