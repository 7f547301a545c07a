-- ===== src/Fs/Tree/Hooks.antt =====
-- fs/fs.c: opening a file, and the calls that pass on to the hooks of its node.
use raincloud.Prelude.{
  ℕ, ◌<◌, ◌≡◌, ◌≢◌, false, Option, none, some, List, [], ◌∷◌, arith, refl, sym, ap, ◌∙◌, ◌==◌,
  ==_iff, if◌then◌else◌, Bool-cases, inl, inr, lt→ltb, ◌⊎◌,
}
use raincloud.Fs.Tree.{
  Text, slash, same_text, FileNode, FileTree, changed, refused, hook_max, find_child, next_node,
  find_loop, find_node, set_node, hook_found, fs_reghook,
}
use raincloud.Fs.Tree.Tokens.{names}
use raincloud.Fs.Tree.Lookup.{Reaches, round, find_loop-round, find_loop-end, find_node-names}

-- What is asked of a hook, with its arguments: a buffer is the address of it.
pub data Request : Type 0 where
  open_file : (path : Text) → (oflag : ℕ) → Request
  close_file : Request
  read_file : (buf size : ℕ) → Request
  write_file : (buf size : ℕ) → Request
  lseek_file : (offset whence : ℕ) → Request
  ioctl_file : (request : ℕ) → Request
  fstat_file : (buf : ℕ) → Request

-- `fs_context_t`.
pub record FsContext : Type 0 where
  pub node : ℕ
  pub context : ℕ

-- How a call ends: with what the hook returns, with -1 where there is no hook, or with NULL
-- dereferenced or called.
pub data Reply (R : Type 0) : Type 0 where
  answered : R → Reply R
  no_hook : Reply R
  null_used : Reply R

-- `hook` is what the function behind the pointer does of the node, the file's context and the
-- request.
module _ {R : Type 0} (hook : (pointer node context : ℕ) → Request → R) where
  abbrev pub call_hook : ℕ → FsContext → Request → Reply R
  call_hook pointer c request =
      if pointer == 0 then no_hook else answered (hook pointer c.node c.context request)

  -- `context->node->hook->...`, by the place in `file_hook_t`.
  abbrev pub fs_call : (hook_index : ℕ) → FileTree → FsContext → Request → Reply R
  fs_call hook_index tree c request = call_hook ((tree.nodes c.node).hook hook_index) c request

  abbrev pub open_found : Option ℕ → Request → FileTree → Reply R
  open_found none request tree = null_used
  open_found (some d) request tree =
      let pointer = (tree.nodes d).hook 0 in
      if pointer == 0 then null_used else answered (hook pointer d 0 request)

  -- The answer is the file's context, which goes into an `fs_context_t` with the node.
  pub fs_open : FileTree → (path : Text) → (oflag : ℕ) → Reply R
  unfolding find_node
  fs_open tree path oflag = open_found (find_node tree path) (open_file path oflag) tree

  pub fs_close : FileTree → FsContext → Reply R
  fs_close tree c = fs_call 1 tree c close_file

  pub fs_read : FileTree → FsContext → (buf size : ℕ) → Reply R
  fs_read tree c buf size = fs_call 2 tree c (read_file buf size)

  pub fs_write : FileTree → FsContext → (buf size : ℕ) → Reply R
  fs_write tree c buf size = fs_call 3 tree c (write_file buf size)

  pub fs_lseek : FileTree → FsContext → (offset whence : ℕ) → Reply R
  fs_lseek tree c offset whence = fs_call 4 tree c (lseek_file offset whence)

  pub fs_ioctl : FileTree → FsContext → (request : ℕ) → Reply R
  fs_ioctl tree c request = fs_call 5 tree c (ioctl_file request)

  pub fs_fstat : FileTree → FsContext → (buf : ℕ) → Reply R
  fs_fstat tree c buf = fs_call 6 tree c (fstat_file buf)

pub fs_open-found :
    {R : Type 0} (hook : (pointer node context : ℕ) → Request → R) (tree : FileTree) (path : Text)
    (oflag q pointer : ℕ)
    → find_node tree path ≡ some q
    → (tree.nodes q).hook 0 ≡ pointer
    → pointer ≢ 0
    → fs_open hook tree path oflag ≡ answered (hook pointer q 0 (open_file path oflag))
unfolding fs_open
fs_open-found hook tree path oflag q pointer found here given =
    let real : (pointer == 0) ≡ false = ground (arith, given) in
    ap (λ f. open_found hook f (open_file path oflag) tree) found ∙ rw (here, real) refl

-- The nodes with one hook of one of them set.
abbrev pub hooked : (d index pointer : ℕ) → (ℕ → FileNode) → ℕ → FileNode
hooked d index pointer nodes =
    set_node d (record (nodes d) { hook = λ i. if i == index then pointer else (nodes d).hook i })
      nodes

pub hooked-field :
    {A : Type 0} (field : FileNode → A) (d index pointer : ℕ) (nodes : ℕ → FileNode)
    → field (record (nodes d) { hook = λ i. if i == index then pointer else (nodes d).hook i })
      ≡ field (nodes d)
    → (q : ℕ) → field (hooked d index pointer nodes q) ≡ field (nodes q)
hooked-field field d index pointer nodes kept q = elim (Bool-cases (q == d)) [
  | inl same ↦ rw same (kept ∙ ap (λ r. field (nodes r)) (sym ((==_iff q d).0 same)))
  | inr other ↦ rw other refl
]

find_child-same :
    (nodes nodes' : ℕ → FileNode)
    → ((q : ℕ) → (nodes' q).name ≡ (nodes q).name)
    → (wanted : Text) (cs : List ℕ) → find_child nodes' wanted cs ≡ find_child nodes wanted cs
unfolding find_child
find_child-same nodes nodes' same wanted [] = refl
find_child-same nodes nodes' same wanted (c ∷ cs) =
    rw (same c, find_child-same nodes nodes' same wanted cs) refl

pub Reaches-same :
    (nodes nodes' : ℕ → FileNode)
    → ((q : ℕ) → (nodes' q).name ≡ (nodes q).name)
    → ((q : ℕ) → (nodes' q).children ≡ (nodes q).children)
    → (ns : List Text) (q dest : ℕ) → Reaches nodes ns q dest
    → Reaches nodes' ns q dest
Reaches-same nodes nodes' same kept [] q dest at = at
Reaches-same nodes nodes' same kept (n ∷ ns) q dest (c, e, rest) = (
  c,
  ap (find_child nodes' n) (kept q) ∙ find_child-same nodes nodes' same n (nodes q).children ∙ e,
  Reaches-same nodes nodes' same kept ns c dest rest,
)

round-same :
    (nodes nodes' : ℕ → FileNode) (n : Text) (ns : List Text) (found : Option ℕ) (node : ℕ)
    → let entry = next_node found node in
      (nodes' entry).name ≡ (nodes entry).name
      → (nodes' entry).type ≡ (nodes entry).type
      → find_loop nodes' ns entry ≡ find_loop nodes ns entry
      → round nodes' n ns found node ≡ round nodes n ns found node
round-same nodes nodes' n ns found node named typed rest = rw (named, typed, rest) refl

-- `find_node` reads nothing but names, types and children.
find_loop-same :
    (nodes nodes' : ℕ → FileNode)
    → ((q : ℕ) → (nodes' q).name ≡ (nodes q).name)
    → ((q : ℕ) → (nodes' q).type ≡ (nodes q).type)
    → ((q : ℕ) → (nodes' q).children ≡ (nodes q).children)
    → (ns : List Text) (node : ℕ) → find_loop nodes' ns node ≡ find_loop nodes ns node
find_loop-same nodes nodes' named typed kept [] node =
    find_loop-end nodes' node ∙ sym (find_loop-end nodes node)
find_loop-same nodes nodes' named typed kept (n ∷ ns) node =
    let found = find_child nodes n (nodes node).children in
    let entry = next_node found node in
    find_loop-round nodes' n ns node
    ∙ ap (λ f. round nodes' n ns f node)
        (ap (find_child nodes' n) (kept node)
          ∙ find_child-same nodes nodes' named n (nodes node).children)
    ∙ round-same nodes nodes' n ns found node (named entry) (typed entry)
        (find_loop-same nodes nodes' named typed kept ns entry)
    ∙ sym (find_loop-round nodes n ns node)

module _ (path : Text) (d index pointer : ℕ) (tree : FileTree)
    (found : find_node tree path ≡ some d) (below : same_text path (slash ∷ []) ≡ false)
    (small : index < hook_max) where
  abbrev with_hook : FileTree
  with_hook = record tree { nodes = hooked d index pointer tree.nodes }

  pub fs_reghook-changed : fs_reghook path index pointer tree ≡ changed with_hook
  unfolding fs_reghook
  fs_reghook-changed =
      ap (λ b. if b then refused else hook_found (find_node tree path) index pointer tree) below
      ∙ ap (λ f. hook_found f index pointer tree) found
      ∙ rw (lt→ltb index hook_max small) refl

  find_node-with_hook : (other : Text) → find_node with_hook other ≡ find_node tree other
  find_node-with_hook other =
      find_node-names with_hook other
      ∙ find_loop-same tree.nodes with_hook.nodes
          (hooked-field (λ n. n.name) d index pointer tree.nodes refl)
          (hooked-field (λ n. n.type) d index pointer tree.nodes refl)
          (hooked-field (λ n. n.children) d index pointer tree.nodes refl) (names other) tree.root
      ∙ sym (find_node-names tree other)

  with_hook-here : (with_hook.nodes d).hook index ≡ pointer
  with_hook-here = rw ((==_iff d d).1 refl, (==_iff index index).1 refl) refl

  with_hook-other :
      (j n : ℕ) → (j ≢ index) ⊎ (n ≢ d) → (with_hook.nodes n).hook j ≡ (tree.nodes n).hook j
  with_hook-other j n apart = elim (Bool-cases (n == d)) [
    | inr other ↦ rw other refl
    | inl same ↦
        let at : n ≡ d = (==_iff n d).0 same in
        let far : (j == index) ≡ false = elim apart [
          | inl ne ↦ ground (arith, ne)
          | inr ne ↦ absurd (ne at)
        ] in
        rw (same, far) (ap (λ r. (tree.nodes r).hook j) (sym at))
  ]

  -- `fs_reghook` of a path other than "/" that `find_node` finds a node for, with a pointer that is
  -- not NULL: from then on the call for that hook of a file of the node is the pointer's function.
  -- If it is the hook of opening, so is `fs_open` of every path that leads to the node. All other
  -- hooks are as before, and `find_node` gives for every path what it gave.
  pub fs_reghook_lem :
      {R : Type 0} (hook : (p node context : ℕ) → Request → R)
      → pointer ≢ 0
      → (fs_reghook path index pointer tree ≡ changed with_hook)
        × ((context : ℕ) (request : Request)
            → fs_call hook index with_hook (record { node = d; context = context }) request
              ≡ answered (hook pointer d context request))
        × ((other : Text) (oflag : ℕ)
            → index ≡ 0
            → find_node tree other ≡ some d
            → fs_open hook with_hook other oflag
              ≡ answered (hook pointer d 0 (open_file other oflag)))
        × ((j n : ℕ) → (j ≢ index) ⊎ (n ≢ d) → (with_hook.nodes n).hook j ≡ (tree.nodes n).hook j)
        × ((other : Text) → find_node with_hook other ≡ find_node tree other)
  fs_reghook_lem {R} hook given =
      let real : (pointer == 0) ≡ false = ground (arith, given) in
      (
        fs_reghook-changed,
        λ context request.
            ap (λ p. call_hook hook p (record { node = d; context = context }) request)
              with_hook-here
            ∙ rw real refl,
        λ other oflag first leads.
            fs_open-found hook with_hook other oflag d pointer (find_node-with_hook other ∙ leads)
              (ap (with_hook.nodes d).hook (sym first) ∙ with_hook-here) given,
        with_hook-other,
        find_node-with_hook,
      )
