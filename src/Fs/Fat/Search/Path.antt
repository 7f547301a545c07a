-- ===== src/Fs/Fat/Search/Path.antt =====
-- fs/fat.c: a file is found by its path, from the disk on.
use raincloud.Prelude.{
  le→ltb, ==_iff, ℕ, ◌+◌, ◌-◌, ◌*◌, ◌/◌, ◌<◌, ◌≤◌, ◌^◌, ◌≡◌, refl, ap, ◌∙◌, true, false, Option,
  some, List, [], ◌∷◌, ◌++◌, ltb, ◌==◌, length, arith, mul32,
}
use raincloud.Fs.Tree.{Text, slash}
use raincloud.Fs.Tree.Tokens.{NoSlash, names, names-slash, tokens-names}
use raincloud.Fs.Tree.Nodes.{split_last-path}
use raincloud.Fs.Fat.{FatFs}
use raincloud.Fs.Fat.Chain.{
  IsChain, bytes_of, compute_cluster_chain_length_lem, read_cluster_chain-drop,
}
use raincloud.Fs.Fat.Directory.{ok, first_cluster_at, find_entry, FatFile, FatDir, search_files}
use raincloud.Fs.Fat.Directory.Listing.{
  Item, HoldsItems, files_of, first_named, search_items, find_entry_lem, position_of, moved,
}
use raincloud.Fs.Fat.Search.{
  fill, clusters_byte, chain_size, load_chain, dir_at, open_cluster, open_names, fatfs_opendir,
  search_path, fatfs_searchfile, open_file, fatfs_readfile, computer_needed_buf_size,
}

module _ (disk : ℕ → ℕ → ℕ) (fs : FatFs) where
  bytes_of-mul : (cs : List ℕ) → bytes_of disk fs cs ≡ length cs * fs.sec_per_clus * 512
  bytes_of-mul [] = omega arith
  bytes_of-mul (c ∷ cs) = grind (arith, bytes_of-mul cs)

  length-le-bytes_of : (cs : List ℕ) → 0 < fs.sec_per_clus → length cs ≤ bytes_of disk fs cs
  length-le-bytes_of [] pos = omega arith
  length-le-bytes_of (c ∷ cs) pos = omega (arith, length-le-bytes_of cs pos)

  -- The chain of a directory: its clusters, `c` first, which are counted and fit 32 bits.
  pub record DirChain (fuel : ℕ) (c : ℕ) (ds : List ℕ) : Type 0 where
    pub chain : IsChain disk fs c ds
    pub enough : length ds < fuel
    pub sectors : fs.byts_per_sec ≡ 512
    pub not_empty : 0 < fs.sec_per_clus
    pub small : bytes_of disk fs (c ∷ ds) < 2 ^ 32

  module _ (fuel : ℕ) (place : ℕ → Option ℕ) (raw : List ℕ) where
    chain_size-DirChain :
        (c : ℕ) (ds : List ℕ)
        → DirChain fuel c ds
        → chain_size disk fuel place raw fs c ≡ ok (bytes_of disk fs (c ∷ ds))
    chain_size-DirChain c ds d =
        let count : length (c ∷ ds) < 2 ^ 32 =
          omega (arith, length-le-bytes_of (c ∷ ds) d.not_empty, d.small) in
        let counted =
          compute_cluster_chain_length_lem disk fs fuel c ds d.chain d.enough (omega arith) in
        let whole = bytes_of-mul (c ∷ ds) in
        let bytes : mul32 (mul32 (length (c ∷ ds)) fs.sec_per_clus) 512
            ≡ bytes_of disk fs (c ∷ ds) =
          omega (arith, whole, d.small) in
        rw (counted, d.sectors) (ap ok bytes)

    load_chain-DirChain :
        (mem : ℕ → ℕ) (buf bufsize c : ℕ) (ds : List ℕ)
        → DirChain fuel c ds
        → bytes_of disk fs (c ∷ ds) ≤ bufsize
        → bufsize < 2 ^ 32
        → load_chain disk fuel place raw fs mem buf bufsize c
          ≡ ok (
              fill mem buf
                (bytes_of disk fs (c ∷ ds))
                (clusters_byte disk fuel place raw fs (c ∷ ds)))
    load_chain-DirChain mem buf bufsize c ds d room word =
        rw (read_cluster_chain-drop disk fs 0 fuel bufsize c ds d.chain d.enough room word) refl

    -- The directory in memory, once its clusters are read.
    abbrev pub loaded : (mem : ℕ → ℕ) → (buf c : ℕ) → List ℕ → FatDir
    loaded mem buf c ds =
        let size = bytes_of disk fs (c ∷ ds) in
        dir_at disk fuel place raw
          (fill mem buf size (clusters_byte disk fuel place raw fs (c ∷ ds))) buf size

    -- The directory has an entry of the name, with this first cluster.
    pub data Below (dir : FatDir) (dir_name : Text) (c : ℕ) : Type 0 where
      below :
          (items : List Item) (pos : ℕ)
          → HoldsItems dir 0 items
          → (0 < dir.size) × (dir.size < 2 ^ 32)
          → position_of dir dir_name 0 items ≡ ok pos
          → first_cluster_at dir.mem (dir.buf + (pos - 32)) ≡ c
          → Below dir dir_name c

    -- The names lead from a directory, in a buffer of `n` bytes, down to another: each is an entry
    -- of the one before, and is read over it if there is room, and to a new buffer otherwise.
    pub data Leads (to : FatDir) : (dir : FatDir) → (n : ℕ) → List Text → Type 0 where
      here : (n : ℕ) → Leads to to n []
      reuse :
          (dir : FatDir) (n c : ℕ) (dir_name : Text) (names : List Text) (ds : List ℕ)
          → Below dir dir_name c
          → DirChain fuel c ds
          → bytes_of disk fs (c ∷ ds) ≤ n
          → Leads to (loaded dir.mem dir.buf c ds) n names
          → Leads to dir n (dir_name ∷ names)
      grow :
          (dir : FatDir) (n c buf : ℕ) (dir_name : Text) (names : List Text) (ds : List ℕ)
          → Below dir dir_name c
          → DirChain fuel c ds
          → n < bytes_of disk fs (c ∷ ds)
          → place (bytes_of disk fs (c ∷ ds)) ≡ some buf
          → Leads to (loaded dir.mem buf c ds) (bytes_of disk fs (c ∷ ds)) names
          → Leads to dir n (dir_name ∷ names)

    find_entry-Below :
        (dir : FatDir) (dir_name : Text) {c : ℕ}
        → Below dir dir_name c
        → (pos : ℕ) × (find_entry raw (dir.size / 32 + 1) dir dir_name 0 ≡ ok pos)
          × (first_cluster_at dir.mem (dir.buf + (pos - 32)) ≡ c)
    find_entry-Below dir dir_name (below items pos holds sizes at first) = (
      pos,
      find_entry_lem raw dir sizes.1 (dir.size / 32 + 1) 0 items dir_name holds sizes.0
            (omega arith)
          ∙ at,
      first,
    )

    open_names-Leads :
        (to dir : FatDir) (n : ℕ) (path : List Text)
        → n < 2 ^ 32
        → Leads to dir n path
        → open_names disk fuel place raw fs path dir n ≡ ok to
    unfolding open_names open_cluster
    open_names-Leads to _ n _ word (here _) = refl
    open_names-Leads to _ n _ word (reuse dir _ c dir_name rest ds found d room later) =
        let (pos, at, first) = find_entry-Below dir dir_name found in
        let fits : ltb n (bytes_of disk fs (c ∷ ds)) ≡ false = ground arith in
        let load = load_chain-DirChain dir.mem dir.buf n c ds d room word in
        rw (at, first, chain_size-DirChain c ds d, fits, load)
          (open_names-Leads to (loaded dir.mem dir.buf c ds) n rest word later)
    open_names-Leads to _ n _ word (grow dir _ c buf dir_name rest ds found d full given later) =
        let (pos, at, first) = find_entry-Below dir dir_name found in
        let more : ltb n (bytes_of disk fs (c ∷ ds)) ≡ true = ground arith in
        let load =
          load_chain-DirChain dir.mem buf (bytes_of disk fs (c ∷ ds)) c ds d (omega arith)
            d.small in
        rw (at, first, chain_size-DirChain c ds d, more, given, load)
          (open_names-Leads to (loaded dir.mem buf c ds) (bytes_of disk fs (c ∷ ds)) rest d.small
            later)

    -- Every directory on the way begins at its first entry and fits 32 bits.
    Leads-fresh :
        (to dir : FatDir) (n : ℕ) (path : List Text)
        → dir.size < 2 ^ 32
        → dir.offset ≡ 0
        → Leads to dir n path
        → (to.size < 2 ^ 32) × (to.offset ≡ 0)
    Leads-fresh to _ n _ small start (here _) = (small, start)
    Leads-fresh to _ n _ small start (reuse dir _ c dir_name rest ds found d room later) =
        Leads-fresh to (loaded dir.mem dir.buf c ds) n rest d.small refl later
    Leads-fresh to _ n _ small start (grow dir _ c buf dir_name rest ds found d full given later) =
        Leads-fresh to (loaded dir.mem buf c ds) (bytes_of disk fs (c ∷ ds)) rest d.small refl later

    module _ (mem : ℕ → ℕ) (buf : ℕ) (ds : List ℕ) (dir_path : Text) (dir : FatDir) where
      fatfs_opendir-Leads :
          DirChain fuel fs.root_clus ds
          → place (bytes_of disk fs (fs.root_clus ∷ ds)) ≡ some buf
          → Leads dir
              (loaded mem buf fs.root_clus ds)
              (bytes_of disk fs (fs.root_clus ∷ ds))
              (names dir_path)
          → fatfs_opendir disk fuel place raw fs mem (dir_path ++ slash ∷ []) ≡ ok dir
      unfolding fatfs_opendir
      fatfs_opendir-Leads d given leads =
          let path = dir_path ++ slash ∷ [] in
          let size = bytes_of disk fs (fs.root_clus ∷ ds) in
          let load = load_chain-DirChain mem buf size fs.root_clus ds d (omega arith) d.small in
          rw (chain_size-DirChain fs.root_clus ds d, given, load)
            (ap (λ ts. open_names disk fuel place raw fs ts (loaded mem buf fs.root_clus ds) size)
                (tokens-names (length path + 1) path (omega arith) ∙ names-slash dir_path)
              ∙ open_names-Leads dir (loaded mem buf fs.root_clus ds) size (names dir_path) d.small
                  leads)

      -- Searching a file by its path, from the disk on: where the names before the last one lead
      -- from the root directory down to a directory, the first of its files that has the last name
      -- is given, with the fields of its entry, and -1 where none has it.
      pub fatfs_searchfile_lem :
          (items : List Item) (name : Text)
          → DirChain fuel fs.root_clus ds
          → place (bytes_of disk fs (fs.root_clus ∷ ds)) ≡ some buf
          → Leads dir
              (loaded mem buf fs.root_clus ds)
              (bytes_of disk fs (fs.root_clus ∷ ds))
              (names dir_path)
          → HoldsItems dir 0 items
          → NoSlash name
          → fatfs_searchfile disk fuel place raw fs mem (dir_path ++ slash ∷ name)
            ≡ first_named name (files_of dir 0 items)
      unfolding fatfs_searchfile
      fatfs_searchfile_lem items name d given leads holds clean =
          let (small, start) =
            Leads-fresh dir (loaded mem buf fs.root_clus ds) _ (names dir_path) d.small refl
              leads in
          ap (search_path disk fuel place raw fs mem) (split_last-path dir_path name clean)
          ∙ rw (fatfs_opendir-Leads d given leads) (
              ap (λ k. search_files raw (dir.size / 32 + 1) (moved dir k) name) start
              ∙ search_items raw dir small (dir.size / 32 + 1) 0 items name holds (omega arith)
                  (omega arith))

    -- Opening a file that the search finds, with a chain that ends and holds its size: all clusters
    -- of the chain are read, in order, to a buffer of their size.
    pub open_file_lem :
        (mem : ℕ → ℕ) (path : Text) (file : FatFile) (ds : List ℕ)
        → fatfs_searchfile disk fuel place raw fs mem path ≡ ok file
        → DirChain fuel file.first_cluster ds
        → file.file_size ≤ bytes_of disk fs (file.first_cluster ∷ ds)
        → open_file disk fuel place raw fs mem path
          ≡ ok (file, file.first_cluster ∷ ds, bytes_of disk fs (file.first_cluster ∷ ds))
    unfolding open_file fatfs_readfile computer_needed_buf_size
    open_file_lem mem path file ds found d fits =
        let c = file.first_cluster in
        let size = bytes_of disk fs (c ∷ ds) in
        let room : ltb size file.file_size ≡ false = le→ltb size file.file_size fits in
        let read =
          read_cluster_chain-drop disk fs 0 fuel size c ds d.chain d.enough (omega arith) d.small in
        let same : (size == size) ≡ true = (==_iff size size).1 refl in
        rw (found, chain_size-DirChain c ds d, room, read, same) refl
