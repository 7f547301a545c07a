-- ===== src/Fs/Fat/Search.antt =====
-- fs/fat.c: `fatfs_opendir`, `fatfs_searchfile` and `fatfs_readfile`, from the disk on.
pub mod Path
use raincloud.Prelude.{
  ℕ, zero, suc, ◌+◌, ◌-◌, ◌*◌, ◌/◌, ◌%◌, ◌^◌, Bool, ◌&&◌, Option, none, some, List, [], ◌∷◌, ltb,
  leb, ◌==◌, if◌then◌else◌, length, get_or, mul32,
}
use raincloud.Fs.Tree.{Text, tokens, split_last}
use raincloud.Fs.Fat.{FatFs, cluster_size, compute_cluster_chain_length, read_cluster_chain}
use raincloud.Fs.Fat.Volume.{read_cluster}
use raincloud.Fs.Fat.Directory.{
  Outcome, ok, refused, assert_failed, null_used, trapped, overran, unreadable, ◌>>=◌, readable,
  allocated, FatFile, FatDir, first_cluster_at, find_entry, search_files,
}

-- Memory with `size` bytes written from `at` on.
abbrev pub fill : (ℕ → ℕ) → (at size : ℕ) → (ℕ → ℕ) → ℕ → ℕ
fill mem at size bytes a = if leb at a && ltb a (at + size) then bytes (a - at) else mem a

-- The memory and what `malloc` gives for a size: an address, or NULL. `fuel` bounds the rounds
-- over a chain of clusters.
module _ (disk : ℕ → ℕ → ℕ) (fuel : ℕ) (place : ℕ → Option ℕ) (raw : List ℕ) where
  -- Byte `i` of clusters read one behind the other.
  abbrev pub clusters_byte : FatFs → List ℕ → ℕ → ℕ
  clusters_byte fs clusters i =
      read_cluster disk fs (get_or clusters (i / cluster_size fs) 0) (i % cluster_size fs)

  -- The bytes that the clusters of a chain have.
  abbrev pub chain_size : FatFs → ℕ → Outcome ℕ
  chain_size fs cluster = readable (compute_cluster_chain_length disk fuel fs 0 cluster) >>= λ n.
      ok (mul32 (mul32 n fs.sec_per_clus) fs.byts_per_sec)

  -- A chain read to `buf`, which has room for `bufsize` bytes.
  abbrev pub load_chain : FatFs → (mem : ℕ → ℕ) → (buf bufsize cluster : ℕ) → Outcome (ℕ → ℕ)
  load_chain fs mem buf bufsize cluster =
      readable (read_cluster_chain disk fuel fs bufsize 0 cluster 0) >>= λ (clusters, read_size).
      ok (fill mem buf read_size (clusters_byte fs clusters))

  abbrev pub dir_at : (mem : ℕ → ℕ) → (buf size : ℕ) → FatDir
  dir_at mem buf size = record { mem = mem; buf = buf; size = size; offset = 0 }

  -- The directory whose first cluster this is, in the buffer at hand if that is large enough.
  pub open_cluster : FatFs → FatDir → (buf_size cluster : ℕ) → Outcome (FatDir × ℕ)
  open_cluster fs dir buf_size cluster = chain_size fs cluster >>= λ size.
      if ltb buf_size size
      then (allocated (place size) >>= λ buf.
          load_chain fs dir.mem buf size cluster >>= λ mem. ok (dir_at mem buf size, size))
      else (load_chain fs dir.mem dir.buf buf_size cluster >>= λ mem.
          ok (dir_at mem dir.buf size, buf_size))

  -- The loop over the names of the path.
  pub open_names : FatFs → List Text → FatDir → (buf_size : ℕ) → Outcome FatDir
  unfolding open_cluster find_entry
  open_names fs [] dir buf_size = ok dir
  open_names fs (dir_name ∷ names) dir buf_size =
      find_entry raw (dir.size / 32 + 1) dir dir_name 0 >>= λ pos.
      open_cluster fs dir buf_size (first_cluster_at dir.mem (dir.buf + (pos - 32))) >>= λ (dir, n).
      open_names fs names dir n

  unfoldable pub fatfs_opendir : FatFs → (mem : ℕ → ℕ) → (path : Text) → Outcome FatDir
  unfolding open_names tokens
  fatfs_opendir fs mem path = chain_size fs fs.root_clus >>= λ size.
      allocated (place size) >>= λ buf. load_chain fs mem buf size fs.root_clus >>= λ mem.
      open_names fs (tokens (length path + 1) path) (dir_at mem buf size) size

  -- `fatfs_closedir` is called with the NULL of a directory that is not found.
  abbrev pub close_null {ℓ} : {A : Type ℓ} → Outcome A → Outcome A
  close_null (ok a) = ok a
  close_null refused = null_used
  close_null assert_failed = assert_failed
  close_null null_used = null_used
  close_null trapped = trapped
  close_null overran = overran
  close_null unreadable = unreadable

  abbrev pub search_path : FatFs → (mem : ℕ → ℕ) → Option (Text × Text) → Outcome FatFile
  search_path fs mem none = null_used
  search_path fs mem (some (dir_path, file_name)) =
      close_null (fatfs_opendir fs mem dir_path) >>= λ dir.
      search_files raw (dir.size / 32 + 1) dir file_name

  unfoldable pub fatfs_searchfile : FatFs → (mem : ℕ → ℕ) → (path : Text) → Outcome FatFile
  unfolding fatfs_opendir split_last search_files
  fatfs_searchfile fs mem path = search_path fs mem (split_last path)

  -- The clusters read to the buffer, and the number of bytes.
  unfoldable pub fatfs_readfile : FatFs → FatFile → (bufsize : ℕ) → Outcome (List ℕ × ℕ)
  fatfs_readfile fs file bufsize =
      if ltb bufsize file.file_size
      then ok ([], 0)
      else readable (read_cluster_chain disk fuel fs bufsize 0 file.first_cluster 0)

  unfoldable pub computer_needed_buf_size : FatFs → FatFile → Outcome ℕ
  computer_needed_buf_size fs file = chain_size fs file.first_cluster

  -- `fat_open` on the path behind the mount point: the file, and its clusters in a buffer of
  -- the size needed; NULL if another number of bytes is read.
  unfoldable pub open_file :
      FatFs → (mem : ℕ → ℕ) → (real_path : Text) → Outcome (FatFile × List ℕ × ℕ)
  unfolding fatfs_searchfile fatfs_readfile computer_needed_buf_size
  open_file fs mem real_path = fatfs_searchfile fs mem real_path >>= λ file.
      computer_needed_buf_size fs file >>= λ bufsize.
      fatfs_readfile fs file bufsize >>= λ (clusters, ret).
      if ret == bufsize then ok (file, clusters, bufsize) else refused
