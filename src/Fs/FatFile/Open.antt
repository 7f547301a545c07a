-- ===== src/Fs/FatFile/Open.antt =====
-- fs/fs_generic.c: `fat_open`, from the path of a file below the mount point to its clusters.
use raincloud.Prelude.{
  ℕ, zero, suc, ◌+◌, ◌≤◌, ◌<◌, ◌≡◌, ◌≢◌, refl, ap, ◌∙◌, true, Option, none, some, List, [], ◌∷◌,
  ◌++◌, if◌then◌else◌, length, arith,
}
use raincloud.Fs.Tree.{Text, slash, same_text, strtok_r, take_token}
use raincloud.Fs.Tree.Tokens.{NoSlash}
use raincloud.Fs.Fat.{FatFs}
use raincloud.Fs.Fat.Chain.{bytes_of}
use raincloud.Fs.Fat.Volume.{InitResult, ready, divided_by_zero, fatfs_init}
use raincloud.Fs.Fat.Directory.{Outcome, ok, null_used, trapped, FatFile, ◌>>=◌}
use raincloud.Fs.Fat.Search.{fatfs_searchfile, open_file}
use raincloud.Fs.Fat.Search.Path.{DirChain, open_file_lem}

-- The loop over the names of the path: what is left behind the one of the mount point, or, without
-- it, behind the last one.
pub behind_mount : (fuel : ℕ) → (node_name s : Text) → Text
behind_mount zero node_name s = s
behind_mount (suc fuel) node_name s = elim (strtok_r s) [
  | none ↦ s
  | some (t, aim) ↦
      let rest = behind_mount fuel node_name aim in if same_text t node_name then aim else rest
]

-- Where the path has no name at all, `aim_path` is still NULL.
abbrev pub aim_path : (node_name path : Text) → Option (Text × Text) → Outcome Text
aim_path node_name path none = null_used
aim_path node_name path (some token) = ok (behind_mount (length path + 1) node_name path)

abbrev pub initialised : InitResult → Outcome FatFs
initialised (ready fs) = ok fs
initialised InitResult.assert_failed = Outcome.assert_failed
initialised divided_by_zero = trapped

module _ (disk : ℕ → ℕ → ℕ) (fuel : ℕ) (place : ℕ → Option ℕ) (raw : List ℕ) where
  pub fat_open : (mem : ℕ → ℕ) → (node_name path : Text) → Outcome (FatFile × List ℕ × ℕ)
  unfolding fatfs_init behind_mount open_file strtok_r same_text
  fat_open mem node_name path = initialised (fatfs_init disk) >>= λ fs.
      aim_path node_name path (strtok_r path) >>= λ aim.
      open_file disk fuel place raw fs mem (slash ∷ aim)

take_token-NoSlash :
    (name rest : Text) → NoSlash name → take_token (name ++ slash ∷ rest) ≡ (name, rest)
unfolding take_token
take_token-NoSlash [] rest clean = refl
take_token-NoSlash (x ∷ name) rest clean = rw (clean.0, take_token-NoSlash name rest clean.1) refl

same_text_refl : (s : Text) → same_text s s ≡ true
unfolding same_text
same_text_refl [] = refl
same_text_refl (x ∷ s) = ground (arith, same_text_refl s)

strtok_r-path :
    (name rest : Text)
    → name ≢ []
    → NoSlash name
    → strtok_r (slash ∷ (name ++ slash ∷ rest)) ≡ some (name, rest)
unfolding strtok_r
strtok_r-path [] rest given clean = absurd (given refl)
strtok_r-path (x ∷ name) rest given clean =
    rw clean.0 (ap some (take_token-NoSlash (x ∷ name) rest clean))

behind_mount-path :
    (fuel : ℕ) (name rest : Text)
    → 0 < fuel
    → name ≢ []
    → NoSlash name
    → behind_mount fuel name (slash ∷ (name ++ slash ∷ rest)) ≡ rest
unfolding behind_mount
behind_mount-path zero name rest pos given clean = absurd (omega arith)
behind_mount-path (suc fuel) name rest pos given clean =
    rw (behind_mount, strtok_r-path name rest given clean, same_text_refl name) refl

-- Below a mount point in the root directory, the path from its name on is the file's path on the
-- volume; a file that is found there, with a chain that ends and holds its size, is read whole:
-- all its clusters, in order, to a buffer of their size.
pub fat_open_lem :
    (disk : ℕ → ℕ → ℕ) (fuel : ℕ) (place : ℕ → Option ℕ) (raw : List ℕ) (mem : ℕ → ℕ)
    (node_name rest : Text) (fs : FatFs) (file : FatFile) (ds : List ℕ)
    → fatfs_init disk ≡ ready fs
    → node_name ≢ []
    → NoSlash node_name
    → fatfs_searchfile disk fuel place raw fs mem (slash ∷ rest) ≡ ok file
    → DirChain disk fs fuel file.first_cluster ds
    → file.file_size ≤ bytes_of disk fs (file.first_cluster ∷ ds)
    → fat_open disk fuel place raw mem node_name (slash ∷ (node_name ++ slash ∷ rest))
      ≡ ok (file, file.first_cluster ∷ ds, bytes_of disk fs (file.first_cluster ∷ ds))
unfolding fat_open
fat_open_lem disk fuel place raw mem node_name rest fs file ds made given clean found d fits =
    let path = slash ∷ (node_name ++ slash ∷ rest) in
    let aim : aim_path node_name path (strtok_r path) ≡ ok rest =
      ap (aim_path node_name path) (strtok_r-path node_name rest given clean)
      ∙ ap ok (behind_mount-path (length path + 1) node_name rest (omega arith) given clean) in
    rw (made, aim) (open_file_lem disk fs fuel place raw mem (slash ∷ rest) file ds found d fits)
