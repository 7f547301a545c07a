-- ===== src/Fs/Fat/Directory.antt =====
-- fs/fat.c: opening, reading and searching directories, and reading a file.
pub mod Listing
use raincloud.Prelude.{
  ℕ, zero, suc, ◌+◌, ◌-◌, ◌*◌, ◌/◌, ◌%◌, ◌^◌, Bool, ◌&&◌, Option, none, some, List, [], ◌∷◌, ltb,
  leb, ◌==◌, if◌then◌else◌, length, get_or, add32, sub32, mul32,
}
use raincloud.Fs.Tree.{Text, same_text, tokens, split_last}
use raincloud.Fs.Fat.{FatFs, cluster_size, compute_cluster_chain_length, read_cluster_chain}
use raincloud.Fs.Fat.Volume.{le16, le32, read_cluster}
use raincloud.Fs.Fat.Names.{NameRead, name_read, failed, overrun, read_name}

-- How a call ends: it returns, it returns NULL or -1, an assertion fails, NULL is used as an
-- address, a division by zero traps, a buffer for a name is overrun, or the table of allocation cannot be read or has no
-- end within the fuel.
pub data Outcome {ℓ} (A : Type ℓ) : Type ℓ where
  ok : A → Outcome A
  refused : Outcome A
  assert_failed : Outcome A
  null_used : Outcome A
  trapped : Outcome A
  overran : Outcome A
  unreadable : Outcome A

infixl 5 ◌>>=◌
abbrev pub ◌>>=◌ {ℓ κ} : {A : Type ℓ} {B : Type κ} → Outcome A → (A → Outcome B) → Outcome B
ok a >>= f = f a
refused >>= f = refused
assert_failed >>= f = assert_failed
null_used >>= f = null_used
trapped >>= f = trapped
overran >>= f = overran
unreadable >>= f = unreadable

abbrev pub readable {ℓ} : {A : Type ℓ} → Option A → Outcome A
readable none = unreadable
readable (some a) = ok a

abbrev pub allocated : Option ℕ → Outcome ℕ
allocated none = assert_failed
allocated (some at) = ok at

abbrev pub check_name : (capacity : ℕ) → NameRead → Outcome (ℕ × List ℕ)
check_name capacity failed = refused
check_name capacity overrun = overran
check_name capacity (name_read offset name) =
    if ltb (length name) capacity then ok (offset, name) else overran

-- `FATFile_Type`.
pub record FatFile : Type 0 where
  pub name : List ℕ
  pub type : ℕ
  pub first_cluster : ℕ
  pub creation_time : ℕ
  pub creation_date : ℕ
  pub write_time : ℕ
  pub write_date : ℕ
  pub access_date : ℕ
  pub file_size : ℕ

-- `FATDir_Type`: `buf` is the address of the buffer in the memory `mem`; `file_info` is returned
-- by each read, and is not kept here.
pub record FatDir : Type 0 where
  pub mem : ℕ → ℕ
  pub buf : ℕ
  pub size : ℕ
  pub offset : ℕ

-- The fields of the `Dir_Struc_Type` at an address.
abbrev pub first_cluster_at : (ℕ → ℕ) → ℕ → ℕ
first_cluster_at mem at = le16 mem (at + 20) * 2 ^ 16 + le16 mem (at + 26)

abbrev pub file_at : (ℕ → ℕ) → ℕ → List ℕ → FatFile
file_at mem at name = record {
  name = name;
  type = mem (at + 11);
  first_cluster = first_cluster_at mem at;
  creation_time = le16 mem (at + 14) + mem (at + 13) / 10;
  creation_date = le16 mem (at + 16);
  write_time = le16 mem (at + 22);
  write_date = le16 mem (at + 24);
  access_date = le16 mem (at + 18);
  file_size = le32 mem (at + 28);
}

-- An offset moved behind `n` entries and the one that they belong to.
abbrev pub behind : (offset n : ℕ) → ℕ
behind offset n = add32 offset (mul32 (n + 1) 32)

-- `raw` has the units in a fresh buffer of 512 bytes.
module _ (raw : List ℕ) where
  abbrev pub name_at : FatDir → (capacity pos : ℕ) → Outcome (ℕ × List ℕ)
  name_at dir capacity pos =
      check_name capacity (read_name dir.mem raw (dir.buf + pos) (sub32 dir.size pos / 32))

  -- What follows a name that was read; -1 from `read_name` is the end of the directory.
  abbrev pub next_file : FatDir → Outcome (ℕ × List ℕ) → Outcome (Option FatFile × FatDir)
  next_file dir (ok (n, name)) =
      let offset = behind dir.offset n in
      ok (some (file_at dir.mem (dir.buf + (offset - 32)) name), record dir { offset = offset })
  next_file dir refused = ok (none, dir)
  next_file dir assert_failed = assert_failed
  next_file dir null_used = null_used
  next_file dir trapped = trapped
  next_file dir overran = overran
  next_file dir unreadable = unreadable

  unfoldable pub fatfs_readdir : FatDir → Outcome (Option FatFile × FatDir)
  unfolding read_name
  fatfs_readdir dir =
      if leb dir.size dir.offset then ok (none, dir) else next_file dir (name_at dir 256 dir.offset)

  -- The inner loop of `fatfs_opendir`: the position behind the entry that has the name.
  unfoldable pub find_entry : (fuel : ℕ) → FatDir → (dir_name : Text) → (pos : ℕ) → Outcome ℕ
  unfolding read_name same_text
  find_entry zero dir dir_name pos = unreadable
  find_entry (suc fuel) dir dir_name pos = name_at dir 512 pos >>= λ (n, name).
      let next = behind pos n in
      let rest = find_entry fuel dir dir_name next in
      if leb dir.size next then refused else if same_text name dir_name then ok next else rest

  -- The loop of `fatfs_searchfile`.
  unfoldable pub search_files : (fuel : ℕ) → FatDir → (file_name : Text) → Outcome FatFile
  unfolding fatfs_readdir same_text
  search_files zero dir file_name = unreadable
  search_files (suc fuel) dir file_name = fatfs_readdir dir >>= λ (file, dir). elim file [
    | none ↦ refused
    | some f ↦
        let rest = search_files fuel dir file_name in
        if same_text f.name file_name then ok f else rest
  ]
