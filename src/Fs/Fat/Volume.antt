-- ===== src/Fs/Fat/Volume.antt =====
-- fs/fat.c: `fatfs_init`, the regions of a volume from its first sector, and `read_cluster`.
pub mod Regions
use raincloud.Prelude.{
  ℕ, ◌+◌, ◌-◌, ◌*◌, ◌/◌, ◌%◌, ◌^◌, ltb, ◌==◌, if◌then◌else◌, add32, sub32, mul32,
}
use raincloud.Fs.Fat.{FatFs, FatType, fat12, fat16, fat32}

-- The fields of `BPB_Type` that are read.
pub record Bpb : Type 0 where
  pub byts_per_sec : ℕ
  pub sec_per_clus : ℕ
  pub rsvd_sec_cnt : ℕ
  pub num_fats : ℕ
  pub root_ent_cnt : ℕ
  pub tot_sec16 : ℕ
  pub fat_sz16 : ℕ
  pub tot_sec32 : ℕ
  pub fat_sz32 : ℕ
  pub root_clus : ℕ

-- The structure is packed, and little endian.
abbrev pub le16 : (ℕ → ℕ) → ℕ → ℕ
le16 mem at = mem at + mem (at + 1) * 2 ^ 8

abbrev pub le32 : (ℕ → ℕ) → ℕ → ℕ
le32 mem at = le16 mem at + le16 mem (at + 2) * 2 ^ 16

pub bpb_of : (sector : ℕ → ℕ) → Bpb
bpb_of sector = record {
  byts_per_sec = le16 sector 11;
  sec_per_clus = sector 13;
  rsvd_sec_cnt = le16 sector 14;
  num_fats = sector 16;
  root_ent_cnt = le16 sector 17;
  tot_sec16 = le16 sector 19;
  fat_sz16 = le16 sector 22;
  tot_sec32 = le32 sector 32;
  fat_sz32 = le32 sector 36;
  root_clus = le32 sector 44;
}

-- The file system is ready, the `assert` fails, or the division by the size of a cluster traps.
pub data InitResult : Type 0 where
  ready : FatFs → InitResult
  assert_failed : InitResult
  divided_by_zero : InitResult

abbrev pub fat_type : ℕ → FatType
fat_type count = if ltb count 4085 then fat12 else if ltb count 65525 then fat16 else fat32

-- `FirstRootSec` on the branch of each type.
abbrev pub first_root : FatType → (first_data_sec : ℕ) → Bpb → ℕ
first_root fat12 first_data_sec b = b.rsvd_sec_cnt + b.num_fats * b.fat_sz16
first_root fat16 first_data_sec b = b.rsvd_sec_cnt + b.num_fats * b.fat_sz16
first_root fat32 first_data_sec b = add32 first_data_sec (mul32 b.root_clus b.sec_per_clus)

unfoldable pub init_from : Bpb → InitResult
init_from b =
    let root_dir_secs = (b.root_ent_cnt * 32 + (b.byts_per_sec - 1)) / b.byts_per_sec in
    let fat_secs = if b.fat_sz16 == 0 then b.fat_sz32 else b.fat_sz16 in
    let tot_secs = if b.tot_sec16 == 0 then b.tot_sec32 else b.tot_sec16 in
    let before = add32 b.rsvd_sec_cnt (add32 (mul32 b.num_fats fat_secs) root_dir_secs) in
    let data_secs = sub32 tot_secs before in
    let count = data_secs / b.sec_per_clus in
    if b.byts_per_sec == 512
    then if b.sec_per_clus == 0
      then divided_by_zero
      else ready record {
        type = fat_type count;
        lba_start = 2048;
        root_dir_secs = root_dir_secs;
        fat_secs = fat_secs;
        data_secs = data_secs;
        tot_secs = tot_secs;
        count_of_clus = count;
        first_root_sec = first_root (fat_type count) before b;
        first_fat_sec = b.rsvd_sec_cnt;
        first_data_sec = before;
        byts_per_sec = b.byts_per_sec;
        sec_per_clus = b.sec_per_clus;
        root_clus = b.root_clus;
      }
    else assert_failed

unfoldable pub fatfs_init : (disk : ℕ → ℕ → ℕ) → InitResult
unfolding bpb_of init_from
fatfs_init disk = init_from (bpb_of (disk 2048))

-- The sector that `read_cluster` begins with.
abbrev pub cluster_start : FatFs → ℕ → ℕ
cluster_start fs cluster =
    add32 (add32 fs.lba_start fs.first_data_sec) (mul32 (sub32 cluster 2) fs.sec_per_clus)

-- Byte `i` of what `read_cluster` writes to its buffer; sector `i / 512` goes to `i / 512 * 512`.
unfoldable pub read_cluster : (disk : ℕ → ℕ → ℕ) → FatFs → ℕ → ℕ → ℕ
read_cluster disk fs cluster i = disk (add32 (cluster_start fs cluster) (i / 512)) (i % 512)
