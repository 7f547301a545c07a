-- ===== src/Fs/Fat.antt =====
-- fs/fat.c: the entries of the allocation table and the chains of clusters that they make.
pub mod Chain
pub mod Entries
pub mod Volume
pub mod Names
pub mod Directory
pub mod Search
mod Tests
use raincloud.Prelude.{
  ℕ, zero, suc, ◌+◌, ◌-◌, ◌*◌, ◌/◌, ◌%◌, ◌^◌, Bool, Option, none, some, List, [], ◌∷◌, ltb, ◌==◌,
  if◌then◌else◌, add32, sub32, mul32,
}

-- `FAT_TYPE`.
pub data FatType : Type 0 where
  fat12 : FatType
  fat16 : FatType
  fat32 : FatType

-- `FATFS_Type` and the three fields of its `BPB` that are read once it is filled; the numbers are
-- 32-bit words.
pub record FatFs : Type 0 where
  pub type : FatType
  pub lba_start : ℕ
  pub root_dir_secs : ℕ
  pub fat_secs : ℕ
  pub data_secs : ℕ
  pub tot_secs : ℕ
  pub count_of_clus : ℕ
  pub first_root_sec : ℕ
  pub first_fat_sec : ℕ
  pub first_data_sec : ℕ
  pub byts_per_sec : ℕ
  pub sec_per_clus : ℕ
  pub root_clus : ℕ

-- Where the entry of a cluster begins in the table, in bytes.
abbrev pub fat_offset : FatType → ℕ → ℕ
fat_offset fat12 cluster = add32 cluster (cluster / 2)
fat_offset fat16 cluster = mul32 cluster 2
fat_offset fat32 cluster = mul32 cluster 4

-- The sector, and the place in it.
unfoldable pub compute_fat_for_cluster : FatFs → (fat_index cluster : ℕ) → ℕ × ℕ
compute_fat_for_cluster fs fat_index cluster =
    let at = fat_offset fs.type cluster in
    (
      add32 (add32 fs.first_fat_sec (at / fs.byts_per_sec)) (mul32 fat_index fs.fat_secs),
      at % fs.byts_per_sec,
    )

-- What is read: an entry, or the `assert` fails, or the read passes the end of the buffer.
pub data Entry : Type 0 where
  entry : ℕ → Entry
  assert_failed : Entry
  overrun : Entry

abbrev pub end_of_file : FatType → ℕ
end_of_file fat12 = 0xfff
end_of_file fat16 = 0xffff
end_of_file fat32 = 0xfffffff

abbrev pub is_end : FatFs → ℕ → Bool
is_end fs cluster = cluster == end_of_file fs.type

abbrev pub cluster_size : FatFs → ℕ
cluster_size fs = fs.sec_per_clus * 512

abbrev pub also_read : ℕ → Option (List ℕ × ℕ) → Option (List ℕ × ℕ)
also_read cluster none = none
also_read cluster (some (clusters, size)) = some (cluster ∷ clusters, size)

-- `pio_read_sector` gives the 512 bytes of a sector.
module _ (disk : ℕ → ℕ → ℕ) where
  abbrev pub word16 : (sector off : ℕ) → ℕ
  word16 sector off = disk sector off + disk sector (off + 1) * 2 ^ 8

  abbrev pub in_buffer : (last : ℕ) → ℕ → Entry
  in_buffer last v = if ltb last 512 then entry v else overrun

  abbrev pub entry_at : FatType → (cluster sector off : ℕ) → Entry
  entry_at fat12 cluster sector off =
      in_buffer (off + 1)
        (if cluster % 2 == 1 then word16 sector off / 2 ^ 4 else word16 sector off % 2 ^ 12)
  entry_at fat16 cluster sector off = in_buffer (off + 1) (word16 sector off)
  entry_at fat32 cluster sector off =
      in_buffer (off + 3) ((word16 sector off + word16 sector (off + 2) * 2 ^ 16) % 2 ^ 28)

  unfoldable pub extract_fat_entry : FatFs → ℕ → Entry
  unfolding compute_fat_for_cluster
  extract_fat_entry fs cluster =
      let (sec_off, entry_off) = compute_fat_for_cluster fs 0 cluster in
      if ltb entry_off 512
      then entry_at fs.type cluster (add32 sec_off fs.lba_start) entry_off
      else assert_failed

  -- One round for each cluster; `none` where an entry cannot be read, or out of fuel.
  unfoldable pub compute_cluster_chain_length :
      (fuel : ℕ) → FatFs → (chain_length cluster : ℕ) → Option ℕ
  compute_cluster_chain_length zero fs chain_length cluster = none
  compute_cluster_chain_length (suc fuel) fs chain_length cluster =
      elim (extract_fat_entry fs cluster) [
        | entry next ↦
            let rest = compute_cluster_chain_length fuel fs (add32 chain_length 1) next in
            if is_end fs next then some (add32 chain_length 1) else rest
        | assert_failed ↦ none
        | overrun ↦ none
      ]

  -- The clusters that `read_cluster` copies to the buffer, one behind the other, and the number
  -- of bytes that is returned.
  unfoldable pub read_cluster_chain :
      (fuel : ℕ) → FatFs → (bufsize read_size cluster cluster_offset : ℕ) → Option (List ℕ × ℕ)
  read_cluster_chain zero fs bufsize read_size cluster cluster_offset = none
  read_cluster_chain (suc fuel) fs bufsize read_size cluster cluster_offset =
      let reads = cluster_offset == 0 in
      let size = if reads then add32 read_size (cluster_size fs) else read_size in
      let follow : Option (List ℕ × ℕ) = elim (extract_fat_entry fs cluster) [
        | entry next ↦
            let rest = read_cluster_chain fuel fs bufsize size next (cluster_offset - 1) in
            if is_end fs next then some ([], size) else rest
        | assert_failed ↦ none
        | overrun ↦ none
      ] in
      if ltb bufsize (add32 read_size (cluster_size fs))
      then some ([], read_size)
      else if reads
      then also_read cluster follow
      else follow
