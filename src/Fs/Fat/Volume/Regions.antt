-- ===== src/Fs/Fat/Volume/Regions.antt =====
-- fs/fat.c: where the clusters of a volume lie.
use raincloud.Prelude.{
  ℕ, ◌+◌, ◌-◌, ◌*◌, ◌/◌, ◌^◌, ◌≤◌, ◌<◌, ◌≡◌, ◌==◌, if◌then◌else◌, add32, sub32, mul32, arith,
}
use native.Mathlib.Nat.{div-mul-le_self, div-le_self}
use raincloud.Fs.Fat.{FatFs}
use raincloud.Fs.Fat.Volume.{Bpb, bpb_of, ready, fat_type, init_from, fatfs_init, cluster_start}

-- The regions as the boot sector gives them, without wrapping: the sectors of a table, of the root
-- directory of the small types, of all before the data, and of the volume.
abbrev pub table_secs : Bpb → ℕ
table_secs b = if b.fat_sz16 == 0 then b.fat_sz32 else b.fat_sz16

abbrev pub root_secs : Bpb → ℕ
root_secs b = (b.root_ent_cnt * 32 + 511) / 512

abbrev pub data_begin : Bpb → ℕ
data_begin b = b.rsvd_sec_cnt + (b.num_fats * table_secs b + root_secs b)

abbrev pub volume_secs : Bpb → ℕ
volume_secs b = if b.tot_sec16 == 0 then b.tot_sec32 else b.tot_sec16

-- What `init_from` gives for a boot sector whose regions fit into its volume.
init_from-ready :
    (b : Bpb) {fs : FatFs}
    → data_begin b ≤ volume_secs b
    → volume_secs b < 2 ^ 32
    → init_from b ≡ ready fs
    → (fs.lba_start ≡ 2048)
      × (fs.first_fat_sec ≡ b.rsvd_sec_cnt)
      × (fs.first_data_sec ≡ data_begin b)
      × (fs.data_secs ≡ volume_secs b - data_begin b)
      × (fs.count_of_clus ≡ (volume_secs b - data_begin b) / fs.sec_per_clus)
      × (fs.type ≡ fat_type fs.count_of_clus)
      × (0 < fs.sec_per_clus)
unfolding init_from
init_from-ready b {fs} inside small made = ground arith

-- A cluster's sectors, counted from the first of the data.
in_data : (r k spc n : ℕ) → k < spc → r < n / spc → r * spc + k < n
in_data r k spc n below inside = grind (arith, div-mul-le_self n spc)

module _ (disk : ℕ → ℕ → ℕ) {fs : FatFs}
    (fits : data_begin (bpb_of (disk 2048)) ≤ volume_secs (bpb_of (disk 2048)))
    (small : volume_secs (bpb_of (disk 2048)) ≤ 2 ^ 32 - 2048)
    (made : fatfs_init disk ≡ ready fs) where
  -- The file system that `fatfs_init` makes, of a boot sector whose regions fit into its volume
  -- of at most 2^32 - 2048 sectors: the tables follow the reserved sectors, the data follows the tables and the root directory and
  -- takes the rest of the volume, and the number of clusters in it decides the type.
  pub fatfs_init_lem :
      let b = bpb_of (disk 2048) in
      (fs.lba_start ≡ 2048)
      × (fs.first_fat_sec ≡ b.rsvd_sec_cnt)
      × (fs.first_data_sec ≡ data_begin b)
      × (fs.data_secs ≡ volume_secs b - data_begin b)
      × (fs.count_of_clus ≡ (volume_secs b - data_begin b) / fs.sec_per_clus)
      × (fs.type ≡ fat_type fs.count_of_clus)
      × (0 < fs.sec_per_clus)
  unfolding fatfs_init
  fatfs_init_lem = init_from-ready (bpb_of (disk 2048)) fits (omega arith) made

  -- Of a boot sector whose regions fit into its volume, which has at most 2^32 - 2048 sectors:
  -- every sector of every cluster that is counted lies in the data of the volume. Its place is that
  -- of the data and as many clusters as are before it, with nothing wrapped.
  pub cluster_sectors :
      (cluster k : ℕ)
      → 2 ≤ cluster
      → cluster < fs.count_of_clus + 2
      → k < fs.sec_per_clus
      → let b = bpb_of (disk 2048) in
        let sector = add32 (cluster_start fs cluster) k in
        (sector ≡ 2048 + data_begin b + ((cluster - 2) * fs.sec_per_clus + k))
        × (2048 + data_begin b ≤ sector)
        × (sector < 2048 + volume_secs b)
  cluster_sectors cluster k low high below =
      let (lba, fat, start, size, count, type, pos) = fatfs_init_lem in
      let spc = fs.sec_per_clus in
      let n = volume_secs (bpb_of (disk 2048)) - data_begin (bpb_of (disk 2048)) in
      let counted : cluster - 2 < n / spc = omega (arith, count) in
      let room = in_data (cluster - 2) k spc n below counted in
      let few : n / spc ≤ n = div-le_self n spc in
      let first : sub32 cluster 2 ≡ cluster - 2 = omega arith in
      let whole : mul32 (sub32 cluster 2) spc ≡ (cluster - 2) * spc =
        rw first (omega (arith, room)) in
      rw (lba, start, whole) (omega (arith, room))
