-- ===== src/Fs/Fat/Tests.antt =====
-- fs/fat.c: runs on small directories.
use raincloud.Prelude.{
  ℕ, zero, suc, ◌+◌, ◌-◌, ◌≡◌, refl, List, [], ◌∷◌, ◌++◌, get_or, replicate, ltb, if◌then◌else◌,
  arith,
}
use raincloud.Prelude.{◌*◌, ◌≤◌, ◌<◌, ◌==◌, ◌&&◌, leb, Option, some, inr, add32}
use raincloud.Fs.Tree.{slash, same_text}
use raincloud.Fs.Tree.Tokens.{names, split}
use raincloud.Fs.Fat.{entry, FatFs, fat16, extract_fat_entry}
use raincloud.Fs.Fat.Volume.{ready, fatfs_init, bpb_of, cluster_start, read_cluster}
use raincloud.Fs.Fat.Volume.Regions.{data_begin, volume_secs, cluster_sectors}
use raincloud.Fs.Fat.Names.Both.{long, short, read_name_lem, Spells}
use raincloud.Fs.Fat.Directory.{ok, FatFile, FatDir, find_entry}
use raincloud.Fs.Fat.Directory.Listing.{Item, HoldsItems, position_of, find_entry_lem, item_file}
use raincloud.Fs.Fat.Search.{fatfs_searchfile}
use raincloud.Fs.Fat.Search.Path.{DirChain, loaded, below, Leads, here, reuse, fatfs_searchfile_lem}
use raincloud.Fs.FatFile.Open.{fat_open, fat_open_lem}
use raincloud.Fs.Fat.Names.{read_name, name_read, failed, overrun}

abbrev spaces : ℕ → List ℕ
spaces n = replicate n 32

abbrev zeros : ℕ → List ℕ
zeros n = replicate n 0

-- INIT.BIN and A as short names; then a long name of 14 units before a short one.
abbrev init_entry : List ℕ
init_entry = 73 ∷ 78 ∷ 73 ∷ 84 ∷ spaces 4 ++ (66 ∷ 73 ∷ 78 ∷ 32 ∷ zeros 20)

abbrev a_entry : List ℕ
a_entry = 65 ∷ spaces 7 ++ (spaces 3 ++ (32 ∷ zeros 20))

abbrev wide : ℕ → List ℕ → List ℕ
wide zero rest = rest
wide (suc n) rest = 98 ∷ 0 ∷ wide n rest

abbrev ff : ℕ → List ℕ
ff n = replicate n 255

abbrev long_entries : List ℕ
long_entries =
    (0x42 ∷ 99 ∷ 0 ∷ 0 ∷ 0 ∷ ff 6 ++ (0x0f ∷ 0 ∷ 0 ∷ ff 12 ++ (0 ∷ 0 ∷ ff 4)))
    ++ ((1 ∷ wide 5 (0x0f ∷ 0 ∷ 0 ∷ wide 6 (0 ∷ 0 ∷ wide 2 []))) ++ a_entry)

-- A long name of 13 units, with no NUL behind it.
abbrev thirteen : List ℕ
thirteen = (0x41 ∷ wide 5 (0x0f ∷ 0 ∷ 0 ∷ wide 6 (0 ∷ 0 ∷ wide 2 []))) ++ a_entry

abbrev at_64 : List ℕ → ℕ → ℕ
at_64 bytes a = if ltb a 64 then 0 else get_or bytes (a - 64) 0

abbrev raw : List ℕ
raw = replicate 256 0

short_run :
    read_name (at_64 init_entry) raw 64 1 ≡ name_read 0 (73 ∷ 78 ∷ 73 ∷ 84 ∷ 46 ∷ 66 ∷ 73 ∷ 78 ∷ [])
unfolding read_name
short_run = refl

one_run : read_name (at_64 a_entry) raw 64 1 ≡ name_read 0 (65 ∷ [])
unfolding read_name
one_run = refl

long_run : read_name (at_64 long_entries) raw 64 3 ≡ name_read 2 (replicate 13 98 ++ 99 ∷ [])
unfolding read_name
long_run = refl

thirteen_run : read_name (at_64 thirteen) (replicate 16 100) 64 2 ≡ overrun
unfolding read_name
thirteen_run = refl

empty_run : read_name (at_64 []) raw 64 3 ≡ failed
unfolding read_name
empty_run = refl

-- Both names of the long run are read.
read_name_lem_example :
    (name : List ℕ) × (read_name (at_64 long_entries) raw 64 3 ≡ name_read 2 name)
    × Spells (long (replicate 13 98 ++ 99 ∷ [])) name
read_name_lem_example =
    read_name_lem (at_64 long_entries) raw 64 3 2 (long (replicate 13 98 ++ 99 ∷ []))
      (
        (refl, refl, refl, omega arith, (refl, refl, refl, omega arith, omega arith)),
        omega arith,
        omega arith,
        refl,
      )
      (omega arith)

-- A volume: a boot sector, a table with three chains of one cluster each, the root directory with
-- an entry D, the directory D with an entry A, and the cluster of A.
abbrev boot : List ℕ
boot =
    zeros 11
    ++ ((0 ∷ 2 ∷ 1 ∷ 1 ∷ 0 ∷ 1 ∷ 0 ∷ 0 ∷ 0x88 ∷ 0x13 ∷ 0 ∷ 20 ∷ 0 ∷ [])
        ++ (zeros 20 ++ (2 ∷ 0 ∷ 0 ∷ 0 ∷ [])))

abbrev short_entry : (letter cluster size : ℕ) → List ℕ
short_entry letter cluster size =
    (letter ∷ spaces 7) ++ (spaces 3 ++ (32 ∷ zeros 14 ++ (cluster ∷ 0 ∷ size ∷ 0 ∷ 0 ∷ 0 ∷ [])))

abbrev volume : ℕ → ℕ → ℕ
volume sector off =
    if sector == 2048
    then get_or boot off 0
    else if sector == 2049
    then (if leb 4 off && leb off 9 then 255 else 0)
    else if sector == 2069
    then get_or (short_entry 68 3 0) off 0
    else if sector == 2070
    then get_or (short_entry 65 4 3) off 0
    else 0

abbrev fs : FatFs
fs = record {
  type = fat16;
  lba_start = 2048;
  root_dir_secs = 0;
  fat_secs = 20;
  data_secs = 4979;
  tot_secs = 5000;
  count_of_clus = 4979;
  first_root_sec = 21;
  first_fat_sec = 1;
  first_data_sec = 21;
  byts_per_sec = 512;
  sec_per_clus = 1;
  root_clus = 2;
}

initialised : fatfs_init volume ≡ ready fs
unfolding fatfs_init
initialised = refl

cluster_sectors_example :
    let sector = add32 (cluster_start fs 4) 0 in
    (sector ≡ 2048 + data_begin (bpb_of (volume 2048)) + ((4 - 2) * 1 + 0))
    × (2048 + data_begin (bpb_of (volume 2048)) ≤ sector)
    × (sector < 2048 + volume_secs (bpb_of (volume 2048)))
unfolding fatfs_init
cluster_sectors_example =
    cluster_sectors volume (omega arith) (omega arith) initialised 4 0 (omega arith) (omega arith)
      (omega arith)

one_cluster : (c : ℕ) → extract_fat_entry volume fs c ≡ entry 0xffff → DirChain volume fs 9 c []
one_cluster c ends = record {
  chain = (0xffff, ends, refl);
  enough = omega arith;
  sectors = refl;
  not_empty = omega arith;
  small = omega arith;
}

chain_2 : DirChain volume fs 9 2 []
unfolding extract_fat_entry
chain_2 = one_cluster 2 refl

chain_3 : DirChain volume fs 9 3 []
unfolding extract_fat_entry
chain_3 = one_cluster 3 refl

chain_4 : DirChain volume fs 9 4 []
unfolding extract_fat_entry
chain_4 = one_cluster 4 refl

abbrev mem : ℕ → ℕ
mem a = 0

abbrev place : ℕ → Option ℕ
place size = some 4096

abbrev root : FatDir
root = loaded volume fs 9 place raw mem 4096 2 []

abbrev dir : FatDir
dir = loaded volume fs 9 place raw root.mem 4096 3 []

abbrev item : ℕ → Item
item letter = record { before = 0; stored = short (letter ∷ []) []; name = letter ∷ [] }

abbrev file : FatFile
file = item_file dir 0 (item 65)

root_holds : HoldsItems root 0 (item 68 ∷ [])
unfolding read_cluster
root_holds = (
  (
    refl,
    (
      refl,
      refl,
      (omega arith, omega arith, tt),
      tt,
      omega arith,
      omega arith,
      omega arith,
      inr refl,
    ),
    refl,
  ),
  refl,
  omega arith,
  omega arith,
  inr refl,
)

dir_holds : HoldsItems dir 0 (item 65 ∷ [])
unfolding read_cluster
dir_holds = (
  (
    refl,
    (
      refl,
      refl,
      (omega arith, omega arith, tt),
      tt,
      omega arith,
      omega arith,
      omega arith,
      inr refl,
    ),
    refl,
  ),
  refl,
  omega arith,
  omega arith,
  inr refl,
)

find_entry_lem_example :
    find_entry raw 17 root (68 ∷ []) 0 ≡ position_of root (68 ∷ []) 0 (item 68 ∷ [])
find_entry_lem_example =
    find_entry_lem raw root (omega arith) 17 0 (item 68 ∷ []) (68 ∷ []) root_holds (omega arith)
      (omega arith)

way : Leads volume fs 9 place raw dir root 512 (names (slash ∷ 68 ∷ []))
unfolding read_cluster same_text split
way =
    reuse root 512 3 (68 ∷ []) [] []
      (below (item 68 ∷ []) 32 root_holds (omega arith, omega arith) refl refl) chain_3
      (omega arith) (here 512)

fatfs_searchfile_lem_example :
    fatfs_searchfile volume 9 place raw fs mem (slash ∷ 68 ∷ slash ∷ 65 ∷ []) ≡ ok file
unfolding same_text
fatfs_searchfile_lem_example =
    fatfs_searchfile_lem volume fs 9 place raw mem 4096 [] (slash ∷ 68 ∷ []) dir (item 65 ∷ [])
      (65 ∷ []) chain_2 refl way dir_holds (refl, tt)

-- The volume is mounted at "/m".
fat_open_lem_example :
    fat_open volume 9 place raw mem (109 ∷ []) (slash ∷ 109 ∷ slash ∷ 68 ∷ slash ∷ 65 ∷ [])
    ≡ ok (file, 4 ∷ [], 512)
unfolding read_cluster
fat_open_lem_example =
    fat_open_lem volume 9 place raw mem (109 ∷ []) (68 ∷ slash ∷ 65 ∷ []) fs file [] initialised
      (λ e. cc) (refl, tt) fatfs_searchfile_lem_example chain_4 (omega arith)
